-- ===== src/Capture/Engine/Broken.antt =====
-- A session whose devices are lost, or whose disk is full, in the terms of the recorder of Machine.
use ambient_recorder.Base.{
  ℕ, ◌≡◌, refl, sym, subst, ap, ◌∙◌, Option, none, some, [], ◌∷◌, Bool-cases, inl, inr,
}
use ambient_recorder.Base.Text.{Text}
use ambient_recorder.Models.{SourceKind}
use ambient_recorder.Metadata.Rows.{SourceStatus, Meta}
use ambient_recorder.Metadata.Store.{Result, ok, err, end_source}
use ambient_recorder.Metadata.Reconcile.Actives.{actives, end_source-actives, append_event-actives}
use ambient_recorder.Capture.Writer.{Device}
use ambient_recorder.Capture.Engine.State.{
  Detail, storage, World, ActiveState, Engine, lane, all_ended,
}
use ambient_recorder.Capture.Engine.End.{
  end_lane, end_all_sources, finalize, lost_event, lose, lose_when, handle_device_lost, full_event,
  full_when, finalise,
}
use ambient_recorder.Capture.Engine.Lanes.{
  Same, Same-then, bind-some, some_inj, end_lane-Same, end_all_sources-Same,
}
use ambient_recorder.Capture.Engine.Machine.{stays, view, session_of}
use ambient_recorder.Capture.Engine.Started.{listed, IsSynced, Follows}
use ambient_recorder.Capture.Engine.Ended.{
  recording, Leaves, unchanged, finalize-after, no_event, IsOver-ends,
}

module _ (device : ℕ → SourceKind → Device) (dumps : Detail → Text) where
  -- What the lanes and the store do to a session that goes on is no move.
  pub goes_on :
      (a b : ActiveState device × World)
      → Same device dumps a b
      → actives a.1.tables ≡ a.0.session.id ∷ []
      → Follows device dumps (recording device dumps a.0 a.1) (recording device dumps b.0 b.1)
  goes_on a b same h =
      let i = ap (λ t. t.id) same.session in
      (
        same.actives ∙ h ∙ ap (λ z. z ∷ []) (sym i),
        stays (
            ap (λ z. record { recording = some z; told = b.1.notices }) i
            ∙ ap (λ z. record { recording = some a.0.session.id; told = z }) same.notices),
      )

  over_after :
      (now : ℕ) (a b : ActiveState device × World)
      → Same device dumps a b
      → actives a.1.tables ≡ a.0.session.id ∷ []
      → Follows device dumps (recording device dumps a.0 a.1) (finalize device dumps now none b).0
  over_after now a b same h =
      IsOver-ends device dumps a.0.session.id (view device dumps (recording device dumps a.0 a.1))
        (finalize device dumps now none b).0 refl
        (finalize-after device dumps now none a.0 a.1 b same h
          (no_event device dumps a.0.session.id))

  with_tables :
      (a b : ActiveState device × World) (m : Meta)
      → Same device dumps a b
      → actives m ≡ actives b.1.tables
      → Same device dumps a (b.0, record b.1 { tables = m })
  with_tables a b m same h = record {
    session = same.session;
    actives = h ∙ same.actives;
    notices = same.notices;
  }

  lost_event-Follows :
      (now : ℕ) (a b : ActiveState device × World) (m : Meta) (r : Result Meta)
      → Same device dumps a b
      → actives m ≡ actives b.1.tables
      → ((m' : Meta) → r ≡ ok m' → actives m' ≡ actives m)
      → actives a.1.tables ≡ a.0.session.id ∷ []
      → Follows device dumps
          (recording device dumps a.0 a.1)
          (lost_event device dumps now b.0 (record b.1 { tables = m }) r).0
  lost_event-Follows now a b m (err x) same e f h =
      goes_on a (b.0, record b.1 { tables = m }) (with_tables a b m same e) h
  lost_event-Follows now a b m (ok m') same e f h =
      let after : ActiveState device × World = (b.0, record b.1 { tables = m' }) in
      let same' = with_tables a b m' same (f m' refl ∙ e) in
      elim (Bool-cases (all_ended device b.0)) [
        | inl g ↦ rw g (over_after now a after same' h)
        | inr g ↦ rw g (goes_on a after same' h)
      ]

  lose-Follows :
      (k : SourceKind) (now : ℕ) (a b : ActiveState device × World)
      → Same device dumps a b
      → actives a.1.tables ≡ a.0.session.id ∷ []
      → Follows device dumps (recording device dumps a.0 a.1) (lose device dumps k now b).0
  lose-Follows k now a b same h =
      let i = b.0.session.id in
      let m = end_source b.1.tables i k SourceStatus.ended_device_lost now in
      lost_event-Follows now a b m _ same
        (end_source-actives b.1.tables i k SourceStatus.ended_device_lost now)
        (λ m' q. append_event-actives m m' _ q) h

  lose_when-Follows :
      (k : SourceKind) (now : ℕ) (active : Option (ActiveState device)) (w : World)
      → actives w.tables ≡ listed (session_of device dumps active)
      → Leaves device dumps
          (record { active = active; world = w })
          (lose_when device dumps k now w active)
  lose_when-Follows k now none w a =
      unchanged device dumps (record { active = none; world = w }) none a
  lose_when-Follows k now (some st) w a = elim (Bool-cases (lane device k st).worker.ended) [
    | inl g ↦ rw g (unchanged device dumps (recording device dumps st w) none a)
    | inr g ↦ rw g (λ e' x h.
        let (s, ended, j) = bind-some (end_lane device dumps k now st w) _ h in
        subst (Follows device dumps (recording device dumps st w)) (ap (λ z. z.0) (some_inj j))
          (lose-Follows k now (st, w) s (end_lane-Same device dumps k now st w s ended) a))
  ]

  pub handle_device_lost-Follows :
      (k : SourceKind) (now : ℕ) (e : Engine device)
      → IsSynced device dumps e
      → Leaves device dumps e (handle_device_lost device dumps k now e)
  unfolding handle_device_lost
  handle_device_lost-Follows k now e a = lose_when-Follows k now e.active e.world a

  full_event-Follows :
      (now : ℕ) (st : ActiveState device) (w : World) (r : Result Meta)
      → ((m : Meta) → r ≡ ok m → actives m ≡ actives w.tables)
      → actives w.tables ≡ st.session.id ∷ []
      → Leaves device dumps (recording device dumps st w) (full_event device dumps now st w r)
  full_event-Follows now st w (err x) f a =
      unchanged device dumps (recording device dumps st w) (some (storage x)) a
  full_event-Follows now st w (ok m) f a = λ e' x h.
      let start : ActiveState device × World = (st, record w { tables = m }) in
      let same0 : Same device dumps (st, w) start = record {
        session = refl;
        actives = f m refl;
        notices = refl;
      } in
      let (s, ended, j) = bind-some (end_all_sources device dumps now start) _ h in
      let same1 = end_all_sources-Same device dumps now start s ended in
      subst (Follows device dumps (recording device dumps st w)) (ap (λ z. z.0) (some_inj j))
        (over_after now (st, w) s (Same-then device dumps (st, w) start s same0 same1) a)

  full_when-Follows :
      (k : SourceKind) (now : ℕ) (active : Option (ActiveState device)) (w : World)
      → actives w.tables ≡ listed (session_of device dumps active)
      → Leaves device dumps
          (record { active = active; world = w })
          (full_when device dumps k now w active)
  full_when-Follows k now none w a =
      unchanged device dumps (record { active = none; world = w }) none a
  full_when-Follows k now (some st) w a =
      full_event-Follows now st w _ (λ m q. append_event-actives w.tables m _ q) a

  pub finalise-Follows :
      (k : SourceKind) (now : ℕ) (e : Engine device)
      → IsSynced device dumps e
      → Leaves device dumps e (finalise device dumps k now e)
  unfolding finalise
  finalise-Follows k now e a = full_when-Follows k now e.active e.world a
