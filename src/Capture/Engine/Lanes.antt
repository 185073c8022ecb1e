-- ===== src/Capture/Engine/Lanes.antt =====
-- What the lanes leave as it is: the session, its activity in the store, what observers were told.
use ambient_recorder.Base.{
  ℕ, ◌≡◌, refl, subst, ◌∙◌, arith, Bool, true, false, Option, none, some, List, [], ◌∷◌, Bool-cases,
  inl, inr,
}
use ambient_recorder.Base.Text.{Text}
use ambient_recorder.Models.{SourceKind, mic, system}
use ambient_recorder.Metadata.Rows.{SourceStatus}
use ambient_recorder.Metadata.Reconcile.Actives.{actives, end_source-actives}
use ambient_recorder.Capture.Writer.{Device, SourceWorker, is_running}
use ambient_recorder.Capture.Engine.State.{
  Lane, Detail, World, close, end_async, ActiveState, lane, set_lane, settle, join, ◌>>=◌,
}
use ambient_recorder.Capture.Engine.Start.{on_frames, note_first_frame, write, take_item}
use ambient_recorder.Capture.Engine.End.{
  complete, end_lane, end_source_of, end_all_sources, work_meanwhile, end_other,
}
use ambient_recorder.Capture.Engine.Actives.{on_item-actives, run-actives}

-- The first fact of a chain of Option results.
pub bind-some {ℓ κ} :
    {A : Type ℓ} {B : Type κ} (m : Option A) (f : A → Option B) {b : B}
    → (m >>= f) ≡ some b
    → (a : A) × (m ≡ some a) × (f a ≡ some b)
bind-some none f h = absurd (ground arith)
bind-some (some a) f h = (a, refl, h)

pub some_inj {ℓ} : {A : Type ℓ} {a b : A} → some a ≡ some b → a ≡ b
some_inj h = cc

module _ (device : ℕ → SourceKind → Device) (dumps : Detail → Text) where
  pub record Same (a b : ActiveState device × World) : Type 0 where
    pub session : b.0.session ≡ a.0.session
    pub actives : actives b.1.tables ≡ actives a.1.tables
    pub notices : b.1.notices ≡ a.1.notices

  pub Same-self : (a : ActiveState device × World) → Same a a
  Same-self a = record { session = refl; actives = refl; notices = refl }

  pub Same-then : (a b c : ActiveState device × World) → Same a b → Same b c → Same a c
  Same-then a b c p q = record {
    session = q.session ∙ p.session;
    actives = q.actives ∙ p.actives;
    notices = q.notices ∙ p.notices;
  }

  settle-Same :
      (k : SourceKind) (st : ActiveState device) (w : World)
      → (queue : List (Option (ℕ × List ℕ)))
      → (worker : SourceWorker (device st.session.id k).Sample)
      → actives worker.tables ≡ actives w.tables
      → Same (st, w) (settle device k st w queue worker)
  settle-Same mic st w queue worker h = record { session = refl; actives = h; notices = refl }
  settle-Same system st w queue worker h = record { session = refl; actives = h; notices = refl }

  join-Same :
      (k : SourceKind) (now : ℕ) (st : ActiveState device) (w : World)
      → Same (st, w) (join device k now st w)
  unfolding join
  join-Same k now st w =
      let l = lane device k st in
      settle-Same k st w [] _ (
        run-actives (device st.session.id k) now (actives w.tables) l.queue
          (record l.worker { tables = w.tables }) refl)

  set_lane-Same :
      (k : SourceKind) (st : ActiveState device) (w w' : World) (l : Lane (device st.session.id k))
      → actives w'.tables ≡ actives w.tables
      → w'.notices ≡ w.notices
      → Same (st, w) (set_lane device k st l, w')
  set_lane-Same mic st w w' l h n = record { session = refl; actives = h; notices = n }
  set_lane-Same system st w w' l h n = record { session = refl; actives = h; notices = n }

  pub end_lane-Same :
      (k : SourceKind) (now : ℕ) (st : ActiveState device) (w : World)
      → (s : ActiveState device × World) → end_lane device dumps k now st w ≡ some s
      → Same (st, w) s
  unfolding end_lane
  end_lane-Same k now st w s h =
      let (l, e, j) = bind-some (end_async (lane device k st)) _ h in
      let st' = set_lane device k st l in
      let w' = close st.session.id k w in
      subst (Same (st, w)) (some_inj j) (
        Same-then (st, w) (st', w') (join device k now st' w') (set_lane-Same k st w w' l refl refl)
          (join-Same k now st' w'))

  complete-Same :
      (ended : Bool) (i : ℕ) (k : SourceKind) (now : ℕ) (a b : ActiveState device × World)
      → Same a b
      → Same a (b.0, complete device dumps ended i k now b.1)
  complete-Same true i k now a b same = same
  complete-Same false i k now a b same = record {
    session = same.session;
    actives = end_source-actives b.1.tables i k SourceStatus.completed now ∙ same.actives;
    notices = same.notices;
  }

  pub end_source_of-Same :
      (k : SourceKind) (now : ℕ) (st : ActiveState device) (w : World)
      → (s : ActiveState device × World) → end_source_of device dumps k now (st, w) ≡ some s
      → Same (st, w) s
  unfolding end_source_of
  end_source_of-Same k now st w s h =
      let (s', e, j) = bind-some (end_lane device dumps k now st w) _ h in
      let same = end_lane-Same k now st w s' e in
      subst (Same (st, w)) (some_inj j)
        (complete-Same (lane device k st).worker.ended st.session.id k now (st, w) s' same)

  on_frames-shut :
      (k : SourceKind) (now : ℕ) (st : ActiveState device) (w : World)
      (l : Lane (device st.session.id k))
      → Same (st, w) (note_first_frame device dumps now (set_lane device k st l) w)
  on_frames-shut k now st w l = elim (Bool-cases (set_lane device k st l).first_frame_logged) [
    | inl e ↦ rw e (set_lane-Same k st w w l refl refl)
    | inr e ↦ rw e (
        let same = set_lane-Same k st w w l refl refl in
        record { session = same.session; actives = same.actives; notices = same.notices })
  ]

  pub on_frames-Same :
      (k : SourceKind) (now : ℕ) (raw : List ℕ) (st : ActiveState device) (w : World)
      → Same (st, w) (on_frames device dumps k now raw st w)
  unfolding on_frames
  on_frames-Same k now raw st w = elim (Bool-cases (lane device k st).worker.ended) [
    | inl e ↦ rw e (Same-self (st, w))
    | inr e ↦ rw e (on_frames-shut k now st w _)
  ]

  take_item-Same :
      (k : SourceKind) (now : ℕ) (st : ActiveState device) (w : World)
      → (queue : List (Option (ℕ × List ℕ)))
      → Same (st, w) (take_item device dumps k now st w queue)
  unfolding take_item
  take_item-Same k now st w [] = Same-self (st, w)
  take_item-Same k now st w (item ∷ items) = settle-Same k st w items _ (
      on_item-actives (device st.session.id k) now (actives w.tables) item
        (record (lane device k st).worker { tables = w.tables }) refl)

  pub write-Same :
      (k : SourceKind) (now : ℕ) (st : ActiveState device) (w : World)
      → Same (st, w) (write device dumps k now st w)
  unfolding write
  write-Same k now st w = elim (Bool-cases (is_running (lane device k st).worker.thread)) [
    | inl e ↦ rw e (take_item-Same k now st w (lane device k st).queue)
    | inr e ↦ rw e (Same-self (st, w))
  ]

  pub work_meanwhile-Same :
      (k : SourceKind) (now : ℕ) (es : List (Option (ℕ × List ℕ))) (s : ActiveState device × World)
      → Same s (work_meanwhile device dumps k now es s)
  unfolding work_meanwhile
  work_meanwhile-Same k now [] s = Same-self s
  work_meanwhile-Same k now (some (at, raw) ∷ es) s =
      let s' = on_frames device dumps k at raw s.0 s.1 in
      Same-then s s' (work_meanwhile device dumps k now es s') (on_frames-Same k at raw s.0 s.1)
        (work_meanwhile-Same k now es s')
  work_meanwhile-Same k now (none ∷ es) s =
      let s' = write device dumps k now s.0 s.1 in
      Same-then s s' (work_meanwhile device dumps k now es s') (write-Same k now s.0 s.1)
        (work_meanwhile-Same k now es s')

  pub end_other-Same :
      (now : ℕ) (s s' : ActiveState device × World)
      → end_other device dumps now s ≡ some s'
      → Same s s'
  end_other-Same now s s' h =
      let es = (device s.0.session.id system).meanwhile in
      let t = work_meanwhile device dumps system now es s in
      Same-then s t s' (work_meanwhile-Same system now es s)
        (end_source_of-Same system now t.0 t.1 s' h)

  pub end_all_sources-Same :
      (now : ℕ) (s s' : ActiveState device × World)
      → end_all_sources device dumps now s ≡ some s'
      → Same s s'
  unfolding end_all_sources
  end_all_sources-Same now s s' h =
      let (s1, e, j) = bind-some (end_source_of device dumps mic now s) _ h in
      Same-then s s1 s' (end_source_of-Same mic now s.0 s.1 s1 e) (end_other-Same now s1 s' j)
