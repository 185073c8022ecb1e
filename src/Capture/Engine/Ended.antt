-- ===== src/Capture/Engine/Ended.antt =====
-- Ending a session, in the terms of the recorder of Machine.
use ambient_recorder.Base.{
  ℕ, ◌≡◌, refl, sym, subst, ap, ◌∙◌, arith, true, ◌==◌, Option, none, some, List, [], ◌∷◌, ◌++◌,
  if◌then◌else◌,
}
use ambient_recorder.Base.Text.{Text}
use ambient_recorder.Models.{SourceKind}
use ambient_recorder.Metadata.Rows.{SessionStatus, SessionEvent, EventType}
use ambient_recorder.Metadata.Store.{finalize_session, exists_session, SessionDetail, get_session}
use ambient_recorder.Metadata.Reconcile.Actives.{actives}
use ambient_recorder.Capture.Writer.{Device}
use ambient_recorder.Capture.Engine.State.{
  Detail, nothing, Notice, session_stopped, session_finalized, EngineError, Answer, World,
  ActiveState, Engine, notify,
}
use ambient_recorder.Capture.Engine.Start.{event}
use ambient_recorder.Capture.Engine.End.{
  end_all_sources, longest, finalize, require_active, stopped_answer, check_active, stop_checked,
  stop_with, stop_session,
}
use ambient_recorder.Capture.Engine.Actives.{
  actives-exists, finalize_session-exists, finalize-none, append_event-added,
}
use ambient_recorder.Capture.Engine.Lanes.{Same, bind-some, some_inj, end_all_sources-Same}
use ambient_recorder.Capture.Engine.Machine.{View, Move, stays, stops, ends, view, session_of}
use ambient_recorder.Capture.Engine.Started.{listed, IsSynced, Follows}

passed : (i j : ℕ) (x : EngineError) → (if j == i then none else some x) ≡ none → j ≡ i
passed i j x h = ground arith

module _ (device : ℕ → SourceKind → Device) (dumps : Detail → Text) where
  abbrev pub recording : ActiveState device → World → Engine device
  recording st w = record { active = some st; world = w }

  -- The engine is idle, and has told of the end of the session.
  abbrev pub IsOver : ℕ → List Notice → Engine device → Type 0
  IsOver i told e =
      (e.active ≡ none)
      × (actives e.world.tables ≡ [])
      × (e.world.notices ≡ told ++ session_finalized i ∷ [])

  pub finalize-IsOver :
      (now : ℕ) (e : Option SessionEvent) (st : ActiveState device) (w : World)
      → actives w.tables ≡ st.session.id ∷ []
      → ((x : SessionEvent) → e ≡ some x → x.session_id ≡ st.session.id)
      → IsOver st.session.id w.notices (finalize device dumps now e (st, w)).0
        × ((finalize device dumps now e (st, w)).1 ≡ none)
  unfolding finalize
  finalize-IsOver now none st w a own = (
    (refl, finalize-none w.tables st.session.id SessionStatus.completed now _ refl a, refl),
    refl,
  )
  finalize-IsOver now (some x) st w a own =
      let i = st.session.id in
      let m = finalize_session w.tables i SessionStatus.completed now (longest device dumps st) in
      let there : exists_session i m ≡ true =
        finalize_session-exists w.tables i i SessionStatus.completed now (longest device dumps st)
        ∙ actives-exists w.tables i a in
      rw (append_event-added m x (ap (λ j. exists_session j m) (own x refl) ∙ there))
        ((refl, finalize-none w.tables i SessionStatus.completed now _ refl a, refl), refl)

  pub IsOver-ends :
      (i : ℕ) (v : View) (e : Engine device)
      → v.recording ≡ some i
      → IsOver i v.told e
      → IsSynced device dumps e × Move v (view device dumps e)
  IsOver-ends i v e r (n, a, t) = (
    rw n a,
    ends i r (
        ap (λ s. record { recording = session_of device dumps s; told = e.world.notices }) n
        ∙ ap (λ z. record { recording = none; told = z }) t),
  )

  -- What a call leaves, where it returns.
  abbrev pub Leaves : {A : Type 0} → Engine device → Option (Engine device × A) → Type 0
  Leaves {A = A} e r = (e' : Engine device) (a : A) → r ≡ some (e', a) → Follows device dumps e e'

  stopped-first :
      (i : ℕ) (told : List Notice) (r : Engine device × Option EngineError)
      → IsOver i (told ++ session_stopped i ∷ []) r.0
      → (stopped_answer device dumps i r).0 ≡ r.0
  stopped-first i told (e, none) h = refl
  stopped-first i told (e, some x) h = refl

  IsOver-stops :
      (i : ℕ) (v : View) (e : Engine device)
      → v.recording ≡ some i
      → IsOver i (v.told ++ session_stopped i ∷ []) e
      → IsSynced device dumps e × Move v (view device dumps e)
  IsOver-stops i v e r (n, a, t) = (
    rw n a,
    stops i r (
        ap (λ s. record { recording = session_of device dumps s; told = e.world.notices }) n
        ∙ ap (λ z. record { recording = none; told = z }) t),
  )

  -- The session is finalised after whatever the lanes have done.
  pub finalize-after :
      (now : ℕ) (e : Option SessionEvent) (st : ActiveState device) (w : World)
      → (s : ActiveState device × World) → Same device dumps (st, w) s
      → actives w.tables ≡ st.session.id ∷ []
      → ((x : SessionEvent) → e ≡ some x → x.session_id ≡ st.session.id)
      → IsOver st.session.id w.notices (finalize device dumps now e s).0
  finalize-after now e st w s same a own =
      let i = ap (λ t. t.id) same.session in
      let r = (finalize device dumps now e s).0 in
      let over =
        finalize-IsOver now e s.0 s.1 (same.actives ∙ a ∙ ap (λ z. z ∷ []) (sym i))
          (λ x q. own x q ∙ sym i) in
      subst (λ z. IsOver z w.notices r) i
        (subst (λ z. IsOver s.0.session.id z r) same.notices over.0)

  own_event :
      (i now : ℕ) (kind : EventType) (detail : Text) (x : SessionEvent)
      → some (event i now kind detail) ≡ some x
      → x.session_id ≡ i
  own_event i now kind detail x q = ap (λ y. y.session_id) (sym (some_inj q))

  pub no_event : (i : ℕ) (x : SessionEvent) → none ≡ some x → x.session_id ≡ i
  no_event i x q = absurd (ground arith)

  stop_with-Follows :
      (now : ℕ) (st : ActiveState device) (w : World)
      → actives w.tables ≡ st.session.id ∷ []
      → Leaves (recording st w) (stop_with device dumps st.session.id now w (some st))
  stop_with-Follows now st w a e' ans h =
      let i = st.session.id in
      let w' = notify (session_stopped i) w in
      let e = event i now EventType.stopped (dumps nothing) in
      let (s, ended, j) = bind-some (end_all_sources device dumps now (st, w')) _ h in
      let r = finalize device dumps now (some e) s in
      let over =
        finalize-after now (some e) st w' s (end_all_sources-Same device dumps now (st, w') s ended)
          a (own_event i now EventType.stopped (dumps nothing)) in
      subst (Follows device dumps (recording st w))
        (sym (stopped-first i w.notices r over) ∙ ap (λ z. z.0) (some_inj j))
        (IsOver-stops i (view device dumps (recording st w)) r.0 refl over)

  pub unchanged :
      {A : Type 0} (e : Engine device) (x : A) → IsSynced device dumps e → Leaves e (some (e, x))
  unchanged e x a e' ans h =
      subst (Follows device dumps e) (ap (λ z. z.0) (some_inj h)) (a, stays refl)

  stop_active-Follows :
      (i now : ℕ) (active : Option (ActiveState device)) (w : World) (x : Option EngineError)
      → (d : Option SessionDetail) → check_active device dumps i active d ≡ x
      → actives w.tables ≡ listed (session_of device dumps active)
      → Leaves
          (record { active = active; world = w })
          (stop_checked device dumps i now (record { active = active; world = w }) x)
  stop_active-Follows i now active w (some x) d c a =
      unchanged (record { active = active; world = w }) (Answer.refused x) a
  stop_active-Follows i now none w none d c a = absurd (ground arith)
  stop_active-Follows i now (some st) w none d c a =
      subst (λ j. Leaves (recording st w) (stop_with device dumps j now w (some st)))
        (passed i st.session.id _ c) (stop_with-Follows now st w a)

  pub stop_session-Follows :
      (i now : ℕ) (e : Engine device)
      → IsSynced device dumps e
      → Leaves e (stop_session device dumps i now e)
  unfolding stop_session require_active
  stop_session-Follows i now e a =
      stop_active-Follows i now e.active e.world _ (get_session e.world.tables i) refl a
