-- ===== src/Capture/Engine/Returns.antt =====
-- No call of the engine waits for ever, while the chunk store is reliable.
use ambient_recorder.Base.{ℕ, ◌≡◌, refl, ◌∙◌, Option, none, some, [], ◌∷◌, Bool-cases, inl, inr}
use ambient_recorder.Base.Text.{Text}
use ambient_recorder.Models.{SourceKind}
use ambient_recorder.Metadata.Rows.{SessionEvent, Meta}
use ambient_recorder.Metadata.Store.{Result, ok, err}
use ambient_recorder.Metadata.Reconcile.Actives.{actives, append_event-actives}
use ambient_recorder.Capture.Writer.{Device}
use ambient_recorder.Capture.Engine.State.{
  Detail, EngineError, World, ActiveState, Engine, lane, all_ended, notify, session_stopped,
}
use ambient_recorder.Capture.Engine.End.{
  finalize, leave, stopped_answer, stop_checked, stop_session, lost_event, lose_when,
  handle_device_lost, full_event, full_when, finalise,
}
use ambient_recorder.Capture.Engine.Alive.{IsReliable}
use ambient_recorder.Capture.Engine.Lively.{AreLively, end_lane-Returns, end_all_sources-Returns}
use ambient_recorder.Capture.Engine.Machine.{session_of}
use ambient_recorder.Capture.Engine.Started.{listed, IsSynced}

module _ (device : ℕ → SourceKind → Device) (dumps : Detail → Text)
    (reliable : (i : ℕ) (k : SourceKind) → IsReliable (device i k)) where
  abbrev pub HasLively : Option (ActiveState device) → Type 0
  HasLively none = Unit
  HasLively (some st) = AreLively device dumps reliable st

  -- What a call returns, with lively lanes in the session that is left.
  abbrev pub Replies : {A : Type 0} → Option (Engine device × A) → Type 0
  Replies {A = A} r = (e : Engine device) × (a : A) × (r ≡ some (e, a)) × HasLively e.active

  leave-Lively :
      (st : ActiveState device) (w : World) (r : Result Meta)
      → AreLively device dumps reliable st
      → HasLively (leave device dumps st w r).0.active
  leave-Lively st w (err x) h = h
  leave-Lively st w (ok m) h = tt

  finalize-Lively :
      (now : ℕ) (e : Option SessionEvent) (st : ActiveState device) (w : World)
      → AreLively device dumps reliable st
      → HasLively (finalize device dumps now e (st, w)).0.active
  unfolding finalize
  finalize-Lively now e st w h = leave-Lively st _ _ h

  stopped_answer-Lively :
      (i : ℕ) (r : Engine device × Option EngineError)
      → HasLively r.0.active
      → HasLively (stopped_answer device dumps i r).0.active
  stopped_answer-Lively i (e, none) h = h
  stopped_answer-Lively i (e, some x) h = h

  stop_checked-Replies :
      (i now : ℕ) (active : Option (ActiveState device)) (w : World) (x : Option EngineError)
      → HasLively active
      → actives w.tables ≡ listed (session_of device dumps active)
      → Replies (stop_checked device dumps i now (record { active = active; world = w }) x)
  stop_checked-Replies i now active w (some x) h a = (_, _, refl, h)
  stop_checked-Replies i now none w none h a = (_, _, refl, tt)
  stop_checked-Replies i now (some st) w none h a =
      let (s, e, g) =
        end_all_sources-Returns device dumps reliable now st (notify (session_stopped i) w) h a in
      rw e (_, _, refl, stopped_answer-Lively i _ (finalize-Lively now _ s.0 s.1 g))

  -- `stop_session` returns.
  pub stop_session-Replies :
      (i now : ℕ) (e : Engine device)
      → HasLively e.active
      → IsSynced device dumps e
      → Replies (stop_session device dumps i now e)
  unfolding stop_session
  stop_session-Replies i now e h a = stop_checked-Replies i now e.active e.world _ h a

  lost_event-Lively :
      (now : ℕ) (st : ActiveState device) (w : World) (r : Result Meta)
      → AreLively device dumps reliable st
      → HasLively (lost_event device dumps now st w r).0.active
  lost_event-Lively now st w (err x) h = h
  lost_event-Lively now st w (ok m) h = elim (Bool-cases (all_ended device st)) [
    | inl g ↦ rw g (finalize-Lively now none st _ h)
    | inr g ↦ rw g h
  ]

  lose_when-Replies :
      (k : SourceKind) (now : ℕ) (active : Option (ActiveState device)) (w : World)
      → HasLively active
      → actives w.tables ≡ listed (session_of device dumps active)
      → Replies (lose_when device dumps k now w active)
  lose_when-Replies k now none w h a = (_, _, refl, tt)
  lose_when-Replies k now (some st) w h a = elim (Bool-cases (lane device k st).worker.ended) [
    | inl g ↦ rw g (_, _, refl, h)
    | inr g ↦
        let (s, e, l) = end_lane-Returns device dumps reliable k now st w h a in
        rw (g, e) (_, _, refl, lost_event-Lively now s.0 _ _ l)
  ]

  pub handle_device_lost-Replies :
      (k : SourceKind) (now : ℕ) (e : Engine device)
      → HasLively e.active
      → IsSynced device dumps e
      → Replies (handle_device_lost device dumps k now e)
  unfolding handle_device_lost
  handle_device_lost-Replies k now e h a = lose_when-Replies k now e.active e.world h a

  full_event-Replies :
      (now : ℕ) (st : ActiveState device) (w : World) (r : Result Meta)
      → ((m : Meta) → r ≡ ok m → actives m ≡ actives w.tables)
      → AreLively device dumps reliable st
      → actives w.tables ≡ st.session.id ∷ []
      → Replies (full_event device dumps now st w r)
  full_event-Replies now st w (err x) f h a = (_, _, refl, h)
  full_event-Replies now st w (ok m) f h a =
      let (s, e, g) =
        end_all_sources-Returns device dumps reliable now st (record w { tables = m }) h
          (f m refl ∙ a) in
      rw e (_, _, refl, finalize-Lively now none s.0 s.1 g)

  full_when-Replies :
      (k : SourceKind) (now : ℕ) (active : Option (ActiveState device)) (w : World)
      → HasLively active
      → actives w.tables ≡ listed (session_of device dumps active)
      → Replies (full_when device dumps k now w active)
  full_when-Replies k now none w h a = (_, _, refl, tt)
  full_when-Replies k now (some st) w h a =
      full_event-Replies now st w _ (λ m q. append_event-actives w.tables m _ q) h a

  pub finalise-Replies :
      (k : SourceKind) (now : ℕ) (e : Engine device)
      → HasLively e.active
      → IsSynced device dumps e
      → Replies (finalise device dumps k now e)
  unfolding finalise
  finalise-Replies k now e h a = full_when-Replies k now e.active e.world h a
