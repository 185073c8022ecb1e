-- ===== src/Capture/Engine/Refined.antt =====
-- The engine implements the recorder of Machine, and agrees with the store on what is active.
use ambient_recorder.Base.{ℕ, ◌≡◌, subst, sym, ap, ◌∙◌, some, [], ◌∷◌, ◌++◌}
use ambient_recorder.Base.Text.{Text}
use ambient_recorder.Models.{SourceKind}
use ambient_recorder.Metadata.Reconcile.Actives.{actives}
use ambient_recorder.Capture.Writer.{Device}
use ambient_recorder.Capture.Engine.State.{Detail, World, ActiveState, Engine}
use ambient_recorder.Capture.Engine.Lanes.{Same, on_frames-Same, write-Same}
use ambient_recorder.Capture.Engine.Machine.{
  Moves, here, then, view, session_of, Step, start_called, stop_called, device_gone, frames_came,
  lane_wrote, disk_was_full, Reach, booted, next, of_state,
}
use ambient_recorder.Capture.Engine.Started.{listed, IsSynced, Follows, start_session-Follows}
use ambient_recorder.Capture.Engine.Ended.{recording, stop_session-Follows}
use ambient_recorder.Capture.Engine.Broken.{goes_on, handle_device_lost-Follows, finalise-Follows}

module _ (device : ℕ → SourceKind → Device) (dumps : Detail → Text) where
  lane-Follows :
      (e e' : Engine device) (st : ActiveState device) (s : ActiveState device × World)
      → IsSynced device dumps e
      → e.active ≡ some st
      → Same device dumps (st, e.world) s
      → e' ≡ of_state device dumps s
      → Follows device dumps e e'
  lane-Follows e e' st s a n same h =
      let whole : record { active = some st; world = e.world } ≡ e =
        ap (λ z. record { active = z; world = e.world }) (sym n) in
      let a' : actives e.world.tables ≡ st.session.id ∷ [] =
        a ∙ ap (λ z. listed (session_of device dumps z)) n in
      subst (λ z. Follows device dumps z e') whole
        (subst (Follows device dumps (recording device dumps st e.world)) (sym h)
          (goes_on device dumps (st, e.world) s same a'))

  -- Every step of the engine keeps it in agreement with the store, and is a move of the recorder.
  pub Step-Follows :
      (e e' : Engine device)
      → IsSynced device dumps e
      → Step device dumps e e'
      → Follows device dumps e e'
  Step-Follows e e' a (start_called q h) =
      subst (Follows device dumps e) (sym h) (start_session-Follows device dumps q e a)
  Step-Follows e e' a (stop_called i now ans h) =
      stop_session-Follows device dumps i now e a e' ans h
  Step-Follows e e' a (device_gone k now x h) =
      handle_device_lost-Follows device dumps k now e a e' x h
  Step-Follows e e' a (frames_came k now raw st n h) =
      lane-Follows e e' st _ a n (on_frames-Same device dumps k now raw st e.world) h
  Step-Follows e e' a (lane_wrote k now st n h) =
      lane-Follows e e' st _ a n (write-Same device dumps k now st e.world) h
  Step-Follows e e' a (disk_was_full before after k now x f h) =
      finalise-Follows device dumps k now
        (record e { world = record e.world { finalisers = before ++ after } }) a e' x h

  -- From a start at which the engine and the store agree, whatever the clients, the devices, the
  -- threads and the disk do, the store has the engine's session as its only active one, and none where
  -- the engine has none; and what the observers are told is what a recorder of one session at a time
  -- tells.
  pub Reach-Moves :
      (e e' : Engine device)
      → IsSynced device dumps e
      → Reach device dumps e e'
      → IsSynced device dumps e' × Moves (view device dumps e) (view device dumps e')
  Reach-Moves e e' a booted = (a, here)
  Reach-Moves e e' a (next {e' = u} r st) =
      let before = Reach-Moves e u a r in
      let follows = Step-Follows u e' before.0 st in (follows.0, then before.1 follows.1)
