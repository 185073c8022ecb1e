-- ===== src/Capture/Engine/Machine.antt =====
-- The engine as a step relation, in which the clients, the devices and the threads choose, and the
-- machine that it implements.
use ambient_recorder.Base.{ℕ, ◌≡◌, Option, none, some, List, [], ◌∷◌, ◌++◌}
use ambient_recorder.Base.Text.{Text}
use ambient_recorder.Models.{SourceKind}
use ambient_recorder.Capture.Writer.{Device}
use ambient_recorder.Capture.Engine.State.{
  Detail, Notice, session_started, session_stopped, session_finalized, EngineError, Answer, World,
  ActiveState, Engine,
}
use ambient_recorder.Capture.Engine.Start.{Request, start_session, on_frames, write}
use ambient_recorder.Capture.Engine.End.{stop_session, handle_device_lost, finalise}

-- What a client sees: the session that is recorded, and what the observers were told.
pub record View : Type 0 where
  pub recording : Option ℕ
  pub told : List Notice

-- A recorder records one session at a time. It announces each that it starts; when it ends one, it
-- says so once, after the announcement of the stop if it was stopped.
pub data Move (v v' : View) : Type 0 where
  stays : v' ≡ v → Move v v'
  starts :
      (i : ℕ)
      → v.recording ≡ none
      → v' ≡ record { recording = some i; told = v.told ++ session_started i ∷ [] }
      → Move v v'
  stops :
      (i : ℕ)
      → v.recording ≡ some i
      → v' ≡ record {
        recording = none;
        told = (v.told ++ session_stopped i ∷ []) ++ session_finalized i ∷ [];
      }
      → Move v v'
  ends :
      (i : ℕ)
      → v.recording ≡ some i
      → v' ≡ record { recording = none; told = v.told ++ session_finalized i ∷ [] }
      → Move v v'

pub data Moves (v : View) : View → Type 0 where
  here : Moves v v
  then : {u u' : View} → Moves v u → Move u u' → Moves v u'

module _ (device : ℕ → SourceKind → Device) (dumps : Detail → Text) where
  abbrev pub session_of : Option (ActiveState device) → Option ℕ
  session_of none = none
  session_of (some st) = some st.session.id

  -- `active_session_id`, and the notices.
  abbrev pub view : Engine device → View
  view e = record { recording = session_of e.active; told = e.world.notices }

  abbrev pub of_state : ActiveState device × World → Engine device
  of_state (st, w) = record { active = some st; world = w }

  -- The calls of the clients and of the devices, the capture and writer threads, and the threads of
  -- a full disk. Each runs under the lock, or works on a lane alone.
  pub data Step (e e' : Engine device) : Type 0 where
    start_called : (q : Request) → e' ≡ (start_session device dumps q e).0 → Step e e'
    stop_called :
        (i now : ℕ) (a : Answer) → stop_session device dumps i now e ≡ some (e', a) → Step e e'
    device_gone :
        (k : SourceKind) (now : ℕ) (x : Option EngineError)
        → handle_device_lost device dumps k now e ≡ some (e', x)
        → Step e e'
    frames_came :
        (k : SourceKind) (now : ℕ) (raw : List ℕ) (st : ActiveState device)
        → e.active ≡ some st
        → e' ≡ of_state (on_frames device dumps k now raw st e.world)
        → Step e e'
    lane_wrote :
        (k : SourceKind) (now : ℕ) (st : ActiveState device)
        → e.active ≡ some st
        → e' ≡ of_state (write device dumps k now st e.world)
        → Step e e'
    disk_was_full :
        (before after : List SourceKind) (k : SourceKind) (now : ℕ) (x : Option EngineError)
        → e.world.finalisers ≡ before ++ k ∷ after
        → finalise device dumps k now
            (record e { world = record e.world { finalisers = before ++ after } })
          ≡ some (e', x)
        → Step e e'

  pub data Reach (e : Engine device) : Engine device → Type 0 where
    booted : Reach e e
    next : {e' e'' : Engine device} → Reach e e' → Step e' e'' → Reach e e''
