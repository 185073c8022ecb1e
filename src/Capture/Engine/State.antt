-- ===== src/Capture/Engine/State.antt =====
-- The state of `CaptureEngine` and of the engine's side of `_SourceWorker`.
use ambient_recorder.Base.{
  ℕ, Bool, true, false, not, ◌&&◌, ◌==◌, Option, none, some, List, [], ◌∷◌, ◌++◌, keep, leb, length,
  if◌then◌else◌,
}
use ambient_recorder.Base.Text.{Text}
use ambient_recorder.Models.{SourceKind, mic, system}
use ambient_recorder.Metadata.Rows.{Session, Meta, same_kind}
use ambient_recorder.Metadata.Store.{Error, SessionDetail}
use ambient_recorder.Capture.Writer.{Device, SourceWorker, is_running, run}

-- `stream.close` and the frames of the stream concern the engine's side; `worker` is the writer's,
-- with the tables as of its last step.
pub record Lane (dev : Device) : Type 0 where
  pub device_id : Text
  pub queue : List (Option (ℕ × List ℕ))
  pub worker : SourceWorker dev.Sample

-- What an observer of the sessions is told.
pub data Notice : Type 0 where
  session_started session_stopped session_finalized : ℕ → Notice

-- The details of an event before they are printed; of a lost device, `last_seq` is printed as the
-- number less one.
pub data Detail : Type 0 where
  titled : Option Text → Detail
  lost : SourceKind → Text → ℕ → Detail
  low : SourceKind → Detail
  nothing : Detail

-- `key_error` is an enumeration without the device, `value_error` a title that is too long.
pub data EngineError : Type 0 where
  storage : Error → EngineError
  device_missing : List SourceKind → EngineError
  disk_low : ℕ → ℕ → EngineError
  session_not_found session_not_active : ℕ → EngineError
  key_error value_error : EngineError

-- An answer with `none` is a failed `assert detail is not None`.
pub data Answer : Type 0 where
  answered : Option SessionDetail → Answer
  refused : EngineError → Answer

-- What the engine shares with the threads: the store, the streams that are open, the threads that
-- `_on_disk_full` has started and that wait for the lock, and what the observers were told.
pub record World : Type 0 where
  pub tables : Meta
  pub open_streams : List (ℕ × SourceKind)
  pub finalisers : List SourceKind
  pub notices : List Notice
  pub last_start_latency_s : Option ℕ

infixl 5 ◌>>=◌
abbrev pub ◌>>=◌ {ℓ κ} : {A : Type ℓ} {B : Type κ} → Option A → (A → Option B) → Option B
none >>= f = none
some a >>= f = f a

abbrev pub close : ℕ → SourceKind → World → World
close i k w = record w {
  open_streams = keep (λ s. not ((s.0 == i) && same_kind s.1 k)) w.open_streams;
}

abbrev pub notify : Notice → World → World
notify n w = record w { notices = w.notices ++ n ∷ [] }

-- `queue.Queue(maxsize=256)`
abbrev pub maxsize : ℕ
maxsize = 256

-- `put_nowait`, where a full queue drops the frames
unfoldable pub enqueue : {dev : Device} → ℕ → List ℕ → Lane dev → Lane dev
enqueue arrived_at raw l =
    if leb maxsize (length l.queue)
    then l
    else record l { queue = l.queue ++ some (arrived_at, raw) ∷ [] }

-- `put` waits for a place in the queue: for ever (`none`) where it is full and nobody takes from it,
-- since the thread has ended or dies of the entry that it has in hand.
abbrev pub put_sentinel : {dev : Device} → Bool → Lane dev → Option (Lane dev)
put_sentinel true l = none
put_sentinel false l =
    some (record l { queue = l.queue ++ none ∷ []; worker = record l.worker { ended = true } })

abbrev pub end_unless : {dev : Device} → Bool → Lane dev → Option (Lane dev)
end_unless {dev} true l = some l
end_unless {dev} false l =
    put_sentinel
      (leb maxsize (length l.queue) && not (is_running l.worker.thread && not dev.dies_in_hand)) l

unfoldable pub end_async : {dev : Device} → Lane dev → Option (Lane dev)
end_async l = end_unless l.worker.ended l

-- The streams of a session, by its number, and what they write to.
module _ (device : ℕ → SourceKind → Device) where
  pub record ActiveState : Type 0 where
    pub session : Session
    pub mic_lane : Lane (device session.id mic)
    pub system_lane : Lane (device session.id system)
    pub first_frame_logged : Bool
    pub started_monotonic : ℕ

  pub record Engine : Type 0 where
    pub active : Option ActiveState
    pub world : World

  abbrev pub lane : (k : SourceKind) (st : ActiveState) → Lane (device st.session.id k)
  lane mic st = st.mic_lane
  lane system st = st.system_lane

  abbrev pub set_lane :
      (k : SourceKind) (st : ActiveState) → Lane (device st.session.id k) → ActiveState
  set_lane mic st l = record st { mic_lane = l }
  set_lane system st l = record st { system_lane = l }

  abbrev pub all_ended : ActiveState → Bool
  all_ended st = st.mic_lane.worker.ended && st.system_lane.worker.ended

  -- The lane after its thread has worked: `_on_disk_full` starts a thread.
  abbrev pub settle :
      (k : SourceKind) (st : ActiveState) (w : World)
      → List (Option (ℕ × List ℕ))
      → SourceWorker (device st.session.id k).Sample
      → ActiveState × World
  settle k st w queue worker = (
    set_lane k st (record (lane k st) { queue = queue; worker = worker }),
    record w {
      tables = worker.tables;
      finalisers =
          w.finalisers
          ++ (if worker.finalising && not (lane k st).worker.finalising then k ∷ [] else []);
    },
  )

  -- `thread.join`: the thread works off its queue.
  unfoldable pub join : (k : SourceKind) → ℕ → ActiveState → World → ActiveState × World
  unfolding run
  join k now st w =
      let l = lane k st in
      settle k st w []
        (run (device st.session.id k) now l.queue (record l.worker { tables = w.tables }))
