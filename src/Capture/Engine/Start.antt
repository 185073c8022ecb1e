-- ===== src/Capture/Engine/Start.antt =====
-- `start_session`, and what the capture threads do while a session is recorded.
use ambient_recorder.Base.{
  ℕ, ◌-◌, Bool, true, false, not, ◌==◌, Option, none, some, List, [], ◌∷◌, ◌++◌, keep, ltb,
  if◌then◌else◌,
}
use ambient_recorder.Base.Text.{Text, codes}
use ambient_recorder.Models.{SourceKind, mic, system}
use ambient_recorder.Metadata.Rows.{
  SessionStatus, SourceStatus, Session, CaptureSource, EventType, SessionEvent, Meta, strip_title,
}
use ambient_recorder.Metadata.Store.{
  Result, ok, err, active_session_exists, create_active_session, append_event, get_session,
}
use ambient_recorder.Capture.Writer.{Device, running, is_running, on_item}
use ambient_recorder.Capture.Engine.State.{
  Lane, Detail, titled, session_started, EngineError, storage, device_missing, disk_low, key_error,
  value_error, Answer, answered, refused, World, notify, enqueue, ActiveState, Engine, lane,
  set_lane, settle,
}

pub record DeviceInfo : Type 0 where
  pub id : Text
  pub label : Text
  pub kind : SourceKind
  pub is_default : Bool
  pub native_rate_hz : ℕ
  pub channels : ℕ

-- A call of `start_session`, with what it reads of the machine: the clocks, the new identifier, the
-- devices that `readiness` finds missing, the room on the disk, what `enumerate` lists, and the
-- devices that can be opened.
pub record Request : Type 0 where
  pub title : Option Text
  pub id : ℕ
  pub now : ℕ
  pub perf_counter : ℕ
  pub dir_path : Text
  pub missing : List SourceKind
  pub free_mb : ℕ
  pub min_free_disk_mb : ℕ
  pub devices : SourceKind → Option DeviceInfo
  pub opens : SourceKind → Bool

abbrev pub kinds : List SourceKind
kinds = mic ∷ system ∷ []

-- `_preflight`
unfoldable pub preflight : Request → Option EngineError
preflight q = elim q.missing [
  | [] ↦
      if ltb q.free_mb q.min_free_disk_mb
      then some (disk_low q.free_mb q.min_free_disk_mb)
      else none
  | k ∷ ks ↦ some (device_missing (k ∷ ks))
]

abbrev pub close_opened : ℕ → World → World
close_opened i w = record w { open_streams = keep (λ s. not (s.0 == i)) w.open_streams }

-- One round of the first loop: what was opened is closed where the device is unavailable.
abbrev pub opened :
    Option DeviceInfo
    → Bool
    → ℕ
    → SourceKind
    → World
    → World × Option EngineError
    → World × Option EngineError
opened none can_open i k w rest = (w, some key_error)
opened (some dev) true i k w rest = rest
opened (some dev) false i k w rest = (close_opened i w, some (device_missing (k ∷ [])))

-- The first loop: a stream for each track, with the device that it is opened on.
unfoldable pub open_streams : List SourceKind → Request → World → World × Option EngineError
open_streams [] q w = (w, none)
open_streams (k ∷ ks) q w =
    let rest = open_streams ks q (record w { open_streams = w.open_streams ++ (q.id, k) ∷ [] }) in
    opened (q.devices k) (q.opens k) q.id k w rest

abbrev pub new_session : Request → Option Text → Session
new_session q title = record {
  id = q.id;
  title = title;
  status = SessionStatus.active;
  started_at = q.now;
  ended_at = none;
  duration_s = none;
  size_bytes = 0;
  dir_path = q.dir_path;
  created_at = q.now;
}

abbrev source : Request → SourceKind → DeviceInfo → CaptureSource
source q k dev = record {
  session_id = q.id;
  kind = k;
  device_id = dev.id;
  device_label = dev.label;
  native_rate_hz = dev.native_rate_hz;
  persisted_format = codes "16000 Hz, mono, s16le";
  status = SourceStatus.active;
  ended_at = none;
  chunk_count = 0;
}

abbrev sources_of : Request → List SourceKind → List CaptureSource
sources_of q [] = []
sources_of q (k ∷ ks) = elim (q.devices k) [
  | none ↦ sources_of q ks
  | some dev ↦ source q k dev ∷ sources_of q ks
]

unfoldable pub sources : Request → List CaptureSource
sources q = sources_of q kinds

abbrev device_id : Option DeviceInfo → Text
device_id none = []
device_id (some dev) = dev.id

abbrev pub event : ℕ → ℕ → EventType → Text → SessionEvent
event i now kind detail = record { session_id = i; at = now; type_ = kind; detail = detail }

module _ (device : ℕ → SourceKind → Device) (dumps : Detail → Text) where
  -- `_SourceWorker.__init__`, and where `_run` begins: the clock starts with the session.
  abbrev new_lane : (q : Request) (k : SourceKind) → Meta → Lane (device q.id k)
  new_lane q k m = record {
    device_id = device_id (q.devices k);
    queue = [];
    worker = record {
      session_id = q.id;
      kind = k;
      buffer = [];
      last_arrival = if (device q.id k).realtime then some q.perf_counter else none;
      seq = 0;
      duration_s = 0;
      ended = false;
      finalising = false;
      thread = running;
      tables = m;
      chunks = [];
      notified = [];
    };
  }

  abbrev pub new_state : Request → Option Text → Meta → ActiveState device
  new_state q title m = record {
    session = new_session q title;
    mic_lane = new_lane q mic m;
    system_lane = new_lane q system m;
    first_frame_logged = false;
    started_monotonic = q.perf_counter;
  }

  -- The session is active and has its event.
  unfoldable pub announce :
      Request → Option (ActiveState device) → World → Result Meta → Engine device × Answer
  unfolding get_session
  announce q active w (err x) = (record { active = active; world = w }, refused (storage x))
  announce q active w (ok m) = (
    record { active = active; world = notify (session_started q.id) (record w { tables = m }) },
    answered (get_session m q.id),
  )

  unfoldable pub publish : Request → Option Text → World → Result Meta → Engine device × Answer
  unfolding announce append_event
  publish q title w (err x) =
      (record { active = none; world = close_opened q.id w }, refused (storage x))
  publish q title w (ok m) =
      announce q (some (new_state q title m)) (record w { tables = m })
        (append_event m (event q.id q.now EventType.started (dumps (titled q.title))))

  unfoldable pub open_session :
      Request → Option Text → World × Option EngineError → Engine device × Answer
  unfolding publish create_active_session sources
  open_session q title (w, some x) = (record { active = none; world = w }, refused x)
  open_session q title (w, none) =
      publish q title w (create_active_session w.tables (new_session q title) (sources q))

  unfoldable pub begin :
      Request → World → Option EngineError → Option (Option Text) → Engine device × Answer
  unfolding open_session open_streams
  begin q w (some x) title = (record { active = none; world = w }, refused x)
  begin q w none none = (record { active = none; world = w }, refused value_error)
  begin q w none (some title) = open_session q title (open_streams kinds q w)

  unfoldable pub start_when : Request → Option (ActiveState device) → World → Engine device × Answer
  unfolding begin preflight strip_title
  start_when q (some st) w = (
    record { active = some st; world = w },
    refused (storage (active_session_exists st.session.id)),
  )
  start_when q none w = begin q w (preflight q) (strip_title q.title)

  unfoldable pub start_session : Request → Engine device → Engine device × Answer
  unfolding start_when
  start_session q e = start_when q e.active e.world

  -- `_note_first_frame`
  abbrev pub note_first_frame : ℕ → ActiveState device → World → ActiveState device × World
  note_first_frame now st w = if st.first_frame_logged then (st, w) else (
    record st { first_frame_logged = true },
    record w { last_start_latency_s = some (now - st.started_monotonic) },
  )

  -- `on_frames` of a lane of the session that is active.
  unfoldable pub on_frames :
      SourceKind → ℕ → List ℕ → ActiveState device → World → ActiveState device × World
  unfolding enqueue
  on_frames k now raw st w =
      if (lane device k st).worker.ended
      then (st, w)
      else note_first_frame now (set_lane device k st (enqueue now raw (lane device k st))) w

  unfoldable pub take_item :
      SourceKind
      → ℕ
      → ActiveState device
      → World
      → List (Option (ℕ × List ℕ))
      → ActiveState device × World
  unfolding on_item
  take_item k now st w [] = (st, w)
  take_item k now st w (item ∷ items) = settle device k st w items (
      on_item (device st.session.id k) now item
        (record (lane device k st).worker { tables = w.tables }))

  -- The writer thread takes one item from its queue.
  unfoldable pub write : SourceKind → ℕ → ActiveState device → World → ActiveState device × World
  unfolding take_item
  write k now st w =
      if is_running (lane device k st).worker.thread
      then take_item k now st w (lane device k st).queue
      else (st, w)
