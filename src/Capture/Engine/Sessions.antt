-- ===== src/Capture/Engine/Sessions.antt =====
-- Sessions with devices of one byte pair to the second. Tests, and the theorems at these sessions.
use ambient_recorder.Base.{
  ℕ, zero, suc, ◌≡◌, refl, arith, Bool, true, false, Option, none, some, List, [], ◌∷◌, map,
}
use ambient_recorder.Base.Text.{Text, codes, strip}
use ambient_recorder.Models.{SourceKind, mic, system}
use ambient_recorder.Metadata.Rows.{SessionStatus, SourceStatus, empty_meta}
use ambient_recorder.Capture.Writer.{Device, Written, written, disk_full, raised}
use ambient_recorder.Capture.Engine.State.{
  Detail, session_started, session_stopped, session_finalized, EngineError, device_missing, Answer,
  answered, refused, World, ActiveState, Engine,
}
use ambient_recorder.Capture.Engine.Start.{
  DeviceInfo, Request, new_state, start_session, on_frames, write,
}
use ambient_recorder.Capture.Engine.End.{stop_session, handle_device_lost, finalise}
use ambient_recorder.Capture.Engine.Alive.{IsReliable}
use ambient_recorder.Capture.Engine.Machine.{
  Reach, booted, next, start_called, stop_called, Moves, view, of_state,
}
use ambient_recorder.Capture.Engine.Started.{IsSynced}
use ambient_recorder.Capture.Engine.Refined.{Reach-Moves}
use ambient_recorder.Capture.Engine.Reached.{Reach-Replies}
use ambient_recorder.Capture.Engine.Atomic.{start_session-unchanged}

-- The disk is full for the system track from its first chunk.
abbrev write_chunk : SourceKind → ℕ → List ℕ → Written
write_chunk mic seq pcm =
    written (record {
      file_path = codes "chunk.wav";
      seq = seq;
      duration_s = 160000;
      size_bytes = 320044;
    })
write_chunk system seq pcm = disk_full

abbrev device : ℕ → SourceKind → Device
device i k = record {
  Sample = ℕ;
  native_rate_hz = 1;
  channels = 1;
  realtime = false;
  to_pcm16k_mono = λ native. native;
  write_chunk = write_chunk k;
  dies_in_hand = false;
  meanwhile = [];
}

abbrev dumps : Detail → Text
dumps d = codes "{}"

abbrev only_mic : SourceKind → Bool
only_mic mic = true
only_mic system = false

abbrev bytes : ℕ → List ℕ
bytes zero = []
bytes (suc n) = 7 ∷ bytes n

abbrev frames : ℕ → List (Option (ℕ × List ℕ))
frames zero = []
frames (suc n) = some (n, bytes 2) ∷ frames n

abbrev info : SourceKind → Option DeviceInfo
info k = some (record {
  id = codes "dev";
  label = codes "Device";
  kind = k;
  is_default = true;
  native_rate_hz = 1;
  channels = 1;
})

abbrev request : Request
request = record {
  title = some (codes " Standup ");
  id = 7;
  now = 100;
  perf_counter = 5;
  dir_path = codes "sessions";
  missing = [];
  free_mb = 4096;
  min_free_disk_mb = 2048;
  devices = info;
  opens = λ k. true;
}

abbrev idle : Engine device
idle = record {
  active = none;
  world = record {
    tables = empty_meta;
    open_streams = [];
    finalisers = [];
    notices = [];
    last_start_latency_s = none;
  };
}

started : Engine device
unfolding start_session strip
started = (start_session device dumps request idle).0

-- The session that `started` records.
abbrev state : ActiveState device
state = new_state device dumps request (some (codes "Standup")) started.world.tables

abbrev result : {A : Type 0} → A → Option (Engine device × A) → Engine device × A
result a none = (idle, a)
result a (some r) = r

stopped : Engine device × Answer
unfolding stop_session
stopped = result (answered none) (stop_session device dumps 7 200 started)

stop_returns : stop_session device dumps 7 200 started ≡ some stopped
unfolding stop_session started start_session strip stopped
stop_returns = refl

stopped_notices :
    stopped.0.world.notices ≡ session_started 7 ∷ session_stopped 7 ∷ session_finalized 7 ∷ []
unfolding started start_session strip stopped stop_session
stopped_notices = refl

started_and_stopped : Reach device dumps idle stopped.0
unfolding started
started_and_stopped =
    next (next booted (start_called request refl)) (stop_called 7 200 stopped.1 stop_returns)

Reach-Moves_example :
    IsSynced device dumps stopped.0 × Moves (view device dumps idle) (view device dumps stopped.0)
Reach-Moves_example = Reach-Moves device dumps idle stopped.0 refl started_and_stopped

reliable : (i : ℕ) (k : SourceKind) → IsReliable (device i k)
reliable i mic = (refl, λ seq pcm. (omega arith, omega arith, omega arith))
reliable i system = (refl, λ seq pcm. tt)

recording : Reach device dumps idle started
unfolding started
recording = next booted (start_called request refl)

Reach-Replies_example :
    ((r : Engine device × Answer) × (stop_session device dumps 7 200 started ≡ some r))
    × ((r : Engine device × Option EngineError) × (handle_device_lost device dumps system 200
            started
          ≡ some r))
    × ((r : Engine device × Option EngineError) × (finalise device dumps system 200 started
          ≡ some r))
Reach-Replies_example =
    Reach-Replies device dumps reliable idle started refl refl recording 7 200 system

-- The system device cannot be opened: the stream of the microphone is closed again.
abbrev refused_request : Request
refused_request = record request { opens = only_mic }

is_refused :
    (start_session device dumps refused_request idle).1 ≡ refused (device_missing (system ∷ []))
unfolding start_session strip
is_refused = refl

start_session-unchanged_example : (start_session device dumps refused_request idle).0 ≡ idle
start_session-unchanged_example =
    start_session-unchanged device dumps refused_request idle (device_missing (system ∷ []))
      (λ k. refl) refl tt is_refused

-- The disk is full for the system track: its thread starts one that finalises the session.
abbrev heard : ActiveState device × World
heard = on_frames device dumps system 6 (bytes 40) state started.world

abbrev full : ActiveState device × World
full = write device dumps system 150 heard.0 heard.1

after_full : Engine device × Option EngineError
unfolding finalise on_frames write started start_session strip
after_full = result none (finalise device dumps system 160 (of_state device dumps full))

full_starts_thread : full.1.finalisers ≡ system ∷ []
unfolding on_frames write started start_session strip
full_starts_thread = refl

-- The session is completed, and the row of the track whose disk was full stays active.
full_completes :
    map (λ s. s.status) after_full.0.world.tables.sessions ≡ SessionStatus.completed ∷ []
unfolding after_full finalise on_frames write started start_session strip
full_completes = refl

full_leaves_row :
    map (λ s. s.status) after_full.0.world.tables.capture_sources
    ≡ SourceStatus.completed ∷ SourceStatus.active ∷ []
unfolding after_full finalise on_frames write started start_session strip
full_leaves_row = refl

-- A thread that has raised leaves its queue to fill up, and then the stop waits for ever.
abbrev dead : ActiveState device
dead = record state {
  mic_lane = record state.mic_lane {
    queue = frames 256;
    worker = record state.mic_lane.worker { thread = raised };
  };
}

stop_waits :
    stop_session device dumps 7 200 (record { active = some dead; world = started.world }) ≡ none
unfolding stop_session started start_session strip
stop_waits = refl

-- The thread of the system track still runs, with its queue full, and then dies of the entry that it has
-- in hand: the stop waits for ever too.
abbrev dying : ℕ → SourceKind → Device
dying i k = record (device i k) { dies_in_hand = true }

begun : Engine dying
unfolding start_session strip
begun = (start_session dying dumps request (record { active = none; world = idle.world })).0

abbrev crowded : ActiveState dying
crowded =
    let st = new_state dying dumps request (some (codes "Standup")) begun.world.tables in
    record st { system_lane = record st.system_lane { queue = frames 256 } }

dying_waits :
    stop_session dying dumps 7 200 (record { active = some crowded; world = begun.world }) ≡ none
unfolding stop_session begun start_session strip
dying_waits = refl

-- While the microphone is joined, the system track hears two seconds of frames, and its thread meets
-- the full disk: its row stays active when the stop returns.
abbrev busy : ℕ → SourceKind → Device
busy i k = record (device i k) { meanwhile = some (190, bytes 40) ∷ none ∷ [] }

busy_started : Engine busy
unfolding start_session strip
busy_started = (start_session busy dumps request (record { active = none; world = idle.world })).0

abbrev rows_after : Option (Engine busy × Answer) → List SourceStatus
rows_after none = []
rows_after (some r) = map (λ s. s.status) r.0.world.tables.capture_sources

busy_leaves_row :
    rows_after (stop_session busy dumps 7 200 busy_started)
    ≡ SourceStatus.completed ∷ SourceStatus.active ∷ []
unfolding busy_started start_session strip stop_session
busy_leaves_row = refl
