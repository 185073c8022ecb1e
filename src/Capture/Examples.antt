-- ===== src/Capture/Examples.antt =====
-- A slow device of one byte pair to the second: a chunk is 20 bytes. Tests, and the theorem at this
-- lane.
use mathlib.Core.List.{map}
use ambient_recorder.Base.{
  ℕ, zero, suc, ◌≡◌, refl, arith, true, false, none, some, List, [], ◌∷◌, length,
}
use ambient_recorder.Base.Text.{codes}
use ambient_recorder.Models.{system}
use ambient_recorder.Metadata.Rows.{SessionStatus, Meta, empty_meta}
use ambient_recorder.Capture.Writer.{
  written, Device, SourceWorker, running, is_running, chunk_byte_target, run,
}
use ambient_recorder.Capture.Lane.{Conserved, heard, run-Conserved}

abbrev device : Device
device = record {
  Sample = ℕ;
  native_rate_hz = 1;
  channels = 1;
  realtime = true;
  to_pcm16k_mono = λ native. native;
  write_chunk = λ seq pcm. written (record {
    file_path = codes "chunk.wav";
    seq = seq;
    duration_s = 160000;
    size_bytes = 320044;
  });
  dies_in_hand = false;
  meanwhile = [];
}

abbrev tables : Meta
tables = record empty_meta {
  sessions =
      record {
        id = 5;
        title = none;
        status = SessionStatus.active;
        started_at = 1;
        ended_at = none;
        duration_s = none;
        size_bytes = 0;
        dir_path = [];
        created_at = 1;
      }
      ∷ [];
}

abbrev lane : SourceWorker ℕ
lane = record {
  session_id = 5;
  kind = system;
  buffer = [];
  last_arrival = some 0;
  seq = 0;
  duration_s = 0;
  ended = false;
  finalising = false;
  thread = running;
  tables = tables;
  chunks = [];
  notified = [];
}

abbrev bytes : ℕ → List ℕ
bytes zero = []
bytes (suc n) = 7 ∷ bytes n

-- A second of silence, and then more than two chunks.
abbrev frames : List (ℕ × List ℕ)
frames = (1000000, bytes 30) ∷ (1100000, bytes 14) ∷ []

still_running : is_running (run device 9 (map (λ f. some f) frames) lane).thread ≡ true
unfolding run
still_running = refl

two_chunks : (run device 9 (map (λ f. some f) frames) lane).seq ≡ 2
unfolding run
two_chunks = refl

six_waiting : length (run device 9 (map (λ f. some f) frames) lane).buffer ≡ 6
unfolding run
six_waiting = refl

run-Conserved_example :
    Conserved device 9 lane
      (heard device 9 (some 0) frames)
      (run device 9 (map (λ f. some f) frames) lane)
run-Conserved_example =
    run-Conserved device 9 frames lane (unfold chunk_byte_target in omega arith) still_running
