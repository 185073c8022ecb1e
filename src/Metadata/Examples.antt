-- ===== src/Metadata/Examples.antt =====
-- A recorder with one session that a crash has left active. Tests, and the theorems at these tables.
use ambient_recorder.Base.{ℕ, ◌≡◌, refl, false, none, List, [], ◌∷◌}
use ambient_recorder.Base.Text.{Text, codes}
use ambient_recorder.Models.{SourceKind, mic, system}
use ambient_recorder.Metadata.Rows.{
  SessionStatus, SourceStatus, Session, CaptureSource, AudioChunk, Meta, empty_meta,
}
use ambient_recorder.Metadata.Store.{ok, create_active_session, record_chunk, active_sessions}
use ambient_recorder.Metadata.Store.Accounts.{Accounted, record_chunk-Accounted}
use ambient_recorder.Metadata.Reconcile.{reconcile_interrupted}
use ambient_recorder.Metadata.Reconcile.Recovered.{active_sessions-reconcile}
use ambient_recorder.Worker.State.{ChunkMeta}

abbrev session : ℕ → Session
session i = record {
  id = i;
  title = none;
  status = SessionStatus.active;
  started_at = i;
  ended_at = none;
  duration_s = none;
  size_bytes = 0;
  dir_path = codes "sessions";
  created_at = i;
}

abbrev source : SourceKind → CaptureSource
source kind = record {
  session_id = 5;
  kind = kind;
  device_id = codes "dev";
  device_label = codes "Device";
  native_rate_hz = 48000;
  persisted_format = codes "16000 Hz, mono, s16le";
  status = SourceStatus.active;
  ended_at = none;
  chunk_count = 0;
}

abbrev begun : Meta
begun = record empty_meta {
  sessions = session 5 ∷ [];
  capture_sources = source mic ∷ source system ∷ [];
}

abbrev chunk : AudioChunk
chunk = record {
  session_id = 5;
  source_kind = system;
  seq = 0;
  file_path = codes "system/000000.wav";
  duration_s = 160000;
  size_bytes = 320044;
  written_at = 9;
}

created : create_active_session empty_meta (session 5) (source mic ∷ source system ∷ []) ≡ ok begun
unfolding create_active_session
created = refl

abbrev recorded : Meta
recorded = record begun {
  sessions = record (session 5) { size_bytes = 320044 } ∷ [];
  capture_sources = source mic ∷ record (source system) { chunk_count = 1 } ∷ [];
  audio_chunks = chunk ∷ [];
}

recorded_once : record_chunk begun chunk ≡ ok recorded
unfolding record_chunk
recorded_once = refl

record_chunk-Accounted_example : Accounted recorded
record_chunk-Accounted_example =
    record_chunk-Accounted begun recorded chunk ((refl, (refl, tt)), (refl, tt)) recorded_once

abbrev files : ℕ → SourceKind → List ChunkMeta
files i mic = []
files i system =
    record {
      file_path = codes "system/000000.wav";
      seq = 0;
      duration_s = 160000;
      size_bytes = 320044;
    }
    ∷ []

abbrev dumps : ℕ → ℕ → Text
dumps a b = codes "{}"

calm : (reconcile_interrupted files dumps 100 begun).0.raised ≡ false
unfolding reconcile_interrupted
calm = refl

active_sessions-reconcile_example :
    active_sessions (reconcile_interrupted files dumps 100 begun).0.tables ≡ []
active_sessions-reconcile_example = active_sessions-reconcile files dumps 100 begun calm
