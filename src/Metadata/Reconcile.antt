-- ===== src/Metadata/Reconcile.antt =====
-- `reconcile_interrupted`: what a start does with the sessions that a crash has left active. The
-- inventory of chunk files and `json.dumps` of the durations are arguments.
pub mod Actives
pub mod Recovered
use ambient_recorder.Base.{
  ℕ, ◌+◌, Bool, true, false, Option, none, some, List, [], ◌∷◌, if◌then◌else◌, length, max,
}
use ambient_recorder.Base.Text.{Text}
use ambient_recorder.Models.{SourceKind, mic, system}
use ambient_recorder.Metadata.Rows.{
  SessionStatus, SourceStatus, EventType, Session, AudioChunk, SessionEvent, Meta, is_valid_chunk,
}
use ambient_recorder.Metadata.Store.{
  Result, ok, err, record_chunk, end_source, finalize_session, append_event, active_sessions,
}
use ambient_recorder.Worker.State.{ChunkMeta}

-- The tables, and whether the run has raised: then nothing more is done.
pub record Run : Type 0 where
  pub tables : Meta
  pub raised : Bool

abbrev pub found_chunk : ℕ → SourceKind → ℕ → ChunkMeta → AudioChunk
found_chunk i kind now c = record {
  session_id = i;
  source_kind = kind;
  seq = c.seq;
  file_path = c.file_path;
  duration_s = c.duration_s;
  size_bytes = c.size_bytes;
  written_at = now;
}

abbrev pub after : Meta → Result Meta → Run
after m (err e) = record { tables = m; raised = true }
after m (ok m') = record { tables = m'; raised = false }

-- A chunk that the validators refuse raises before it is recorded.
unfoldable pub record_found : AudioChunk → Run → Run
unfolding is_valid_chunk record_chunk
record_found c r =
    if r.raised
    then r
    else if is_valid_chunk c
    then after r.tables (record_chunk r.tables c)
    else record r { raised = true }

unfoldable pub record_all : ℕ → SourceKind → ℕ → List ChunkMeta → Run → Run
unfolding record_found
record_all i kind now [] r = r
record_all i kind now (c ∷ cs) r =
    record_all i kind now cs (record_found (found_chunk i kind now c) r)

abbrev pub total : List ChunkMeta → ℕ
total [] = 0
total (c ∷ cs) = c.duration_s + total cs

-- The chunks of a track are recorded, and the track is ended.
unfoldable pub close_source : ℕ → SourceKind → ℕ → List ChunkMeta → Run → Run
unfolding record_all end_source
close_source i kind now found r =
    let r' = record_all i kind now found r in
    if r'.raised
    then r'
    else record r' { tables = end_source r'.tables i kind SourceStatus.completed now }

module _ (inventory : ℕ → SourceKind → List ChunkMeta) (dumps : ℕ → ℕ → Text) (now : ℕ) where
  abbrev pub reconciled_event : ℕ → SessionEvent
  reconciled_event i = record {
    session_id = i;
    at = now;
    type_ = EventType.reconciled;
    detail = dumps (total (inventory i mic)) (total (inventory i system));
  }

  -- The session is interrupted, with the longer track's audio as its length.
  unfoldable pub close_session : ℕ → Run → Run
  unfolding finalize_session append_event
  close_session i r =
      if r.raised
      then r
      else (let m =
            finalize_session r.tables i SessionStatus.interrupted now
              (max (total (inventory i mic)) (total (inventory i system))) in
          after m (append_event m (reconciled_event i)))

  unfoldable pub reconcile_one : ℕ → Run → Run
  unfolding close_source close_session
  reconcile_one i r =
      close_session i (
        close_source i system now (inventory i system) (close_source i mic now (inventory i mic) r))

  unfoldable pub reconcile_each : List Session → Run → Run
  unfolding reconcile_one
  reconcile_each [] r = r
  reconcile_each (s ∷ ss) r = reconcile_each ss (reconcile_one s.id r)

  -- The tables, and the number of sessions.
  unfoldable pub reconcile_interrupted : Meta → Run × ℕ
  unfolding reconcile_each active_sessions
  reconcile_interrupted m = (
    reconcile_each (active_sessions m) (record { tables = m; raised = false }),
    length (active_sessions m),
  )
