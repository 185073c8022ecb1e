-- ===== src/Worker/Live.antt =====
-- A live transcription from `_begin_live` to its end.
pub mod Steps
pub mod Flush
pub mod Flushed
pub mod Finalise
pub mod Balance
use ambient_recorder.Base.{
  ℕ, ◌+◌, ◌-◌, Bool, true, false, not, ◌&&◌, ◌||◌, ◌==◌, Option, none, some, List, [], ◌∷◌, ◌++◌,
  ltb, min, if◌then◌else◌,
}
use ambient_recorder.Base.Text.{Text, codes}
use ambient_recorder.Models.{SourceKind, mic, system, speaker_of}
use ambient_recorder.Attribution.Segment.{TimedSegment}
use ambient_recorder.Attribution.Energy.{init}
use ambient_recorder.Attribution.Twin.{find_twin}
use ambient_recorder.Attribution.Decide.{AttributionConfig, truthy}
use ambient_recorder.Transcripts.Rows.{
  Transcript, TranscriptionJob, NewSegment, TranscriptSegment, TranscriptMode, TranscriptState,
  JobState, Db,
}
use ambient_recorder.Transcripts.Store.{
  Result, ok, err, append_segment, create_transcript, update_job, set_state, to_state, to_lag,
  to_ended, to_reason,
}
use ambient_recorder.Stream.{SegmentStream, StatusFrame, segment, status, publish, close}
use ambient_recorder.Worker.State.{
  Speech, ReadinessState, TranscriptionReadiness, ChunkMeta, TrackState, LiveSession, track,
  set_track, Item, chunk, session_stopped, Queued, Worker, lookup, insert, remove,
}
use ambient_recorder.Worker.Chunk.{recent_emitted, Outcome, done, engine_failed, raised, Step}
use ambient_recorder.Worker.Chunk.Transcribe.{transcribe_chunk}

abbrev is_raised : Outcome → Bool
is_raised done = false
is_raised engine_failed = true
is_raised raised = true

abbrev pub status_frame : TranscriptState → Option ℕ → Bool → StatusFrame
status_frame state lag_s final = record { state = state; lag_s = lag_s; final = final }

-- `_delivered_until`
abbrev pub delivered_until : {Sample Level : Type 0} → LiveSession Sample Level → ℕ
delivered_until live = min live.mic_track.next_start_s live.system_track.next_start_s

abbrev pub lag_of : {Sample Level : Type 0} → LiveSession Sample Level → ℕ
lag_of live = live.last_chunk_end_s - delivered_until live

abbrev pub new_track : {Sample : Type 0} → TrackState Sample
new_track = record {
  tail_pcm = [];
  tail_start_s = 0;
  next_start_s = 0;
  emitted_until_s = 0;
  pending = [];
  recent = [];
}

-- `str | None` in an f-string.
abbrev shown : Option Text → Text
shown none = codes "None"
shown (some t) = t

-- The rows of `_begin_live`, `reason` being that of a failure.
abbrev live_transcript :
    ℕ → ℕ → ℕ → TranscriptionReadiness → TranscriptState → Option Text → Transcript
live_transcript tid session_id now readiness state reason = record {
  id = tid;
  session_id = session_id;
  mode = TranscriptMode.live;
  state = state;
  final = false;
  engine = readiness.engine;
  model = readiness.model;
  created_at = now;
  finalised_at = none;
  failure_reason = reason;
}

abbrev live_job : ℕ → ℕ → ℕ → JobState → Option ℕ → Option Text → TranscriptionJob
live_job tid session_id now state ended_at reason = record {
  transcript_id = tid;
  session_id = session_id;
  mode = TranscriptMode.live;
  state = state;
  priority = 0;
  progress_chunks = 0;
  total_chunks = none;
  lag_s = some 0;
  enqueued_at = now;
  started_at = some now;
  ended_at = ended_at;
  failure_reason = reason;
}

module _ {Sample Level : Type 0} where
  -- `_push`: an entry with the next count.
  unfoldable pub push : Worker Sample Level → ℕ → Item → Worker Sample Level
  push w priority item = record w {
    q = w.q ++ (record { priority = priority; order = w.counter; item = item }) ∷ [];
    counter = w.counter + 1;
  }

  abbrev pub new_session : ℕ → LiveSession Sample Level
  new_session tid = record {
    transcript_id = tid;
    mic_track = new_track;
    system_track = new_track;
    energy = init 4800000;
    stopping = false;
    outstanding = 0;
    last_chunk_end_s = 0;
  }

  abbrev go_live : Worker Sample Level → ℕ → ℕ → Result Db → Result (Worker Sample Level)
  go_live w session_id tid (err e) = err e
  go_live w session_id tid (ok db) = ok (record w {
    db = db;
    live = insert session_id (new_session tid) w.live;
    stream = publish w.stream tid (status (status_frame TranscriptState.live (some 0) false));
  })

  abbrev with_db : Worker Sample Level → Result Db → Result (Worker Sample Level)
  with_db w (err e) = err e
  with_db w (ok db) = ok (record w { db = db })

  -- `_begin_live` by the readiness; `tid` is the new transcript's identifier.
  abbrev begin_as :
      ReadinessState
      → Worker Sample Level
      → TranscriptionReadiness
      → ℕ
      → ℕ
      → ℕ
      → Result (Worker Sample Level)
  begin_as ReadinessState.not_installed w readiness session_id tid now = ok w
  begin_as ReadinessState.not_ready w readiness session_id tid now =
      let reason = some (codes "engine_not_ready: " ++ shown readiness.reason) in
      with_db w (
        create_transcript w.db
          (live_transcript tid session_id now readiness TranscriptState.failed reason)
          (live_job tid session_id now JobState.failed (some now) reason))
  begin_as ReadinessState.ready w readiness session_id tid now = go_live w session_id tid (
      create_transcript w.db
        (live_transcript tid session_id now readiness TranscriptState.live none)
        (live_job tid session_id now JobState.running none none))

  unfoldable pub begin_live :
      Worker Sample Level → TranscriptionReadiness → ℕ → ℕ → ℕ → Result (Worker Sample Level)
  unfolding create_transcript publish insert init
  begin_live w readiness session_id tid now =
      begin_as readiness.status w readiness session_id tid now

  abbrev pub stop :
      Worker Sample Level → ℕ → Option (LiveSession Sample Level) → Worker Sample Level
  stop w session_id none = w
  stop w session_id (some live) =
      push (record w { live = insert session_id (record live { stopping = true }) w.live }) 1
        (session_stopped session_id)

  -- `on_session_event(session_id, "stopped")`
  unfoldable pub on_session_stopped : Worker Sample Level → ℕ → Worker Sample Level
  unfolding push insert lookup
  on_session_stopped w session_id = stop w session_id (lookup session_id w.live)

  abbrev pub accept :
      Worker Sample Level
      → ℕ
      → SourceKind
      → ChunkMeta
      → Option (LiveSession Sample Level)
      → Worker Sample Level
  accept w session_id kind meta none = w
  accept w session_id kind meta (some live) =
      push
        (record w {
          live = insert session_id (record live { outstanding = live.outstanding + 1 }) w.live;
        })
        1 (chunk session_id kind meta)

  unfoldable pub on_chunk : Worker Sample Level → ℕ → SourceKind → ChunkMeta → Worker Sample Level
  unfolding push insert lookup
  on_chunk w session_id kind meta = accept w session_id kind meta (lookup session_id w.live)
