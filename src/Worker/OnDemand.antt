-- ===== src/Worker/OnDemand.antt =====
-- The on-demand path: a request, and one chunk per step.
pub mod Job
pub mod Progress
use mathlib.Core.List.{map}
use ambient_recorder.Base.{
  ℕ, ◌+◌, Bool, true, false, not, ◌&&◌, ◌||◌, ◌==◌, Option, none, some, List, [], ◌∷◌, ◌++◌, ltb,
  leb, if◌then◌else◌, length, drop,
}
use ambient_recorder.Base.Sort.{sort}
use ambient_recorder.Base.Text.{Text, codes}
use ambient_recorder.Models.{SourceKind, mic, system}
use ambient_recorder.Attribution.Decide.{AttributionConfig}
use ambient_recorder.Transcripts.Rows.{
  Transcript, TranscriptionJob, TranscriptMode, TranscriptState, JobState, Db,
}
use ambient_recorder.Transcripts.Store.{
  Result, ok, err, create_transcript, next_queued, get_job, update_job, set_state, set_engine,
  to_state, to_ended, to_reason, to_started, to_total, to_progress,
}
use ambient_recorder.Worker.State.{
  Speech, Settings, TranscriptionReadiness, ChunkMeta, LiveSession, Item, on_demand_step, Worker,
  lookup, insert, remove,
}
use ambient_recorder.Worker.Chunk.{done}
use ambient_recorder.Worker.Chunk.Transcribe.{transcribe_chunk}
use ambient_recorder.Worker.Live.{push, new_session}
use ambient_recorder.Worker.Live.Steps.{flush_pending, get_engine, W, S}

-- The rows of a request.
abbrev queued_transcript : ℕ → ℕ → ℕ → TranscriptionReadiness → Transcript
queued_transcript tid session_id now readiness = record {
  id = tid;
  session_id = session_id;
  mode = TranscriptMode.on_demand;
  state = TranscriptState.pending;
  final = false;
  engine = readiness.engine;
  model = readiness.model;
  created_at = now;
  finalised_at = none;
  failure_reason = none;
}

abbrev queued_job : ℕ → ℕ → ℕ → TranscriptionJob
queued_job tid session_id now = record {
  transcript_id = tid;
  session_id = session_id;
  mode = TranscriptMode.on_demand;
  state = JobState.queued;
  priority = 1;
  progress_chunks = 0;
  total_chunks = none;
  lag_s = none;
  enqueued_at = now;
  started_at = none;
  ended_at = none;
  failure_reason = none;
}

module _ {Sample Level : Type 0} where
  abbrev enqueue_created : Worker Sample Level → ℕ → ℕ → Result Db → Result (Worker Sample Level)
  enqueue_created w session_id tid (err e) = err e
  enqueue_created w session_id tid (ok db) =
      ok (push (record w { db = db }) 2 (on_demand_step session_id tid))

  unfoldable pub request_on_demand :
      Worker Sample Level → TranscriptionReadiness → ℕ → ℕ → ℕ → Result (Worker Sample Level)
  unfolding create_transcript push
  request_on_demand w readiness session_id tid now = enqueue_created w session_id tid (
      create_transcript w.db (queued_transcript tid session_id now readiness)
        (queued_job tid session_id now))

  abbrev requeue_first : Worker Sample Level → Option TranscriptionJob → Worker Sample Level
  requeue_first w none = w
  requeue_first w (some job) = push w 2 (on_demand_step job.session_id job.transcript_id)

  -- The loop ends after its first round.
  unfoldable pub requeue_open_on_demand : Worker Sample Level → Worker Sample Level
  unfolding next_queued push
  requeue_open_on_demand w = requeue_first w (next_queued w.db)
