-- ===== src/Worker/Jobs.antt =====
-- An on-demand job of one chunk, before and after it. Tests, and the theorems at this job.
use ambient_recorder.Base.{ℕ, ◌≡◌, refl, false, none, some, [], ◌∷◌}
use ambient_recorder.Base.Sort.{sort}
use ambient_recorder.Base.Text.{codes, strip}
use ambient_recorder.Models.{system}
use ambient_recorder.Attribution.Energy.{init, add, rms_db}
use ambient_recorder.Transcripts.Rows.{TranscriptionJob, TranscriptMode, JobState}
use ambient_recorder.Transcripts.Store.{get_job}
use ambient_recorder.Worker.State.{Worker, Progress, lookup}
use ambient_recorder.Worker.Chunk.{done}
use ambient_recorder.Worker.Chunk.Transcribe.{transcribe_chunk}
use ambient_recorder.Worker.Live.Steps.{flush_pending}
use ambient_recorder.Worker.OnDemand.Job.{nth, earlier}
use ambient_recorder.Worker.Examples.{speech, cfg, meta, live, nobody, tables, stopping}

abbrev job : TranscriptionJob
job = record {
  transcript_id = 7;
  session_id = 5;
  mode = TranscriptMode.live;
  state = JobState.running;
  priority = 0;
  progress_chunks = 0;
  total_chunks = none;
  lag_s = some 0;
  enqueued_at = 1;
  started_at = some 1;
  ended_at = none;
  failure_reason = none;
}

abbrev first : Progress ℕ ℕ
first = record { session = live; inv = (system, meta) ∷ []; next = 0 }

abbrev last : Progress ℕ ℕ
last = record { session = stopping 0; inv = (system, meta) ∷ []; next = 1 }

abbrev busy : Progress ℕ ℕ → Worker ℕ ℕ
busy p = record {
  db = tables;
  stream = nobody;
  live = [];
  on_demand = (7, p) ∷ [];
  q = [];
  counter = 3;
  engine = some (codes "whisper small");
  stopped = false;
}

the_job : (p : Progress ℕ ℕ) → get_job (busy p).db 7 ≡ some job
unfolding get_job
the_job p = refl

under_way : (p : Progress ℕ ℕ) → lookup 7 (busy p).on_demand ≡ some p
unfolding lookup
under_way p = refl

next_chunk : nth 0 (sort earlier first.inv) ≡ some (system, meta)
unfolding sort
next_chunk = refl

transcribed :
    (transcribe_chunk speech cfg
      (some (codes "whisper small"))
      tables
      nobody
      live
      system
      meta
      5
      TranscriptMode.on_demand).outcome
    ≡ done
unfolding transcribe_chunk add init strip rms_db
transcribed = refl

flushed : (flush_pending cfg false tables nobody (stopping 0)).outcome ≡ done
unfolding flush_pending strip
flushed = refl
