-- ===== src/Transcripts/Examples.antt =====
-- A recorder that stopped with a live transcript of two segments and an on-demand one of one
-- segment. Tests, and the theorems at these tables.
use ambient_recorder.Base.{
  ℕ, ◌+◌, ◌≡◌, refl, false, none, some, [], ◌∷◌, ◌++◌, map, arith, length, inr, if◌then◌else◌,
}
use ambient_recorder.Base.Text.{codes, strip}
use ambient_recorder.Models.{me, them}
use ambient_recorder.Transcripts.Rows.{
  Transcript, TranscriptSegment, NewSegment, TranscriptionJob, TranscriptMode, TranscriptState,
  JobState, Db, validate,
}
use ambient_recorder.Transcripts.Store.{
  ok, err, validation_error, append_segment, segments_after, current_transcript, create_transcript,
}
use ambient_recorder.Transcripts.Store.Seqs.{IsNumbered, rows_of}
use ambient_recorder.Transcripts.Store.Cursor.{segments_after-resume}
use ambient_recorder.Transcripts.Store.Append.{segments_after-append, segments_after-poisoned}
use ambient_recorder.Transcripts.Reconcile.{reconcile_transcription}
use ambient_recorder.Transcripts.Reconcile.Recovery.{restart_job, jobs-reconcile}
use ambient_recorder.Transcripts.Reconcile.Segments.{restarts, rows_of-reconcile}
use ambient_recorder.Transcripts.Reconcile.Again.{reconcile-again}

abbrev transcript : ℕ → TranscriptMode → TranscriptState → Transcript
transcript i mode state = record {
  id = i;
  session_id = 7;
  mode = mode;
  state = state;
  final = false;
  engine = none;
  model = none;
  created_at = i;
  finalised_at = none;
  failure_reason = none;
}

abbrev job : ℕ → TranscriptMode → JobState → TranscriptionJob
job i mode state = record {
  transcript_id = i;
  session_id = 7;
  mode = mode;
  state = state;
  priority = 0;
  progress_chunks = 1;
  total_chunks = none;
  lag_s = none;
  enqueued_at = i;
  started_at = some 1;
  ended_at = none;
  failure_reason = none;
}

abbrev row : ℕ → ℕ → TranscriptSegment
row i n = record {
  transcript_id = i;
  seq = n;
  source = me;
  start_s = n;
  end_s = n + 1;
  text = codes "ok";
}

abbrev spoken : NewSegment
spoken = record { source = them; start_s = 5; end_s = 9; text = codes " yes " }

abbrev yes_row : TranscriptSegment
yes_row = record {
  transcript_id = 1;
  seq = 2;
  source = them;
  start_s = 5;
  end_s = 9;
  text = codes "yes";
}

abbrev crashed : Db
crashed = record {
  transcripts =
      transcript 1 TranscriptMode.live TranscriptState.live
      ∷ transcript 2 TranscriptMode.on_demand TranscriptState.pending
      ∷ [];
  segments = row 1 0 ∷ row 2 0 ∷ row 1 1 ∷ [];
  jobs =
      job 1 TranscriptMode.live JobState.running
      ∷ job 2 TranscriptMode.on_demand JobState.running
      ∷ [];
}

crashed-IsNumbered : IsNumbered crashed
crashed-IsNumbered i = ground arith

full_read : segments_after crashed 1 none ≡ ok (row 1 0 ∷ row 1 1 ∷ [])
unfolding segments_after validate strip
full_read = refl

append_test : (append_segment crashed 1 spoken).0 ≡ ok yes_row
unfolding append_segment strip
append_test = refl

current_test :
    current_transcript crashed 7 ≡ some (transcript 1 TranscriptMode.live TranscriptState.live)
unfolding current_transcript
current_test = refl

segments_after-resume_example : segments_after crashed 1 (some 0) ≡ ok (row 1 1 ∷ [])
segments_after-resume_example = segments_after-resume crashed 1 0 crashed-IsNumbered full_read

segments_after-append_example :
    (segments_after (append_segment crashed 1 spoken).1 1 none
      ≡ ok (row 1 0 ∷ row 1 1 ∷ yes_row ∷ []))
    × (2 ≡ length (rows_of crashed 1))
segments_after-append_example =
    segments_after-append crashed 1 spoken crashed-IsNumbered full_read append_test

-- A segment of no length.
abbrev instant : NewSegment
instant = record { source = me; start_s = 4; end_s = 4; text = codes "hm" }

segments_after-poisoned_example :
    ((append_segment crashed 1 instant).0 ≡ err validation_error)
    × (segments_after (append_segment crashed 1 instant).1 1 none ≡ err validation_error)
segments_after-poisoned_example =
    segments_after-poisoned crashed 1 instant crashed-IsNumbered (inr (omega arith))

abbrev rerun : Transcript
rerun = transcript 3 TranscriptMode.on_demand TranscriptState.pending

abbrev rerun_job : TranscriptionJob
rerun_job = job 3 TranscriptMode.on_demand JobState.queued

abbrev with_rerun : Db
with_rerun = record crashed {
  transcripts = crashed.transcripts ++ rerun ∷ [];
  jobs = crashed.jobs ++ rerun_job ∷ [];
}

rerun_created : create_transcript crashed rerun rerun_job ≡ ok with_rerun
unfolding create_transcript
rerun_created = refl

jobs-reconcile_example :
    (reconcile_transcription crashed none 50).0.jobs ≡ map (restart_job 50) crashed.jobs
jobs-reconcile_example = jobs-reconcile crashed 50 ((refl, tt), (tt, tt))

rows_of-reconcile_example :
    rows_of (reconcile_transcription crashed none 50).0 1
    ≡ (if restarts crashed.jobs 1 then [] else rows_of crashed 1)
rows_of-reconcile_example = rows_of-reconcile crashed 50 1

reconcile-again_example :
    (reconcile_transcription (reconcile_transcription crashed none 50).0 none 60).0
    ≡ (reconcile_transcription crashed none 50).0
reconcile-again_example = reconcile-again crashed 50 60 ((refl, tt), (tt, tt))
