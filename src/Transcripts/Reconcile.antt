-- ===== src/Transcripts/Reconcile.antt =====
-- `reconcile_transcription` of storage/transcripts.py.
pub mod Recovery
pub mod Segments
pub mod Again
use ambient_recorder.Base.{
  ℕ, ◌+◌, Bool, Option, none, some, List, [], ◌∷◌, ◌==◌, if◌then◌else◌, false,
}
use ambient_recorder.Base.Text.{Text, codes}
use ambient_recorder.Transcripts.Rows.{
  TranscriptMode, TranscriptState, JobState, TranscriptionJob, Db,
}
use ambient_recorder.Transcripts.Store.{
  set_state, update_job, delete_segments, open_jobs, to_state, to_ended, to_reason, to_started,
  to_progress,
}

pub record Counts : Type 0 where
  pub interrupted_live : ℕ
  pub requeued : ℕ

abbrev restarted : Text
restarted = codes "recorder restarted during live transcription"

abbrev same_session : Option ℕ → ℕ → Bool
same_session none s = false
same_session (some a) s = s == a

-- A live transcript that lost its recorder is closed with its segments.
unfoldable pub interrupt_live : ℕ → ℕ → Db → Db
unfolding set_state update_job
interrupt_live now i db =
    update_job (set_state db i TranscriptState.interrupted_live false none none) i
      (to_state JobState.failed ∷ to_ended now ∷ to_reason restarted ∷ [])

-- An on-demand job starts again from nothing.
unfoldable pub requeue : ℕ → Db → Db
unfolding delete_segments update_job
requeue i db =
    update_job (delete_segments db i).1 i
      (to_state JobState.queued ∷ to_started none ∷ to_progress 0 ∷ [])

unfoldable pub reconcile_mode :
    TranscriptMode → Option ℕ → ℕ → TranscriptionJob → Db × Counts → Db × Counts
unfolding interrupt_live requeue
reconcile_mode TranscriptMode.live active now job (db, n) =
    if same_session active job.session_id then (db, n) else (
      interrupt_live now job.transcript_id db,
      record n { interrupted_live = n.interrupted_live + 1 },
    )
reconcile_mode TranscriptMode.on_demand active now job (db, n) =
    (requeue job.transcript_id db, record n { requeued = n.requeued + 1 })

unfoldable pub reconcile_jobs : Option ℕ → ℕ → List TranscriptionJob → Db × Counts → Db × Counts
unfolding reconcile_mode
reconcile_jobs active now [] st = st
reconcile_jobs active now (job ∷ jobs) st =
    reconcile_jobs active now jobs (reconcile_mode job.mode active now job st)

unfoldable pub reconcile_transcription : Db → Option ℕ → ℕ → Db × Counts
unfolding open_jobs reconcile_jobs
reconcile_transcription db active now =
    reconcile_jobs active now (open_jobs db) (db, record { interrupted_live = 0; requeued = 0 })
