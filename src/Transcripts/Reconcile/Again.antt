-- ===== src/Transcripts/Reconcile/Again.antt =====
-- A second restart changes nothing.
use ambient_recorder.Base.{
  ℕ, ◌≡◌, refl, ap, ap₂, sym, ◌∙◌, subst, Bool, true, false, not, ◌&&◌, none, List, [], ◌∷◌, map,
  arith, keep, keep-keep, keep-same, Bool-cases, All, inl, inr,
}
use ambient_recorder.Transcripts.Rows.{TranscriptSegment, TranscriptMode, TranscriptionJob, Db}
use ambient_recorder.Transcripts.Store.{
  is_open, is_on_demand, update_job, delete_segments, open_jobs,
}
use ambient_recorder.Transcripts.Reconcile.{
  Counts, requeue, reconcile_mode, reconcile_jobs, reconcile_transcription,
}
use ambient_recorder.Transcripts.Reconcile.Recovery.{
  restart_job, DistinctJobs, Fresh, id-restart, jobs-reconcile,
}
use ambient_recorder.Transcripts.Reconcile.Segments.{restarts, segments-jobs}

transcripts-mode :
    (now : ℕ) (mode : TranscriptMode) (j : TranscriptionJob) (st : Db × Counts)
    → is_on_demand mode ≡ true
    → (reconcile_mode mode none now j st).0.transcripts ≡ st.0.transcripts
unfolding reconcile_mode requeue update_job delete_segments
transcripts-mode now TranscriptMode.live j st h = cc
transcripts-mode now TranscriptMode.on_demand j (db, n) h = refl

transcripts-jobs :
    (now : ℕ) (js : List TranscriptionJob) (st : Db × Counts)
    → All (λ j. is_on_demand j.mode ≡ true) js
    → (reconcile_jobs none now js st).0.transcripts ≡ st.0.transcripts
unfolding reconcile_jobs
transcripts-jobs now [] st h = refl
transcripts-jobs now (j ∷ js) st h =
    transcripts-jobs now js (reconcile_mode j.mode none now j st) h.1
    ∙ transcripts-mode now j.mode j st h.0

-- A job that is open after a restart is on demand.
open_restart :
    (now : ℕ) (j : TranscriptionJob)
    → is_open (restart_job now j).state ≡ true
    → is_on_demand (restart_job now j).mode ≡ true
open_restart now j h = ground arith

open-restart :
    (now : ℕ) (js : List TranscriptionJob)
    → All (λ j. is_on_demand j.mode ≡ true) (keep (λ j. is_open j.state) (map (restart_job now) js))
open-restart now [] = tt
open-restart now (j ∷ js) = elim (Bool-cases (is_open (restart_job now j).state)) [
  | inl o ↦ rw o (open_restart now j o, open-restart now js)
  | inr c ↦ rw c (open-restart now js)
]

restart_same :
    (now later : ℕ) (j : TranscriptionJob)
    → restart_job later (restart_job now j) ≡ restart_job now j
restart_same now later j = go (is_open j.state) j.mode refl refl
  where
    go :
        (b : Bool) (m : TranscriptMode)
        → is_open j.state ≡ b
        → j.mode ≡ m
        → restart_job later (restart_job now j) ≡ restart_job now j
    go true TranscriptMode.live o m = ground arith
    go true TranscriptMode.on_demand o m = ground arith
    go false m o e = rw o (rw o)

restart_all :
    (now later : ℕ) (js : List TranscriptionJob)
    → map (restart_job later) (map (restart_job now) js) ≡ map (restart_job now) js
restart_all now later [] = refl
restart_all now later (j ∷ js) = ap₂ ◌∷◌ (restart_same now later j) (restart_all now later js)

restarts-restart :
    (now : ℕ) (js : List TranscriptionJob) (i : ℕ)
    → restarts (map (restart_job now) js) i ≡ restarts js i
restarts-restart now [] i = refl
restarts-restart now (j ∷ js) i = ground (arith, restarts-restart now js i)

Fresh-restart :
    (now i : ℕ) (js : List TranscriptionJob) → Fresh i js → Fresh i (map (restart_job now) js)
Fresh-restart now i [] h = tt
Fresh-restart now i (j ∷ js) h = (rw (id-restart now j) h.0, Fresh-restart now i js h.1)

DistinctJobs-restart :
    (now : ℕ) (js : List TranscriptionJob)
    → DistinctJobs js
    → DistinctJobs (map (restart_job now) js)
DistinctJobs-restart now [] h = tt
DistinctJobs-restart now (j ∷ js) h = (
  rw (id-restart now j) (Fresh-restart now j.transcript_id js h.0),
  DistinctJobs-restart now js h.1,
)

drop_again :
    (w v : ℕ → Bool)
    → ((i : ℕ) → v i ≡ w i)
    → (s : TranscriptSegment)
    → (not (w s.transcript_id) && not (v s.transcript_id)) ≡ not (w s.transcript_id)
drop_again w v h s = ground (arith, h s.transcript_id)

Db-eq :
    (a b : Db) → a.transcripts ≡ b.transcripts → a.segments ≡ b.segments → a.jobs ≡ b.jobs → a ≡ b
Db-eq a b t s j = ground arith

-- The segments and the transcripts that one restart leaves.
segments-restart :
    (db : Db) (now : ℕ)
    → (reconcile_transcription db none now).0.segments
      ≡ keep (λ s. not (restarts db.jobs s.transcript_id)) db.segments
unfolding reconcile_transcription open_jobs
segments-restart db now =
    segments-jobs now (keep (λ j. is_open j.state) db.jobs)
      (db, record { interrupted_live = 0; requeued = 0 })

transcripts-restart :
    (db : Db) (now : ℕ)
    → All (λ j. is_on_demand j.mode ≡ true) (keep (λ j. is_open j.state) db.jobs)
    → (reconcile_transcription db none now).0.transcripts ≡ db.transcripts
unfolding reconcile_transcription open_jobs
transcripts-restart db now h =
    transcripts-jobs now (keep (λ j. is_open j.state) db.jobs)
      (db, record { interrupted_live = 0; requeued = 0 }) h

keep_again :
    (w v : ℕ → Bool) (ss : List TranscriptSegment)
    → ((i : ℕ) → v i ≡ w i)
    → keep (λ s. not (v s.transcript_id)) (keep (λ s. not (w s.transcript_id)) ss)
      ≡ keep (λ s. not (w s.transcript_id)) ss
keep_again w v ss h = keep-keep _ _ ss ∙ keep-same _ _ ss (drop_again w v h)

module _ (db : Db) (now later : ℕ) (d : DistinctJobs db.jobs) where
  abbrev once : Db
  once = (reconcile_transcription db none now).0

  jobs-once : once.jobs ≡ map (restart_job now) db.jobs
  jobs-once = jobs-reconcile db now d

  -- A second restart, with no recording between, leaves the tables as the first one left them.
  pub reconcile-again : (reconcile_transcription once none later).0 ≡ once
  reconcile-again =
      Db-eq (reconcile_transcription once none later).0 once
        (transcripts-restart once later (
          subst (λ js. All (λ j. is_on_demand j.mode ≡ true) (keep (λ j. is_open j.state) js))
            (sym jobs-once) (open-restart now db.jobs)))
        (segments-restart once later
          ∙ ap (keep (λ s. not (restarts once.jobs s.transcript_id))) (segments-restart db now)
          ∙ keep_again (restarts db.jobs) (restarts once.jobs) db.segments
              (λ i. ap (λ js. restarts js i) jobs-once ∙ restarts-restart now db.jobs i)
          ∙ sym (segments-restart db now))
        (jobs-reconcile once later
            (subst DistinctJobs (sym jobs-once) (DistinctJobs-restart now db.jobs d))
          ∙ ap (map (restart_job later)) jobs-once
          ∙ restart_all now later db.jobs
          ∙ sym jobs-once)
