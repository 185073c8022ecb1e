-- ===== src/Transcripts/Reconcile/Segments.antt =====
-- What a restart leaves of the segments, and a second restart.
use ambient_recorder.Base.{
  ℕ, ◌≡◌, refl, ap, sym, ◌∙◌, Bool, true, not, any, ◌&&◌, none, List, [], ◌∷◌, arith, keep,
  keep-keep, keep-same, ◌==◌, if◌then◌else◌,
}
use ambient_recorder.Transcripts.Rows.{TranscriptSegment, TranscriptMode, TranscriptionJob, Db}
use ambient_recorder.Transcripts.Store.{
  is_of, is_open, is_on_demand, set_state, update_job, delete_segments, open_jobs,
}
use ambient_recorder.Transcripts.Store.Seqs.{rows_of}
use ambient_recorder.Transcripts.Reconcile.{
  Counts, interrupt_live, requeue, reconcile_mode, reconcile_jobs, reconcile_transcription,
}

-- An on-demand job of the list writes to the transcript.
abbrev pub redone : List TranscriptionJob → ℕ → Bool
redone js i = any (λ j. is_on_demand j.mode && (j.transcript_id == i)) js

keep_every : (ss : List TranscriptSegment) → keep (λ s. true) ss ≡ ss
keep_every [] = refl
keep_every (s ∷ ss) = ap (λ t. s ∷ t) (keep_every ss)

segments-mode :
    (now : ℕ) (mode : TranscriptMode) (j : TranscriptionJob) (st : Db × Counts)
    → (reconcile_mode mode none now j st).0.segments
      ≡ keep (λ s. not (is_on_demand mode && is_of j.transcript_id s)) st.0.segments
unfolding reconcile_mode interrupt_live requeue set_state update_job delete_segments
segments-mode now TranscriptMode.live j (db, n) = sym (keep_every db.segments)
segments-mode now TranscriptMode.on_demand j (db, n) = refl

not_either :
    (j : TranscriptionJob) (js : List TranscriptionJob) (s : TranscriptSegment)
    → (not (is_on_demand j.mode && is_of j.transcript_id s) && not (redone js s.transcript_id))
      ≡ not (redone (j ∷ js) s.transcript_id)
not_either j js s = ground arith

pub segments-jobs :
    (now : ℕ) (js : List TranscriptionJob) (st : Db × Counts)
    → (reconcile_jobs none now js st).0.segments
      ≡ keep (λ s. not (redone js s.transcript_id)) st.0.segments
unfolding reconcile_jobs
segments-jobs now [] st = sym (keep_every st.0.segments)
segments-jobs now (j ∷ js) st =
    let st' = reconcile_mode j.mode none now j st in
    segments-jobs now js st'
    ∙ ap (keep (λ s. not (redone js s.transcript_id))) (segments-mode now j.mode j st)
    ∙ keep-keep _ _ st.0.segments
    ∙ keep-same _ _ st.0.segments (not_either j js)

-- The open jobs that are on demand, as a test on transcripts.
abbrev pub restarts : List TranscriptionJob → ℕ → Bool
restarts js i = redone (keep (λ j. is_open j.state) js) i

same_test : (w : ℕ → Bool) (a b : ℕ) → (a == b) ≡ true → w a ≡ w b
same_test w a b h = ap w (ground arith)

keep_nothing :
    (i : ℕ) (w : ℕ → Bool) (ss : List TranscriptSegment)
    → keep (is_of i) (keep (λ s. not (w s.transcript_id)) ss)
      ≡ (if w i then [] else keep (is_of i) ss)
keep_nothing i w [] = ground arith
keep_nothing i w (s ∷ ss) = ground (arith, keep_nothing i w ss, same_test w s.transcript_id i)

-- A restart keeps the segments of every transcript, but of those that an open on-demand job writes:
-- these start again from none.
pub rows_of-reconcile :
    (db : Db) (now i : ℕ)
    → rows_of (reconcile_transcription db none now).0 i
      ≡ (if restarts db.jobs i then [] else rows_of db i)
unfolding reconcile_transcription open_jobs
rows_of-reconcile db now i =
    ap (keep (is_of i)) (
      segments-jobs now (keep (λ j. is_open j.state) db.jobs)
        (db, record { interrupted_live = 0; requeued = 0 }))
    ∙ keep_nothing i (restarts db.jobs) db.segments
