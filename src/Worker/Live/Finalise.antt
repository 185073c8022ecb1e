-- ===== src/Worker/Live/Finalise.antt =====
-- How a live transcription ends.
use ambient_recorder.Base.{
  map_option, find-update_where, ℕ, ◌≡◌, refl, ap, ◌∙◌, arith, Bool, true, false, Option, none,
  some, List, [], ◌∷◌, find, ltb, ◌==◌,
}
use ambient_recorder.Base.Text.{Text}
use ambient_recorder.Attribution.Decide.{AttributionConfig}
use ambient_recorder.Transcripts.Rows.{
  Transcript, TranscriptionJob, TranscriptState, JobState, NewSegment, Db,
}
use ambient_recorder.Transcripts.Store.{
  has_id, job_of, get_transcript, get_job, set_state, update_job, set_field, set_fields, JobField,
  to_progress, to_total, to_started, append_segment, to_state, to_ended, to_lag, to_reason,
}
use ambient_recorder.Worker.State.{LiveSession, Worker, lookup, remove, lookup-remove}
use ambient_recorder.Worker.Chunk.{done}
use ambient_recorder.Worker.Live.Steps.{
  flush_pending, await_backlog, complete, end_live, finalise_live, fail_live,
}
use ambient_recorder.Worker.Live.Flushed.{flush_pending_keeps}

-- What a change of state does to a transcript, and a change of fields to a job.
abbrev pub in_state : TranscriptState → Bool → Option Text → Option ℕ → Transcript → Transcript
in_state state final reason none t = record t {
  state = state;
  final = final;
  failure_reason = reason;
}
in_state state final reason (some at) t = record t {
  state = state;
  final = final;
  failure_reason = reason;
  finalised_at = some at;
}

pub get_transcript-set_state :
    (db : Db) (i : ℕ) (state : TranscriptState) (final : Bool) (reason : Option Text)
    (at : Option ℕ)
    → get_transcript (set_state db i state final reason at) i
      ≡ map_option (in_state state final reason at) (get_transcript db i)
unfolding get_transcript set_state
get_transcript-set_state db i state final reason none =
    find-update_where (has_id i) _ db.transcripts (λ t. refl)
get_transcript-set_state db i state final reason (some at) =
    find-update_where (has_id i) _ db.transcripts (λ t. refl)

set_field-id :
    (f : JobField) (j : TranscriptionJob) → (set_field f j).transcript_id ≡ j.transcript_id
set_field-id (to_state s) j = refl
set_field-id (to_progress n) j = refl
set_field-id (to_total n) j = refl
set_field-id (to_lag n) j = refl
set_field-id (to_started t) j = refl
set_field-id (to_ended t) j = refl
set_field-id (to_reason r) j = refl

set_fields-id :
    (fs : List JobField) (j : TranscriptionJob) → (set_fields fs j).transcript_id ≡ j.transcript_id
set_fields-id [] j = refl
set_fields-id (f ∷ fs) j = set_fields-id fs (set_field f j) ∙ set_field-id f j

pub get_transcript-update_job :
    (db : Db) (i j : ℕ) (fs : List JobField)
    → get_transcript (update_job db i fs) j ≡ get_transcript db j
unfolding get_transcript update_job
get_transcript-update_job db i j fs = refl

pub get_job-update_job :
    (db : Db) (i : ℕ) (fs : List JobField)
    → get_job (update_job db i fs) i ≡ map_option (set_fields fs) (get_job db i)
unfolding get_job update_job
get_job-update_job db i fs =
    find-update_where (job_of i) (set_fields fs) db.jobs
      (λ j. ap (λ x. x == i) (set_fields-id fs j))

pub get_job-set_state :
    (db : Db) (i j : ℕ) (state : TranscriptState) (final : Bool) (reason : Option Text)
    (at : Option ℕ)
    → get_job (set_state db i state final reason at) j ≡ get_job db j
unfolding get_job set_state
get_job-set_state db i j state final reason at = refl

abbrev pub SameTables : Db → Db → Type 0
SameTables a b = (b.transcripts ≡ a.transcripts) × (b.jobs ≡ a.jobs)

pub append-SameTables :
    (a b : Db) (i : ℕ) (s : NewSegment) → SameTables a b → SameTables a (append_segment b i s).1
unfolding append_segment
append-SameTables a b i s h = h

pub get_transcript-same :
    (a b : Db) (i : ℕ) → SameTables a b → get_transcript b i ≡ get_transcript a i
unfolding get_transcript
get_transcript-same a b i h = ap (find (has_id i)) h.0

pub get_job-same : (a b : Db) (i : ℕ) → SameTables a b → get_job b i ≡ get_job a i
unfolding get_job
get_job-same a b i h = ap (find (job_of i)) h.1

pub forgotten : (k : ℕ) {V : Type 0} (m : List (ℕ × V)) → lookup k (remove k m) ≡ none
forgotten k m = grind (arith, lookup-remove k k m)

module _ {Sample Level : Type 0} (cfg : AttributionConfig) (w : Worker Sample Level)
    (session_id now : ℕ) (live : LiveSession Sample Level) where
  -- With chunks outstanding the session stays, and its transcript is finalising.
  pub finalise_live-waits :
      lookup session_id w.live ≡ some live
      → ltb 0 live.outstanding ≡ true
      → ((finalise_live cfg w session_id now).live ≡ w.live)
        × (get_transcript (finalise_live cfg w session_id now).db live.transcript_id
            ≡ map_option
                (in_state TranscriptState.finalising false none none)
                (get_transcript w.db live.transcript_id))
  unfolding finalise_live await_backlog
  finalise_live-waits h o =
      let i = live.transcript_id in
      let fs = to_state JobState.finalising ∷ [] in
      rw (h, o)
        (
          refl,
          get_transcript-set_state (update_job w.db i fs) i TranscriptState.finalising false none
                none
              ∙ ap (map_option (in_state TranscriptState.finalising false none none))
                  (get_transcript-update_job w.db i i fs),
        )

  complete-transcript :
      (at : Worker Sample Level)
      → SameTables w.db at.db
      → get_transcript (complete cfg live.transcript_id now done at).db live.transcript_id
        ≡ map_option
            (in_state TranscriptState.completed true none (some now))
            (get_transcript w.db live.transcript_id)
  unfolding complete
  complete-transcript at same =
      let i = live.transcript_id in
      let db = set_state at.db i TranscriptState.completed true none (some now) in
      get_transcript-update_job db i i (to_state JobState.completed ∷ to_ended now ∷ to_lag 0 ∷ [])
      ∙ get_transcript-set_state at.db i TranscriptState.completed true none (some now)
      ∙ ap (map_option (in_state TranscriptState.completed true none (some now)))
          (get_transcript-same w.db at.db i same)

  complete-job :
      (at : Worker Sample Level)
      → SameTables w.db at.db
      → get_job (complete cfg live.transcript_id now done at).db live.transcript_id
        ≡ map_option
            (set_fields (to_state JobState.completed ∷ to_ended now ∷ to_lag 0 ∷ []))
            (get_job w.db live.transcript_id)
  unfolding complete
  complete-job at same =
      let i = live.transcript_id in
      let fs = to_state JobState.completed ∷ to_ended now ∷ to_lag 0 ∷ [] in
      let db = set_state at.db i TranscriptState.completed true none (some now) in
      get_job-update_job db i fs
      ∙ ap (map_option (set_fields fs)) (
          get_job-set_state at.db i i TranscriptState.completed true none (some now)
          ∙ get_job-same w.db at.db i same)

  -- With none outstanding the session is forgotten. When the flush does not raise, its transcript
  -- is completed and final, its job completed, and both say when.
  pub finalise_live-completes :
      lookup session_id w.live ≡ some live
      → ltb 0 live.outstanding ≡ false
      → (flush_pending cfg true w.db w.stream live).outcome ≡ done
      → (lookup session_id (finalise_live cfg w session_id now).live ≡ none)
        × (get_transcript (finalise_live cfg w session_id now).db live.transcript_id
            ≡ map_option
                (in_state TranscriptState.completed true none (some now))
                (get_transcript w.db live.transcript_id))
        × (get_job (finalise_live cfg w session_id now).db live.transcript_id
            ≡ map_option
                (set_fields (to_state JobState.completed ∷ to_ended now ∷ to_lag 0 ∷ []))
                (get_job w.db live.transcript_id))
  unfolding finalise_live end_live
  finalise_live-completes h o q =
      let st = flush_pending cfg true w.db w.stream live in
      let at = record w { db = st.db; stream = st.stream; live = remove session_id w.live } in
      let same =
        flush_pending_keeps cfg w.db w.stream live (SameTables w.db) (append-SameTables w.db) true
          (refl, refl) in
      rw (h, o, q)
        (
          (unfold complete in forgotten session_id w.live),
          complete-transcript at same,
          complete-job at same,
        )

  -- A failure forgets the session, whatever is pending or outstanding, and its transcript and its
  -- job have failed with the reason.
  pub fail_live-failed :
      (reason : Text)
      → (lookup session_id (fail_live cfg w live session_id reason now).live ≡ none)
        × (get_transcript (fail_live cfg w live session_id reason now).db live.transcript_id
            ≡ map_option
                (in_state TranscriptState.failed false (some reason) none)
                (get_transcript w.db live.transcript_id))
        × (get_job (fail_live cfg w live session_id reason now).db live.transcript_id
            ≡ map_option
                (set_fields (to_state JobState.failed ∷ to_ended now ∷ to_reason reason ∷ []))
                (get_job w.db live.transcript_id))
  unfolding fail_live
  fail_live-failed reason =
      let i = live.transcript_id in
      let fs = to_state JobState.failed ∷ to_ended now ∷ to_reason reason ∷ [] in
      let db = set_state w.db i TranscriptState.failed false (some reason) none in
      (
        forgotten session_id w.live,
        get_transcript-update_job db i i fs
            ∙ get_transcript-set_state w.db i TranscriptState.failed false (some reason) none,
        get_job-update_job db i fs
            ∙ ap (map_option (set_fields fs))
                (get_job-set_state w.db i i TranscriptState.failed false (some reason) none),
      )
