-- ===== src/Transcripts/Reconcile/Recovery.antt =====
-- What a restart leaves of the open jobs.
use mathlib.Core.List.{append_assoc}
use ambient_recorder.Base.{
  update_where, ℕ, ◌≡◌, refl, ap, sym, ◌∙◌, subst, Bool, true, false, none, List, [], ◌∷◌, ◌++◌,
  map, arith, keep, All, All-every, ◌==◌, if◌then◌else◌, Bool-cases, inl, inr,
}
use ambient_recorder.Transcripts.Rows.{TranscriptMode, JobState, TranscriptionJob, Db}
use ambient_recorder.Transcripts.Store.{
  job_of, is_open, set_fields, set_state, update_job, delete_segments, open_jobs, JobField,
  to_state, to_ended, to_reason, to_started, to_progress,
}
use ambient_recorder.Transcripts.Reconcile.{
  Counts, interrupt_live, requeue, restarted, reconcile_mode, reconcile_jobs,
  reconcile_transcription,
}

-- No job of the list has the identifier.
abbrev pub Fresh : ℕ → List TranscriptionJob → Type 0
Fresh i js = All (λ j. job_of i j ≡ false) js

-- The primary key of the job table.
abbrev pub DistinctJobs : List TranscriptionJob → Type 0
DistinctJobs [] = Unit {0}
DistinctJobs (j ∷ js) = Fresh j.transcript_id js × DistinctJobs js

-- What the restart makes of one job.
abbrev pub restart_fields : ℕ → TranscriptMode → List JobField
restart_fields now TranscriptMode.live =
    to_state JobState.failed ∷ to_ended now ∷ to_reason restarted ∷ []
restart_fields now TranscriptMode.on_demand =
    to_state JobState.queued ∷ to_started none ∷ to_progress 0 ∷ []

abbrev pub restart_job : ℕ → TranscriptionJob → TranscriptionJob
restart_job now j = if is_open j.state then set_fields (restart_fields now j.mode) j else j

update-Fresh :
    (i : ℕ) (f : TranscriptionJob → TranscriptionJob) (js : List TranscriptionJob)
    → Fresh i js
    → update_where (job_of i) f js ≡ js
update-Fresh i f [] h = refl
update-Fresh i f (j ∷ js) h = ground (arith, update-Fresh i f js h.1)

update-append :
    (p : TranscriptionJob → Bool) (f : TranscriptionJob → TranscriptionJob)
    (xs ys : List TranscriptionJob)
    → update_where p f (xs ++ ys) ≡ update_where p f xs ++ update_where p f ys
update-append p f [] ys = refl
update-append p f (x ∷ xs) ys = ground (arith, update-append p f xs ys)

id_self : (n : ℕ) → (n == n) ≡ true
id_self n = ground arith

-- The update of one job in the table touches that job alone.
update_one :
    (f : TranscriptionJob → TranscriptionJob) (xs : List TranscriptionJob) (j : TranscriptionJob)
    (ys : List TranscriptionJob)
    → Fresh j.transcript_id xs
    → Fresh j.transcript_id ys
    → update_where (job_of j.transcript_id) f (xs ++ j ∷ ys) ≡ xs ++ f j ∷ ys
update_one f xs j ys hx hy =
    rw (update-append (job_of j.transcript_id) f xs (j ∷ ys), update-Fresh j.transcript_id f xs hx)
      (ap (λ rest. xs ++ rest)
        (ground (arith, update-Fresh j.transcript_id f ys hy, id_self j.transcript_id)))

jobs-mode :
    (now : ℕ) (mode : TranscriptMode) (j : TranscriptionJob) (st : Db × Counts)
    → (reconcile_mode mode none now j st).0.jobs
      ≡ update_where (job_of j.transcript_id) (set_fields (restart_fields now mode)) st.0.jobs
unfolding reconcile_mode interrupt_live requeue set_state update_job delete_segments
jobs-mode now TranscriptMode.live j (db, n) = refl
jobs-mode now TranscriptMode.on_demand j (db, n) = refl

abbrev Apart : List TranscriptionJob → List TranscriptionJob → Type 0
Apart xs ys = All (λ y. Fresh y.transcript_id xs) ys

pub id-restart :
    (now : ℕ) (j : TranscriptionJob) → (restart_job now j).transcript_id ≡ j.transcript_id
id-restart now j = go (is_open j.state) j.mode
  where
    go :
        (b : Bool) (m : TranscriptMode)
        → (if b then set_fields (restart_fields now m) j else j).transcript_id ≡ j.transcript_id
    go true TranscriptMode.live = refl
    go true TranscriptMode.on_demand = refl
    go false m = refl

Fresh-snoc :
    (i : ℕ) (xs : List TranscriptionJob) (j : TranscriptionJob)
    → Fresh i xs
    → job_of i j ≡ false
    → Fresh i (xs ++ j ∷ [])
Fresh-snoc i [] j h e = (e, tt)
Fresh-snoc i (x ∷ xs) j h e = (h.0, Fresh-snoc i xs j h.1 e)

eq_swap : (a b : ℕ) → (a == b) ≡ false → (b == a) ≡ false
eq_swap a b h = ground arith

Apart-snoc :
    (xs ys : List TranscriptionJob) (j : TranscriptionJob)
    → Apart xs ys
    → Fresh j.transcript_id ys
    → Apart (xs ++ j ∷ []) ys
Apart-snoc xs [] j h f = tt
Apart-snoc xs (y ∷ ys) j h f = (
  Fresh-snoc y.transcript_id xs j h.0 (eq_swap y.transcript_id j.transcript_id f.0),
  Apart-snoc xs ys j h.1 f.1,
)

jobs-step :
    (now : ℕ) (xs : List TranscriptionJob) (y : TranscriptionJob) (ys : List TranscriptionJob)
    (st : Db × Counts)
    → st.0.jobs ≡ xs ++ y ∷ ys
    → Apart xs (y ∷ ys)
    → Fresh y.transcript_id ys
    → (reconcile_mode y.mode none now y st).0.jobs
      ≡ (xs ++ set_fields (restart_fields now y.mode) y ∷ []) ++ ys
jobs-step now xs y ys st h ap fr =
    jobs-mode now y.mode y st
    ∙ rw h (update_one (set_fields (restart_fields now y.mode)) xs y ys ap.0 fr)
    ∙ sym (append_assoc xs (set_fields (restart_fields now y.mode) y ∷ []) ys)

keep_open :
    (y : TranscriptionJob) (ys : List TranscriptionJob)
    → is_open y.state ≡ true
    → keep (λ j. is_open j.state) (y ∷ ys) ≡ y ∷ keep (λ j. is_open j.state) ys
keep_open y ys o = rw o

keep_closed :
    (y : TranscriptionJob) (ys : List TranscriptionJob)
    → is_open y.state ≡ false
    → keep (λ j. is_open j.state) (y ∷ ys) ≡ keep (λ j. is_open j.state) ys
keep_closed y ys c = rw c

restart_open :
    (now : ℕ) (j : TranscriptionJob)
    → is_open j.state ≡ true
    → restart_job now j ≡ set_fields (restart_fields now j.mode) j
restart_open now j o = rw o

restart_closed : (now : ℕ) (j : TranscriptionJob) → is_open j.state ≡ false → restart_job now j ≡ j
restart_closed now j c = rw c

jobs-from :
    (now : ℕ) (xs ys : List TranscriptionJob) (st : Db × Counts)
    → st.0.jobs ≡ xs ++ ys
    → Apart xs ys
    → DistinctJobs ys
    → (reconcile_jobs none now (keep (λ j. is_open j.state) ys) st).0.jobs
      ≡ xs ++ map (restart_job now) ys
unfolding reconcile_jobs
jobs-from now xs [] st h a d = h
jobs-from now xs (y ∷ ys) st h a d =
    let r = restart_job now y in
    let rest = λ (st' : Db × Counts) (e : st'.0.jobs ≡ (xs ++ r ∷ []) ++ ys).
      jobs-from now (xs ++ r ∷ []) ys st' e
        (Apart-snoc xs ys r a.1 (subst (λ i. Fresh i ys) (sym (id-restart now y)) d.0)) d.1
      ∙ append_assoc xs (r ∷ []) (map (restart_job now) ys) in
    let after = λ (js : List TranscriptionJob). (reconcile_jobs none now js st).0.jobs in
    elim (Bool-cases (is_open y.state)) [
      | inl o ↦
          ap after (keep_open y ys o)
          ∙ rest (reconcile_mode y.mode none now y st) (
              jobs-step now xs y ys st h a d.0
              ∙ ap (λ j. (xs ++ j ∷ []) ++ ys) (sym (restart_open now y o)))
      | inr c ↦
          ap after (keep_closed y ys c)
          ∙ rest st (
              h
              ∙ ap (λ j. xs ++ j ∷ ys) (sym (restart_closed now y c))
              ∙ sym (append_assoc xs (r ∷ []) ys))
    ]

-- At startup, when no session is active, every open job is settled and no other job is touched: a
-- live one has failed, an on-demand one waits in the queue again, from its first chunk.
pub jobs-reconcile :
    (db : Db) (now : ℕ)
    → DistinctJobs db.jobs
    → (reconcile_transcription db none now).0.jobs ≡ map (restart_job now) db.jobs
unfolding reconcile_transcription open_jobs
jobs-reconcile db now d =
    jobs-from now [] db.jobs (db, record { interrupted_live = 0; requeued = 0 }) refl
      (All-every (λ y. tt) db.jobs) d
