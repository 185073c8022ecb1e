-- ===== src/Transcripts/Store.antt =====
-- `SqliteTranscriptStore`. Each operation runs under the store's lock, in one transaction.
pub mod Seqs
pub mod Cursor
pub mod Append
pub mod Current
use ambient_recorder.Base.{
  ℕ, zero, suc, ◌+◌, Bool, true, false, not, ◌&&◌, ◌||◌, Option, none, some, List, [], ◌∷◌, ◌++◌,
  map, ltb, leb, ◌==◌, update_where, if◌then◌else◌, length, keep, find, max,
}
use ambient_recorder.Base.Sort.{sort}
use ambient_recorder.Base.Text.{Text, strip}
use ambient_recorder.Transcripts.Rows.{
  TranscriptMode, TranscriptState, JobState, Transcript, TranscriptSegment, NewSegment,
  TranscriptionJob, Db, validate, is_valid,
}

-- What a caller gets: a value, or one of the exceptions.
pub data Error : Type 0 where
  integrity_error validation_error : Error

pub data Result {ℓ} (A : Type ℓ) : Type ℓ where
  ok : A → Result A
  err : Error → Result A

abbrev pub has_id : ℕ → Transcript → Bool
has_id i t = t.id == i

abbrev pub is_of : ℕ → TranscriptSegment → Bool
is_of i s = s.transcript_id == i

abbrev pub job_of : ℕ → TranscriptionJob → Bool
job_of i j = j.transcript_id == i

abbrev exists {ℓ} : {A : Type ℓ} → Option A → Bool
exists none = false
exists (some a) = true

-- Both rows, or neither: an identifier that is taken raises and rolls back.
unfoldable pub create_transcript : Db → Transcript → TranscriptionJob → Result Db
create_transcript db t job =
    if exists (find (has_id t.id) db.transcripts)
      || exists (find (job_of job.transcript_id) db.jobs)
    then err integrity_error
    else ok (record db { transcripts = db.transcripts ++ t ∷ []; jobs = db.jobs ++ job ∷ [] })

-- `COALESCE(MAX(seq), -1) + 1`
unfoldable pub next_seq : List TranscriptSegment → ℕ
next_seq [] = 0
next_seq (s ∷ ss) = max (s.seq + 1) (next_seq ss)

abbrev pub stored : ℕ → ℕ → NewSegment → TranscriptSegment
stored i seq s = record {
  transcript_id = i;
  seq = seq;
  source = s.source;
  start_s = s.start_s;
  end_s = s.end_s;
  text = strip s.text;
}

abbrev pub of_option {ℓ} : {A : Type ℓ} → Option A → Result A
of_option none = err validation_error
of_option (some a) = ok a

-- The row is committed before the returned `TranscriptSegment` is validated.
unfoldable pub append_segment : Db → ℕ → NewSegment → Result TranscriptSegment × Db
unfolding next_seq validate
append_segment db i s =
    let seq = next_seq (keep (is_of i) db.segments) in
    let row = stored i seq s in
    (
      of_option (validate (record row { text = s.text })),
      record db { segments = db.segments ++ row ∷ [] },
    )

-- The keyword arguments of `update_job`.
pub data JobField : Type 0 where
  to_state : JobState → JobField
  to_progress : ℕ → JobField
  to_total : ℕ → JobField
  to_lag : ℕ → JobField
  to_started : Option ℕ → JobField
  to_ended : ℕ → JobField
  to_reason : Text → JobField

abbrev pub set_field : JobField → TranscriptionJob → TranscriptionJob
set_field (to_state s) j = record j { state = s }
set_field (to_progress n) j = record j { progress_chunks = n }
set_field (to_total n) j = record j { total_chunks = some n }
set_field (to_lag n) j = record j { lag_s = some n }
set_field (to_started t) j = record j { started_at = t }
set_field (to_ended t) j = record j { ended_at = some t }
set_field (to_reason r) j = record j { failure_reason = some r }

abbrev pub set_fields : List JobField → TranscriptionJob → TranscriptionJob
set_fields [] j = j
set_fields (f ∷ fs) j = set_fields fs (set_field f j)

unfoldable pub update_job : Db → ℕ → List JobField → Db
update_job db i fs = record db { jobs = update_where (job_of i) (set_fields fs) db.jobs }

abbrev coalesce {ℓ} : {A : Type ℓ} → Option A → Option A → Option A
coalesce none b = b
coalesce (some a) b = some a

unfoldable pub set_state : Db → ℕ → TranscriptState → Bool → Option Text → Option ℕ → Db
set_state db i state final reason at = record db {
  transcripts =
      update_where (has_id i)
        (λ t. record t {
          state = state;
          final = final;
          failure_reason = reason;
          finalised_at = coalesce at t.finalised_at;
        })
        db.transcripts;
}

-- The number of rows that were deleted, and the tables without them.
unfoldable pub delete_segments : Db → ℕ → ℕ × Db
delete_segments db i = (
  length (keep (is_of i) db.segments),
  record db { segments = keep (λ s. not (is_of i s)) db.segments },
)

unfoldable pub set_engine : Db → ℕ → Text → Text → Db
set_engine db i engine model = record db {
  transcripts =
      update_where (has_id i) (λ t. record t { engine = some engine; model = some model })
        db.transcripts;
}

-- `ORDER BY created_at DESC, id DESC`
abbrev pub newer : Transcript → Transcript → Bool
newer a b = ltb b.created_at a.created_at || (b.created_at == a.created_at && leb b.id a.id)

abbrev pub first {ℓ} : {A : Type ℓ} → List A → Option A
first [] = none
first (x ∷ xs) = some x

-- `state NOT IN ('failed', 'pending')`
abbrev pub is_current_state : TranscriptState → Bool
is_current_state TranscriptState.failed = false
is_current_state TranscriptState.pending = false
is_current_state _ = true

abbrev pub is_pending : TranscriptState → Bool
is_pending TranscriptState.pending = true
is_pending _ = false

abbrev pub eligible : ℕ → Transcript → Bool
eligible session t = t.session_id == session && is_current_state t.state

unfoldable pub current_transcript : Db → ℕ → Option Transcript
unfolding sort
current_transcript db session = first (sort newer (keep (eligible session) db.transcripts))

-- `ORDER BY created_at DESC`; of equal times the earlier row comes first.
abbrev pub not_older : Transcript → Transcript → Bool
not_older a b = leb b.created_at a.created_at

unfoldable pub pending_transcript : Db → ℕ → Option Transcript
unfolding sort
pending_transcript db session =
    first
      (sort not_older (keep (λ t. t.session_id == session && is_pending t.state) db.transcripts))

pub record TranscriptSummary : Type 0 where
  pub id : ℕ
  pub mode : TranscriptMode
  pub state : TranscriptState
  pub final : Bool
  pub superseded : Bool
  pub model : Option Text
  pub created_at : ℕ
  pub finalised_at : Option ℕ
  pub segment_count : ℕ

abbrev pub is_superseded : Option Transcript → Transcript → Bool
is_superseded none t = false
is_superseded (some current) t = is_current_state t.state && not (t.id == current.id)

abbrev pub summary_of : Db → Option Transcript → Transcript → TranscriptSummary
summary_of db current t = record {
  id = t.id;
  mode = t.mode;
  state = t.state;
  final = t.final;
  superseded = is_superseded current t;
  model = t.model;
  created_at = t.created_at;
  finalised_at = t.finalised_at;
  segment_count = length (keep (is_of t.id) db.segments);
}

unfoldable pub list_transcripts : Db → ℕ → List TranscriptSummary
unfolding current_transcript
list_transcripts db session =
    map (summary_of db (current_transcript db session))
      (sort newer (keep (λ t. t.session_id == session) db.transcripts))

unfoldable pub get_transcript : Db → ℕ → Option Transcript
get_transcript db i = find (has_id i) db.transcripts

unfoldable pub get_job : Db → ℕ → Option TranscriptionJob
get_job db i = find (job_of i) db.jobs

-- `seq > after`; `none` is a cursor before the first segment, such as -1.
abbrev pub beyond : Option ℕ → TranscriptSegment → Bool
beyond none s = true
beyond (some after) s = ltb after s.seq

abbrev pub seq_le : TranscriptSegment → TranscriptSegment → Bool
seq_le a b = leb a.seq b.seq

unfoldable pub validate_all : List TranscriptSegment → Option (List TranscriptSegment)
unfolding validate
validate_all [] = some []
validate_all (s ∷ ss) = elim (validate s) [
  | none ↦ none
  | some v ↦ elim (validate_all ss) [ none ↦ none | some vs ↦ some (v ∷ vs) ]
]

-- The rows behind the cursor, in the order of `seq`.
unfoldable pub rows_after : Db → ℕ → Option ℕ → List TranscriptSegment
unfolding sort
rows_after db i after = sort seq_le (keep (λ s. is_of i s && beyond after s) db.segments)

unfoldable pub segments_after : Db → ℕ → Option ℕ → Result (List TranscriptSegment)
unfolding rows_after validate_all
segments_after db i after = of_option (validate_all (rows_after db i after))

abbrev pub is_open : JobState → Bool
is_open JobState.queued = true
is_open JobState.running = true
is_open JobState.finalising = true
is_open _ = false

abbrev pub is_queued : JobState → Bool
is_queued JobState.queued = true
is_queued _ = false

unfoldable pub open_jobs : Db → List TranscriptionJob
open_jobs db = keep (λ j. is_open j.state) db.jobs

-- `ORDER BY priority, enqueued_at`
abbrev pub due_before : TranscriptionJob → TranscriptionJob → Bool
due_before a b =
    ltb a.priority b.priority || (a.priority == b.priority && leb a.enqueued_at b.enqueued_at)

unfoldable pub next_queued : Db → Option TranscriptionJob
unfolding sort
next_queued db = first (sort due_before (keep (λ j. is_queued j.state) db.jobs))

abbrev pub is_on_demand : TranscriptMode → Bool
is_on_demand TranscriptMode.live = false
is_on_demand TranscriptMode.on_demand = true

abbrev pub is_waiting_or_running : JobState → Bool
is_waiting_or_running JobState.queued = true
is_waiting_or_running JobState.running = true
is_waiting_or_running _ = false

unfoldable pub running_on_demand : Db → ℕ → Option TranscriptionJob
running_on_demand db session =
    find (λ j. j.session_id == session && is_on_demand j.mode && is_waiting_or_running j.state)
      db.jobs
