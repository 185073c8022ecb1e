-- ===== src/Transcripts/Rows.antt =====
-- The rows of storage/transcripts.py, with the records of models/transcript.py that they hold.
-- Identifiers are numbers (a ULID stands for its value), timestamps count microseconds.
use mathlib.Core.Bool.{Bool, true, false}
use ambient_recorder.Base.{ℕ, Option, none, some, List, [], ◌&&◌, not, ltb}
use ambient_recorder.Base.Text.{Text, strip}
use ambient_recorder.Models.{Speaker}

pub data TranscriptMode : Type 0 where
  live on_demand : TranscriptMode

pub data TranscriptState : Type 0 where
  pending live finalising completed interrupted_live failed : TranscriptState

pub data JobState : Type 0 where
  queued running finalising completed failed : JobState

pub record Transcript : Type 0 where
  pub id : ℕ
  pub session_id : ℕ
  pub mode : TranscriptMode
  pub state : TranscriptState
  pub final : Bool
  pub engine : Option Text
  pub model : Option Text
  pub created_at : ℕ
  pub finalised_at : Option ℕ
  pub failure_reason : Option Text

pub record TranscriptSegment : Type 0 where
  pub transcript_id : ℕ
  pub seq : ℕ
  pub source : Speaker
  pub start_s : ℕ
  pub end_s : ℕ
  pub text : Text

-- A segment before the store assigns `seq`.
pub record NewSegment : Type 0 where
  pub source : Speaker
  pub start_s : ℕ
  pub end_s : ℕ
  pub text : Text

pub record TranscriptionJob : Type 0 where
  pub transcript_id : ℕ
  pub session_id : ℕ
  pub mode : TranscriptMode
  pub state : JobState
  pub priority : ℕ
  pub progress_chunks : ℕ
  pub total_chunks : Option ℕ
  pub lag_s : Option ℕ
  pub enqueued_at : ℕ
  pub started_at : Option ℕ
  pub ended_at : Option ℕ
  pub failure_reason : Option Text

-- The three tables, in the order of insertion.
pub record Db : Type 0 where
  pub transcripts : List Transcript
  pub segments : List TranscriptSegment
  pub jobs : List TranscriptionJob

abbrev pub empty_db : Db
empty_db = record { transcripts = []; segments = []; jobs = [] }

abbrev blank : Text → Bool
blank t = elim t [ [] ↦ true | _ ↦ false ]

-- The validators of `TranscriptSegment`: text that is not blank, and an end after the start. The
-- validated text is stripped.
unfoldable pub is_valid : TranscriptSegment → Bool
is_valid s = not (blank (strip s.text)) && ltb s.start_s s.end_s

unfoldable pub validate : TranscriptSegment → Option TranscriptSegment
unfolding is_valid
validate s = elim (is_valid s) [ true ↦ some (record s { text = strip s.text }) | false ↦ none ]
