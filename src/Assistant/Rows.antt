-- ===== src/Assistant/Rows.antt =====
-- models/assistant.py and the tables of storage/assistant.py. Content and citations, which the tables
-- hold as JSON, are kept as they are.
use ambient_recorder.Base.{ℕ, Bool, ◌||◌, Option, none, some, List, ltb, if◌then◌else◌, length}
use ambient_recorder.Base.Text.{Text, strip}
use ambient_recorder.Attribution.Twin.{is_empty}
use ambient_recorder.Assistant.Grounding.{Citation}
use ambient_recorder.Assistant.Summary.{SummaryContent}

pub data SummaryState : Type 0 where
  pending completed failed : SummaryState

pub data TurnState : Type 0 where
  streaming completed ungrounded declined failed interrupted : TurnState

pub data TaskState : Type 0 where
  queued running completed failed : TaskState

pub data TaskKind : Type 0 where
  summary ask : TaskKind

pub record SummaryRow : Type 0 where
  pub id : ℕ
  pub session_id : ℕ
  pub transcript_id : ℕ
  pub state : SummaryState
  pub content : Option SummaryContent
  pub model : Option Text
  pub created_at : ℕ
  pub completed_at : Option ℕ
  pub failure_reason : Option Text

pub record Conversation : Type 0 where
  pub id : ℕ
  pub session_ids : List ℕ
  pub created_at : ℕ
  pub born_live : Bool

pub record ConversationRow : Type 0 where
  pub id : ℕ
  pub created_at : ℕ
  pub born_live : Bool

pub record ScopeRow : Type 0 where
  pub conversation_id : ℕ
  pub session_id : ℕ

-- `"final"`, or `"live:<seq>"` of the last segment, where `none` is -1
pub data Watermark : Type 0 where
  final : Watermark
  live : Option ℕ → Watermark

pub record ConversationTurn : Type 0 where
  pub id : ℕ
  pub conversation_id : ℕ
  pub seq : ℕ
  pub question : Text
  pub answer : Text
  pub citations : List Citation
  pub watermark : Option Watermark
  pub state : TurnState
  pub asked_at : ℕ
  pub completed_at : Option ℕ

pub record AssistantTask : Type 0 where
  pub id : ℕ
  pub kind : TaskKind
  pub ref_id : ℕ
  pub session_id : ℕ
  pub priority : ℕ
  pub state : TaskState
  pub enqueued_at : ℕ
  pub started_at : Option ℕ
  pub ended_at : Option ℕ
  pub failure_reason : Option Text

pub record Tables : Type 0 where
  pub summaries : List SummaryRow
  pub conversations : List ConversationRow
  pub scopes : List ScopeRow
  pub turns : List ConversationTurn
  pub tasks : List AssistantTask

-- The validator of a question: `none` is `ValueError`.
unfoldable pub question_bounds : Text → Option Text
question_bounds v = let q = strip v in if is_empty q || ltb 2000 (length q) then none else some q
