-- ===== src/Assistant/Store.antt =====
-- storage/assistant.py: `SqliteAssistantStore`. Each operation runs under the store's lock, in one
-- transaction; `none` is `sqlite3.IntegrityError`. Foreign keys are not switched on here.
pub mod Reads
pub mod Recover
pub mod Reconcile
use ambient_recorder.Base.{
  ℕ, zero, suc, ◌+◌, Bool, true, false, not, ◌&&◌, ◌||◌, ◌==◌, Option, none, some, List, [], ◌∷◌,
  ◌++◌, map, ltb, leb, if◌then◌else◌, keep, find, any, max, update_where, length,
}
use ambient_recorder.Base.Sort.{sort}
use ambient_recorder.Base.Text.{Text, codes}
use ambient_recorder.Assistant.Grounding.{Citation}
use ambient_recorder.Assistant.Summary.{SummaryContent}
use ambient_recorder.Assistant.Rows.{
  SummaryState, TurnState, TaskState, TaskKind, SummaryRow, Conversation, ConversationRow, ScopeRow,
  Watermark, ConversationTurn, AssistantTask, Tables,
}

abbrev pub task_has : ℕ → AssistantTask → Bool
task_has i t = t.id == i

abbrev pub turn_has : ℕ → ConversationTurn → Bool
turn_has i t = t.id == i

abbrev pub summary_has : ℕ → SummaryRow → Bool
summary_has i s = s.id == i

unfoldable pub insert_task : Tables → AssistantTask → Option Tables
insert_task db task =
    if any (task_has task.id) db.tasks
    then none
    else some (record db { tasks = db.tasks ++ task ∷ [] })

unfoldable pub create_summary : Tables → SummaryRow → AssistantTask → Option Tables
unfolding insert_task
create_summary db s task =
    if any (summary_has s.id) db.summaries
    then none
    else insert_task (record db { summaries = db.summaries ++ s ∷ [] }) task

unfoldable pub complete_summary : Tables → ℕ → SummaryContent → Text → ℕ → Tables
complete_summary db i content model now = record db {
  summaries =
      update_where (summary_has i)
        (λ s. record s {
          state = SummaryState.completed;
          content = some content;
          model = some model;
          completed_at = some now;
        })
        db.summaries;
}

unfoldable pub fail_summary : Tables → ℕ → Text → Tables
fail_summary db i reason = record db {
  summaries =
      update_where (summary_has i)
        (λ s. record s { state = SummaryState.failed; failure_reason = some reason }) db.summaries;
}

-- `conversation_sessions` with its key.
unfoldable pub insert_scopes : ℕ → List ℕ → Tables → Option Tables
insert_scopes i [] db = some db
insert_scopes i (sid ∷ sids) db =
    let rest =
      insert_scopes i sids (record db {
        scopes = db.scopes ++ record { conversation_id = i; session_id = sid } ∷ [];
      }) in
    if any (λ s. (s.conversation_id == i) && (s.session_id == sid)) db.scopes then none else rest

unfoldable pub create_conversation : Tables → Conversation → Option Tables
unfolding insert_scopes
create_conversation db c =
    if any (λ r. r.id == c.id) db.conversations
    then none
    else insert_scopes c.id c.session_ids (record db {
      conversations =
          db.conversations
          ++ record { id = c.id; created_at = c.created_at; born_live = c.born_live } ∷ [];
    })

abbrev pub in_conversation : ℕ → ConversationTurn → Bool
in_conversation i t = t.conversation_id == i

-- `COALESCE(MAX(seq), -1) + 1`
unfoldable pub next_turn : List ConversationTurn → ℕ
next_turn [] = 0
next_turn (t ∷ ts) = max (t.seq + 1) (next_turn ts)

abbrev pub with_turn : ConversationTurn → Option Tables → Option (ConversationTurn × Tables)
with_turn t none = none
with_turn t (some db) = some (t, db)

-- The turn with its number, which no other turn of the conversation has, and its task.
unfoldable pub create_turn :
    Tables → ConversationTurn → AssistantTask → Option (ConversationTurn × Tables)
unfolding next_turn insert_task
create_turn db t task =
    let t' = record t { seq = next_turn (keep (in_conversation t.conversation_id) db.turns) } in
    if any (turn_has t.id) db.turns
    then none
    else with_turn t' (insert_task (record db { turns = db.turns ++ t' ∷ [] }) task)

abbrev pub update_turn : ℕ → (ConversationTurn → ConversationTurn) → Tables → Tables
update_turn i f db = record db { turns = update_where (turn_has i) f db.turns }

unfoldable pub append_answer_text : Tables → ℕ → Text → Tables
append_answer_text db i text = update_turn i (λ t. record t { answer = t.answer ++ text }) db

unfoldable pub finish_turn : Tables → ℕ → TurnState → List Citation → Option Watermark → ℕ → Tables
finish_turn db i state citations watermark now =
    update_turn i
      (λ t. record t {
        state = state;
        citations = citations;
        watermark = watermark;
        completed_at = some now;
      })
      db

unfoldable pub set_turn_answer : Tables → ℕ → Text → Tables
set_turn_answer db i answer = update_turn i (λ t. record t { answer = answer }) db

-- The keyword arguments of `update_task`.
pub data TaskField : Type 0 where
  to_state : TaskState → TaskField
  to_started to_ended : Option ℕ → TaskField
  to_reason : Option Text → TaskField

abbrev pub set_field : TaskField → AssistantTask → AssistantTask
set_field (to_state s) t = record t { state = s }
set_field (to_started at) t = record t { started_at = at }
set_field (to_ended at) t = record t { ended_at = at }
set_field (to_reason r) t = record t { failure_reason = r }

abbrev pub set_fields : List TaskField → AssistantTask → AssistantTask
set_fields [] t = t
set_fields (f ∷ fs) t = set_fields fs (set_field f t)

unfoldable pub update_task : Tables → ℕ → List TaskField → Tables
update_task db i fields = record db {
  tasks = update_where (task_has i) (set_fields fields) db.tasks;
}
