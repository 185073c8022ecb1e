-- ===== src/Assistant/Store/Reads.antt =====
-- The reads of `SqliteAssistantStore`.
use ambient_recorder.Base.{
  ℕ, Bool, true, false, not, ◌&&◌, ◌||◌, ◌==◌, Option, none, some, List, [], ◌∷◌, map, ltb, leb,
  keep, find, any,
}
use ambient_recorder.Base.Sort.{sort}
use ambient_recorder.Base.Text.{Text}
use ambient_recorder.Assistant.Rows.{
  SummaryState, TaskState, SummaryRow, Conversation, ConversationRow, ConversationTurn,
  AssistantTask, Tables,
}
use ambient_recorder.Assistant.Store.{turn_has, summary_has, in_conversation}

-- `ORDER BY created_at DESC, id DESC`
abbrev pub newer : SummaryRow → SummaryRow → Bool
newer a b = ltb b.created_at a.created_at || (b.created_at == a.created_at && leb b.id a.id)

abbrev pub head {ℓ} : {A : Type ℓ} → List A → Option A
head [] = none
head (x ∷ xs) = some x

abbrev pub is_completed : SummaryState → Bool
is_completed SummaryState.completed = true
is_completed _ = false

abbrev pub is_failed : SummaryState → Bool
is_failed SummaryState.failed = true
is_failed _ = false

abbrev pub or_else {ℓ} : {A : Type ℓ} → Option A → Option A → Option A
or_else none b = b
or_else (some a) b = some a

unfoldable pub current_summary : Tables → ℕ → Option SummaryRow
unfolding sort
current_summary db sid =
    or_else
      (head (sort newer (keep (λ s. (s.session_id == sid) && is_completed s.state) db.summaries)))
      (head
        (sort newer (keep (λ s. (s.session_id == sid) && not (is_failed s.state)) db.summaries)))

unfoldable pub get_summary : Tables → ℕ → Option SummaryRow
get_summary db i = find (summary_has i) db.summaries

pub record SummaryVersion : Type 0 where
  pub id : ℕ
  pub state : SummaryState
  pub superseded : Bool
  pub model : Option Text
  pub created_at : ℕ

abbrev pub is_superseded : Option SummaryRow → SummaryRow → Bool
is_superseded none s = false
is_superseded (some current) s =
    is_completed s.state && is_completed current.state && not (s.id == current.id)

abbrev version : Option SummaryRow → SummaryRow → SummaryVersion
version current s = record {
  id = s.id;
  state = s.state;
  superseded = is_superseded current s;
  model = s.model;
  created_at = s.created_at;
}

unfoldable pub list_summaries : Tables → ℕ → List SummaryVersion
unfolding current_summary sort
list_summaries db sid =
    map (version (current_summary db sid))
      (sort newer (keep (λ s. s.session_id == sid) db.summaries))

pub record ConversationDetail : Type 0 where
  pub row : ConversationRow
  pub session_ids : List ℕ
  pub turns : List ConversationTurn

abbrev pub turn_le : ConversationTurn → ConversationTurn → Bool
turn_le a b = leb a.seq b.seq

abbrev pub session_ids_of : Tables → ℕ → List ℕ
session_ids_of db i = map (λ s. s.session_id) (keep (λ s. s.conversation_id == i) db.scopes)

abbrev detail : Tables → Option ConversationRow → Option ConversationDetail
detail db none = none
detail db (some r) = some (record {
  row = r;
  session_ids = session_ids_of db r.id;
  turns = sort turn_le (keep (in_conversation r.id) db.turns);
})

unfoldable pub get_conversation : Tables → ℕ → Option ConversationDetail
unfolding sort
get_conversation db i = detail db (find (λ r. r.id == i) db.conversations)

unfoldable pub get_turn : Tables → ℕ → Option ConversationTurn
get_turn db i = find (turn_has i) db.turns

abbrev newer_conversation : ConversationRow → ConversationRow → Bool
newer_conversation a b =
    ltb b.created_at a.created_at || (b.created_at == a.created_at && leb b.id a.id)

abbrev response : Tables → ConversationRow → Conversation
response db r = record {
  id = r.id;
  session_ids = session_ids_of db r.id;
  created_at = r.created_at;
  born_live = r.born_live;
}

-- The join has a row for each scope of the session; the key makes that one for a conversation.
abbrev scoped : Tables → Option ℕ → ConversationRow → Bool
scoped db none r = true
scoped db (some sid) r = any (λ s. (s.conversation_id == r.id) && (s.session_id == sid)) db.scopes

unfoldable pub list_conversations : Tables → Option ℕ → List Conversation
unfolding sort
list_conversations db sid =
    map (response db) (sort newer_conversation (keep (scoped db sid) db.conversations))

abbrev pub is_open : TaskState → Bool
is_open TaskState.queued = true
is_open TaskState.running = true
is_open _ = false

abbrev pub is_queued : TaskState → Bool
is_queued TaskState.queued = true
is_queued _ = false

unfoldable pub open_tasks : Tables → List AssistantTask
open_tasks db = keep (λ t. is_open t.state) db.tasks

abbrev pub due_before : AssistantTask → AssistantTask → Bool
due_before a b =
    ltb a.priority b.priority || (a.priority == b.priority && leb a.enqueued_at b.enqueued_at)

unfoldable pub next_queued : Tables → Option AssistantTask
unfolding sort
next_queued db = head (sort due_before (keep (λ t. is_queued t.state) db.tasks))
