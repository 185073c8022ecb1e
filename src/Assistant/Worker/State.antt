-- ===== src/Assistant/Worker/State.antt =====
-- The state of `AssistantWorker`, and what clients and the capture engine do to it.
use ambient_recorder.Base.{
  ℕ, ◌+◌, ◌-◌, Bool, true, false, not, ◌||◌, ◌==◌, Option, none, some, List, [], ◌∷◌, ◌++◌, ltb,
  if◌then◌else◌, find,
}
use ambient_recorder.Base.Text.{Text}
use ambient_recorder.Transcripts.Rows.{Db}
use ambient_recorder.Assistant.Grounding.{Citation}
use ambient_recorder.Assistant.Checked.{Generate}
use ambient_recorder.Assistant.Rows.{
  SummaryState, TurnState, TaskState, TaskKind, SummaryRow, Conversation, Watermark,
  ConversationTurn, AssistantTask, Tables, question_bounds,
}
use ambient_recorder.Assistant.Store.{
  task_has, create_summary, create_turn, to_state, to_started, update_task,
}
use ambient_recorder.Assistant.Store.Reads.{open_tasks, next_queued, is_queued}

-- The frames of an answer; `none` in the list of what was told is `stream.close`.
pub data AnswerFrame : Type 0 where
  token : ℕ → Text → AnswerFrame
  turn_status : ℕ → TurnState → Option (List Citation) → Option Watermark → AnswerFrame

pub data ItemKind : Type 0 where
  shutdown warm : ItemKind
  of_kind : TaskKind → ItemKind

-- Priorities are two more than those of the code: 0 ends the thread, 1 loads the engine, 2 is an ask
-- while the session is recorded, 3 an ask, 4 a summary.
pub record Item : Type 0 where
  pub priority : ℕ
  pub order : ℕ
  pub task_id : ℕ
  pub kind : ItemKind

pub record AssistantWorker : Type 0 where
  pub store : Tables
  pub q : List Item
  pub counter : ℕ
  pub loaded : Bool
  pub session_active : Bool
  pub last_activity : ℕ
  pub told : List (ℕ × Option AnswerFrame)

-- How a reply of the engine ends: by itself, with `EngineError`, or with another exception.
pub data End : Type 0 where
  done : End
  engine_error : Text → End
  crashed : End

-- What a step reads: the clock, the transcripts, the session that is recorded, the settings, and the
-- engine: whether it is ready, why it cannot be loaded, the chunks of an answer and how they end, the
-- replies to the prompts of a summary, and the exception that ends a summary: the name of its class and
-- its text (`none` for an exception that the worker does not expect). `descriptor` is that of the engine
-- when a summary is stored: `none` where the engine was released meanwhile.
pub record Machine : Type 0 where
  pub now : ℕ
  pub transcripts : Db
  pub active_session : Option ℕ
  pub budget_tokens : ℕ
  pub window_s : ℕ
  pub ready : Bool
  pub load_error : Option (Text × Text)
  pub answer : Text → Text → List Text × End
  pub generate : Generate
  pub ratio : Text → Text → ℕ
  pub failure : Option (Text × Text)
  pub descriptor : Option Text

-- An exception is caught by the loop of the thread.
pub data Outcome : Type 0 where
  finished raised : Outcome

unfoldable pub push : ℕ → ItemKind → ℕ → AssistantWorker → AssistantWorker
push priority kind i w = record w {
  q = w.q ++ record { priority = priority; order = w.counter; task_id = i; kind = kind } ∷ [];
  counter = w.counter + 1;
}

unfoldable pub prewarm : AssistantWorker → AssistantWorker
unfolding push
prewarm w = push 1 warm 0 w

-- `shutdown`
unfoldable pub shut_down : AssistantWorker → AssistantWorker
unfolding push
shut_down w = push 0 shutdown 0 w

pub data SessionNotice : Type 0 where
  started stopped finalized : SessionNotice

unfoldable pub on_session_event : SessionNotice → ℕ → AssistantWorker → AssistantWorker
unfolding prewarm
on_session_event started now w = prewarm (record w { session_active = true; last_activity = now })
on_session_event stopped now w = record w { session_active = false; last_activity = now }
on_session_event finalized now w = record w { session_active = false; last_activity = now }

-- One round of `_idle_watch`.
unfoldable pub idle_watch : ℕ → ℕ → AssistantWorker → AssistantWorker
idle_watch idle_unload now w =
    if w.session_active || not w.loaded || ltb (now - w.last_activity) idle_unload
    then w
    else record w { loaded = false }

abbrev pub new_summary : ℕ → ℕ → ℕ → ℕ → SummaryRow
new_summary i session_id transcript_id now = record {
  id = i;
  session_id = session_id;
  transcript_id = transcript_id;
  state = SummaryState.pending;
  content = none;
  model = none;
  created_at = now;
  completed_at = none;
  failure_reason = none;
}

abbrev pub new_task : ℕ → TaskKind → ℕ → ℕ → ℕ → ℕ → AssistantTask
new_task i kind ref_id session_id priority now = record {
  id = i;
  kind = kind;
  ref_id = ref_id;
  session_id = session_id;
  priority = priority;
  state = TaskState.queued;
  enqueued_at = now;
  started_at = none;
  ended_at = none;
  failure_reason = none;
}

abbrev pub queue_summary : ℕ → AssistantWorker → Option Tables → AssistantWorker × Bool
queue_summary task_id w none = (w, false)
queue_summary task_id w (some db) =
    (push 4 (of_kind TaskKind.summary) task_id (record w { store = db }), true)

-- The new identifiers are arguments; the answer says that nothing was raised.
unfoldable pub request_summary : ℕ → ℕ → ℕ → ℕ → ℕ → AssistantWorker → AssistantWorker × Bool
unfolding create_summary push
request_summary i task_id session_id transcript_id now w = queue_summary task_id w (
    create_summary w.store (new_summary i session_id transcript_id now)
      (new_task task_id TaskKind.summary i session_id 4 now))

abbrev pub new_turn : ℕ → ℕ → Text → ℕ → ConversationTurn
new_turn i conversation_id question now = record {
  id = i;
  conversation_id = conversation_id;
  seq = 0;
  question = question;
  answer = [];
  citations = [];
  watermark = none;
  state = TurnState.streaming;
  asked_at = now;
  completed_at = none;
}

abbrev pub same_session : Option ℕ → ℕ → Bool
same_session none i = false
same_session (some j) i = j == i

abbrev pub queue_ask :
    ℕ
    → ℕ
    → AssistantWorker
    → Option (ConversationTurn × Tables)
    → AssistantWorker × Option ConversationTurn
queue_ask priority task_id w none = (w, none)
queue_ask priority task_id w (some (turn, db)) =
    (push priority (of_kind TaskKind.ask) task_id (record w { store = db }), some turn)

abbrev pub ask_session :
    ℕ
    → ℕ
    → Conversation
    → Option ℕ
    → ℕ
    → AssistantWorker
    → Option Text
    → List ℕ
    → AssistantWorker × Option ConversationTurn
ask_session i task_id conversation active now w none sids = (w, none)
ask_session i task_id conversation active now w (some question) [] = (w, none)
ask_session i task_id conversation active now w (some question) (sid ∷ sids) =
    let priority = if same_session active sid then 2 else 3 in
    queue_ask priority task_id w (
      create_turn w.store (new_turn i conversation.id question now)
        (new_task task_id TaskKind.ask i sid priority now))

-- `none` is an exception: no scope, a question out of bounds, or an identifier that is taken.
unfoldable pub request_ask :
    ℕ
    → ℕ
    → Conversation
    → Text
    → Option ℕ
    → ℕ
    → AssistantWorker
    → AssistantWorker × Option ConversationTurn
unfolding question_bounds create_turn push
request_ask i task_id conversation question active now w =
    ask_session i task_id conversation active now w (question_bounds question)
      conversation.session_ids

abbrev pub push_task : Option AssistantTask → AssistantWorker → AssistantWorker
push_task none w = w
push_task (some t) w = push t.priority (of_kind t.kind) t.id w

-- `requeue_open`: its loop ends after the first round.
unfoldable pub requeue_open : AssistantWorker → AssistantWorker
unfolding next_queued push
requeue_open w = push_task (next_queued w.store) w

abbrev pub started_as : ℕ → ℕ → Tables → Option AssistantTask → Option (AssistantTask × Tables)
started_as i now db none = none
started_as i now db (some t) =
    if is_queued t.state
    then some (t, update_task db i (to_state TaskState.running ∷ to_started (some now) ∷ []))
    else none

-- `_start_task`: the task before it was started.
unfoldable pub start_task : ℕ → ℕ → Tables → Option (AssistantTask × Tables)
unfolding open_tasks update_task
start_task i now db = started_as i now db (find (task_has i) (open_tasks db))
