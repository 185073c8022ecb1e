-- ===== src/Assistant/Asked.antt =====
-- Questions about a short meeting, a restart, and the queue. Tests, and the theorems at this meeting.
use ambient_recorder.Base.{
  ℕ, ◌+◌, ◌≡◌, refl, subst, arith, true, false, none, some, List, [], ◌∷◌, ◌++◌, All, map, length,
}
use ambient_recorder.Base.Text.{Text, codes, strip}
use ambient_recorder.Models.{me}
use ambient_recorder.Transcripts.Rows.{
  Transcript, TranscriptSegment, TranscriptMode, TranscriptState, Db,
}
use ambient_recorder.Transcripts.Store.{segments_after, current_transcript}
use ambient_recorder.Assistant.Checked.{Generate}
use ambient_recorder.Assistant.Rows.{
  TurnState, TaskState, TaskKind, live, ConversationTurn, AssistantTask, Tables,
}
use ambient_recorder.Assistant.Store.Reads.{next_queued, get_turn, get_conversation}
use ambient_recorder.Assistant.Store.Recover.{reconcile_assistant}
use ambient_recorder.Assistant.Store.Reconcile.{NotRunning, said, reconcile_assistant-NotRunning}
use ambient_recorder.Assistant.Worker.State.{
  Item, of_kind, AssistantWorker, done, crashed, Machine, requeue_open, start_task, prewarm,
  shut_down,
}
use ambient_recorder.Assistant.Worker.Ask.{reply, transcript_of, run_ask}
use ambient_recorder.Assistant.Worker.Rows.{IsSettled, is_ok}
use ambient_recorder.Assistant.Worker.Settled.{run_ask-IsSettled}
use ambient_recorder.Assistant.Worker.Loop.{without, run_one}
use ambient_recorder.Assistant.Worker.Queue.{IsAfter, run_one-InOrder}
use ambient_recorder.Assistant.Worker.Told.{tokens, closing, answered, reply-Told}

abbrev pub segment : ℕ → ℕ → Text → TranscriptSegment
segment seq start_s text = record {
  transcript_id = 3;
  seq = seq;
  source = me;
  start_s = start_s;
  end_s = start_s + 16000;
  text = text;
}

abbrev pub transcript : Transcript
transcript = record {
  id = 3;
  session_id = 9;
  mode = TranscriptMode.live;
  state = TranscriptState.completed;
  final = true;
  engine = none;
  model = none;
  created_at = 5;
  finalised_at = some 9;
  failure_reason = none;
}

abbrev pub transcripts : Db
transcripts = record {
  transcripts = transcript ∷ [];
  segments = segment 0 16000 (codes "the draft is ready") ∷ segment 1 32000 (codes "good") ∷ [];
  jobs = [];
}

abbrev pub silent : Generate
silent n prompt system = none

-- The engine answers each question in three chunks, the second of which is empty.
abbrev pub machine : Machine
machine = record {
  now = 100;
  transcripts = transcripts;
  active_session = none;
  budget_tokens = 200;
  window_s = 9600000;
  ready = true;
  load_error = none;
  answer = λ prompt system. (codes "The draft" ∷ [] ∷ codes " is ready [1]." ∷ [], done);
  generate = silent;
  ratio = λ a b. 0;
  failure = none;
  descriptor = some (codes "phi4-mini");
}

abbrev pub turn : ConversationTurn
turn = record {
  id = 7;
  conversation_id = 4;
  seq = 0;
  question = codes "Is the draft ready?";
  answer = [];
  citations = [];
  watermark = none;
  state = TurnState.streaming;
  asked_at = 50;
  completed_at = none;
}

abbrev pub task : ℕ → TaskKind → TaskState → AssistantTask
task i kind state = record {
  id = i;
  kind = kind;
  ref_id = i + 1;
  session_id = 9;
  priority = 3;
  state = state;
  enqueued_at = 50;
  started_at = none;
  ended_at = none;
  failure_reason = none;
}

abbrev pub tables : List AssistantTask → Tables
tables tasks = record {
  summaries = [];
  conversations = record { id = 4; created_at = 40; born_live = false } ∷ [];
  scopes = record { conversation_id = 4; session_id = 9 } ∷ [];
  turns = turn ∷ [];
  tasks = tasks;
}

abbrev pub worker : List AssistantTask → AssistantWorker
worker tasks = record {
  store = tables tasks;
  q = [];
  counter = 0;
  loaded = false;
  session_active = false;
  last_activity = 0;
  told = [];
}

-- A restart with a question that was running and two tasks that were queued.
abbrev crashed_db : Tables
crashed_db = tables (
    task 6 TaskKind.ask TaskState.running
    ∷ task 10 TaskKind.summary TaskState.queued
    ∷ task 12 TaskKind.summary TaskState.running
    ∷ [])

reconcile_assistant-NotRunning_example :
    let db = (reconcile_assistant crashed_db 200).0 in
    All NotRunning db.tasks
    × (map said db.turns ≡ map said crashed_db.turns)
    × (reconcile_assistant db 300 ≡ (db, record { requeued = 0; interrupted = 0 }))
reconcile_assistant-NotRunning_example = reconcile_assistant-NotRunning crashed_db 200 300

its_counts : (reconcile_assistant crashed_db 200).1 ≡ record { requeued = 1; interrupted = 1 }
unfolding reconcile_assistant
its_counts = refl

-- Of two tasks that are queued after a restart only one gets an item.
one_item :
    length (requeue_open (record (worker []) { store = (reconcile_assistant crashed_db 200).0 })).q
    ≡ 1
unfolding requeue_open reconcile_assistant next_queued
one_item = refl

reply-Told_example :
    let w = worker (task 6 TaskKind.ask TaskState.running ∷ []) in
    let cs : List Text = codes "Yes" ∷ [] ∷ codes ", it is [1]." ∷ [] in
    let w' = (reply machine 6 turn 4 (live (some 1)) [] (cs, done) w).0 in
    (w'.told ≡ w.told ++ (tokens 4 0 cs ++ closing 4 0 (live (some 1)) [] cs done))
    × (w'.store.turns ≡ answered 100 (live (some 1)) [] cs done turn ∷ [])
reply-Told_example =
    reply-Told machine 6 turn 4 (live (some 1)) [] (codes "Yes" ∷ [] ∷ codes ", it is [1]." ∷ [])
      done (worker (task 6 TaskKind.ask TaskState.running ∷ []))

-- A restart between the end of an answer and the end of its task: the answer is marked as interrupted.
answered_then_stopped :
    map
      (λ (t : ConversationTurn). t.state)
      (reconcile_assistant
        (record crashed_db { turns = record turn { state = TurnState.completed } ∷ [] })
        200).0.turns
    ≡ TurnState.interrupted ∷ []
unfolding reconcile_assistant
answered_then_stopped = refl

-- A question that runs to its end.
abbrev asking : AssistantWorker
asking = worker (task 6 TaskKind.ask TaskState.queued ∷ [])

its_states :
    map (λ (t : ConversationTurn). t.state) (run_ask machine 6 asking).0.store.turns
    ≡ TurnState.completed ∷ []
unfolding run_ask
its_states = refl

its_answers :
    map (λ (t : ConversationTurn). t.answer) (run_ask machine 6 asking).0.store.turns
    ≡ codes "The draft is ready [1]." ∷ []
unfolding run_ask
its_answers = refl

-- An engine that cannot be loaded.
its_failure :
    map
      (λ (t : AssistantTask). t.failure_reason)
      (run_ask
        (record machine { load_error = some (codes "EngineNotReadyError", codes "no model") })
        6
        asking).0.store.tasks
    ≡ some (codes "engine_error: no model") ∷ []
unfolding run_ask
its_failure = refl

-- An exception that is not the engine's leaves the turn as it streams.
still_streams :
    map
      (λ (t : ConversationTurn). t.state)
      (run_ask
        (record machine { answer = λ prompt system. (codes "The" ∷ [], crashed) })
        6
        asking).0.store.turns
    ≡ TurnState.streaming ∷ []
unfolding run_ask
still_streams = refl

abbrev running : Tables
running = tables (record (task 6 TaskKind.ask TaskState.running) { started_at = some 100 } ∷ [])

found_transcript : transcript_of transcripts 9 ≡ some transcript
unfolding current_transcript
found_transcript = refl

are_readable : is_ok (segments_after transcripts 3 none) ≡ true
unfolding segments_after strip
are_readable = refl

its_id : (tr : Transcript) → transcript_of transcripts 9 ≡ some tr → 3 ≡ tr.id
unfolding current_transcript
its_id tr e = ground (arith, e)

run_ask-IsSettled_example : IsSettled 6 7 asking (run_ask machine 6 asking)
unfolding start_task get_turn get_conversation
run_ask-IsSettled_example =
    run_ask-IsSettled machine 6 9 [] asking (task 6 TaskKind.ask TaskState.queued) running turn
      (record {
        row = record { id = 4; created_at = 40; born_live = false };
        session_ids = 9 ∷ [];
        turns = turn ∷ [];
      })
      refl refl refl refl (λ prompt. refl)
      (λ tr e.
        subst (λ i. is_ok (segments_after transcripts i none) ≡ true) (its_id tr e) are_readable)

abbrev pub items : List Item
items =
    record { priority = 4; order = 1; task_id = 10; kind = of_kind TaskKind.summary }
    ∷ record { priority = 3; order = 2; task_id = 6; kind = of_kind TaskKind.ask }
    ∷ record { priority = 3; order = 3; task_id = 8; kind = of_kind TaskKind.ask }
    ∷ []

run_one-InOrder_example :
    let w = record asking { q = items } in
    let y : Item = record { priority = 3; order = 2; task_id = 6; kind = of_kind TaskKind.ask } in
    All (IsAfter y) items
    × ((run_one machine w).0.q ≡ without y items)
    × ((run_one machine w).1 ≡ true)
run_one-InOrder_example =
    run_one-InOrder machine (record asking { q = items })
      (record { priority = 4; order = 1; task_id = 10; kind = of_kind TaskKind.summary })
      (record { priority = 3; order = 2; task_id = 6; kind = of_kind TaskKind.ask }
        ∷ record { priority = 3; order = 3; task_id = 8; kind = of_kind TaskKind.ask }
        ∷ [])
      refl

-- The end of the thread goes before what was queued, and before a model that is to be loaded.
shutdown_first : (run_one machine (shut_down (record (prewarm asking) { counter = 4 }))).1 ≡ false
unfolding run_one shut_down prewarm
shutdown_first = refl
