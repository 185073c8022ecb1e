-- ===== src/Assistant/Worker/Loop.antt =====
-- `_run_summary`, and `_run`, the loop of the thread.
use ambient_recorder.Base.{
  ℕ, Bool, true, false, ◌&&◌, ◌||◌, ◌==◌, Option, none, some, List, [], ◌∷◌, ◌++◌, ltb, leb,
  if◌then◌else◌,
}
use ambient_recorder.Base.Text.{Text, codes}
use ambient_recorder.Transcripts.Rows.{TranscriptSegment}
use ambient_recorder.Transcripts.Store.{Result, ok, err, segments_after}
use ambient_recorder.Assistant.Checked.{Generate}
use ambient_recorder.Assistant.Summary.{SummaryContent, summarize}
use ambient_recorder.Assistant.Rows.{TaskState, TaskKind, SummaryRow, AssistantTask, Tables}
use ambient_recorder.Assistant.Store.{
  complete_summary, fail_summary, to_state, to_ended, to_reason, update_task,
}
use ambient_recorder.Assistant.Store.Reads.{get_summary}
use ambient_recorder.Assistant.Worker.State.{
  Item, ItemKind, shutdown, warm, of_kind, AssistantWorker, Machine, Outcome, finished, raised,
  start_task,
}
use ambient_recorder.Assistant.Worker.Ask.{get_engine, run_ask}

abbrev pub no_reply : Generate
no_reply n prompt system = none

-- `_generate_text`: the first call loads the engine, or raises.
abbrev pub generate_with : Machine → Option (Text × Text) → Generate
generate_with m none = m.generate
generate_with m (some e) = no_reply

abbrev pub fail_task : ℕ → ℕ → Text × Text → ℕ → AssistantWorker → AssistantWorker
fail_task i summary_id (name, reason) now w = record w {
  store =
      update_task (fail_summary w.store summary_id (name ++ codes ": " ++ reason)) i
        (to_state TaskState.failed ∷ to_ended (some now) ∷ to_reason (some reason) ∷ []);
}

-- `summarize` raises what the engine raises where it cannot be loaded.
abbrev pub why : Machine → Option (Text × Text) → Option (Text × Text)
why m none = m.failure
why m (some e) = some e

abbrev pub summary_failed :
    ℕ → ℕ → Option (Text × Text) → ℕ → AssistantWorker → AssistantWorker × Outcome
summary_failed i summary_id none now w = (w, raised)
summary_failed i summary_id (some reason) now w = (fail_task i summary_id reason now w, finished)

-- `_engine.descriptor if _engine else "unknown"`
abbrev pub model_of : Option Text → Text
model_of none = codes "unknown"
model_of (some descriptor) = descriptor

abbrev pub summarized :
    Machine
    → ℕ
    → ℕ
    → Option (Text × Text)
    → Option (SummaryContent × ℕ)
    → AssistantWorker
    → AssistantWorker × Outcome
summarized m i summary_id error none w = summary_failed i summary_id (why m error) m.now w
summarized m i summary_id error (some (content, calls)) w = (
  record w {
    store =
        update_task (complete_summary w.store summary_id content (model_of m.descriptor) m.now) i
          (to_state TaskState.completed ∷ to_ended (some m.now) ∷ []);
  },
  finished,
)

abbrev pub summarize_with :
    Machine
    → ℕ
    → SummaryRow
    → Result (List TranscriptSegment)
    → AssistantWorker
    → AssistantWorker × Outcome
summarize_with m i s (err e) w = (w, raised)
summarize_with m i s (ok segments) w =
    let (error, loaded) = get_engine m w in
    summarized m i s.id error
      (summarize (generate_with m error) m.ratio m.window_s m.budget_tokens segments s.session_id 0)
      loaded

abbrev pub with_summary :
    Machine → ℕ → Option SummaryRow → AssistantWorker → AssistantWorker × Outcome
with_summary m i none w = (w, raised)
with_summary m i (some s) w =
    summarize_with m i s (segments_after m.transcripts s.transcript_id none) w

abbrev pub summary_started :
    Machine → ℕ → AssistantWorker → Option (AssistantTask × Tables) → AssistantWorker × Outcome
summary_started m i w none = (w, finished)
summary_started m i w (some (t, db)) =
    with_summary m i (get_summary db t.ref_id) (record w { store = db })

unfoldable pub run_summary : Machine → ℕ → AssistantWorker → AssistantWorker × Outcome
unfolding start_task get_summary segments_after summarize fail_summary complete_summary update_task
run_summary m i w = summary_started m i w (start_task i m.now w.store)

-- `heappop`: the item of the least priority, and of those the one that was pushed first.
abbrev pub before : Item → Item → Bool
before a b = ltb a.priority b.priority || ((a.priority == b.priority) && leb a.order b.order)

abbrev pub least : Item → List Item → Item
least x [] = x
least x (y ∷ ys) = if before x y then least x ys else least y ys

abbrev pub without : Item → List Item → List Item
without x [] = []
without x (y ∷ ys) = if y.order == x.order then ys else y ∷ without x ys

-- `warm`: the engine is loaded where it is ready.
abbrev pub warm_up : Machine → AssistantWorker → AssistantWorker × Outcome
warm_up m w = if m.ready then ((get_engine m w).1, finished) else (w, finished)

abbrev pub handle : Machine → Item → ItemKind → AssistantWorker → AssistantWorker × Outcome
handle m x shutdown w = (w, finished)
handle m x warm w = warm_up m w
handle m x (of_kind TaskKind.summary) w = run_summary m x.task_id w
handle m x (of_kind TaskKind.ask) w = run_ask m x.task_id w

abbrev pub is_shutdown : ItemKind → Bool
is_shutdown shutdown = true
is_shutdown _ = false

abbrev pub handled : Machine → AssistantWorker × Outcome → AssistantWorker
handled m (w, o) = record w { last_activity = m.now }

abbrev pub take : Machine → AssistantWorker → Item → List Item → AssistantWorker × Bool
take m w x q =
    let rest = record w { q = without x q } in
    if is_shutdown x.kind
    then (rest, false)
    else (handled m (handle m x x.kind (record rest { last_activity = m.now })), true)

-- One round of `_run`: the answer says that the thread goes on; without an item it waits.
unfoldable pub run_one : Machine → AssistantWorker → AssistantWorker × Bool
unfolding run_summary run_ask
run_one m w = elim w.q [ [] ↦ (w, true) | x ∷ q ↦ take m w (least x q) (x ∷ q) ]
