-- ===== src/Assistant/Queued.antt =====
-- A worker that is made, asked and run, and one that was restarted. Tests, and the theorems at these.
use mathlib.Core.List.{Memᴰ}
use ambient_recorder.Base.{ℕ, ◌≡◌, refl, true, false, none, [], ◌∷◌, All, length}
use ambient_recorder.Base.Text.{codes, strip}
use ambient_recorder.Assistant.Rows.{TaskState, TaskKind, Conversation, question_bounds}
use ambient_recorder.Assistant.Store.{create_turn}
use ambient_recorder.Assistant.Store.Reads.{is_queued}
use ambient_recorder.Assistant.Worker.State.{AssistantWorker, request_ask, requeue_open}
use ambient_recorder.Assistant.Worker.Loop.{run_one}
use ambient_recorder.Assistant.Worker.Sound.{IsServed, IsSound}
use ambient_recorder.Assistant.Worker.Sound.Reached.{
  asked, round, Reach, start, next, IsFresh, Reach-IsSound,
}
use ambient_recorder.Assistant.Worker.Sound.Drained.{
  rounds, IsWork, rounds_drain, requeue_open-leaves,
}
use ambient_recorder.Assistant.Asked.{machine, task, worker}

abbrev conversation : Conversation
conversation = record { id = 4; session_ids = 9 ∷ []; created_at = 40; born_live = false }

abbrev first_made : AssistantWorker
first_made = worker (task 1 TaskKind.ask TaskState.completed ∷ [])

made-IsFresh : IsFresh first_made
made-IsFresh = record { empty = refl; keyed = refl; settled = (refl, tt) }

abbrev ask_it : ℕ → ℕ → AssistantWorker → AssistantWorker
ask_it i task_id w = (request_ask i task_id conversation (codes "When?") none 60 w).0

abbrev asked_twice : AssistantWorker
asked_twice = ask_it 22 32 (ask_it 21 31 first_made)

twice_reached : Reach first_made asked_twice
twice_reached =
    next (next (start first_made) (asked 21 31 conversation (codes "When?") none 60 first_made))
      (asked 22 32 conversation (codes "When?") none 60 (ask_it 21 31 first_made))

Reach-IsSound_example : IsSound (run_one machine asked_twice).0
Reach-IsSound_example = Reach-IsSound made-IsFresh (next twice_reached (round machine asked_twice))

two_items : length asked_twice.q ≡ 2
unfolding request_ask question_bounds strip create_turn
two_items = refl

all-IsWork : All IsWork asked_twice.q
unfolding request_ask question_bounds strip create_turn
all-IsWork = (refl, (refl, tt))

rounds_drain_example :
    let r = rounds (machine ∷ machine ∷ []) asked_twice in
    (r.1 ≡ true) × (r.0.q ≡ []) × All (λ t. is_queued t.state ≡ false) r.0.store.tasks
unfolding request_ask question_bounds strip create_turn
rounds_drain_example =
    rounds_drain asked_twice (machine ∷ machine ∷ []) made-IsFresh twice_reached all-IsWork refl

abbrev restarted : AssistantWorker
restarted =
    worker (task 6 TaskKind.ask TaskState.queued ∷ task 10 TaskKind.summary TaskState.queued ∷ [])

requeue_open-leaves_example : ¬ All (IsServed (requeue_open restarted).q) restarted.store.tasks
requeue_open-leaves_example =
    requeue_open-leaves restarted (task 6 TaskKind.ask TaskState.queued)
      (task 10 TaskKind.summary TaskState.queued) refl (Memᴰ.head refl) (Memᴰ.tail (Memᴰ.head refl))
      refl refl refl
