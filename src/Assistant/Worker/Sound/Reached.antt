-- ===== src/Assistant/Worker/Sound/Reached.antt =====
-- Every run of the worker: requests of clients, notices of sessions, the watch for idleness and rounds
-- of the thread, in any order.
use ambient_recorder.Base.{ℕ, ◌≡◌, refl, arith, true, false, Option, [], All, All-map_of}
use ambient_recorder.Base.Text.{Text}
use ambient_recorder.Assistant.Rows.{Conversation}
use ambient_recorder.Assistant.Store.Reads.{is_queued}
use ambient_recorder.Assistant.Worker.State.{
  AssistantWorker, Machine, SessionNotice, on_session_event, prewarm, shut_down, idle_watch,
  request_summary, request_ask,
}
use ambient_recorder.Assistant.Worker.Loop.{run_one}
use ambient_recorder.Assistant.Worker.Sound.{task_ids, IsSound}
use ambient_recorder.Assistant.Worker.Sound.Started.{run_one-IsSound}
use ambient_recorder.Assistant.Worker.Sound.Requested.{
  request_summary-IsSound, request_ask-IsSound, prewarm-IsSound, shut_down-IsSound,
  on_session_event-IsSound, idle_watch-IsSound,
}

-- What may happen next; the numbers of new rows and the clock are whatever they are.
pub data Step : AssistantWorker → AssistantWorker → Type 0 where
  summarised :
      (i task_id session_id transcript_id now : ℕ) (w : AssistantWorker)
      → Step w (request_summary i task_id session_id transcript_id now w).0
  asked :
      (i task_id : ℕ) (c : Conversation) (question : Text) (active : Option ℕ) (now : ℕ)
      (w : AssistantWorker)
      → Step w (request_ask i task_id c question active now w).0
  notified : (n : SessionNotice) (now : ℕ) (w : AssistantWorker) → Step w (on_session_event n now w)
  prewarmed : (w : AssistantWorker) → Step w (prewarm w)
  stopped : (w : AssistantWorker) → Step w (shut_down w)
  watched : (idle now : ℕ) (w : AssistantWorker) → Step w (idle_watch idle now w)
  round : (m : Machine) (w : AssistantWorker) → Step w (run_one m w).0

pub data Reach : AssistantWorker → AssistantWorker → Type 0 where
  start : (w : AssistantWorker) → Reach w w
  next : {a b c : AssistantWorker} → Reach a b → Step b c → Reach a c

-- A worker as it is made, over tables in which no task is queued and no two share a number.
pub record IsFresh (w : AssistantWorker) : Type 0 where
  pub empty : w.q ≡ []
  pub keyed : task_ids w.store.tasks ≡ true
  pub settled : All (λ t. is_queued t.state ≡ false) w.store.tasks

fresh-IsSound : (w : AssistantWorker) → IsFresh w → IsSound w
fresh-IsSound w h = record {
  keyed = h.keyed;
  ordered = rw h.empty refl;
  counted = rw h.empty tt;
  served = All-map_of w.store.tasks (λ t p. ground (arith, p)) h.settled;
}

step-IsSound : {a b : AssistantWorker} → Step a b → IsSound a → IsSound b
step-IsSound (summarised i task_id session_id transcript_id now w) s =
    request_summary-IsSound i task_id session_id transcript_id now w s
step-IsSound (asked i task_id c question active now w) s =
    request_ask-IsSound i task_id c question active now w s
step-IsSound (notified n now w) s = on_session_event-IsSound n now w s
step-IsSound (prewarmed w) s = prewarm-IsSound w s
step-IsSound (stopped w) s = shut_down-IsSound w s
step-IsSound (watched idle now w) s = idle_watch-IsSound idle now w s
step-IsSound (round m w) s = run_one-IsSound m w s

-- From a worker as it is made, over tables in which no task is queued and no two share a number,
-- whatever clients ask for, sessions do and the thread runs: each task that is queued has an item in the
-- queue of its kind and with its number, no two tasks share a number, and no two items share an order, which are all
-- below the counter.
pub Reach-IsSound : {a b : AssistantWorker} → IsFresh a → Reach a b → IsSound b
Reach-IsSound h (start w) = fresh-IsSound w h
Reach-IsSound h (next r s) = step-IsSound s (Reach-IsSound h r)
