-- ===== src/Assistant/Worker/Sound.antt =====
-- The invariant of the queue and the tasks: a task that is queued has an item of its kind and number.
pub mod Items
pub mod Started
pub mod Requested
pub mod Reached
pub mod Drained
use ambient_recorder.Base.{
  ℕ, ◌≡◌, refl, arith, Bool, true, false, not, ◌&&◌, ◌||◌, ◌==◌, List, [], ◌∷◌, All, ltb,
}
use ambient_recorder.Base.Keys.{are_keyed}
use ambient_recorder.Assistant.Rows.{AssistantTask, TaskKind}
use ambient_recorder.Assistant.Store.Reads.{is_queued}
use ambient_recorder.Assistant.Worker.State.{AssistantWorker, Item, ItemKind, of_kind}

abbrev pub is_of : ItemKind → TaskKind → Bool
is_of (of_kind TaskKind.ask) TaskKind.ask = true
is_of (of_kind TaskKind.summary) TaskKind.summary = true
is_of _ _ = false

-- The item has the number of the task and runs its kind; the queue holds such an item.
abbrev pub runs : AssistantTask → Item → Bool
runs t x = is_of x.kind t.kind && x.task_id == t.id

abbrev pub serves : AssistantTask → List Item → Bool
serves t [] = false
serves t (x ∷ q) = runs t x || serves t q

abbrev pub IsServed : List Item → AssistantTask → Type 0
IsServed q t = (is_queued t.state && not (serves t q)) ≡ false

abbrev pub task_ids : List AssistantTask → Bool
task_ids ts = are_keyed (λ (t : AssistantTask). t.id) ts

abbrev pub orders : List Item → Bool
orders q = are_keyed (λ (x : Item). x.order) q

abbrev pub IsCounted : ℕ → Item → Type 0
IsCounted n x = ltb x.order n ≡ true

-- Tasks have different numbers, items different orders below the counter, and each task that is queued has
-- an item.
pub record IsSound (w : AssistantWorker) : Type 0 where
  pub keyed : task_ids w.store.tasks ≡ true
  pub ordered : orders w.q ≡ true
  pub counted : All (IsCounted w.counter) w.q
  pub served : All (IsServed w.q) w.store.tasks
