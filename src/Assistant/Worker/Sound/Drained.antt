-- ===== src/Assistant/Worker/Sound/Drained.antt =====
-- Rounds empty the queue; and what a restart leaves out of it.
use mathlib.Core.List.{Memᴰ}
use ambient_recorder.Base.{
  ◌≡◌, refl, subst, ap, ◌∙◌, arith, Bool, true, false, not, ◌&&◌, ◌==◌, Option, none, some, List,
  [], ◌∷◌, All, All-map_of, length, if◌then◌else◌,
}
use ambient_recorder.Assistant.Rows.{AssistantTask}
use ambient_recorder.Assistant.Summary.Cited.{All-mem}
use ambient_recorder.Assistant.Store.Reads.{is_queued, next_queued}
use ambient_recorder.Assistant.Worker.State.{
  AssistantWorker, Machine, Item, requeue_open, push, push_task,
}
use ambient_recorder.Assistant.Worker.Loop.{least, without, is_shutdown, run_one}
use ambient_recorder.Assistant.Worker.Queue.{run_one-InOrder}
use ambient_recorder.Assistant.Worker.Sound.{IsServed, serves, IsSound}
use ambient_recorder.Assistant.Worker.Sound.Items.{least-mem, length-without, All-without}
use ambient_recorder.Assistant.Worker.Sound.Started.{run_one-IsSound}
use ambient_recorder.Assistant.Worker.Sound.Reached.{Reach, IsFresh, Reach-IsSound}

-- Rounds of the thread, each with what it reads, until it ends: the worker, and whether the thread goes on.
abbrev pub rounds : List Machine → AssistantWorker → AssistantWorker × Bool
rounds [] w = (w, true)
rounds (m ∷ ms) w =
    let rest = rounds ms (run_one m w).0 in
    if (run_one m w).1 then rest else ((run_one m w).0, false)

abbrev pub IsWork : Item → Type 0
IsWork x = is_shutdown x.kind ≡ false

-- The end of the rounds of a sound worker.
record IsDrained (r : AssistantWorker × Bool) : Type 0 where
  pub goes_on : r.1 ≡ true
  pub empty : r.0.q ≡ []
  pub sound : IsSound r.0

goes_on_with :
    (b : Bool) (w : AssistantWorker) (r : AssistantWorker × Bool)
    → b ≡ true
    → IsDrained r
    → IsDrained (if b then r else (w, false))
goes_on_with true w r e d = d
goes_on_with false w r e d = cc

rounds-IsDrained :
    (ms : List Machine) (w : AssistantWorker) (q : List Item)
    → w.q ≡ q
    → All IsWork q
    → length ms ≡ length q
    → IsSound w
    → IsDrained (rounds ms w)
rounds-IsDrained [] w [] e k l s = record { goes_on = refl; empty = e; sound = s }
rounds-IsDrained [] w (x ∷ q) e k l s = ground (arith, l)
rounds-IsDrained (m ∷ ms) w [] e k l s = ground (arith, l)
rounds-IsDrained (m ∷ ms) w (x ∷ q) e k l s =
    let o = run_one-InOrder m w x q e in
    let y = least x q in
    goes_on_with (run_one m w).1 (run_one m w).0 (rounds ms (run_one m w).0)
      (o.2 ∙ ap not (All-mem IsWork (x ∷ q) k (least-mem x q)))
      (rounds-IsDrained ms (run_one m w).0 (without y (x ∷ q)) o.1 (All-without IsWork y (x ∷ q) k)
        (ground (arith, l, length-without y (x ∷ q) (least-mem x q))) (run_one-IsSound m w s))

unserved : (q : List Item) (t : AssistantTask) → q ≡ [] → IsServed q t → is_queued t.state ≡ false
unserved q t e h = ground (arith, subst (λ q. IsServed q t) e h)

-- Whatever has happened to a worker since it was made over tables in which no task is queued and
-- no two share a number, where no item tells the thread to shut down, as many rounds as the queue has
-- items empty it, whatever they read and whatever is raised: the thread still runs, and no task is queued
-- any more.
pub rounds_drain :
    {a : AssistantWorker} (w : AssistantWorker) (ms : List Machine)
    → IsFresh a
    → Reach a w
    → All IsWork w.q
    → length ms ≡ length w.q
    → let r = rounds ms w in
      (r.1 ≡ true) × (r.0.q ≡ []) × All (λ t. is_queued t.state ≡ false) r.0.store.tasks
rounds_drain w ms h r k l =
    let d = rounds-IsDrained ms w w.q refl k l (Reach-IsSound h r) in
    let v = (rounds ms w).0 in
    (d.goes_on, d.empty, All-map_of v.store.tasks (λ t p. unserved v.q t d.empty p) d.sound.served)

one_at_most :
    (o : Option AssistantTask) (w : AssistantWorker) (t u : AssistantTask)
    → (t.id == u.id) ≡ false
    → w.q ≡ []
    → (serves t (push_task o w).q && serves u (push_task o w).q) ≡ false
unfolding push
one_at_most none w t u d e = rw e refl
one_at_most (some x) w t u d e = rw e (ground (arith, d))

-- After a restart, with an empty queue and two queued tasks of different numbers, `requeue_open` leaves
-- a queued task without an item.
pub requeue_open-leaves :
    (w : AssistantWorker) (t u : AssistantTask)
    → w.q ≡ []
    → Memᴰ t w.store.tasks
    → Memᴰ u w.store.tasks
    → is_queued t.state ≡ true
    → is_queued u.state ≡ true
    → (t.id == u.id) ≡ false
    → ¬ All (IsServed (requeue_open w).q) w.store.tasks
unfolding requeue_open
requeue_open-leaves w t u e mt mu qt qu d h =
    let x : false ≡ true = ground (
      arith,
      qt,
      qu,
      one_at_most (next_queued w.store) w t u d e,
      All-mem (IsServed (requeue_open w).q) w.store.tasks h mt,
      All-mem (IsServed (requeue_open w).q) w.store.tasks h mu,
    ) in
    cc x
