-- ===== src/Assistant/Worker/Sound/Started.antt =====
-- A round keeps the invariant: the task whose item was taken is queued no more.
use mathlib.Core.List.{Memᴰ}
use ambient_recorder.Base.{
  ℕ, ◌≡◌, refl, sym, subst, ◌∙◌, arith, Bool, true, false, not, ◌&&◌, ◌==◌, Option, none, some,
  List, [], ◌∷◌, All, All-map_of, All-update_where, Bool-cases, inl, inr, find, keep,
}
use ambient_recorder.Base.Keys.{is_taken, are_keyed-update_where}
use ambient_recorder.Assistant.Rows.{AssistantTask, TaskState, Tables}
use ambient_recorder.Assistant.Store.{
  task_has, TaskField, to_state, to_started, to_ended, to_reason, set_field, set_fields,
  update_task,
}
use ambient_recorder.Assistant.Store.Reads.{is_open, is_queued, open_tasks}
use ambient_recorder.Assistant.Worker.State.{
  AssistantWorker, Item, ItemKind, shutdown, warm, of_kind, Machine, started_as, start_task,
}
use ambient_recorder.Assistant.Worker.Loop.{least, without, handle, is_shutdown, take, run_one}
use ambient_recorder.Assistant.Worker.Kept.{IsStable, started_in, starting, handle_keeps}
use ambient_recorder.Assistant.Worker.Queue.{run_one-take, run_one-wait}
use ambient_recorder.Assistant.Worker.Sound.{serves, IsServed, task_ids, orders, IsCounted, IsSound}
use ambient_recorder.Assistant.Worker.Sound.Items.{
  least-mem, without-serves, orders-without, All-without,
}

set_fields-id : (fields : List TaskField) (t : AssistantTask) → (set_fields fields t).id ≡ t.id
set_fields-id [] t = refl
set_fields-id (to_state s ∷ fs) t = set_fields-id fs (set_field (to_state s) t)
set_fields-id (to_started s ∷ fs) t = set_fields-id fs (set_field (to_started s) t)
set_fields-id (to_ended s ∷ fs) t = set_fields-id fs (set_field (to_ended s) t)
set_fields-id (to_reason s ∷ fs) t = set_fields-id fs (set_field (to_reason s) t)

task_ids-update :
    (i : ℕ) (fields : List TaskField) (db : Tables)
    → task_ids db.tasks ≡ true
    → task_ids (update_task db i fields).tasks ≡ true
unfolding update_task
task_ids-update i fields db h =
    are_keyed-update_where (λ (t : AssistantTask). t.id) (task_has i) (set_fields fields) db.tasks
      (set_fields-id fields)
    ∙ h

-- What a round keeps of the tasks, for a queue and a counter that it does not touch.
record Keeps (q : List Item) (n : ℕ) (w : AssistantWorker) : Type 0 where
  pub same_q : w.q ≡ q
  pub same_counter : w.counter ≡ n
  pub keyed : task_ids w.store.tasks ≡ true
  pub served : All (IsServed q) w.store.tasks

update-IsServed :
    (q : List Item) (i : ℕ) (fields : List TaskField) (db : Tables)
    → ((t : AssistantTask) → is_queued (set_fields fields t).state ≡ false)
    → All (λ t. (is_queued t.state && not (t.id == i) && not (serves t q)) ≡ false) db.tasks
    → All (IsServed q) (update_task db i fields).tasks
unfolding update_task
update-IsServed q i fields db closes h =
    All-update_where (λ t. (is_queued t.state && not (t.id == i) && not (serves t q)) ≡ false)
      (IsServed q) (task_has i) (set_fields fields) db.tasks (λ t e p. ground (arith, closes t))
      (λ t e p. ground (arith, e, p)) h

but_for :
    (q : List Item) (i : ℕ) (ts : List AssistantTask)
    → All (IsServed q) ts
    → All (λ t. (is_queued t.state && not (t.id == i) && not (serves t q)) ≡ false) ts
but_for q i ts h = All-map_of ts (λ t p. ground (arith, p)) h

elsewhere :
    (q : List Item) (n : ℕ) (w w' : AssistantWorker)
    → w'.q ≡ w.q
    → w'.counter ≡ w.counter
    → w'.store.tasks ≡ w.store.tasks
    → Keeps q n w
    → Keeps q n w'
elsewhere q n w w' e f g h = record {
  same_q = e ∙ h.same_q;
  same_counter = f ∙ h.same_counter;
  keyed = subst (λ ts. task_ids ts ≡ true) (sym g) h.keyed;
  served = subst (All (IsServed q)) (sym g) h.served;
}

Keeps-stable : (q : List Item) (n : ℕ) → IsStable (Keeps q n)
Keeps-stable q n = record {
  tells = λ w fs. elsewhere q n w _ refl refl refl;
  loads = λ w b. elsewhere q n w _ refl refl refl;
  notes = λ w now. elsewhere q n w _ refl refl refl;
  writes_turns = λ w ts. elsewhere q n w _ refl refl refl;
  writes_summaries = λ w ss. elsewhere q n w _ refl refl refl;
  writes_task = λ w i fields closes h. record {
    same_q = h.same_q;
    same_counter = h.same_counter;
    keyed = task_ids-update i fields w.store h.keyed;
    served = update-IsServed q i fields w.store closes (but_for q i w.store.tasks h.served);
  };
}

-- Where no open task, or none that is queued, is found under a number, no task with it is queued.
IsIdle : ℕ → AssistantTask → Type 0
IsIdle i t = (task_has i t && is_queued t.state) ≡ false

is_blocked : Option AssistantTask → Bool
is_blocked none = true
is_blocked (some t) = not (is_queued t.state)

absent-IsIdle :
    (i : ℕ) (ts : List AssistantTask)
    → is_taken (λ (t : AssistantTask). t.id) i ts ≡ false
    → All (IsIdle i) ts
unfolding IsIdle
absent-IsIdle i [] h = tt
absent-IsIdle i (t ∷ ts) h = (ground (arith, h), absent-IsIdle i ts (ground (arith, h)))

blocked-IsIdle :
    (i : ℕ) (ts : List AssistantTask)
    → task_ids ts ≡ true
    → is_blocked (find (task_has i) (keep (λ t. is_open t.state) ts)) ≡ true
    → All (IsIdle i) ts
unfolding IsIdle is_blocked
blocked-IsIdle i [] d h = tt
blocked-IsIdle i (t ∷ ts) d h = elim (Bool-cases (is_open t.state && task_has i t)) [
  | inl e ↦ (ground (arith, h, e), absent-IsIdle i ts (ground (arith, d, e)))
  | inr e ↦ (ground (arith, e), blocked-IsIdle i ts (ground (arith, d)) (ground (arith, h, e)))
]

but-IsServed :
    (q : List Item) (i : ℕ) (ts : List AssistantTask)
    → All (λ t. (is_queued t.state && not (t.id == i) && not (serves t q)) ≡ false) ts
    → All (IsIdle i) ts
    → All (IsServed q) ts
unfolding IsIdle
but-IsServed q i [] h k = tt
but-IsServed q i (t ∷ ts) h k = (ground (arith, h.0, k.0), but-IsServed q i ts h.1 k.1)

-- The task of an item is started, or cannot be.
module _ (q : List Item) (n i now : ℕ) (w : AssistantWorker) (e : w.q ≡ q) (f : w.counter ≡ n)
    (keyed : task_ids w.store.tasks ≡ true)
    (h : All
      (λ t. (is_queued t.state && not (t.id == i) && not (serves t q)) ≡ false)
      w.store.tasks) where
  not_started : All (IsIdle i) w.store.tasks → Keeps q n w
  not_started k = record {
    same_q = e;
    same_counter = f;
    keyed = keyed;
    served = but-IsServed q i w.store.tasks h k;
  }

  started_as-Keeps :
      (o : Option AssistantTask)
      → (is_blocked o ≡ true → All (IsIdle i) w.store.tasks)
      → Keeps q n (started_in w (started_as i now w.store o))
  unfolding is_blocked
  started_as-Keeps none k = not_started (k refl)
  started_as-Keeps (some t) k = elim (Bool-cases (is_queued t.state)) [
    | inl r ↦ rw r (record {
      same_q = e;
      same_counter = f;
      keyed =
          task_ids-update i (to_state TaskState.running ∷ to_started (some now) ∷ []) w.store keyed;
      served =
          update-IsServed q i (to_state TaskState.running ∷ to_started (some now) ∷ []) w.store
            (λ t. refl) h;
    })
    | inr r ↦ rw r (not_started (k (rw r refl)))
  ]

  started_in-Keeps : Keeps q n (started_in w (start_task i now w.store))
  unfolding start_task open_tasks
  started_in-Keeps =
      started_as-Keeps (find (task_has i) (keep (λ t. is_open t.state) w.store.tasks))
        (blocked-IsIdle i w.store.tasks keyed)

-- What is left of a sound worker when an item is taken.
starting-Keeps :
    (m : Machine) (x : Item) (kind : ItemKind) (w : AssistantWorker) (now : ℕ)
    → x.kind ≡ kind
    → Memᴰ x w.q
    → IsSound w
    → Keeps
        (without x w.q)
        w.counter
        (starting m x kind (record w { q = without x w.q; last_activity = now }))
starting-Keeps m x (of_kind k) w now e mem s =
    started_in-Keeps (without x w.q) w.counter x.task_id m.now
      (record w { q = without x w.q; last_activity = now }) refl refl s.keyed
      (All-map_of w.store.tasks (λ t p. ground (arith, e, p, without-serves t x w.q mem s.ordered))
        s.served)
starting-Keeps m x shutdown w now e mem s = record {
  same_q = refl;
  same_counter = refl;
  keyed = s.keyed;
  served =
      All-map_of w.store.tasks (λ t p. ground (arith, e, p, without-serves t x w.q mem s.ordered))
        s.served;
}
starting-Keeps m x warm w now e mem s = record {
  same_q = refl;
  same_counter = refl;
  keyed = s.keyed;
  served =
      All-map_of w.store.tasks (λ t p. ground (arith, e, p, without-serves t x w.q mem s.ordered))
        s.served;
}

Keeps-IsSound :
    (x : Item) (w v : AssistantWorker) → IsSound w → Keeps (without x w.q) w.counter v → IsSound v
Keeps-IsSound x w v s k = record {
  keyed = k.keyed;
  ordered = subst (λ q. orders q ≡ true) (sym k.same_q) (orders-without x w.q s.ordered);
  counted =
      subst (λ n. All (IsCounted n) v.q) (sym k.same_counter)
        (subst (All (IsCounted w.counter)) (sym k.same_q)
          (All-without (IsCounted w.counter) x w.q s.counted));
  served = subst (λ q. All (IsServed q) v.store.tasks) (sym k.same_q) k.served;
}

is_shut : (k : ItemKind) → is_shutdown k ≡ true → k ≡ shutdown
is_shut shutdown e = refl
is_shut warm e = cc
is_shut (of_kind k) e = cc

take-IsSound :
    (b : Bool) (m : Machine) (w : AssistantWorker) (x : Item)
    → is_shutdown x.kind ≡ b
    → Memᴰ x w.q
    → IsSound w
    → IsSound (take m w x w.q).0
take-IsSound true m w x e mem s = rw e (
    Keeps-IsSound x w _ s (
      elsewhere _ _ (starting m x shutdown (record w { q = without x w.q; last_activity = 0 })) _
        refl refl refl (starting-Keeps m x shutdown w 0 (is_shut x.kind e) mem s)))
take-IsSound false m w x e mem s = rw e (
    Keeps-IsSound x w _ s (
      elsewhere _ _ (handle m x x.kind (record w { q = without x w.q; last_activity = m.now })).0 _
        refl refl refl
        (handle_keeps (Keeps (without x w.q) w.counter) (Keeps-stable (without x w.q) w.counter) m x
          x.kind _ (starting-Keeps m x x.kind w m.now refl mem s))))

-- A round keeps the invariant.
pub run_one-IsSound : (m : Machine) (w : AssistantWorker) → IsSound w → IsSound (run_one m w).0
run_one-IsSound m w s = at_queue w.q refl
  where
    at_queue : (q : List Item) → w.q ≡ q → IsSound (run_one m w).0
    at_queue [] e = rw (run_one-wait m w e) s
    at_queue (x ∷ q) e = rw (run_one-take m w x q e) (
        subst (λ l. IsSound (take m w (least x q) l).0) e
          (take-IsSound (is_shutdown (least x q).kind) m w (least x q) refl
            (subst (Memᴰ (least x q)) (sym e) (least-mem x q)) s))
