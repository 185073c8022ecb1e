-- ===== src/Assistant/Worker/Queue.antt =====
-- Which item of the queue a round of the thread takes, and what it leaves of the queue.
use ambient_recorder.Base.{
  ◌≡◌, refl, ap, arith, Bool, true, false, not, Option, none, some, List, [], ◌∷◌, All,
  if◌then◌else◌,
}
use ambient_recorder.Assistant.Worker.State.{
  AssistantWorker, Item, ItemKind, shutdown, warm, of_kind, Machine, start_task,
}
use ambient_recorder.Assistant.Worker.Kept.{IsStable, started_in, starting, handle_keeps}
use ambient_recorder.Assistant.Rows.{AssistantTask, Tables}
use ambient_recorder.Assistant.Worker.Loop.{
  before, least, without, handle, is_shutdown, take, run_one,
}

before_trans : (a b c : Item) → before a b ≡ true → before b c ≡ true → before a c ≡ true
before_trans a b c p q = ground (arith, p, q)

before_total : (a b : Item) → before a b ≡ false → before b a ≡ true
before_total a b p = ground (arith, p)

before_refl : (a : Item) → before a a ≡ true
before_refl a = ground arith

abbrev pub IsAfter : Item → Item → Type 0
IsAfter x y = before x y ≡ true

earlier :
    (b : Bool) (x y l k : Item) (ys : List Item)
    → before x y ≡ b
    → All (IsAfter l) (x ∷ ys)
    → All (IsAfter k) (y ∷ ys)
    → All (IsAfter (if b then l else k)) (x ∷ y ∷ ys)
earlier true x y l k ys e p q = (p.0, (before_trans l x y p.0 e, p.1))
earlier false x y l k ys e p q = (before_trans k y x q.0 (before_total x y e), (q.0, q.1))

pub least-IsAfter : (x : Item) (q : List Item) → All (IsAfter (least x q)) (x ∷ q)
least-IsAfter x [] = (before_refl x, tt)
least-IsAfter x (y ∷ ys) =
    earlier (before x y) x y (least x ys) (least y ys) ys refl (least-IsAfter x ys)
      (least-IsAfter y ys)

-- A step of the thread does not touch the queue.
same_queue : (q : List Item) → IsStable (λ w. w.q ≡ q)
same_queue q = record {
  tells = λ w fs h. h;
  loads = λ w b h. h;
  notes = λ w now h. h;
  writes_turns = λ w ts h. h;
  writes_summaries = λ w ss h. h;
  writes_task = λ w i fields closes h. h;
}

started_in-q :
    (w : AssistantWorker) (o : Option (AssistantTask × Tables)) → (started_in w o).q ≡ w.q
started_in-q w none = refl
started_in-q w (some (t, db)) = refl

starting-q :
    (m : Machine) (x : Item) (kind : ItemKind) (w : AssistantWorker) → (starting m x kind w).q ≡ w.q
starting-q m x shutdown w = refl
starting-q m x warm w = refl
starting-q m x (of_kind k) w = started_in-q w (start_task x.task_id m.now w.store)

handle-q :
    (m : Machine) (x : Item) (kind : ItemKind) (w : AssistantWorker) → (handle m x kind w).0.q ≡ w.q
handle-q m x kind w =
    handle_keeps (λ v. v.q ≡ w.q) (same_queue w.q) m x kind w (starting-q m x kind w)

take-q :
    (b : Bool) (m : Machine) (w : AssistantWorker) (x : Item) (q : List Item)
    → is_shutdown x.kind ≡ b
    → ((take m w x q).0.q ≡ without x q) × ((take m w x q).1 ≡ not b)
take-q true m w x q e = rw e (refl, refl)
take-q false m w x q e =
    rw e (handle-q m x x.kind (record w { q = without x q; last_activity = m.now }), refl)

-- The round, over the queue.
abbrev at_queue : Machine → AssistantWorker → List Item → AssistantWorker × Bool
at_queue m w q = elim q as (λ q. AssistantWorker × Bool) [
  | [] ↦ (w, true)
  | x ∷ q ↦ take m w (least x q) (x ∷ q)
]

pub run_one-take :
    (m : Machine) (w : AssistantWorker) (x : Item) (q : List Item)
    → w.q ≡ x ∷ q
    → run_one m w ≡ take m w (least x q) (x ∷ q)
unfolding run_one
run_one-take m w x q e = ap (at_queue m w) e

pub run_one-wait : (m : Machine) (w : AssistantWorker) → w.q ≡ [] → run_one m w ≡ (w, true)
unfolding run_one
run_one-wait m w e = ap (at_queue m w) e

-- A round of the thread, at a queue that is not empty, takes the item that goes before all others: of
-- the least priority, and of those the first that was pushed. That item, and no other, leaves the queue,
-- whatever its task does and whatever exception it ends by, and the thread ends exactly where the item
-- tells it to shut down.
pub run_one-InOrder :
    (m : Machine) (w : AssistantWorker) (x : Item) (q : List Item)
    → w.q ≡ x ∷ q
    → let y = least x q in
      All (IsAfter y) (x ∷ q)
      × ((run_one m w).0.q ≡ without y (x ∷ q))
      × ((run_one m w).1 ≡ not (is_shutdown y.kind))
run_one-InOrder m w x q e =
    let t = take-q (is_shutdown (least x q).kind) m w (least x q) (x ∷ q) refl in
    rw (run_one-take m w x q e) (least-IsAfter x q, t.0, t.1)
