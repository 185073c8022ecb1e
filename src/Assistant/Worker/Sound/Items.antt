-- ===== src/Assistant/Worker/Sound/Items.antt =====
-- The items of the queue: the one that is taken, and those that are left.
use mathlib.Core.List.{Memᴰ}
use ambient_recorder.Base.{
  ℕ, suc, ◌≡◌, refl, subst, arith, Bool, true, false, not, ◌&&◌, ◌||◌, ◌==◌, List, [], ◌∷◌, ◌++◌,
  All, Bool-cases, inl, inr, if◌then◌else◌, length,
}
use ambient_recorder.Base.Keys.{is_taken, is_taken-mem, are_keyed-append}
use ambient_recorder.Assistant.Rows.{AssistantTask}
use ambient_recorder.Assistant.Worker.State.{Item}
use ambient_recorder.Assistant.Worker.Loop.{before, least, without}
use ambient_recorder.Assistant.Worker.Sound.{runs, serves, orders, IsCounted}

abbrev pub order_of : Item → ℕ
order_of x = x.order

least_among :
    (b : Bool) (x y l k : Item) (ys : List Item)
    → Memᴰ l (x ∷ ys)
    → Memᴰ k (y ∷ ys)
    → Memᴰ (if b then l else k) (x ∷ y ∷ ys)
least_among true x y l k ys (Memᴰ.head e) n = Memᴰ.head e
least_among true x y l k ys (Memᴰ.tail m) n = Memᴰ.tail (Memᴰ.tail m)
least_among false x y l k ys m n = Memᴰ.tail n

pub least-mem : (x : Item) (q : List Item) → Memᴰ (least x q) (x ∷ q)
least-mem x [] = Memᴰ.head refl
least-mem x (y ∷ ys) =
    least_among (before x y) x y (least x ys) (least y ys) ys (least-mem x ys) (least-mem y ys)

-- An item that ran a task and is left no more is the one that was taken.
pub without-serves :
    (t : AssistantTask) (x : Item) (q : List Item)
    → Memᴰ x q
    → orders q ≡ true
    → (serves t q && not (runs t x) && not (serves t (without x q))) ≡ false
without-serves t x [] m h = refl
without-serves t x (y ∷ ys) (Memᴰ.head e) h =
    subst
      (λ z. (serves t (z ∷ ys) && not (runs t x) && not (serves t (without x (z ∷ ys)))) ≡ false) e
      (ground arith)
without-serves t x (y ∷ ys) (Memᴰ.tail m) h =
    ground (arith, h, is_taken-mem order_of x ys m, without-serves t x ys m (ground (arith, h)))

is_taken-without :
    (i : ℕ) (x : Item) (q : List Item)
    → is_taken order_of i q ≡ false
    → is_taken order_of i (without x q) ≡ false
is_taken-without i x [] h = refl
is_taken-without i x (y ∷ ys) h = ground (arith, h, is_taken-without i x ys (ground (arith, h)))

pub orders-without : (x : Item) (q : List Item) → orders q ≡ true → orders (without x q) ≡ true
orders-without x [] h = refl
orders-without x (y ∷ ys) h = ground (
  arith,
  h,
  is_taken-without y.order x ys (ground (arith, h)),
  orders-without x ys (ground (arith, h)),
)

pub All-without : (P : Item → Type 0) (x : Item) (q : List Item) → All P q → All P (without x q)
All-without P x [] h = tt
All-without P x (y ∷ ys) h = elim (Bool-cases (y.order == x.order)) [
  | inl e ↦ rw e h.1
  | inr e ↦ rw e (h.0, All-without P x ys h.1)
]

-- Exactly one item is taken.
pub length-without : (x : Item) (q : List Item) → Memᴰ x q → suc (length (without x q)) ≡ length q
length-without x [] m = elim m [ ]
length-without x (y ∷ ys) (Memᴰ.head e) =
    subst (λ z. suc (length (without x (z ∷ ys))) ≡ length (z ∷ ys)) e (ground arith)
length-without x (y ∷ ys) (Memᴰ.tail m) = ground (arith, length-without x ys m)

pub serves-append :
    (t : AssistantTask) (q : List Item) (x : Item)
    → serves t (q ++ x ∷ []) ≡ (serves t q || runs t x)
serves-append t [] x = ground arith
serves-append t (y ∷ ys) x = ground (arith, serves-append t ys x)

-- No item has the order that the counter gives to the next one.
pub counter_free : (n : ℕ) (q : List Item) → All (IsCounted n) q → is_taken order_of n q ≡ false
counter_free n [] h = refl
counter_free n (x ∷ q) h = ground (arith, h.0, counter_free n q h.1)

pub orders-append :
    (q : List Item) (x : Item)
    → orders q ≡ true
    → All (IsCounted x.order) q
    → orders (q ++ x ∷ []) ≡ true
orders-append q x h counted = are_keyed-append order_of q x h (counter_free x.order q counted)
