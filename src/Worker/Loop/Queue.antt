-- ===== src/Worker/Loop/Queue.antt =====
-- What the queue gives, and what it keeps.
use mathlib.Core.List.{Perm}
use mathlib.Core.List.Perm
use mathlib.Core.Option.{some-injective}
use ambient_recorder.Base.{
  ◌≤◌, ◌<◌, ◌≡◌, subst, arith, true, false, some, List, [], ◌∷◌, All, Bool-cases, inl, inr, ◌⊎◌,
}
use ambient_recorder.Worker.State.{Queued}
use ambient_recorder.Worker.Loop.{before, least, pop}

-- The place of an entry: live work before on-demand work, and first come, first served within each.
abbrev pub NotAfter : Queued → Queued → Type 0
NotAfter a b = (a.priority < b.priority) ⊎ ((a.priority ≡ b.priority) × (a.order ≤ b.order))

NotAfter-trans : (a b c : Queued) → NotAfter a b → NotAfter b c → NotAfter a c
NotAfter-trans a b c h k = ground arith

before-true : (a b : Queued) → before a b ≡ true → NotAfter a b
before-true a b h = ground arith

before-false : (a b : Queued) → before a b ≡ false → NotAfter b a
before-false a b h = ground arith

least-NotAfter : (x : Queued) (xs : List Queued) → NotAfter (least x xs).0 x
unfolding least
least-NotAfter x [] = ground arith
least-NotAfter x (y ∷ ys) = elim (Bool-cases (before y x)) [
  | inl e ↦ rw e (NotAfter-trans (least y ys).0 y x (least-NotAfter y ys) (before-true y x e))
  | inr e ↦ rw e (least-NotAfter x ys)
]

least_rest : (x : Queued) (xs : List Queued) → All (NotAfter (least x xs).0) (least x xs).1
unfolding least
least_rest x [] = tt
least_rest x (y ∷ ys) = elim (Bool-cases (before y x)) [
  | inl e ↦
      rw e (
        NotAfter-trans (least y ys).0 y x (least-NotAfter y ys) (before-true y x e),
        least_rest y ys,
      )
  | inr e ↦ rw e (
    NotAfter-trans (least x ys).0 x y (least-NotAfter x ys) (before-false y x e),
    least_rest x ys,
  )
]

least-perm : (x : Queued) (xs : List Queued) → Perm (x ∷ xs) ((least x xs).0 ∷ (least x xs).1)
unfolding least
least-perm x [] = Perm.refl (x ∷ [])
least-perm x (y ∷ ys) = elim (Bool-cases (before y x)) [
  | inl e ↦
      rw e (Perm.trans (Perm.cons x (least-perm y ys)) (Perm.swap (least y ys).0 x (least y ys).1))
  | inr e ↦ rw e (
      Perm.trans (Perm.swap y x ys)
        (Perm.trans (Perm.cons y (least-perm x ys)) (Perm.swap (least x ys).0 y (least x ys).1)))
]

-- What is taken from the queue comes before all that stays, by priority and then by the order of
-- arrival, and nothing is lost or doubled.
pub pop-first :
    (q : List Queued) (x : Queued) (rest : List Queued)
    → pop q ≡ some (x, rest)
    → All (NotAfter x) rest × Perm q (x ∷ rest)
pop-first [] x rest h = absurd (ground arith)
pop-first (y ∷ ys) x rest h =
    let e = some-injective (least y ys) (x, rest) h in
    subst (λ p. All (NotAfter p.0) p.1 × Perm (y ∷ ys) (p.0 ∷ p.1)) e
      (least_rest y ys, least-perm y ys)
