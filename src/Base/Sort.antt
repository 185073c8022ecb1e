-- ===== src/Base/Sort.antt =====
-- Python's `sorted`: a stable sort by a test `le`, as insertion from the right.
use mathlib.Core.Path.{◌≡◌, refl}
use mathlib.Core.Bool.{Bool, true, false}
use mathlib.Core.Logic.{inl, inr}
use mathlib.Core.List.{List, [], ◌∷◌, Perm}
use mathlib.Core.List.Perm
use native.Mathlib.Omega.{arith}
use ambient_recorder.Base.Tests.{if◌then◌else◌, Bool-cases}
use ambient_recorder.Base.Lists.{All, All-map_of, keep}

module _ {ℓ} {A : Type ℓ} (le : A → A → Bool) where
  unfoldable pub insert : A → List A → List A
  insert x [] = x ∷ []
  insert x (y ∷ ys) = if le x y then x ∷ y ∷ ys else y ∷ insert x ys

  unfoldable pub sort : List A → List A
  unfolding insert
  sort [] = []
  sort (x ∷ xs) = insert x (sort xs)

  pub All-insert {κ} : (P : A → Type κ) (x : A) (xs : List A) → P x → All P xs → All P (insert x xs)
  unfolding insert
  All-insert P x [] p h = (p, tt)
  All-insert P x (y ∷ ys) p h = elim (Bool-cases (le x y)) [
    | inl e ↦ unfold insert in ground (arith)
    | inr e ↦ ground (arith, All-insert P x ys p h.1)
  ]

  pub All-sort {κ} : (P : A → Type κ) (xs : List A) → All P xs → All P (sort xs)
  unfolding sort
  All-sort P [] h = tt
  All-sort P (x ∷ xs) h = All-insert P x (sort xs) h.0 (All-sort P xs h.1)

  All-of_insert {κ} : (P : A → Type κ) (x : A) (xs : List A) → All P (insert x xs) → P x × All P xs
  unfolding insert
  All-of_insert P x [] h = (h.0, tt)
  All-of_insert P x (y ∷ ys) h = elim (Bool-cases (le x y)) [
    | inl e ↦ let h' = rw e at h in (h'.0, h'.1)
    | inr e ↦ let h' = rw e at h in let rest = All-of_insert P x ys h'.1 in (rest.0, (h'.0, rest.1))
  ]

  pub All-of_sort {κ} : (P : A → Type κ) (xs : List A) → All P (sort xs) → All P xs
  unfolding sort
  All-of_sort P [] h = tt
  All-of_sort P (x ∷ xs) h =
      let both = All-of_insert P x (sort xs) h in (both.0, All-of_sort P xs both.1)

  pub insert-perm : (x : A) (xs : List A) → Perm (insert x xs) (x ∷ xs)
  unfolding insert
  insert-perm x [] = Perm.refl _
  insert-perm x (y ∷ ys) = ground (
    arith,
    Perm.refl (x ∷ y ∷ ys),
    Perm.trans (Perm.cons y (insert-perm x ys)) (Perm.swap x y ys),
  )

  -- Sorting neither loses nor repeats an element.
  pub sort-perm : (xs : List A) → Perm (sort xs) xs
  unfolding sort
  sort-perm [] = Perm.refl _
  sort-perm (x ∷ xs) = Perm.trans (insert-perm x (sort xs)) (Perm.cons x (sort-perm xs))

  keep_swap :
      (p : A → Bool) (x y : A) (xs : List A) → Perm (keep p (y ∷ x ∷ xs)) (keep p (x ∷ y ∷ xs))
  keep_swap p x y xs = ground (arith, Perm.refl (keep p (x ∷ y ∷ xs)), Perm.swap x y (keep p xs))

  keep_cons :
      (p : A → Bool) (x : A) (xs ys : List A)
      → Perm (keep p xs) (keep p ys)
      → Perm (keep p (x ∷ xs)) (keep p (x ∷ ys))
  keep_cons p x xs ys h = ground (arith, Perm.cons x h)

  keep-insert : (p : A → Bool) (x : A) (xs : List A) → Perm (keep p (insert x xs)) (keep p (x ∷ xs))
  unfolding insert
  keep-insert p x [] = Perm.refl _
  keep-insert p x (y ∷ ys) = ground (
    arith,
    Perm.refl (keep p (x ∷ y ∷ ys)),
    Perm.trans (keep_cons p y (insert x ys) (x ∷ ys) (keep-insert p x ys)) (keep_swap p x y ys),
  )

  -- A selection of the sorted list is the selection of the list, in another order.
  pub keep-sort : (p : A → Bool) (xs : List A) → Perm (keep p (sort xs)) (keep p xs)
  unfolding sort
  keep-sort p [] = Perm.refl _
  keep-sort p (x ∷ xs) =
      Perm.trans (keep-insert p x (sort xs)) (keep_cons p x (sort xs) xs (keep-sort p xs))

  -- Every element is before all that follow it.
  abbrev pub IsSorted : List A → Type 0
  IsSorted [] = Unit
  IsSorted (x ∷ xs) = All (λ y. le x y ≡ true) xs × IsSorted xs

  insert-front : (x : A) (xs : List A) → All (λ y. le x y ≡ true) xs → insert x xs ≡ x ∷ xs
  unfolding insert
  insert-front x [] h = refl
  insert-front x (y ∷ ys) h = rw h.0

  -- A sorted list is left as it is.
  pub sort-IsSorted_id : (xs : List A) → IsSorted xs → sort xs ≡ xs
  unfolding sort
  sort-IsSorted_id [] h = refl
  sort-IsSorted_id (x ∷ xs) h = rw (sort-IsSorted_id xs h.1) (insert-front x xs h.0)

  module _ (total : (x y : A) → le x y ≡ false → le y x ≡ true)
      (trans : (x y z : A) → le x y ≡ true → le y z ≡ true → le x z ≡ true) where
    insert-IsSorted : (x : A) (xs : List A) → IsSorted xs → IsSorted (insert x xs)
    unfolding insert
    insert-IsSorted x [] h = (tt, tt)
    insert-IsSorted x (y ∷ ys) h =
        let tail = insert-IsSorted x ys h.1 in
        let head = λ (e : le x y ≡ false). All-insert (λ z. le y z ≡ true) x ys (total x y e) h.0 in
        let after = λ (e : le x y ≡ true). All-map_of ys (λ z. trans x y z e) h.0 in
        ground (arith, tail, head, after)

    pub sort-IsSorted : (xs : List A) → IsSorted (sort xs)
    unfolding sort
    sort-IsSorted [] = tt
    sort-IsSorted (x ∷ xs) = insert-IsSorted x (sort xs) (sort-IsSorted xs)
