-- ===== src/Base/Keys.antt =====
-- Rows with a key: whether a key is taken, and whether no two rows share one.
use mathlib.Core.Path.{◌≡◌, refl}
use mathlib.Core.Bool.{Bool, true, false, not, ◌&&◌, ◌||◌}
use mathlib.Core.List.{List, [], ◌∷◌, ◌++◌, Memᴰ}
use native.Mathlib.Omega.{arith}
use Prim.Native.Nat.{ℕ}
use ambient_recorder.Base.Tests.{◌==◌}
use ambient_recorder.Base.Tables.{update_where}

module _ {A : Type 0} (key : A → ℕ) where
  abbrev pub is_taken : ℕ → List A → Bool
  is_taken i [] = false
  is_taken i (x ∷ xs) = (key x == i) || is_taken i xs

  abbrev pub are_keyed : List A → Bool
  are_keyed [] = true
  are_keyed (x ∷ xs) = not (is_taken (key x) xs) && are_keyed xs

  pub is_taken-mem : (x : A) (xs : List A) → Memᴰ x xs → is_taken (key x) xs ≡ true
  is_taken-mem x [] m = elim m [ ]
  is_taken-mem x (y ∷ ys) (Memᴰ.head e) = rw e (ground arith)
  is_taken-mem x (y ∷ ys) (Memᴰ.tail m) = ground (arith, is_taken-mem x ys m)

  pub is_taken-append :
      (i : ℕ) (xs : List A) (x : A) → is_taken i (xs ++ x ∷ []) ≡ (is_taken i xs || (key x == i))
  is_taken-append i [] x = ground arith
  is_taken-append i (y ∷ ys) x = ground (arith, is_taken-append i ys x)

  pub are_keyed-append :
      (xs : List A) (x : A)
      → are_keyed xs ≡ true
      → is_taken (key x) xs ≡ false
      → are_keyed (xs ++ x ∷ []) ≡ true
  are_keyed-append [] x h free = refl
  are_keyed-append (y ∷ ys) x h free = ground (
    arith,
    h,
    free,
    is_taken-append (key y) ys x,
    are_keyed-append ys x (ground (arith, h)) (ground (arith, free)),
  )

  pub is_taken-update_where :
      (i : ℕ) (p : A → Bool) (f : A → A) (xs : List A)
      → ((x : A) → key (f x) ≡ key x)
      → is_taken i (update_where p f xs) ≡ is_taken i xs
  is_taken-update_where i p f [] same = refl
  is_taken-update_where i p f (x ∷ xs) same =
      ground (arith, same x, is_taken-update_where i p f xs same)

  pub are_keyed-update_where :
      (p : A → Bool) (f : A → A) (xs : List A)
      → ((x : A) → key (f x) ≡ key x)
      → are_keyed (update_where p f xs) ≡ are_keyed xs
  are_keyed-update_where p f [] same = refl
  are_keyed-update_where p f (x ∷ xs) same =
      ground (
        arith,
        same x,
        is_taken-update_where (key x) p f xs same,
        are_keyed-update_where p f xs same,
      )
