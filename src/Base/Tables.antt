-- ===== src/Base/Tables.antt =====
-- What SQL does to the rows of a table.
use mathlib.Core.Path.{◌≡◌, refl}
use mathlib.Core.Bool.{Bool, true, false}
use mathlib.Core.List.{List, [], ◌∷◌}
use mathlib.Core.Option.{Option, none, some}
use mathlib.Core.Logic.{inl, inr}
use native.Mathlib.Omega.{arith}
use ambient_recorder.Base.Tests.{if◌then◌else◌, Bool-cases}
use ambient_recorder.Base.Lists.{find, All}

-- `UPDATE … WHERE`: the rows that pass the test are rewritten.
abbrev pub update_where {ℓ} : {A : Type ℓ} → (A → Bool) → (A → A) → List A → List A
update_where p f [] = []
update_where p f (x ∷ xs) = (if p x then f x else x) ∷ update_where p f xs

abbrev pub map_option {ℓ} : {A : Type ℓ} → (A → A) → Option A → Option A
map_option f none = none
map_option f (some a) = some (f a)

pub find-update_where {ℓ} :
    {A : Type ℓ}
    → (p : A → Bool) (f : A → A) (xs : List A) → ((x : A) → p (f x) ≡ p x)
    → find p (update_where p f xs) ≡ map_option f (find p xs)
find-update_where p f [] h = refl
find-update_where p f (x ∷ xs) h = ground (arith, h x, find-update_where p f xs h)

-- What holds of every row, and is kept where a row is rewritten, still holds of every row.
pub All-update_where {ℓ} :
    {A : Type ℓ}
    → (P Q : A → Type 0) (p : A → Bool) (f : A → A) (xs : List A)
    → ((x : A) → p x ≡ true → P x → Q (f x))
    → ((x : A) → p x ≡ false → P x → Q x)
    → All P xs
    → All Q (update_where p f xs)
All-update_where P Q p f [] hit miss h = tt
All-update_where P Q p f (x ∷ xs) hit miss h = elim (Bool-cases (p x)) [
  | inl e ↦ rw e (hit x e h.0, All-update_where P Q p f xs hit miss h.1)
  | inr e ↦ rw e (miss x e h.0, All-update_where P Q p f xs hit miss h.1)
]
