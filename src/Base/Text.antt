-- ===== src/Base/Text.antt =====
-- Texts as lists of code points, with what the program uses of `str`: `strip`, `split`, `join`,
-- `lower` (of ASCII letters) and equality.
pub mod Strip
use Prim.Native.Nat.{ℕ, ◌+◌}
use Prim.Native.Char.{code}
use Prim.Native.String.{String}
use mathlib.Core.Path.{◌≡◌, refl}
use mathlib.Core.Bool.{Bool, true, false, not, ◌&&◌, ◌||◌}
use mathlib.Core.Logic.{◌↔◌}
use mathlib.Core.List.{List, [], ◌∷◌, ◌++◌, map, reverse}
use native.Mathlib.Omega.{arith}
use ambient_recorder.Base.Tests.{leb, ◌==◌, if◌then◌else◌}
use ambient_recorder.Base.Lists.{any}

abbrev pub Text : Type 0
Text = List ℕ

-- A literal's code points.
abbrev pub codes : String → Text
codes String.[] = []
codes (String.◌∷◌ c s) = code c ∷ codes s

unfoldable pub text_eq : Text → Text → Bool
text_eq [] [] = true
text_eq (x ∷ xs) (y ∷ ys) = x == y && text_eq xs ys
text_eq _ _ = false

pub text_eq_iff : (s t : Text) → (text_eq s t ≡ true) ↔ (s ≡ t)
unfolding text_eq
text_eq_iff [] [] = (λ _. refl, λ _. refl)
text_eq_iff [] (y ∷ ys) = (λ h. cc, λ h. cc)
text_eq_iff (x ∷ xs) [] = (λ h. cc, λ h. cc)
text_eq_iff (x ∷ xs) (y ∷ ys) =
    (λ h. ground (arith, text_eq_iff xs ys), λ h. ground (arith, text_eq_iff xs ys))

pub text_eq_refl : (s : Text) → text_eq s s ≡ true
text_eq_refl s = (text_eq_iff s s).1 refl

-- The characters that `str.strip` and `str.split` take for white space.
unfoldable pub is_space : ℕ → Bool
is_space c =
    (leb 9 c && leb c 13)
    || (leb 28 c && leb c 32)
    || c == 133
    || c == 160
    || c == 5760
    || (leb 8192 c && leb c 8202)
    || c == 8232
    || c == 8233
    || c == 8239
    || c == 8287
    || c == 12288

unfoldable pub strip_left : Text → Text
unfolding is_space
strip_left [] = []
strip_left (c ∷ cs) = if is_space c then strip_left cs else c ∷ cs

unfoldable pub strip : Text → Text
unfolding strip_left
strip s = reverse (strip_left (reverse (strip_left s)))

-- ASCII letters only.
unfoldable pub to_lower : ℕ → ℕ
to_lower c = if leb 65 c && leb c 90 then c + 32 else c

unfoldable pub lower : Text → Text
unfolding to_lower
lower = map to_lower

-- The maximal runs of characters that pass the test; `run` is the open run.
abbrev close_run : Text → List Text → List Text
close_run [] rest = rest
close_run (c ∷ run) rest = (c ∷ run) ∷ rest

unfoldable pub runs_from : (ℕ → Bool) → Text → Text → List Text
runs_from p run [] = close_run run []
runs_from p run (c ∷ cs) = elim (p c) [
  | true ↦ runs_from p (run ++ c ∷ []) cs
  | false ↦ close_run run (runs_from p [] cs)
]

-- `s.split()`
unfoldable pub split : Text → List Text
unfolding runs_from is_space
split s = runs_from (λ c. not (is_space c)) [] s

-- `sep.join(parts)`
unfoldable pub join : Text → List Text → Text
join sep [] = []
join sep (s ∷ []) = s
join sep (s ∷ t ∷ rest) = s ++ (sep ++ join sep (t ∷ rest))

-- Sets of texts as lists without repetition.
unfoldable pub has : List Text → Text → Bool
unfolding text_eq
has ts t = any (text_eq t) ts

unfoldable pub distinct : List Text → List Text
unfolding has
distinct [] = []
distinct (t ∷ ts) = let rest = distinct ts in if has rest t then rest else t ∷ rest

split_example : split (codes " Let's  go ") ≡ codes "Let's" ∷ codes "go" ∷ []
unfolding split
split_example = refl

strip_example : strip (codes "  a b ") ≡ codes "a b"
unfolding strip
strip_example = refl
