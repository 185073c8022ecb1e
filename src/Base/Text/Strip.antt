-- ===== src/Base/Text/Strip.antt =====
-- `str.strip` twice is `str.strip` once.
use Prim.Native.Nat.{ℕ, ◌≤◌}
use mathlib.Core.Path.{◌≡◌, refl, sym, ap, ◌∙◌}
use mathlib.Core.Logic.{inl, inr}
use mathlib.Core.Bool.{false}
use mathlib.Core.List.{[], ◌∷◌, ◌++◌, reverse, reverse-append, reverse-reverse}
use native.Mathlib.Omega.{arith}
use ambient_recorder.Base.Tests.{Bool-cases}
use ambient_recorder.Base.Lists.{length}
use ambient_recorder.Base.Text.{Text, is_space, strip_left, strip}

length-strip_left : (s : Text) → length (strip_left s) ≤ length s
unfolding strip_left
length-strip_left [] = omega arith
length-strip_left (c ∷ cs) = ground (arith, length-strip_left cs)

strip_left_idem : (s : Text) → strip_left (strip_left s) ≡ strip_left s
unfolding strip_left
strip_left_idem [] = refl
strip_left_idem (c ∷ cs) = ground (arith, strip_left_idem cs)

-- What goes is a prefix.
strip_left-prefix : (s : Text) → (p : Text) × (s ≡ p ++ strip_left s)
strip_left-prefix [] = ([], unfold strip_left in refl)
strip_left-prefix (c ∷ cs) = grow (strip_left-prefix cs)
  where
    grow : (p : Text) × (cs ≡ p ++ strip_left cs) → (p : Text) × (c ∷ cs ≡ p ++ strip_left (c ∷ cs))
    grow (p, e) = elim (Bool-cases (is_space c)) [
      | inl h ↦ (c ∷ p, unfold strip_left in rw h (ap (λ t. c ∷ t) e))
      | inr h ↦ ([], unfold strip_left in rw h)
    ]

strip_right : Text → Text
strip_right s = reverse (strip_left (reverse s))

strip_right_idem : (s : Text) → strip_right (strip_right s) ≡ strip_right s
unfolding strip_right
strip_right_idem s =
    ap (λ t. reverse (strip_left t)) (reverse-reverse (strip_left (reverse s)))
    ∙ ap reverse (strip_left_idem (reverse s))

strip_right-prefix : (s : Text) → (p : Text) × (s ≡ strip_right s ++ p)
unfolding strip_right
strip_right-prefix s =
    let (p, e) = strip_left-prefix (reverse s) in
    (reverse p, sym (reverse-reverse s) ∙ ap reverse e ∙ reverse-append p (strip_left (reverse s)))

starts_tight : (c : ℕ) (cs : Text) → strip_left (c ∷ cs) ≡ c ∷ cs → is_space c ≡ false
unfolding strip_left
starts_tight c cs h = elim (Bool-cases (is_space c)) [
  | inl e ↦ absurd (omega (arith, length-strip_left cs, ap length (rw e at h)))
  | inr e ↦ e
]

tight_prefix : (u v p : Text) → u ≡ v ++ p → strip_left u ≡ u → strip_left v ≡ v
unfolding strip_left
tight_prefix u [] p e h = refl
tight_prefix u (c ∷ cs) p e h = rw (starts_tight c (cs ++ p) (rw e at h))

pub strip_idem : (s : Text) → strip (strip s) ≡ strip s
unfolding strip strip_right
strip_idem s =
    let (p, e) = strip_right-prefix (strip_left s) in
    ap strip_right
      (tight_prefix (strip_left s) (strip_right (strip_left s)) p e (strip_left_idem s))
    ∙ strip_right_idem (strip_left s)
