-- ===== src/Assistant/Summary/Condensed.antt =====
-- The tiers of the reduce stage come to an end.
use ambient_recorder.Base.{
  ℕ, zero, suc, ◌≤◌, ◌<◌, ◌≡◌, refl, arith, false, ◌&&◌, Option, none, some, List, [], ltb, leb,
  length, Bool-cases, inl, inr,
}
use ambient_recorder.Base.Text.{Text}
use ambient_recorder.Assistant.Checked.{Calls, resume, Generate}
use ambient_recorder.Assistant.Summary.{total, merge_notes, condense}

-- A chain that returns has returned before.
pub resume-some :
    {A B : Type 0} (m : Option (A × ℕ)) (f : A → Calls B) (r : B × ℕ)
    → resume m f ≡ some r
    → (a : A) × (n : ℕ) × (m ≡ some (a, n)) × (f a n ≡ some r)
resume-some none f r h = absurd (ground arith)
resume-some (some (a, n)) f r h = (a, n, refl, h)

resume-same :
    {A B : Type 0} (m : Option (A × ℕ)) (f g : A → Calls B)
    → ((a : A) (n : ℕ) → f a n ≡ g a n)
    → resume m f ≡ resume m g
resume-same none f g h = refl
resume-same (some (a, n)) f g h = h a n

few :
    (notes : List Text) (size budget : ℕ)
    → length notes ≤ 0
    → (ltb 1 (length notes) && ltb budget size) ≡ false
few notes size budget h = ground arith

module _ (generate : Generate) (ratio : Text → Text → ℕ) where
  -- With as much fuel as there are notes, or more, the result does not depend on the fuel: each tier
  -- but the last leaves fewer notes.
  pub condense-fuel :
      (budget f g : ℕ) (notes : List Text) (n : ℕ)
      → length notes ≤ f
      → length notes ≤ g
      → condense generate ratio f budget notes n ≡ condense generate ratio g budget notes n
  unfolding condense
  condense-fuel budget zero zero notes n h k = refl
  condense-fuel budget zero (suc g) notes n h k =
      rw (few notes (total notes) budget (omega arith)) refl
  condense-fuel budget (suc f) zero notes n h k =
      rw (few notes (total notes) budget (omega arith)) refl
  condense-fuel budget (suc f) (suc g) notes n h k =
      elim (Bool-cases (ltb 1 (length notes) && ltb budget (total notes))) [
        | inr e ↦ rw e refl
        | inl e ↦ rw e (
            resume-same (merge_notes generate ratio budget [] 0 notes n) _ _ (λ merged i.
              elim (Bool-cases (leb (length notes) (length merged))) [
                | inl e' ↦ rw e' refl
                | inr e' ↦
                    let fewer : length merged < length notes = ground (arith, e') in
                    rw e' (condense-fuel budget f g merged i (omega arith) (omega arith))
              ]))
      ]
