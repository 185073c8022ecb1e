-- ===== src/Assistant/Windows/Edge.antt =====
-- The loop of `windows` that raises the edge past a segment.
use ambient_recorder.Base.{
  ℕ, zero, suc, ◌+◌, ◌*◌, ◌≤◌, ◌<◌, ◌≡◌, subst, ◌∙◌, arith, leb, Bool-cases, inl, inr,
}
use ambient_recorder.Assistant.Windows.{next_edge}

-- The edge `e` is the first of `edge`, `edge + window_s`, and so on, that is after the start.
abbrev pub IsFirst : ℕ → ℕ → ℕ → ℕ → Type 0
IsFirst window_s start_s edge e =
    (k : ℕ) × (e ≡ edge + k * window_s)
    × (start_s < e)
    × ((j : ℕ) → j < k → edge + j * window_s ≤ start_s)

-- One step of the loop comes before the others.
IsFirst-step :
    (window_s start_s edge e : ℕ)
    → edge ≤ start_s
    → IsFirst window_s start_s (edge + window_s) e
    → IsFirst window_s start_s edge e
IsFirst-step window_s start_s edge e le (k, at, past, before) =
    (suc k, at ∙ one_more k, past, earlier)
  where
    one_more : (j : ℕ) → edge + window_s + j * window_s ≡ edge + suc j * window_s
    one_more j = omega arith

    earlier : (j : ℕ) → j < suc k → edge + j * window_s ≤ start_s
    earlier zero l = omega (arith, le)
    earlier (suc j) l = subst (λ z. z ≤ start_s) (one_more j) (before j (omega (arith, l)))

-- With windows of some length, and fuel that reaches past the segment, the loop ends, at the first edge
-- that is after the start of the segment.
pub next_edge-IsFirst :
    (fuel window_s start_s edge : ℕ)
    → 1 ≤ window_s
    → start_s < edge + fuel
    → IsFirst window_s start_s edge (next_edge fuel window_s start_s edge)
unfolding next_edge
next_edge-IsFirst zero window_s start_s edge w f =
    (0, omega arith, omega arith, λ j l. absurd (omega arith))
next_edge-IsFirst (suc fuel) window_s start_s edge w f = elim (Bool-cases (leb edge start_s)) [
  | inr e ↦ rw e (0, omega arith, ground (arith, e), λ j l. absurd (omega arith))
  | inl e ↦ rw e (
      IsFirst-step window_s start_s edge _ (ground (arith, e))
        (next_edge-IsFirst fuel window_s start_s (edge + window_s) w (omega arith)))
]
