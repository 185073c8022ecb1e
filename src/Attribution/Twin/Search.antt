-- ===== src/Attribution/Twin/Search.antt =====
-- What the search for a twin finds.
use ambient_recorder.Base.{
  ℕ, ◌*◌, ◌≤◌, ◌<◌, ◌≡◌, inl, inr, true, false, Option, none, some, List, [], ◌∷◌, arith, keep, All,
  All-map_of, All-of_keep, ap, sym, ◌∙◌, get_or_else, Bool-cases,
}
use mathlib.Core.Bool.{false≢true}
use ambient_recorder.Base.Text.{Text}
use ambient_recorder.Attribution.Segment.{Ratio, TimedSegment, at_least}
use ambient_recorder.Attribution.Twin.{
  overlap_ratio, near, better_of, best_of, twin_among, find_twin,
}

den_pos : (a b : Text) → 0 < (overlap_ratio a b).den
unfolding overlap_ratio
den_pos a b = ground (arith)

cancel : (a b n : ℕ) → 0 < n → a * n ≤ b * n → a ≤ b
cancel a b n p h = grind arith

scale : (a b n : ℕ) → a ≤ b → a * n ≤ b * n
scale a b n h = grind arith

cross_trans :
    (pn pd qn qd rn rd : ℕ) → 0 < qd → pn * qd ≤ qn * pd → qn * rd ≤ rn * qd → pn * rd ≤ rn * pd
cross_trans pn pd qn qd rn rd pos h k =
    cancel (pn * rd) (rn * pd) qd pos
      (omega (arith, scale (pn * qd) (qn * pd) rd h, scale (qn * rd) (rn * qd) pd k))

-- The order of fractions, by cross multiplication, is transitive.
at_least_trans :
    (p q r : Ratio) → 0 < q.den → at_least q p ≡ true → at_least r q ≡ true → at_least r p ≡ true
at_least_trans p q r pos h k = ground (arith, cross_trans p.num p.den q.num q.den r.num r.den pos)

abbrev NotBetter : Text → TimedSegment → TimedSegment → Type 0
NotBetter t best o = at_least (overlap_ratio t best.text) (overlap_ratio t o.text) ≡ true

better_of-ge :
    (t : Text) (b o : TimedSegment)
    → NotBetter t (better_of t b o) b × NotBetter t (better_of t b o) o
unfolding better_of
better_of-ge t b o = ground arith

-- The text of the best is no worse than the first, nor than any that follows.
best_of-ge :
    (t : Text) (b : TimedSegment) (os : List TimedSegment)
    → All (NotBetter t (best_of t b os)) (b ∷ os)
unfolding best_of
best_of-ge t b [] = (ground arith, tt)
best_of-ge t b (o ∷ os) =
    let step = better_of-ge t b o in
    let rest = best_of-ge t (better_of t b o) os in
    let via = λ (x : TimedSegment) (h : NotBetter t (better_of t b o) x).
      at_least_trans (overlap_ratio t x.text) (overlap_ratio t (better_of t b o).text)
        (overlap_ratio t (best_of t (better_of t b o) os).text) (den_pos t (better_of t b o).text) h
        rest.0 in
    (via b step.0, (via o step.1, rest.1))

module _ (c : TimedSegment) (others : List TimedSegment) (ratio : Ratio) where
  twin_among-ratio :
      (xs : List TimedSegment) {t : Text}
      → twin_among c.text xs ratio ≡ some t
      → at_least (overlap_ratio c.text t) ratio ≡ true
  unfolding twin_among
  twin_among-ratio [] h = cc
  twin_among-ratio (o ∷ os) {t} h =
      ground (
        arith,
        ap (λ (s : Option Text). at_least (overlap_ratio c.text (get_or_else [] s)) ratio) h,
      )

  -- A twin that is found has the words: its overlap with the candidate reaches the ratio.
  pub find_twin-ratio :
      {t : Text}
      → find_twin c others ratio ≡ some t
      → at_least (overlap_ratio c.text t) ratio ≡ true
  unfolding find_twin
  find_twin-ratio h = twin_among-ratio (keep (near c) others) h

  Misses : TimedSegment → Type 0
  Misses o = at_least (overlap_ratio c.text o.text) ratio ≡ false

  Misses-of : (b o : TimedSegment) → NotBetter c.text b o → Misses b → Misses o
  unfolding Misses
  Misses-of b o h k = elim (Bool-cases (at_least (overlap_ratio c.text o.text) ratio)) [
    | inl e ↦ absurd (
        false≢true (
          sym k
          ∙ at_least_trans ratio (overlap_ratio c.text o.text) (overlap_ratio c.text b.text)
              (den_pos c.text o.text) e h))
    | inr e ↦ e
  ]

  twin_among-none : (xs : List TimedSegment) → twin_among c.text xs ratio ≡ none → All Misses xs
  twin_among-none [] h = tt
  twin_among-none (o ∷ os) h =
      All-map_of (o ∷ os)
        (λ x n. Misses-of (best_of c.text o os) x n (unfold Misses twin_among in ground arith))
        (best_of-ge c.text o os)

  -- Where no twin is found, no segment of the other track within a second of the candidate reaches
  -- the ratio.
  pub find_twin-none :
      find_twin c others ratio ≡ none
      → All (λ o. near c o ≡ true → at_least (overlap_ratio c.text o.text) ratio ≡ false) others
  unfolding find_twin Misses
  find_twin-none h =
      All-of_keep (λ o. at_least (overlap_ratio c.text o.text) ratio ≡ false) (near c) others
        (twin_among-none (keep (near c) others) h)
