-- ===== src/Assistant/Windows/Partition.antt =====
-- The parts hold every segment once, in order, and each is short enough.
use mathlib.Core.List.{append-nil, append_assoc}
use ambient_recorder.Base.{
  ℕ, zero, suc, ◌+◌, ◌*◌, ◌≤◌, ◌<◌, ◌≡◌, refl, sym, ap, ◌∙◌, arith, Bool, true, false, not, ◌&&◌,
  List, [], ◌∷◌, ◌++◌, ltb, leb, length, All, All-append, Bool-cases, inl, inr, ◌⊎◌,
}
use ambient_recorder.Base.Sort.{sort}
use ambient_recorder.Transcripts.Rows.{TranscriptSegment}
use ambient_recorder.Attribution.Twin.{is_empty}
use ambient_recorder.Capture.Conserved.{concat, concat-append}
use ambient_recorder.Retrieval.{cost}
use ambient_recorder.Assistant.Windows.{
  earlier, next_edge, last_part, windows_from, windows, cut, cut_each, sized_windows,
}

abbrev pub total_cost : List TranscriptSegment → ℕ
total_cost [] = 0
total_cost (s ∷ ss) = cost s + total_cost ss

total_cost-append :
    (xs ys : List TranscriptSegment) → total_cost (xs ++ ys) ≡ total_cost xs + total_cost ys
total_cost-append [] ys = omega arith
total_cost-append (x ∷ xs) ys = omega (arith, total_cost-append xs ys)

concat-last_part : (cur : List TranscriptSegment) → concat (last_part cur) ≡ cur
concat-last_part [] = refl
concat-last_part (s ∷ cur) = append-nil (s ∷ cur)

concat-windows_from :
    (window_s edge : ℕ) (cur ss : List TranscriptSegment)
    → concat (windows_from window_s edge cur ss) ≡ cur ++ ss
unfolding windows_from
concat-windows_from window_s edge cur [] = concat-last_part cur ∙ sym (append-nil cur)
concat-windows_from window_s edge cur (s ∷ ss) =
    let edge' = next_edge (suc s.start_s) window_s s.start_s edge in
    elim (Bool-cases (leb edge s.start_s && not (is_empty cur))) [
      | inl e ↦ rw e (ap (λ z. cur ++ z) (concat-windows_from window_s edge' (s ∷ []) ss))
      | inr e ↦
          rw e (concat-windows_from window_s edge (cur ++ s ∷ []) ss ∙ append_assoc cur (s ∷ []) ss)
    ]

concat-cut :
    (budget : ℕ) (cur : List TranscriptSegment) (size : ℕ) (ss : List TranscriptSegment)
    → concat (cut budget cur size ss) ≡ cur ++ ss
unfolding cut
concat-cut budget cur size [] = concat-last_part cur ∙ sym (append-nil cur)
concat-cut budget cur size (s ∷ ss) =
    elim (Bool-cases (not (is_empty cur) && ltb budget (size + cost s))) [
      | inl e ↦ rw e (ap (λ z. cur ++ z) (concat-cut budget (s ∷ []) (cost s) ss))
      | inr e ↦
          rw e (concat-cut budget (cur ++ s ∷ []) (size + cost s) ss ∙ append_assoc cur (s ∷ []) ss)
    ]

concat-cut_each :
    (budget : ℕ) (ws : List (List TranscriptSegment)) → concat (cut_each budget ws) ≡ concat ws
unfolding cut_each
concat-cut_each budget [] = refl
concat-cut_each budget (w ∷ ws) =
    concat-append (cut budget [] 0 w) (cut_each budget ws)
    ∙ ap (λ z. z ++ concat (cut_each budget ws)) (concat-cut budget [] 0 w)
    ∙ ap (λ z. w ++ z) (concat-cut_each budget ws)

-- The part fits into the budget, or is one segment.
abbrev pub Fits : ℕ → List TranscriptSegment → Type 0
Fits budget w = (1 ≤ length w) × ((total_cost w ≤ budget) ⊎ (length w ≡ 1))

last_part-Fits :
    (budget : ℕ) (cur : List TranscriptSegment)
    → (total_cost cur ≤ budget) ⊎ (length cur ≡ 1)
    → All (Fits budget) (last_part cur)
last_part-Fits budget [] h = tt
last_part-Fits budget (s ∷ cur) h = ((omega arith, h), tt)

longer :
    (budget : ℕ) (cur : List TranscriptSegment) (s : TranscriptSegment)
    → (not (is_empty cur) && ltb budget (total_cost cur + cost s)) ≡ false
    → (total_cost (cur ++ s ∷ []) ≤ budget) ⊎ (length (cur ++ s ∷ []) ≡ 1)
longer budget [] s h = inr refl
longer budget (x ∷ cur) s h = inl (ground (arith, total_cost-append (x ∷ cur) (s ∷ [])))

not_empty :
    (cur : List TranscriptSegment) (b : Bool) → (not (is_empty cur) && b) ≡ true → 1 ≤ length cur
not_empty [] b h = absurd (ground arith)
not_empty (x ∷ cur) b h = omega arith

cut-Fits :
    (budget : ℕ) (cur : List TranscriptSegment) (size : ℕ) (ss : List TranscriptSegment)
    → size ≡ total_cost cur
    → (total_cost cur ≤ budget) ⊎ (length cur ≡ 1)
    → All (Fits budget) (cut budget cur size ss)
unfolding cut
cut-Fits budget cur size [] e h = last_part-Fits budget cur h
cut-Fits budget cur size (s ∷ ss) e h =
    elim (Bool-cases (not (is_empty cur) && ltb budget (size + cost s))) [
      | inl g ↦
          rw g
            ((not_empty cur _ g, h), cut-Fits budget (s ∷ []) (cost s) ss (omega arith) (inr refl))
      | inr g ↦ rw g (
          cut-Fits budget (cur ++ s ∷ []) (size + cost s) ss
            (omega (arith, e, total_cost-append cur (s ∷ [])))
            (longer budget cur s
              (ap (λ z. not (is_empty cur) && ltb budget (z + cost s)) (sym e) ∙ g)))
    ]

cut_each-Fits :
    (budget : ℕ) (ws : List (List TranscriptSegment)) → All (Fits budget) (cut_each budget ws)
unfolding cut_each
cut_each-Fits budget [] = tt
cut_each-Fits budget (w ∷ ws) =
    All-append (Fits budget) (cut budget [] 0 w) (cut_each budget ws)
      (cut-Fits budget [] 0 w refl (inl (omega arith))) (cut_each-Fits budget ws)

-- The parts that the model is given hold every segment of the transcript once, in the order of time;
-- none is empty, and each fits into the budget, at four characters to the token and 24 for the
-- rendering of each segment, or is a single segment.
pub sized_windows-Fits :
    (window_s budget_tokens : ℕ) (segments : List TranscriptSegment)
    → (concat (sized_windows window_s budget_tokens segments) ≡ sort earlier segments)
      × All (Fits (budget_tokens * 4)) (sized_windows window_s budget_tokens segments)
unfolding sized_windows windows
sized_windows-Fits window_s budget_tokens segments = (
  concat-cut_each (budget_tokens * 4) (windows window_s segments)
      ∙ concat-windows_from window_s window_s [] (sort earlier segments),
  cut_each-Fits (budget_tokens * 4) (windows window_s segments),
)

-- The edge is raised past the segment, with fuel for it, and no further than needed.
next_edge-past :
    (fuel window_s start_s edge : ℕ)
    → 1 ≤ window_s
    → start_s < edge + fuel
    → edge ≤ start_s + window_s
    → (start_s < next_edge fuel window_s start_s edge)
      × (next_edge fuel window_s start_s edge ≤ start_s + window_s)
unfolding next_edge
next_edge-past zero window_s start_s edge w f l = (omega arith, l)
next_edge-past (suc fuel) window_s start_s edge w f l = elim (Bool-cases (leb edge start_s)) [
  | inr e ↦ rw e (ground (arith, e), l)
  | inl e ↦
      let le : edge ≤ start_s = ground (arith, e) in
      rw e (next_edge-past fuel window_s start_s (edge + window_s) w (omega arith) (omega arith))
]

-- The segments of a window start less than `window_s` after its first.
abbrev pub Spans : ℕ → List TranscriptSegment → Type 0
Spans window_s [] = ⊥
Spans window_s (s ∷ ss) = All (λ x. x.start_s < s.start_s + window_s) ss

-- The open window, which ends at the edge.
abbrev Opens : ℕ → ℕ → List TranscriptSegment → Type 0
Opens window_s edge [] = edge ≤ window_s
Opens window_s edge (s ∷ ss) = Spans window_s (s ∷ ss) × (edge ≤ s.start_s + window_s)

last_part-Spans :
    (window_s edge : ℕ) (cur : List TranscriptSegment)
    → Opens window_s edge cur
    → All (Spans window_s) (last_part cur)
last_part-Spans window_s edge [] h = tt
last_part-Spans window_s edge (s ∷ cur) h = (h.0, tt)

joins :
    (window_s edge : ℕ) (cur : List TranscriptSegment) (s : TranscriptSegment)
    → Opens window_s edge cur
    → (leb edge s.start_s && not (is_empty cur)) ≡ false
    → Opens window_s edge (cur ++ s ∷ [])
joins window_s edge [] s h e = (tt, omega (arith, h))
joins window_s edge (x ∷ cur) s h e = (
  All-append (λ y. y.start_s < x.start_s + window_s) cur (s ∷ []) h.0 (ground (arith, h.1, e), tt),
  h.1,
)

ended :
    (window_s edge : ℕ) (cur : List TranscriptSegment) (b : Bool)
    → Opens window_s edge cur
    → (b && not (is_empty cur)) ≡ true
    → Spans window_s cur
ended window_s edge [] b h e = absurd (ground arith)
ended window_s edge (x ∷ cur) b h e = h.0

windows_from-Spans :
    (window_s edge : ℕ) (cur ss : List TranscriptSegment)
    → 1 ≤ window_s
    → Opens window_s edge cur
    → All (Spans window_s) (windows_from window_s edge cur ss)
unfolding windows_from
windows_from-Spans window_s edge cur [] w h = last_part-Spans window_s edge cur h
windows_from-Spans window_s edge cur (s ∷ ss) w h =
    let edge' = next_edge (suc s.start_s) window_s s.start_s edge in
    elim (Bool-cases (leb edge s.start_s && not (is_empty cur))) [
      | inl e ↦
          let le : edge ≤ s.start_s = ground (arith, e) in
          let past =
            next_edge-past (suc s.start_s) window_s s.start_s edge w (omega arith) (omega arith) in
          rw e (
            ended window_s edge cur _ h e,
            windows_from-Spans window_s edge' (s ∷ []) ss w (tt, past.1),
          )
      | inr e ↦
          rw e
            (windows_from-Spans window_s edge (cur ++ s ∷ []) ss w (joins window_s edge cur s h e))
    ]

-- With windows of some length, none is empty, and the segments of a window start less than that length
-- after its first one.
pub windows-Spans :
    (window_s : ℕ) (segments : List TranscriptSegment)
    → 1 ≤ window_s
    → All (Spans window_s) (windows window_s segments)
unfolding windows
windows-Spans window_s segments w =
    windows_from-Spans window_s window_s [] (sort earlier segments) w (omega arith)
