-- ===== src/Retrieval/Packed.antt =====
-- What the excerpts cost, and their order.
use ambient_recorder.Base.{
  ℕ, ◌+◌, ◌*◌, ◌≤◌, ◌≡◌, refl, arith, Bool, not, ◌&&◌, ◌==◌, Option, none, some, List, [], ◌∷◌,
  ◌++◌, ltb, leb, length, Bool-cases, inl, inr, take_last,
}
use ambient_recorder.Base.Sort.{sort, insert, IsSorted, sort-IsSorted}
use ambient_recorder.Base.Text.{Text, codes, join}
use ambient_recorder.Attribution.Twin.{is_empty}
use ambient_recorder.Transcripts.Rows.{TranscriptSegment}
use ambient_recorder.Retrieval.{
  Excerpt, Pack, cost, include, include_each, around, by_seq, pack, put, fall_back, later, seq_le,
  number, ranking, nothing, choose, select_excerpts, score, terms, max_seq,
}

abbrev pub total_cost : List TranscriptSegment → ℕ
total_cost [] = 0
total_cost (s ∷ ss) = cost s + total_cost ss

total_cost-append :
    (xs ys : List TranscriptSegment) → total_cost (xs ++ ys) ≡ total_cost xs + total_cost ys
total_cost-append [] ys = omega arith
total_cost-append (x ∷ xs) ys = omega (arith, total_cost-append xs ys)

total_cost-insert :
    (le : TranscriptSegment → TranscriptSegment → Bool) (x : TranscriptSegment)
    (xs : List TranscriptSegment)
    → total_cost (insert le x xs) ≡ cost x + total_cost xs
unfolding insert
total_cost-insert le x [] = omega arith
total_cost-insert le x (y ∷ ys) = ground (arith, total_cost-insert le x ys)

total_cost-sort :
    (le : TranscriptSegment → TranscriptSegment → Bool) (xs : List TranscriptSegment)
    → total_cost (sort le xs) ≡ total_cost xs
unfolding sort
total_cost-sort le [] = refl
total_cost-sort le (x ∷ xs) =
    omega (arith, total_cost-insert le x (sort le xs), total_cost-sort le xs)

total_cost-put :
    (s : TranscriptSegment) (xs : List TranscriptSegment)
    → total_cost (put s xs) ≤ total_cost xs + cost s
total_cost-put s [] = omega arith
total_cost-put s (x ∷ xs) = ground (arith, total_cost-put s xs)

-- What was chosen costs no more than what is used, and that is within the budget.
abbrev pub Within : ℕ → Pack → Type 0
Within budget p = (total_cost p.chosen ≤ p.used) × (p.used ≤ budget)

include-Within :
    (budget : ℕ) (s : Option TranscriptSegment) (p : Pack)
    → Within budget p
    → Within budget (include budget s p)
unfolding include
include-Within budget none p h = h
include-Within budget (some s) p h = ground (arith, total_cost-append p.chosen (s ∷ []), h.0, h.1)

include_each-Within :
    (budget : ℕ) (segments : List TranscriptSegment) (ns : List ℕ) (p : Pack)
    → Within budget p
    → Within budget (include_each budget segments ns p)
unfolding include_each
include_each-Within budget segments [] p h = h
include_each-Within budget segments (n ∷ ns) p h =
    include_each-Within budget segments ns (include budget (by_seq n segments) p)
      (include-Within budget (by_seq n segments) p h)

pack-Within :
    (scored : TranscriptSegment → ℕ) (budget : ℕ) (segments ranked : List TranscriptSegment)
    (p : Pack)
    → Within budget p
    → Within budget (pack scored budget segments ranked p)
unfolding pack
pack-Within scored budget segments [] p h = h
pack-Within scored budget segments (s ∷ ss) p h =
    let p' = include_each budget segments (around s.seq) p in
    let h' = include_each-Within budget segments (around s.seq) p h in
    elim (Bool-cases (scored s == 0 && not (is_empty p.chosen))) [
      | inl e ↦ rw e h
      | inr e ↦ elim (Bool-cases (leb (19 * budget) (20 * p'.used))) [
        | inl f ↦ rw (e, f) h'
        | inr f ↦ rw (e, f) (pack-Within scored budget segments ss p' h')
      ]
    ]

fall_back-Within :
    (budget : ℕ) (ss : List TranscriptSegment) (p : Pack)
    → Within budget p
    → Within budget (fall_back budget ss p)
unfolding fall_back
fall_back-Within budget [] p h = h
fall_back-Within budget (s ∷ ss) p h = elim (Bool-cases (ltb budget (p.used + cost s))) [
  | inl e ↦ rw e h
  | inr e ↦ rw e (
      fall_back-Within budget ss (record { chosen = put s p.chosen; used = p.used + cost s })
        (omega (arith, total_cost-put s p.chosen, h.0), ground (arith, e)))
]

choose-Within :
    (scored : TranscriptSegment → ℕ) (budget : ℕ) (segments : List TranscriptSegment)
    → Within budget (choose scored budget segments)
unfolding choose
choose-Within scored budget segments =
    let p = pack scored budget segments (sort (ranking scored) segments) nothing in
    let h =
      pack-Within scored budget segments (sort (ranking scored) segments) nothing
        (omega arith, omega arith) in
    elim (Bool-cases (is_empty p.chosen)) [
      | inl e ↦ rw e (fall_back-Within budget (sort later segments) p h)
      | inr e ↦ rw e h
    ]

abbrev pub prompt_cost : List Excerpt → ℕ
prompt_cost [] = 0
prompt_cost (e ∷ es) = length e.text + 24 + prompt_cost es

prompt_cost-number :
    (session_id n : ℕ) (ss : List TranscriptSegment)
    → prompt_cost (number session_id n ss) ≡ total_cost ss
unfolding number
prompt_cost-number session_id n [] = refl
prompt_cost-number session_id n (s ∷ ss) = omega (arith, prompt_cost-number session_id (n + 1) ss)

-- The excerpts, with 24 characters for the rendering of each, fit into the budget at four characters
-- to the token.
pub select_excerpts-prompt_cost :
    (question : Text) (history : List Text) (segments : List TranscriptSegment)
    (session_id budget_tokens : ℕ) (live : Bool)
    → prompt_cost (select_excerpts question history segments session_id budget_tokens live)
      ≤ budget_tokens * 4
unfolding select_excerpts
select_excerpts-prompt_cost question history segments session_id budget_tokens live =
    let h_terms = terms (join (codes " ") (take_last 3 history)) in
    let scored = score (terms question) h_terms live (max_seq segments) in
    let p = choose scored (budget_tokens * 4) segments in
    let h = choose-Within scored (budget_tokens * 4) segments in
    omega (
      arith,
      prompt_cost-number session_id 1 (sort seq_le p.chosen),
      total_cost-sort seq_le p.chosen,
      h.0,
      h.1,
    )

-- The excerpts are numbered from `k` on, and their segments come in order, none before `lo`.
abbrev pub InOrder : ℕ → ℕ → List Excerpt → Type 0
InOrder k lo [] = Unit {0}
InOrder k lo (e ∷ es) = (e.n ≡ k) × (lo ≤ e.seq) × InOrder (k + 1) e.seq es

abbrev Starts : ℕ → List TranscriptSegment → Type 0
Starts lo [] = Unit {0}
Starts lo (s ∷ ss) = lo ≤ s.seq

Starts-sorted :
    (s : TranscriptSegment) (ss : List TranscriptSegment)
    → IsSorted seq_le (s ∷ ss)
    → Starts s.seq ss
Starts-sorted s [] h = tt
Starts-sorted s (x ∷ xs) h = ground (arith, h.0.0)

number-InOrder :
    (session_id k lo : ℕ) (ss : List TranscriptSegment)
    → Starts lo ss
    → IsSorted seq_le ss
    → InOrder k lo (number session_id k ss)
unfolding number
number-InOrder session_id k lo [] h o = tt
number-InOrder session_id k lo (s ∷ ss) h o =
    (refl, h, number-InOrder session_id (k + 1) s.seq ss (Starts-sorted s ss o) o.1)

Starts-zero : (ss : List TranscriptSegment) → Starts 0 ss
Starts-zero [] = tt
Starts-zero (s ∷ ss) = omega arith

-- The excerpts are numbered 1, 2, 3, … in the order of their segments.
pub select_excerpts-InOrder :
    (question : Text) (history : List Text) (segments : List TranscriptSegment)
    (session_id budget_tokens : ℕ) (live : Bool)
    → InOrder 1 0 (select_excerpts question history segments session_id budget_tokens live)
unfolding select_excerpts
select_excerpts-InOrder question history segments session_id budget_tokens live =
    let h_terms = terms (join (codes " ") (take_last 3 history)) in
    let scored = score (terms question) h_terms live (max_seq segments) in
    let chosen = (choose scored (budget_tokens * 4) segments).chosen in
    number-InOrder session_id 1 0 (sort seq_le chosen) (Starts-zero (sort seq_le chosen))
      (sort-IsSorted seq_le (λ x y e. ground (arith, e)) (λ x y z e f. ground (arith, e, f)) chosen)
