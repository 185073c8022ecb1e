-- ===== src/Attribution/Twin.antt =====
-- The text tests of attribution.py: word sets, their overlap, the twin of a segment on the other
-- track, and the trimming of a twin at an edge.
pub mod Search
use ambient_recorder.Base.{
  ℕ, ◌+◌, ◌-◌, ◌<◌, Bool, true, false, ◌&&◌, ◌||◌, not, Option, none, some, List, [], ◌∷◌, ◌++◌,
  map, ltb, leb, ◌==◌, if◌then◌else◌, length, take, drop, take_last, keep, min, max, refl, ◌≡◌,
}
use ambient_recorder.Base.Text.{Text, lower, strip, split, join, runs_from, has, distinct, codes}
use ambient_recorder.Attribution.Segment.{Ratio, TimedSegment, at_least, less_than}

-- The class `[a-z0-9']` of `_WORD`.
unfoldable pub is_word : ℕ → Bool
is_word c = (leb b'a' c && leb c b'z') || (leb b'0' c && leb c b'9') || c == 39

-- `_tokens`: the set of the words of a text.
unfoldable pub tokens : Text → List Text
unfolding is_word runs_from lower distinct
tokens text = distinct (runs_from is_word [] (lower text))

-- `len(ta & tb)`
unfoldable pub common : List Text → List Text → ℕ
unfolding has
common ta tb = length (keep (has tb) ta)

abbrev pub is_empty {ℓ} : {A : Type ℓ} → List A → Bool
is_empty [] = true
is_empty (x ∷ xs) = false

abbrev pub zero_ratio : Ratio
zero_ratio = record { num = 0; den = 1 }

-- `_overlap_ratio`
unfoldable pub overlap_ratio : Text → Text → Ratio
unfolding tokens common
overlap_ratio a b =
    let ta = tokens a in
    let tb = tokens b in
    if is_empty ta || is_empty tb
    then zero_ratio
    else record { num = common ta tb; den = min (length ta) (length tb) }

-- `edge_ratio`
unfoldable pub edge_ratio : List Text → List Text → Ratio
unfolding tokens common
edge_ratio twin_tokens chunk =
    let toks = tokens (join (codes " ") chunk) in
    if is_empty toks
    then zero_ratio
    else record { num = common toks twin_tokens; den = length toks }

-- `remainder if len(_tokens(remainder)) >= 2 else ""`
unfoldable pub genuine : List Text → Text
unfolding tokens strip
genuine words =
    let remainder = strip (join (codes " ") words) in
    if leb 2 (length (tokens remainder)) then remainder else []

-- `_trim_twin_edge`
unfoldable pub trim_twin_edge : Text → Text → Ratio → Option Text
unfolding edge_ratio genuine split join
trim_twin_edge cand_text twin_text ratio =
    let words = split cand_text in
    let twin_tokens = tokens twin_text in
    let k = min (length words) (max (length twin_tokens) 1) in
    if is_empty twin_tokens || is_empty words
    then none
    else if at_least (edge_ratio twin_tokens (take k words)) ratio
    then some (genuine (drop k words))
    else if at_least (edge_ratio twin_tokens (take_last k words)) ratio
    then some (genuine (take (length words - k) words))
    else none

-- Within one second of the candidate.
abbrev pub near : TimedSegment → TimedSegment → Bool
near c o = ltb o.start_s (c.end_s + 16000) && ltb c.start_s (o.end_s + 16000)

-- `max(nearby, key=…)`: the first of the best.
unfoldable pub better_of : Text → TimedSegment → TimedSegment → TimedSegment
better_of text b o =
    if less_than (overlap_ratio text b.text) (overlap_ratio text o.text) then o else b

unfoldable pub best_of : Text → TimedSegment → List TimedSegment → TimedSegment
unfolding better_of
best_of text b [] = b
best_of text b (o ∷ os) = best_of text (better_of text b o) os

unfoldable pub twin_among : Text → List TimedSegment → Ratio → Option Text
unfolding best_of overlap_ratio join
twin_among text [] ratio = none
twin_among text (o ∷ os) ratio =
    let best = best_of text o os in
    let merged = join (codes " ") (map (λ s. s.text) (o ∷ os)) in
    if at_least (overlap_ratio text best.text) ratio
    then some best.text
    else if at_least (overlap_ratio text merged) ratio
    then some merged
    else none

-- `find_twin`
unfoldable pub find_twin : TimedSegment → List TimedSegment → Ratio → Option Text
unfolding twin_among
find_twin c others ratio = twin_among c.text (keep (near c) others) ratio

abbrev seg : ℕ → ℕ → Text → TimedSegment
seg s e t = record { start_s = s; end_s = e; text = t }

abbrev sixty : Ratio
sixty = record { num = 3; den = 5 }

trim_test :
    trim_twin_edge
      (codes "Good morning, shall we start? Yes, let's begin")
      (codes "Good morning shall we start")
      sixty
    ≡ some (codes "Yes, let's begin")
unfolding trim_twin_edge
trim_test = refl
