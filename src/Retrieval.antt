-- ===== src/Retrieval.antt =====
-- src/ambient_recorder/assistant/retrieval.py: the choice of excerpts for a question.
pub mod Packed
mod Examples
use mathlib.Core.List.{map}
use ambient_recorder.Base.{
  ℕ, suc, zero, ◌+◌, ◌*◌, Bool, true, false, not, ◌&&◌, ◌||◌, ◌==◌, Option, none, some, List, [],
  ◌∷◌, ◌++◌, ltb, leb, if◌then◌else◌, keep, length, any, take_last, max,
}
use ambient_recorder.Base.Sort.{sort}
use ambient_recorder.Base.Text.{Text, codes, has, join, split}
use ambient_recorder.Models.{Speaker}
use ambient_recorder.Attribution.Twin.{tokens, common, is_empty}
use ambient_recorder.Transcripts.Rows.{TranscriptSegment}

pub record Excerpt : Type 0 where
  pub n : ℕ
  pub session_id : ℕ
  pub transcript_id : ℕ
  pub seq : ℕ
  pub start_s : ℕ
  pub source : Speaker
  pub text : Text

-- `_STOP`
abbrev stop_words : List Text
stop_words = split (
    codes
      "the a an and or but of to in on at for with about is are was were be been i you he she it we they this that what when who how did do does said say")

-- `_terms`: the words of a text that are not stop words.
unfoldable pub terms : Text → List Text
unfolding tokens has split
terms text = keep (λ w. not (has stop_words w)) (tokens text)

abbrev pub max_seq : List TranscriptSegment → ℕ
max_seq [] = 0
max_seq (s ∷ ss) = max s.seq (max_seq ss)

-- `score`, times 2, and times the greatest `seq` where recent segments weigh more: the order of the
-- scores and their being positive are those of the code.
unfoldable pub score : List Text → List Text → Bool → ℕ → TranscriptSegment → ℕ
unfolding terms common
score q_terms h_terms live top s =
    let t = terms s.text in
    let base = 4 * common q_terms t + common h_terms t in
    if live && ltb 0 top then base * top + 3 * s.seq else base

-- `by_seq.get(seq)`: the last of the segments with that number.
unfoldable pub by_seq : ℕ → List TranscriptSegment → Option TranscriptSegment
by_seq n [] = none
by_seq n (s ∷ ss) = elim (by_seq n ss) [
  | none ↦ if s.seq == n then some s else none
  | some x ↦ some x
]

-- `s.seq - 1, s.seq, s.seq + 1`; there is no segment -1.
abbrev pub around : ℕ → List ℕ
around zero = 0 ∷ 1 ∷ []
around (suc n) = n ∷ suc n ∷ suc (suc n) ∷ []

abbrev pub cost : TranscriptSegment → ℕ
cost s = length s.text + 24

-- `chosen`, in the order of insertion, and `used`.
pub record Pack : Type 0 where
  pub chosen : List TranscriptSegment
  pub used : ℕ

abbrev pub choose_more : TranscriptSegment → Pack → Pack
choose_more s p = record { chosen = p.chosen ++ s ∷ []; used = p.used + cost s }

abbrev pub has_seq : ℕ → TranscriptSegment → Bool
has_seq n s = s.seq == n

unfoldable pub include : ℕ → Option TranscriptSegment → Pack → Pack
include budget none p = p
include budget (some s) p =
    if any (has_seq s.seq) p.chosen || ltb budget (p.used + cost s) then p else choose_more s p

unfoldable pub include_each : ℕ → List TranscriptSegment → List ℕ → Pack → Pack
unfolding include by_seq
include_each budget segments [] p = p
include_each budget segments (n ∷ ns) p =
    include_each budget segments ns (include budget (by_seq n segments) p)

-- The loop over the ranked segments: it ends at the first that does not score, once something is
-- chosen, and when 95 % of the budget is used.
unfoldable pub pack :
    (TranscriptSegment → ℕ) → ℕ → List TranscriptSegment → List TranscriptSegment → Pack → Pack
unfolding include_each
pack scored budget segments [] p = p
pack scored budget segments (s ∷ ss) p =
    let p' = include_each budget segments (around s.seq) p in
    let rest = pack scored budget segments ss p' in
    if scored s == 0 && not (is_empty p.chosen)
    then p
    else if leb (19 * budget) (20 * p'.used)
    then p'
    else rest

-- `chosen[s.seq] = s`
abbrev pub put : TranscriptSegment → List TranscriptSegment → List TranscriptSegment
put s [] = s ∷ []
put s (x ∷ xs) = if x.seq == s.seq then s ∷ xs else x ∷ put s xs

-- Nothing was chosen: the most recent segments, while they fit.
unfoldable pub fall_back : ℕ → List TranscriptSegment → Pack → Pack
fall_back budget [] p = p
fall_back budget (s ∷ ss) p =
    let rest = fall_back budget ss (record { chosen = put s p.chosen; used = p.used + cost s }) in
    if ltb budget (p.used + cost s) then p else rest

abbrev pub later : TranscriptSegment → TranscriptSegment → Bool
later a b = leb b.seq a.seq

abbrev pub seq_le : TranscriptSegment → TranscriptSegment → Bool
seq_le a b = leb a.seq b.seq

abbrev pub or_recent : ℕ → List TranscriptSegment → Pack → Pack
or_recent budget segments p =
    if is_empty p.chosen then fall_back budget (sort later segments) p else p

abbrev pub excerpt : ℕ → ℕ → TranscriptSegment → Excerpt
excerpt session_id n s = record {
  n = n;
  session_id = session_id;
  transcript_id = s.transcript_id;
  seq = s.seq;
  start_s = s.start_s;
  source = s.source;
  text = s.text;
}

unfoldable pub number : ℕ → ℕ → List TranscriptSegment → List Excerpt
number session_id n [] = []
number session_id n (s ∷ ss) = excerpt session_id n s ∷ number session_id (n + 1) ss

abbrev pub ranking : (TranscriptSegment → ℕ) → TranscriptSegment → TranscriptSegment → Bool
ranking scored a b = leb (scored b) (scored a)

abbrev pub nothing : Pack
nothing = record { chosen = []; used = 0 }

-- What is chosen for a scoring; a history that is empty has no terms.
unfoldable pub choose : (TranscriptSegment → ℕ) → ℕ → List TranscriptSegment → Pack
unfolding pack fall_back sort
choose scored budget segments =
    or_recent budget segments (pack scored budget segments (sort (ranking scored) segments) nothing)

unfoldable pub select_excerpts :
    Text → List Text → List TranscriptSegment → ℕ → ℕ → Bool → List Excerpt
unfolding score terms choose number sort join
select_excerpts question history segments session_id budget_tokens live =
    let h_terms = terms (join (codes " ") (take_last 3 history)) in
    let scored = score (terms question) h_terms live (max_seq segments) in
    number session_id 1 (sort seq_le (choose scored (budget_tokens * 4) segments).chosen)
