-- ===== src/Assistant/Grounding.antt =====
-- assistant/grounding.py: the citations of an answer, and whether it is grounded.
pub mod Cited
use mathlib.Core.List.{map}
use ambient_recorder.Base.{
  ℕ, zero, suc, ◌+◌, Bool, true, false, not, ◌&&◌, ◌||◌, ◌==◌, Option, none, some, List, [], ◌∷◌,
  ◌++◌, ltb, leb, if◌then◌else◌, length, any, is_some,
}
use ambient_recorder.Base.Sort.{sort}
use ambient_recorder.Base.Text.{Text, codes, strip, lower, text_eq}
use ambient_recorder.Retrieval.{Excerpt}
use ambient_recorder.Assistant.Markers.{sub, markers, value, whole, collapse, strip_of, is_in}

pub record Citation : Type 0 where
  pub session_id : ℕ
  pub transcript_id : ℕ
  pub seq : ℕ
  pub start_s : ℕ

pub data Verdict : Type 0 where
  grounded declined ungrounded : Verdict

abbrev pub cite : Excerpt → Citation
cite e = record {
  session_id = e.session_id;
  transcript_id = e.transcript_id;
  seq = e.seq;
  start_s = e.start_s;
}

-- `{e.n: e for e in excerpts}.get(n)`: of two excerpts with one number the later one.
abbrev or_this : ℕ → Excerpt → Option Excerpt → Option Excerpt
or_this n e (some later) = some later
or_this n e none = if e.n == n then some e else none

unfoldable pub by_n : List Excerpt → ℕ → Option Excerpt
by_n [] n = none
by_n (e ∷ es) n = or_this n e (by_n es n)

-- A valid marker is cited once, in the order of the text.
abbrev pub add_citation : ℕ → Option Excerpt → List (ℕ × Citation) → List (ℕ × Citation)
add_citation n none seen = seen
add_citation n (some e) seen = if any (λ c. c.0 == n) seen then seen else seen ++ (n, cite e) ∷ []

unfoldable pub collect : (ℕ → Option Excerpt) → List ℕ → List (ℕ × Citation) → List (ℕ × Citation)
collect index [] seen = seen
collect index (n ∷ ns) seen = collect index ns (add_citation n (index n) seen)

-- `_sub`: a valid marker stays, another one is stripped.
unfoldable pub keep_valid : (ℕ → Option Excerpt) → Text → Text
unfolding value
keep_valid index ds = if is_some (index (value ds)) then whole ds else []

abbrev pub nothing : Text → Text
nothing ds = []

abbrev pub decline_phrase : Text
decline_phrase = codes "not discussed in this meeting"

unfoldable pub clean : (ℕ → Option Excerpt) → Text → Text
unfolding sub keep_valid strip collapse
clean index answer = collapse (λ c. c == 32) false (strip (sub (keep_valid index) answer))

-- What the answer says without markers, white space and full stops around it.
unfoldable pub bare : Text → Text
unfolding sub strip lower strip_of
bare cleaned = lower (strip_of (λ c. c == 46) (strip (sub nothing cleaned)))

unfoldable pub declines : Text → Bool
unfolding text_eq is_in
declines said =
    text_eq said decline_phrase
    || (is_in decline_phrase said && leb (length said) (length decline_phrase + 30))

abbrev pub by_number : ℕ × Citation → ℕ × Citation → Bool
by_number a b = leb a.0 b.0

abbrev pub verdict : Bool → Text → List Citation → Text × List Citation × Verdict
verdict true cleaned cits = (cleaned, [], declined)
verdict false cleaned [] = (cleaned, [], ungrounded)
verdict false cleaned (c ∷ cs) = (cleaned, c ∷ cs, grounded)

unfoldable pub validate_citations : Text → List Excerpt → Text × List Citation × Verdict
unfolding clean bare declines collect markers by_n sort
validate_citations answer excerpts =
    let index = by_n excerpts in
    let seen = collect index (markers answer) [] in
    let cleaned = clean index answer in
    verdict (declines (bare cleaned)) cleaned (map (λ c. c.1) (sort by_number seen))
