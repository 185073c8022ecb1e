-- ===== src/Assistant/Examples.antt =====
-- A short meeting and a model that always gives the same reply. Tests, and the theorems at this meeting.
use ambient_recorder.Base.{
  ℕ, ◌≡◌, refl, arith, true, false, Option, none, some, List, [], ◌∷◌, length, All, any, is_some,
  ◌||◌, not, ◌+◌, ◌*◌, ◌≤◌, map,
}
use ambient_recorder.Base.Sort.{sort}
use ambient_recorder.Base.Text.{Text, codes, is_space}
use ambient_recorder.Attribution.Twin.{is_empty}
use ambient_recorder.Models.{me, them}
use ambient_recorder.Transcripts.Rows.{TranscriptSegment}
use ambient_recorder.Capture.Conserved.{concat}
use ambient_recorder.Retrieval.{Excerpt, number}
use ambient_recorder.Assistant.Markers.{markers}
use ambient_recorder.Assistant.Grounding.{
  grounded, declined, by_n, clean, bare, declines, validate_citations,
}
use ambient_recorder.Assistant.Grounding.Cited.{IsBacked, expected, validate_citations-IsBacked}
use ambient_recorder.Assistant.Prompts.{render}
use ambient_recorder.Assistant.Windows.{earlier, next_edge, windows, sized_windows}
use ambient_recorder.Assistant.Windows.Edge.{IsFirst, next_edge-IsFirst}
use ambient_recorder.Assistant.Windows.Partition.{Fits, Spans, sized_windows-Fits, windows-Spans}
use ambient_recorder.Assistant.Checked.{Generate, Rules, strip_markers, call_checked}
use ambient_recorder.Assistant.Summary.{SummaryContent, condense, summarize}
use ambient_recorder.Assistant.Summary.Pipeline.{AllCited, IsOf, summarize-IsCited}
use ambient_recorder.Assistant.Summary.Bounded.{summarize_calls}
use ambient_recorder.Assistant.Summary.Condensed.{condense-fuel}

abbrev segment : ℕ → ℕ → Text → TranscriptSegment
segment seq start_s text = record {
  transcript_id = 3;
  seq = seq;
  source = me;
  start_s = start_s;
  end_s = start_s + 16000;
  text = text;
}

abbrev meeting : List TranscriptSegment
meeting =
    segment 0 16000 (codes "the draft is ready")
    ∷ segment 1 32000 (codes "I will send it")
    ∷ segment 2 64000 (codes "good")
    ∷ []

abbrev excerpts : List Excerpt
unfolding number
excerpts = number 9 1 meeting

a_rendering :
    render (record {
      n = 12;
      session_id = 9;
      transcript_id = 3;
      seq = 0;
      start_s = 58592000;
      source = them;
      text = codes "ok";
    })
    ≡ codes "[12] 01:01:02 them: ok"
unfolding render
a_rendering = refl

abbrev answer : Text
answer = codes "The draft is ready [1], and it goes out  today [2][7]."

-- The marker 7 is stripped.
its_text :
    (validate_citations answer excerpts).0
    ≡ codes "The draft is ready [1], and it goes out today [2]."
unfolding validate_citations number is_space
its_text = refl

its_verdict : (validate_citations answer excerpts).2 ≡ grounded
unfolding validate_citations number is_space
its_verdict = refl

a_refusal : (validate_citations (codes "Not discussed in this meeting. [1]") excerpts).2 ≡ declined
unfolding validate_citations number is_space
a_refusal = refl

-- Stripping a marker may form another one, which nothing has cited.
forms_marker : (validate_citations (codes "Ready [1[99]2].") excerpts).0 ≡ codes "Ready [12]."
unfolding validate_citations number is_space
forms_marker = refl

stripped_forms_marker : markers (strip_markers (99 ∷ []) (codes "ready [1[99]2]")) ≡ 12 ∷ []
unfolding strip_markers markers
stripped_forms_marker = refl

validate_citations-IsBacked_example :
    All (IsBacked answer excerpts) (validate_citations answer excerpts).1
    × ((validate_citations answer excerpts).2
        ≡ expected
            (declines (bare (clean (by_n excerpts) answer)))
            (any (λ n. is_some (by_n excerpts n)) (markers answer)))
    × (is_empty (validate_citations answer excerpts).1 ≡ (
        declines (bare (clean (by_n excerpts) answer))
        || not (any (λ n. is_some (by_n excerpts n)) (markers answer))))
validate_citations-IsBacked_example = validate_citations-IsBacked answer excerpts

two_windows : length (windows 50000 meeting) ≡ 2
unfolding windows
two_windows = refl

-- Speech that begins after the first window: its first segment stands alone.
first_alone :
    map length (windows 50000 (segment 0 60000 [] ∷ segment 1 61000 [] ∷ segment 2 62000 [] ∷ []))
    ≡ 1 ∷ 2 ∷ []
unfolding windows
first_alone = refl

sized_windows-Fits_example :
    (concat (sized_windows 50000 20 meeting) ≡ sort earlier meeting)
    × All (Fits 80) (sized_windows 50000 20 meeting)
sized_windows-Fits_example = sized_windows-Fits 50000 20 meeting

windows-Spans_example : All (Spans 50000) (windows 50000 meeting)
windows-Spans_example = windows-Spans 50000 meeting (omega arith)

abbrev reply : Text
reply =
    codes
      "OVERVIEW: Plans [1].\nKEY POINTS:\n- The draft is ready [1]\nDECISIONS:\n- none\nACTION ITEMS:\n- me | send it | - [2]\n"

abbrev model : Generate
model n prompt system = some reply

abbrev rules : Rules
rules = record { require_overview = false; allowed_markers = 1 ∷ []; require_citations = true }

-- The marker 2 is not allowed: the second reply is returned without it.
abbrev repaired_reply : Text
repaired_reply =
    codes
      "OVERVIEW: Plans [1].\nKEY POINTS:\n- The draft is ready [1]\nDECISIONS:\n- none\nACTION ITEMS:\n- me | send it | - \n"

two_calls : call_checked model rules (codes "p") (codes "s") 0 ≡ some (repaired_reply, 2)
unfolding call_checked is_space
two_calls = refl

abbrev ratio : Text → Text → ℕ
ratio a b = 0

abbrev empty : SummaryContent
empty = record { overview = []; key_points = []; decisions = []; action_items = [] }

abbrev result : Option (SummaryContent × ℕ) → SummaryContent × ℕ
result none = (empty, 0)
result (some r) = r

-- What the pipeline makes of the meeting, with two calls.
summed_up : SummaryContent × ℕ
unfolding summarize is_space
summed_up = result (summarize model ratio 50000 3000 meeting 9 0)

sums_up : summarize model ratio 50000 3000 meeting 9 0 ≡ some summed_up
unfolding summed_up summarize is_space
sums_up = refl

one_point : map (λ x. x.text) summed_up.0.key_points ≡ codes "The draft is ready" ∷ []
unfolding summed_up summarize is_space
one_point = refl

summarize-IsCited_example : AllCited model ratio (IsOf 9 meeting) summed_up.0
summarize-IsCited_example = summarize-IsCited model ratio 50000 3000 meeting 9 0 summed_up sums_up

summarize_calls_example :
    summed_up.1
    ≤ 0
      + (length (sized_windows 50000 3000 meeting) + 1)
        * (length (sized_windows 50000 3000 meeting) + 2)
summarize_calls_example = summarize_calls model ratio 50000 3000 meeting 9 0 summed_up sums_up

-- Windows of three, and a segment that starts at seven: the edge is at nine.
third_edge : next_edge 8 3 7 3 ≡ 9
unfolding next_edge
third_edge = refl

next_edge-IsFirst_example : IsFirst 3 7 3 (next_edge 8 3 7 3)
next_edge-IsFirst_example = next_edge-IsFirst 8 3 7 3 (omega arith) (omega arith)

condense-fuel_example :
    condense model ratio 2 10 (reply ∷ reply ∷ []) 0
    ≡ condense model ratio 5 10 (reply ∷ reply ∷ []) 0
condense-fuel_example =
    condense-fuel model ratio 10 2 5 (reply ∷ reply ∷ []) 0 (omega arith) (omega arith)
