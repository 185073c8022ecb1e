-- ===== src/Retrieval/Examples.antt =====
-- Three segments and a question. Tests, and the theorems at this input.
use mathlib.Core.List.{map}
use ambient_recorder.Base.{ℕ, ◌+◌, ◌*◌, ◌==◌, if◌then◌else◌, ◌≤◌, ◌≡◌, refl, false, List, [], ◌∷◌}
use ambient_recorder.Base.Text.{Text, codes}
use ambient_recorder.Models.{them}
use ambient_recorder.Transcripts.Rows.{TranscriptSegment}
use ambient_recorder.Retrieval.{choose, select_excerpts}
use ambient_recorder.Retrieval.Packed.{prompt_cost, select_excerpts-prompt_cost}

abbrev spoken : ℕ → Text → TranscriptSegment
spoken n t = record {
  transcript_id = 7;
  seq = n;
  source = them;
  start_s = n * 16000;
  end_s = n * 16000 + 8000;
  text = t;
}

abbrev meeting : List TranscriptSegment
meeting =
    spoken 0 (codes "Hello")
    ∷ spoken 1 (codes "The budget is fixed")
    ∷ spoken 2 (codes "Good")
    ∷ spoken 3 (codes "Bye")
    ∷ []

abbrev one_scores : TranscriptSegment → ℕ
one_scores s = if s.seq == 1 then 4 else 0

-- The segment that scores, and its neighbours.
chosen_around : map (λ s. s.seq) (choose one_scores 400 meeting).chosen ≡ 0 ∷ 1 ∷ 2 ∷ []
unfolding choose
chosen_around = refl

-- Nothing scores: the first segment is chosen, with its neighbour, not the most recent one.
chosen_first : map (λ s. s.seq) (choose (λ s. 0) 400 meeting).chosen ≡ 0 ∷ 1 ∷ []
unfolding choose
chosen_first = refl

select_excerpts-prompt_cost_example :
    prompt_cost (select_excerpts (codes "budget") [] meeting 5 20 false) ≤ 20 * 4
select_excerpts-prompt_cost_example =
    select_excerpts-prompt_cost (codes "budget") [] meeting 5 20 false
