-- ===== src/Assistant/Windows.antt =====
-- assistant/summarize.py: the parts of a meeting that are condensed one by one. Times count samples.
pub mod Partition
pub mod Edge
use ambient_recorder.Base.{
  ℕ, zero, suc, ◌+◌, ◌*◌, ◌/◌, ◌-◌, Bool, true, false, not, ◌&&◌, ◌||◌, ◌==◌, List, [], ◌∷◌, ◌++◌,
  ltb, leb, if◌then◌else◌, length,
}
use ambient_recorder.Base.Sort.{sort}
use ambient_recorder.Transcripts.Rows.{TranscriptSegment}
use ambient_recorder.Attribution.Twin.{is_empty}
use ambient_recorder.Retrieval.{cost}

-- `key=lambda x: (x.start_s, x.seq)`
abbrev pub earlier : TranscriptSegment → TranscriptSegment → Bool
earlier a b = ltb a.start_s b.start_s || (a.start_s == b.start_s && leb a.seq b.seq)

-- `while s.start_s >= edge: edge += window_s`, on fuel, which is enough where `window_s` is at least 1, as
-- the configuration demands
unfoldable pub next_edge : ℕ → ℕ → ℕ → ℕ → ℕ
next_edge zero window_s start_s edge = edge
next_edge (suc fuel) window_s start_s edge =
    let rest = next_edge fuel window_s start_s (edge + window_s) in
    if leb edge start_s then rest else edge

-- `if cur: out.append(cur)`
abbrev pub last_part : List TranscriptSegment → List (List TranscriptSegment)
last_part [] = []
last_part (s ∷ cur) = (s ∷ cur) ∷ []

unfoldable pub windows_from :
    ℕ → ℕ → List TranscriptSegment → List TranscriptSegment → List (List TranscriptSegment)
unfolding next_edge
windows_from window_s edge cur [] = last_part cur
windows_from window_s edge cur (s ∷ ss) =
    let edge' = next_edge (suc s.start_s) window_s s.start_s edge in
    let split = cur ∷ windows_from window_s edge' (s ∷ []) ss in
    let same = windows_from window_s edge (cur ++ s ∷ []) ss in
    if leb edge s.start_s && not (is_empty cur) then split else same

unfoldable pub windows : ℕ → List TranscriptSegment → List (List TranscriptSegment)
unfolding windows_from sort
windows window_s segments = windows_from window_s window_s [] (sort earlier segments)

-- A window that is too long for a prompt is cut by size.
unfoldable pub cut :
    ℕ → List TranscriptSegment → ℕ → List TranscriptSegment → List (List TranscriptSegment)
cut budget cur size [] = last_part cur
cut budget cur size (s ∷ ss) =
    let split = cur ∷ cut budget (s ∷ []) (cost s) ss in
    let same = cut budget (cur ++ s ∷ []) (size + cost s) ss in
    if not (is_empty cur) && ltb budget (size + cost s) then split else same

unfoldable pub cut_each : ℕ → List (List TranscriptSegment) → List (List TranscriptSegment)
unfolding cut
cut_each budget [] = []
cut_each budget (w ∷ ws) = cut budget [] 0 w ++ cut_each budget ws

unfoldable pub sized_windows : ℕ → ℕ → List TranscriptSegment → List (List TranscriptSegment)
unfolding windows cut_each
sized_windows window_s budget_tokens segments =
    cut_each (budget_tokens * 4) (windows window_s segments)
