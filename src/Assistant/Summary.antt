-- ===== src/Assistant/Summary.antt =====
-- assistant/summarize.py: `summarize`, from the segments of a transcript to its summary.
pub mod Cited
pub mod Pipeline
pub mod Condensed
pub mod Bounded
use mathlib.Core.List.{map}
use ambient_recorder.Base.{
  ℕ, zero, suc, ◌+◌, ◌*◌, Bool, true, false, not, ◌&&◌, Option, none, some, List, [], ◌∷◌, ◌++◌,
  ltb, leb, if◌then◌else◌, length,
}
use ambient_recorder.Base.Text.{Text, codes, is_space, strip, lower, join}
use ambient_recorder.Attribution.Twin.{is_empty}
use ambient_recorder.Models.{Speaker}
use ambient_recorder.Transcripts.Rows.{TranscriptSegment}
use ambient_recorder.Retrieval.{Excerpt, number}
use ambient_recorder.Assistant.Markers.{sub, markers, value, show, collapse}
use ambient_recorder.Assistant.Grounding.{Citation, by_n, nothing}
use ambient_recorder.Assistant.Prompts.{
  summary_map_prompt, summary_reduce_prompt, summary_map_system, summary_reduce_system,
}
use ambient_recorder.Assistant.Windows.{sized_windows}
use ambient_recorder.Assistant.Sections.{
  overview, key_points, decisions, action_items, Section, Sections, items_of, parse_sections,
  bullet_citations, parse_action,
}
use ambient_recorder.Assistant.Checked.{Calls, return, ◌>>=◌, resume, Generate, Rules, call_checked}

pub record SummaryItem : Type 0 where
  pub text : Text
  pub citations : List Citation

pub record ActionItem : Type 0 where
  pub text : Text
  pub owner : Speaker
  pub deadline_text : Option Text
  pub citations : List Citation

pub record SummaryContent : Type 0 where
  pub overview : Text
  pub key_points : List SummaryItem
  pub decisions : List SummaryItem
  pub action_items : List ActionItem

-- What the windows give: `notes`, `excerpt_index`, `offset` and `source_bullets`.
pub record Notes : Type 0 where
  pub notes : List Text
  pub index : List Excerpt
  pub offset : ℕ
  pub bullets : List (Text × List Citation)

abbrev pub renumber : ℕ → List Excerpt → List Excerpt
renumber offset [] = []
renumber offset (e ∷ es) = record e { n = e.n + offset } ∷ renumber offset es

-- The local markers of a note, made global.
unfoldable pub translate : ℕ → Text → Text
unfolding sub value show
translate offset = sub (λ ds. 91 ∷ show (value ds + offset) ++ 93 ∷ [])

abbrev pub with_citations : Text × List Citation → List (Text × List Citation)
with_citations ([], cits) = []
with_citations (c ∷ text, []) = []
with_citations (c ∷ text, cit ∷ cits) = (lower (c ∷ text), cit ∷ cits) ∷ []

unfoldable pub cited_bullets : List Excerpt → List Text → List (Text × List Citation)
unfolding bullet_citations by_n lower
cited_bullets index [] = []
cited_bullets index (b ∷ bs) =
    with_citations (bullet_citations (by_n index) b) ++ cited_bullets index bs

unfoldable pub section_bullets : List Excerpt → Sections → List (Text × List Citation)
unfolding cited_bullets
section_bullets index [] = []
section_bullets index ((k, items) ∷ ss) = cited_bullets index items ++ section_bullets index ss

unfoldable pub add_note : List Excerpt → Notes → Text → Notes
unfolding translate section_bullets parse_sections
add_note excerpts st note =
    let note' = translate st.offset note in
    let index = st.index ++ renumber st.offset excerpts in
    record {
      notes = st.notes ++ note' ∷ [];
      index = index;
      offset = st.offset + length excerpts;
      bullets = st.bullets ++ section_bullets index (parse_sections note');
    }

abbrev pub numbers_of : List Excerpt → List ℕ
numbers_of [] = []
numbers_of (e ∷ es) = e.n ∷ numbers_of es

abbrev pub all_markers : List Text → List ℕ
all_markers [] = []
all_markers (t ∷ ts) = markers t ++ all_markers ts

abbrev pub total : List Text → ℕ
total [] = 0
total (t ∷ ts) = length t + total ts

module _ (generate : Generate) (ratio : Text → Text → ℕ) where
  -- The map stage: a call for each window.
  unfoldable pub map_windows : ℕ → List (List TranscriptSegment) → Notes → Calls Notes
  unfolding number call_checked summary_map_prompt add_note
  map_windows session_id [] st = return st
  map_windows session_id (w ∷ ws) st =
      let excerpts = number session_id 1 w in
      let rules : Rules = record {
        require_overview = false;
        allowed_markers = numbers_of excerpts;
        require_citations = true;
      } in
      call_checked generate rules (summary_map_prompt excerpts) summary_map_system >>= λ note.
      map_windows session_id ws (add_note excerpts st note)

  -- A group of notes is merged into one.
  unfoldable pub merge : Bool → List Text → Calls Text
  unfolding call_checked summary_reduce_prompt markers
  merge require_overview group =
      call_checked generate
        (record {
          require_overview = require_overview;
          allowed_markers = all_markers group;
          require_citations = false;
        })
        (summary_reduce_prompt group) summary_reduce_system

  abbrev pub merge_last : List Text → Calls (List Text)
  merge_last [] = return []
  merge_last (n ∷ group) = merge false (n ∷ group) >>= λ m. return (m ∷ [])

  -- One tier: the notes are merged in groups that fit into the budget.
  unfoldable pub merge_notes : ℕ → List Text → ℕ → List Text → Calls (List Text)
  unfolding merge
  merge_notes budget group size [] = merge_last group
  merge_notes budget group size (n ∷ notes) =
      let split = merge false group >>= λ m.
      merge_notes budget (n ∷ []) (length n) notes >>= λ rest. return (m ∷ rest) in
      let same = merge_notes budget (group ++ n ∷ []) (size + length n) notes in
      if not (is_empty group) && ltb budget (size + length n) then split else same

  -- The tiers, on fuel: each but the last leaves fewer notes.
  unfoldable pub condense : ℕ → ℕ → List Text → Calls (List Text)
  unfolding merge_notes
  condense zero budget notes = return notes
  condense (suc fuel) budget notes =
      let tier = merge_notes budget [] 0 notes >>= λ merged.
      if leb (length notes) (length merged) then return merged else condense fuel budget merged in
      if ltb 1 (length notes) && ltb budget (total notes) then tier else return notes

  -- `best_ratio` and `best_cits`, where ratios count millionths.
  abbrev pub best_of : Text → List (Text × List Citation) → ℕ → List Citation → ℕ × List Citation
  best_of key [] best cits = (best, cits)
  best_of key ((text, cs) ∷ bullets) best cits =
      if ltb best (ratio key text)
      then best_of key bullets (ratio key text) cs
      else best_of key bullets best cits

  abbrev pub close_enough : ℕ × List Citation → List Citation
  close_enough (best, cits) = if leb 550000 best then cits else []

  -- `_inherit`
  unfoldable pub inherit : List (Text × List Citation) → Text → List Citation → List Citation
  unfolding lower
  inherit bullets text (c ∷ cits) = c ∷ cits
  inherit bullets text [] = close_enough (best_of (lower text) bullets 0 [])

  abbrev pub item_with : Text → List Citation → List SummaryItem
  item_with [] cits = []
  item_with (c ∷ text) [] = []
  item_with (c ∷ text) (cit ∷ cits) = record { text = c ∷ text; citations = cit ∷ cits } ∷ []

  abbrev pub item_of : List (Text × List Citation) → Text × List Citation → List SummaryItem
  item_of bullets (text, cits) = item_with text (inherit bullets text cits)

  unfoldable pub items : Notes → List Text → List SummaryItem
  unfolding bullet_citations by_n inherit
  items st [] = []
  items st (b ∷ bs) = item_of st.bullets (bullet_citations (by_n st.index) b) ++ items st bs

  abbrev pub action_with : Option (Speaker × Text × Option Text) → List Citation → List ActionItem
  action_with none cits = []
  action_with (some (owner, task, deadline)) [] = []
  action_with (some (owner, task, deadline)) (cit ∷ cits) =
      record { text = task; owner = owner; deadline_text = deadline; citations = cit ∷ cits } ∷ []

  abbrev pub action_of : List (Text × List Citation) → Text × List Citation → List ActionItem
  action_of bullets (text, cits) = action_with (parse_action text) (inherit bullets text cits)

  unfoldable pub actions : Notes → List Text → List ActionItem
  unfolding bullet_citations by_n inherit parse_action
  actions st [] = []
  actions st (b ∷ bs) = action_of st.bullets (bullet_citations (by_n st.index) b) ++ actions st bs

  abbrev or_no_overview : Text → Text
  or_no_overview [] = codes "No overview produced."
  or_no_overview (c ∷ cs) = c ∷ cs

  -- The final text, read.
  unfoldable pub content : Notes → Sections → SummaryContent
  unfolding items actions sub strip collapse join is_space
  content st sections = record {
    overview = or_no_overview (
        strip
          (collapse is_space false (sub nothing (join (codes " ") (items_of overview sections)))));
    key_points = items st (items_of key_points sections);
    decisions = items st (items_of decisions sections);
    action_items = actions st (items_of action_items sections);
  }

  abbrev pub no_notes : Notes
  no_notes = record { notes = []; index = []; offset = 0; bullets = [] }

  unfoldable pub reduce : ℕ → Notes → Calls SummaryContent
  unfolding condense merge content parse_sections
  reduce budget_tokens st = condense (length st.notes) (budget_tokens * 4) st.notes >>= λ notes.
      merge true notes >>= λ text. return (content st (parse_sections text))

  unfoldable pub summarize : ℕ → ℕ → List TranscriptSegment → ℕ → Calls SummaryContent
  unfolding sized_windows map_windows reduce
  summarize window_s budget_tokens segments session_id =
      map_windows session_id (sized_windows window_s budget_tokens segments) no_notes
      >>= reduce budget_tokens
