-- ===== src/Assistant/Sections.antt =====
-- assistant/summarize.py: what is read of the text that the model writes, `_parse_sections`,
-- `_parse_action` and `_bullet_citations`.
use mathlib.Core.List.{map}
use ambient_recorder.Base.{
  ℕ, Bool, true, false, not, ◌&&◌, ◌||◌, ◌==◌, Option, none, some, List, [], ◌∷◌, ◌++◌, leb,
  if◌then◌else◌, any, is_some, ◌≡◌, refl,
}
use ambient_recorder.Base.Text.{
  Text, codes, is_space, strip_left, strip, lower, text_eq, split, join, has, to_lower,
}
use ambient_recorder.Attribution.Twin.{is_empty}
use ambient_recorder.Models.{Speaker, me, them}
use ambient_recorder.Retrieval.{Excerpt}
use ambient_recorder.Assistant.Markers.{sub, markers, collapse, strip_of, is_in}
use ambient_recorder.Assistant.Grounding.{Citation, collect, nothing}

pub data Section : Type 0 where
  overview key_points decisions action_items : Section

abbrev pub same_section : Section → Section → Bool
same_section overview overview = true
same_section key_points key_points = true
same_section decisions decisions = true
same_section action_items action_items = true
same_section _ _ = false

-- A dictionary from the sections to their items, in the order of insertion.
abbrev pub Sections : Type 0
Sections = List (Section × List Text)

abbrev pub items_of : Section → Sections → List Text
items_of k [] = []
items_of k ((l, items) ∷ ss) = if same_section l k then items else items_of k ss

abbrev pub has_section : Section → Sections → Bool
has_section k ss = any (λ s. same_section s.0 k) ss

-- `sections.setdefault(k, [])`
abbrev pub set_default : Section → Sections → Sections
set_default k ss = if has_section k ss then ss else ss ++ (k, []) ∷ []

-- `sections[k].append(item)`, for a key that is there
abbrev pub add_item : Section → Text → Sections → Sections
add_item k item [] = []
add_item k item ((l, items) ∷ ss) =
    if same_section l k then (l, items ++ item ∷ []) ∷ ss else (l, items) ∷ add_item k item ss

-- `sections[k] = items`
abbrev pub set_items : Section → List Text → Sections → Sections
set_items k items [] = (k, items) ∷ []
set_items k items ((l, old) ∷ ss) =
    if same_section l k then (l, items) ∷ ss else (l, old) ∷ set_items k items ss

-- The characters at which `str.splitlines` ends a line; a carriage return takes a newline with it.
unfoldable pub ends_line : ℕ → Bool
ends_line c = (leb 10 c && leb c 13) || (leb 28 c && leb c 30) || c == 133 || c == 8232 || c == 8233

abbrev after_return : Bool → ℕ → Bool
after_return cr c = cr && c == 10

-- `cr` says that the last character was a carriage return, `line` is the open line.
unfoldable pub lines_from : Bool → Text → Text → List Text
unfolding ends_line
lines_from cr [] [] = []
lines_from cr (c ∷ line) [] = (c ∷ line) ∷ []
lines_from cr line (c ∷ cs) =
    let ended = line ∷ lines_from (c == 13) [] cs in
    let more = lines_from false (line ++ c ∷ []) cs in
    let skipped = lines_from false line cs in
    if after_return cr c then skipped else if ends_line c then ended else more

unfoldable pub split_lines : Text → List Text
unfolding lines_from
split_lines text = lines_from false [] text

-- `_SECTION`, on a line without white space around it; the letters are those of ASCII.
unfoldable pub heading : Text → Option Section
unfolding lower text_eq
heading line =
    let l = lower line in
    if text_eq l (codes "overview:")
    then some overview
    else if text_eq l (codes "key points:")
    then some key_points
    else if text_eq l (codes "decisions:")
    then some decisions
    else if text_eq l (codes "action items:")
    then some action_items
    else none

-- `_BULLET`: a dash or a star, white space, and the item.
abbrev item_after : Text → Option Text
item_after [] = none
item_after (c ∷ cs) = if is_space c then some (strip (c ∷ cs)) else none

abbrev item_at : Text → Option Text
item_at [] = none
item_at (c ∷ cs) = if c == 45 || c == 42 then item_after cs else none

-- The item without white space around it.
unfoldable pub bullet : Text → Option Text
unfolding strip_left strip is_space
bullet line = item_at (strip_left line)

abbrev after_colon : Text → Text
after_colon [] = []
after_colon (c ∷ cs) = if c == 58 then cs else after_colon cs

abbrev prefixed : Text → Text → Bool
prefixed [] s = true
prefixed (c ∷ cs) [] = false
prefixed (c ∷ cs) (d ∷ ds) = c == d && prefixed cs ds

pub record Parse : Type 0 where
  pub sections : Sections
  pub current : Option Section
  pub overview_lines : List Text

abbrev add_line : Text → List Text → List Text
add_line [] ls = ls
add_line (c ∷ cs) ls = ls ++ (c ∷ cs) ∷ []

abbrev is_overview : Option Section → Bool
is_overview (some overview) = true
is_overview _ = false

abbrev take_item : Option Text → Option Section → Parse → Parse
take_item none current p = p
take_item (some item) none p = p
take_item (some item) (some k) p =
    if text_eq (lower item) (codes "none")
    then p
    else record p { sections = add_item k item p.sections }

abbrev begin_section : Option Section → Text → Parse → Parse
begin_section (some k) line p = record p { current = some k; sections = set_default k p.sections }
begin_section none line p =
    if prefixed (codes "overview:") (lower (strip line))
    then record {
      current = some overview;
      overview_lines = add_line (strip (after_colon line)) p.overview_lines;
      sections = set_default overview p.sections;
    }
    else if is_overview p.current && not (is_empty (strip line)) && not (is_some (bullet line))
    then record p { overview_lines = p.overview_lines ++ strip line ∷ [] }
    else take_item (bullet line) p.current p

-- One line.
unfoldable pub parse_line : Text → Parse → Parse
unfolding heading strip lower bullet text_eq
parse_line line p = begin_section (heading (strip line)) line p

unfoldable pub parse_lines : List Text → Parse → Parse
unfolding parse_line
parse_lines [] p = p
parse_lines (line ∷ lines) p = parse_lines lines (parse_line line p)

unfoldable pub parse_sections : Text → Sections
unfolding split_lines parse_lines join
parse_sections text =
    let p =
      parse_lines (split_lines text)
        (record { sections = []; current = none; overview_lines = [] }) in
    if is_empty p.overview_lines
    then p.sections
    else set_items overview (join (codes " ") p.overview_lines ∷ []) p.sections

-- `_bullet_citations`: the text without markers, and the citations of the valid ones.
unfoldable pub bullet_citations : (ℕ → Option Excerpt) → Text → Text × List Citation
unfolding sub markers collapse strip collect is_space
bullet_citations index text = (
  strip (collapse is_space false (sub nothing text)),
  map (λ c. c.1) (collect index (markers text) []),
)

abbrev pub add_to_first : ℕ → List Text → List Text
add_to_first c [] = (c ∷ []) ∷ []
add_to_first c (t ∷ ts) = (c ∷ t) ∷ ts

-- `text.split(c)`
unfoldable pub split_at : ℕ → Text → List Text
split_at c [] = [] ∷ []
split_at c (x ∷ xs) = let rest = split_at c xs in if x == c then [] ∷ rest else add_to_first x rest

abbrev in_brackets : ℕ → Bool
in_brackets c = c == 40 || c == 41 || c == 32

abbrev owner : Text → Option Speaker
owner raw =
    if has (split raw) (codes "me") || text_eq raw (codes "me")
    then some me
    else if is_in (codes "them") raw
    then some them
    else none

abbrev deadline : List Text → Option Text
deadline [] = none
deadline (t ∷ ts) = if text_eq t (codes "-") || is_empty t then none else some t

abbrev with_owner : Option Speaker → Text → List Text → Option (Speaker × Text × Option Text)
with_owner none task rest = none
with_owner (some s) task rest = some (s, task, deadline rest)

abbrev action_of : List Text → Option (Speaker × Text × Option Text)
action_of (raw ∷ task ∷ rest) = with_owner (owner (strip_of in_brackets (lower raw))) task rest
action_of _ = none

unfoldable pub parse_action : Text → Option (Speaker × Text × Option Text)
unfolding split_at strip strip_of lower is_in text_eq has split
parse_action text = action_of (map strip (split_at 124 text))

a_task :
    parse_action (codes "me | draft options | by Friday")
    ≡ some (me, codes "draft options", some (codes "by Friday"))
unfolding parse_action is_space to_lower
a_task = refl
