-- ===== src/Assistant/Markers.antt =====
-- assistant/grounding.py: the citation markers of a text, `_MARKER`. The digits are those of ASCII.
use mathlib.Core.List.{reverse}
use ambient_recorder.Base.{
  ℕ, zero, suc, ◌+◌, ◌-◌, ◌*◌, ◌/◌, ◌%◌, ◌≡◌, refl, Bool, true, false, ◌&&◌, ◌==◌, Option, none,
  some, List, [], ◌∷◌, ◌++◌, ltb, leb, if◌then◌else◌, length,
}
use ambient_recorder.Base.Text.{Text, codes}

abbrev pub is_digit : ℕ → Bool
is_digit c = leb 48 c && leb c 57

-- The digits that a marker has before its closing bracket: at most `k` more.
abbrev add_digit : ℕ → Option Text → Option Text
add_digit c none = none
add_digit c (some ds) = some (c ∷ ds)

unfoldable pub to_bracket : ℕ → Text → Option Text
to_bracket k [] = none
to_bracket zero (c ∷ cs) = if c == 93 then some [] else none
to_bracket (suc k) (c ∷ cs) =
    let rest = add_digit c (to_bracket k cs) in
    if c == 93 then some [] else if is_digit c then rest else none

-- `\[(\d{1,4})\]` at a bracket: one to four digits, and the closing bracket.
unfoldable pub digits_at : Text → Option Text
unfolding to_bracket
digits_at [] = none
digits_at (c ∷ cs) = if is_digit c then add_digit c (to_bracket 3 cs) else none

-- A text is read as single characters and markers.
pub data Piece : Type 0 where
  plain : ℕ → Piece
  marker : Text → Piece

unfoldable pub found : ℕ → Text → Option Text
unfolding digits_at
found c cs = if c == 91 then digits_at cs else none

abbrev pub piece : ℕ → Option Text → Piece
piece c none = plain c
piece c (some ds) = marker ds

abbrev pub skipped : Option Text → ℕ
skipped none = 0
skipped (some ds) = suc (length ds)

-- The matches from left to right; `skip` characters belong to the last one.
unfoldable pub scan : ℕ → Text → List Piece
unfolding found
scan skip [] = []
scan (suc skip) (c ∷ cs) = scan skip cs
scan zero (c ∷ cs) = let ds = found c cs in piece c ds ∷ scan (skipped ds) cs

-- `int` of the digits
abbrev value_from : ℕ → Text → ℕ
value_from n [] = n
value_from n (c ∷ cs) = value_from (n * 10 + (c - 48)) cs

unfoldable pub value : Text → ℕ
value ds = value_from 0 ds

-- `m.group(0)`
abbrev pub whole : Text → Text
whole ds = 91 ∷ ds ++ 93 ∷ []

abbrev pub replaced : (Text → Text) → List Piece → Text
replaced f [] = []
replaced f (plain c ∷ ps) = c ∷ replaced f ps
replaced f (marker ds ∷ ps) = f ds ++ replaced f ps

-- `_MARKER.sub(f, text)`
unfoldable pub sub : (Text → Text) → Text → Text
unfolding scan
sub f text = replaced f (scan 0 text)

unfoldable pub numbers : List Piece → List ℕ
unfolding value
numbers [] = []
numbers (plain c ∷ ps) = numbers ps
numbers (marker ds ∷ ps) = value ds ∷ numbers ps

-- The numbers of the markers, in order.
unfoldable pub markers : Text → List ℕ
unfolding scan numbers
markers text = numbers (scan 0 text)

-- `str` of a number, with the number as fuel: each round takes a digit.
unfoldable pub show_from : ℕ → ℕ → Text → Text
show_from zero n rest = (48 + n % 10) ∷ rest
show_from (suc fuel) n rest =
    let more = show_from fuel (n / 10) ((48 + n % 10) ∷ rest) in
    if ltb n 10 then (48 + n) ∷ rest else more

unfoldable pub show : ℕ → Text
unfolding show_from
show n = show_from n n []

-- A substring.
abbrev starts : Text → Text → Bool
starts [] s = true
starts (c ∷ cs) [] = false
starts (c ∷ cs) (d ∷ ds) = c == d && starts cs ds

unfoldable pub is_in : Text → Text → Bool
is_in t [] = starts t []
is_in t (c ∷ cs) = if starts t (c ∷ cs) then true else is_in t cs

-- `re.sub` of each run of such characters by one space; `inside` says that the last character was one.
unfoldable pub collapse : (ℕ → Bool) → Bool → Text → Text
collapse p inside [] = []
collapse p inside (c ∷ cs) =
    let rest = collapse p true cs in
    let next = c ∷ collapse p false cs in if p c then (if inside then rest else 32 ∷ rest) else next

-- `strip` of given characters
abbrev drop_while : (ℕ → Bool) → Text → Text
drop_while p [] = []
drop_while p (c ∷ cs) = if p c then drop_while p cs else c ∷ cs

unfoldable pub strip_of : (ℕ → Bool) → Text → Text
strip_of p s = reverse (drop_while p (reverse (drop_while p s)))

two_markers : markers (codes "so [12] and [7], not [12345] or [x]") ≡ 12 ∷ 7 ∷ []
unfolding markers
two_markers = refl

shown : show 1207 ≡ codes "1207"
unfolding show
shown = refl
