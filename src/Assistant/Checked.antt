-- ===== src/Assistant/Checked.antt =====
-- assistant/summarize.py: `_call_checked`, a call of the model with one retry.
use ambient_recorder.Base.{
  ℕ, suc, Bool, not, ◌&&◌, ◌||◌, ◌==◌, Option, none, some, List, ◌++◌, if◌then◌else◌, any, keep,
}
use ambient_recorder.Base.Text.{Text, codes}
use ambient_recorder.Attribution.Twin.{is_empty}
use ambient_recorder.Assistant.Markers.{sub, markers, value, whole}
use ambient_recorder.Assistant.Grounding.{nothing}
use ambient_recorder.Assistant.Sections.{Section, overview, same_section, items_of, parse_sections}

-- A computation that calls the model: from the number of calls made so far to a result and the number
-- after it, or `none` where it raises.
abbrev pub Calls : Type 0 → Type 0
Calls A = ℕ → Option (A × ℕ)

abbrev pub return : {A : Type 0} → A → Calls A
return a n = some (a, n)

abbrev pub resume : {A B : Type 0} → Option (A × ℕ) → (A → Calls B) → Option (B × ℕ)
resume none f = none
resume (some (a, n)) f = f a n

infixl 5 ◌>>=◌
abbrev pub ◌>>=◌ : {A B : Type 0} → Calls A → (A → Calls B) → Calls B
(m >>= f) n = resume (m n) f

-- `generate(prompt, system)`: the reply to the call of that number, or an exception.
abbrev pub Generate : Type 0
Generate = ℕ → Text → Text → Option Text

abbrev pub numbered : ℕ → Option Text → Option (Text × ℕ)
numbered n none = none
numbered n (some t) = some (t, suc n)

abbrev pub ask : Generate → Text → Text → Calls Text
ask generate prompt system n = numbered n (generate n prompt system)

-- What a call requires.
pub record Rules : Type 0 where
  pub require_overview : Bool
  pub allowed_markers : List ℕ
  pub require_citations : Bool

abbrev pub elem : List ℕ → ℕ → Bool
elem ns n = any (λ m. m == n) ns

abbrev named : Section → Bool
named k = not (same_section k overview)

unfoldable pub structured : Rules → Text → Bool
unfolding parse_sections
structured rules text =
    let sections = parse_sections text in
    any (λ s. named s.0) sections
    || (rules.require_overview && not (is_empty (items_of overview sections)))

-- The markers of the reply that it was not given.
unfoldable pub invalid : Rules → Text → List ℕ
unfolding markers
invalid rules text = keep (λ n. not (elem rules.allowed_markers n)) (markers text)

unfoldable pub uncited : Rules → Text → Bool
unfolding parse_sections markers
uncited rules text =
    rules.require_citations
    && any (λ s. named s.0 && not (is_empty s.1)) (parse_sections text)
    && is_empty (markers text)

unfoldable pub accepted : Rules → Text → Bool
unfolding structured invalid uncited
accepted rules text =
    structured rules text && is_empty (invalid rules text) && not (uncited rules text)

-- `_strip_markers`
unfoldable pub strip_markers : List ℕ → Text → Text
unfolding sub value
strip_markers ns = sub (λ ds. if elem ns (value ds) then nothing ds else whole ds)

abbrev pub advice : Rules → Text → Text
advice rules text =
    if not (structured rules text)
    then codes "\n\nIMPORTANT: use exactly the required section headings and dash bullets."
    else if uncited rules text
    then codes
        "\n\nIMPORTANT: every bullet must end with the number of the excerpt that supports it, like [12]."
    else codes
        "\n\nIMPORTANT: copy citation numbers exactly as they appear in the input above; do not renumber and do not invent citations."

-- `fallback`
abbrev pub repaired : Rules → Text → Option Text → Option Text
repaired rules text old =
    if structured rules text then some (strip_markers (invalid rules text) text) else old

abbrev pub or_raise : Option Text → Calls Text
or_raise none n = none
or_raise (some t) n = some (t, n)

abbrev pub second_reply : Rules → Text → Text → Calls Text
second_reply rules first text =
    if accepted rules text
    then return text
    else or_raise (repaired rules text (repaired rules first none))

abbrev pub first_reply : Generate → Rules → Text → Text → Text → Calls Text
first_reply generate rules prompt system text =
    if accepted rules text
    then return text
    else ask generate (prompt ++ advice rules text) system >>= second_reply rules text

unfoldable pub call_checked : Generate → Rules → Text → Text → Calls Text
unfolding structured uncited accepted strip_markers invalid
call_checked generate rules prompt system =
    ask generate prompt system >>= first_reply generate rules prompt system
