-- ===== src/Assistant/Prompts.antt =====
-- assistant/prompts.py and `Excerpt.render`: the prompts, as texts.
use mathlib.Core.List.{map}
use ambient_recorder.Base.{
  ◌≡◌, refl, ℕ, ◌/◌, ◌%◌, List, [], ◌∷◌, ◌++◌, ltb, if◌then◌else◌, take_last,
}
use ambient_recorder.Base.Text.{Text, codes, join}
use ambient_recorder.Models.{Speaker, me, them}
use ambient_recorder.Retrieval.{Excerpt}
use ambient_recorder.Assistant.Markers.{show}

abbrev newline : Text
newline = 10 ∷ []

abbrev pub qa_system : Text
qa_system =
    codes
      "You are a meeting assistant. Answer questions using ONLY the numbered meeting excerpts provided. 'me' is the user; 'them' is the other participants. After every claim, cite the excerpt number in square brackets, like [3]. If the excerpts do not contain the answer, reply exactly: \"not discussed in this meeting\". Never invent content."

abbrev pub summary_map_system : Text
summary_map_system =
    codes
      "You extract structured notes from meeting transcript excerpts. 'me' is the user; 'them' is the other participants. PRONOUNS: in a 'me:' line, 'I' means me and 'you' means them; in a 'them:' line, 'I' means them and 'you' means me — assign action-item owners accordingly (e.g. them: 'I will send the forecast' -> owner them; me: 'you will write the descriptions' -> owner them). Use ONLY the excerpts. Cite excerpt numbers like [3] after every bullet. Output exactly these sections, each a dash-bullet list (write 'none' if empty):\nKEY POINTS:\nDECISIONS:\nACTION ITEMS:\nFor action items use: owner (me|them) | task | deadline (verbatim spoken words, or '-'). Anything someone commits to DOING is an action item, not a decision — e.g. spoken 'I will draft options by Friday' becomes: - me | draft options | by Friday [7]"

abbrev pub summary_reduce_system : Text
summary_reduce_system =
    codes
      "You merge meeting notes into a final summary. Deduplicate, keep owners and verbatim deadlines. CITATIONS: copy citation numbers like [317] EXACTLY as they appear in the notes — never renumber, never invent a number that is not in the notes. Output exactly these sections:\nOVERVIEW: (2-4 sentences)\nKEY POINTS:\nDECISIONS:\nACTION ITEMS:\nBullets as dashes; action items as: owner (me|them) | task | deadline (e.g. - me | draft options | by Friday [7]). Commitments to do something are action items, never decisions."

-- `{n:02d}`
unfoldable pub two_digits : ℕ → Text
unfolding show
two_digits n = if ltb n 10 then 48 ∷ show n else show n

abbrev source_text : Speaker → Text
source_text me = codes "me"
source_text them = codes "them"

-- `Excerpt.render`, for times in samples
unfoldable pub render : Excerpt → Text
unfolding show two_digits
render e =
    let s = e.start_s / 16000 in
    codes "["
    ++ show e.n
    ++ codes "] "
    ++ two_digits (s / 3600)
    ++ codes ":"
    ++ two_digits (s / 60 % 60)
    ++ codes ":"
    ++ two_digits (s % 60)
    ++ codes " "
    ++ source_text e.source
    ++ codes ": "
    ++ e.text

unfoldable pub render_excerpts : List Excerpt → Text
unfolding render join
render_excerpts excerpts = join newline (map render excerpts)

unfoldable pub summary_map_prompt : List Excerpt → Text
unfolding render_excerpts
summary_map_prompt excerpts =
    codes "TRANSCRIPT EXCERPTS:"
    ++ newline
    ++ render_excerpts excerpts
    ++ newline
    ++ newline
    ++ codes "NOTES:"

unfoldable pub summary_reduce_prompt : List Text → Text
unfolding join
summary_reduce_prompt window_notes =
    codes "NOTES FROM MEETING SECTIONS (chronological):"
    ++ newline
    ++ join (newline ++ newline ++ codes "---" ++ newline ++ newline) window_notes
    ++ newline
    ++ newline
    ++ codes "FINAL SUMMARY:"

abbrev turns : List (Text × Text) → List Text
turns [] = []
turns ((q, a) ∷ history) = (codes "Q: " ++ q) ∷ (codes "A: " ++ a) ∷ turns history

abbrev so_far : List (Text × Text) → List Text
so_far [] = []
so_far (turn ∷ history) = codes "CONVERSATION SO FAR:" ∷ turns (turn ∷ history) ++ [] ∷ []

unfoldable pub qa_prompt : List Excerpt → List (Text × Text) → Text → Text
unfolding render_excerpts join
qa_prompt excerpts history question = join newline (
    codes "MEETING EXCERPTS:" ∷ render_excerpts excerpts ∷ [] ∷ so_far (take_last 4 history)
    ++ (codes "QUESTION: " ++ question) ∷ codes "ANSWER:" ∷ [])

newline_code : codes "\n" ≡ newline
newline_code = refl
