-- ===== src/Assistant/Summary/Cited.antt =====
-- Every citation of a summary is that of a segment.
use mathlib.Core.List.{Memᴰ}
use ambient_recorder.Base.{
  ℕ, ◌+◌, sym, subst, List, [], ◌∷◌, ltb, leb, All, All-append, All-every, Bool-cases, inl, inr,
}
use ambient_recorder.Base.Text.{Text, lower}
use ambient_recorder.Transcripts.Rows.{TranscriptSegment}
use ambient_recorder.Retrieval.{Excerpt, excerpt, number}
use ambient_recorder.Assistant.Markers.{markers}
use ambient_recorder.Assistant.Grounding.{Citation, cite, by_n, collect}
use ambient_recorder.Assistant.Grounding.Cited.{by_n-found, collect-All, All-second}
use ambient_recorder.Assistant.Sections.{Sections, parse_sections, bullet_citations}
use ambient_recorder.Assistant.Checked.{Generate}
use ambient_recorder.Assistant.Summary.{
  Notes, renumber, translate, with_citations, cited_bullets, section_bullets, add_note, best_of,
  close_enough, inherit,
}

pub All-mem {ℓ} : {A : Type ℓ} (P : A → Type 0) {x : A} (xs : List A) → All P xs → Memᴰ x xs → P x
All-mem P [] h m = elim m [ ]
All-mem P (y ∷ xs) h (Memᴰ.head e) = subst P (sym e) h.0
All-mem P (y ∷ xs) h (Memᴰ.tail m) = All-mem P xs h.1 m

-- What holds of the citation of every excerpt holds of those of a bullet.
module _ (P : Citation → Type 0) where
  abbrev pub Cites : Excerpt → Type 0
  Cites e = P (cite e)

  pub bullet_citations-All :
      (es : List Excerpt) (text : Text) → All Cites es → All P (bullet_citations (by_n es) text).1
  unfolding bullet_citations
  bullet_citations-All es text h = All-second P (collect (by_n es) (markers text) []) (
      collect-All (by_n es) (λ n. Unit) (λ n c. P c)
        (λ n e q found. All-mem Cites es h (by_n-found es n e found).0) (markers text) []
        (All-every (λ n. tt) (markers text)) tt)

  abbrev pub Backs : Text × List Citation → Type 0
  Backs b = All P b.1

  with_citations-All : (b : Text × List Citation) → Backs b → All Backs (with_citations b)
  with_citations-All ([], cits) h = tt
  with_citations-All (c ∷ text, []) h = tt
  with_citations-All (c ∷ text, cit ∷ cits) h = (h, tt)

  cited_bullets-All :
      (es : List Excerpt) (bs : List Text) → All Cites es → All Backs (cited_bullets es bs)
  unfolding cited_bullets
  cited_bullets-All es [] h = tt
  cited_bullets-All es (b ∷ bs) h =
      All-append Backs (with_citations (bullet_citations (by_n es) b)) (cited_bullets es bs)
        (with_citations-All (bullet_citations (by_n es) b) (bullet_citations-All es b h))
        (cited_bullets-All es bs h)

  section_bullets-All :
      (es : List Excerpt) (ss : Sections) → All Cites es → All Backs (section_bullets es ss)
  unfolding section_bullets
  section_bullets-All es [] h = tt
  section_bullets-All es ((k, bs) ∷ ss) h =
      All-append Backs (cited_bullets es bs) (section_bullets es ss) (cited_bullets-All es bs h)
        (section_bullets-All es ss h)

  renumber-All : (offset : ℕ) (es : List Excerpt) → All Cites es → All Cites (renumber offset es)
  renumber-All offset [] h = tt
  renumber-All offset (e ∷ es) h = (h.0, renumber-All offset es h.1)

  -- The excerpts and the bullets of the windows.
  abbrev pub IsBacked : Notes → Type 0
  IsBacked st = All Cites st.index × All Backs st.bullets

  pub add_note-Backed :
      (es : List Excerpt) (st : Notes) (note : Text)
      → All Cites es
      → IsBacked st
      → IsBacked (add_note es st note)
  unfolding add_note
  add_note-Backed es st note h (i, b) =
      let index =
        All-append Cites st.index (renumber st.offset es) i (renumber-All st.offset es h) in
      (
        index,
        All-append Backs st.bullets _ b
            (section_bullets-All _ (parse_sections (translate st.offset note)) index),
      )

  pub number-All :
      (session_id n : ℕ) (ss : List TranscriptSegment)
      → All (λ s. P (cite (excerpt session_id 0 s))) ss
      → All Cites (number session_id n ss)
  unfolding number
  number-All session_id n [] h = tt
  number-All session_id n (s ∷ ss) h = (h.0, number-All session_id (n + 1) ss h.1)

  -- A bullet of the final text that is not cited inherits from one that is.
  best_of-All :
      (ratio : Text → Text → ℕ) (generate : Generate) (key : Text)
      → (bullets : List (Text × List Citation)) (best : ℕ) (cits : List Citation)
      → All Backs bullets
      → All P cits
      → All P (best_of generate ratio key bullets best cits).1
  best_of-All ratio generate key [] best cits h c = c
  best_of-All ratio generate key ((text, cs) ∷ bullets) best cits h c =
      elim (Bool-cases (ltb best (ratio key text))) [
        | inl e ↦ rw e (best_of-All ratio generate key bullets (ratio key text) cs h.1 h.0)
        | inr e ↦ rw e (best_of-All ratio generate key bullets best cits h.1 c)
      ]

  close_enough-All :
      (ratio : Text → Text → ℕ) (generate : Generate) (b : ℕ × List Citation)
      → All P b.1
      → All P (close_enough generate ratio b)
  close_enough-All ratio generate (best, cits) h = elim (Bool-cases (leb 550000 best)) [
    | inl e ↦ rw e h
    | inr e ↦ rw e tt
  ]

  pub inherit-All :
      (ratio : Text → Text → ℕ) (generate : Generate) (bullets : List (Text × List Citation))
      → (text : Text) (cits : List Citation) → All Backs bullets
      → All P cits
      → All P (inherit generate ratio bullets text cits)
  unfolding inherit
  inherit-All ratio generate bullets text [] h c =
      close_enough-All ratio generate _ (best_of-All ratio generate (lower text) bullets 0 [] h tt)
  inherit-All ratio generate bullets text (x ∷ cits) h c = c
