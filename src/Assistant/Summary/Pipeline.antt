-- ===== src/Assistant/Summary/Pipeline.antt =====
-- Every item of a summary is cited, by citations of the segments.
use mathlib.Core.List.{Memᴰ}
use ambient_recorder.Base.{
  ℕ, ◌≡◌, refl, sym, subst, ap, true, false, Option, none, some, List, [], ◌∷◌, ◌*◌, length, All,
  All-append, All-append_left, All-append_right,
}
use ambient_recorder.Base.Sort.{All-sort}
use ambient_recorder.Base.Text.{Text}
use ambient_recorder.Models.{Speaker}
use ambient_recorder.Capture.Engine.Lanes.{some_inj}
use ambient_recorder.Transcripts.Rows.{TranscriptSegment}
use ambient_recorder.Attribution.Twin.{is_empty}
use ambient_recorder.Capture.Conserved.{concat}
use ambient_recorder.Retrieval.{excerpt, number}
use ambient_recorder.Assistant.Grounding.{Citation, cite, by_n}
use ambient_recorder.Assistant.Prompts.{summary_map_prompt, summary_map_system}
use ambient_recorder.Assistant.Windows.{sized_windows, earlier}
use ambient_recorder.Assistant.Windows.Partition.{sized_windows-Fits}
use ambient_recorder.Assistant.Sections.{
  key_points, decisions, action_items, Sections, items_of, bullet_citations, parse_action,
  parse_sections,
}
use ambient_recorder.Assistant.Checked.{Generate, Rules, call_checked}
use ambient_recorder.Assistant.Summary.{
  SummaryItem, ActionItem, SummaryContent, Notes, numbers_of, add_note, map_windows, merge,
  condense, inherit, item_with, items, action_with, actions, content, reduce, summarize, no_notes,
}
use ambient_recorder.Assistant.Summary.Condensed.{resume-some}
use ambient_recorder.Assistant.Summary.Cited.{
  IsBacked, bullet_citations-All, add_note-Backed, number-All, inherit-All,
}

first_of :
    {A : Type 0} {a : A} {n : ℕ} {r : A × ℕ}
    → ◌≡◌ {A = Option (A × ℕ)} (some (a, n)) (some r)
    → a ≡ r.0
first_of h = ap (λ z. z.0) (some_inj h)

module _ (generate : Generate) (ratio : Text → Text → ℕ) (P : Citation → Type 0) where
  -- The item says something, and is cited.
  abbrev pub IsCited : SummaryItem → Type 0
  IsCited x = (is_empty x.text ≡ false) × (is_empty x.citations ≡ false) × All P x.citations

  abbrev pub IsCitedAction : ActionItem → Type 0
  IsCitedAction x = (is_empty x.citations ≡ false) × All P x.citations

  item_with-Cited :
      (t : Text) (cits : List Citation) → All P cits → All IsCited (item_with generate ratio t cits)
  item_with-Cited [] cits h = tt
  item_with-Cited (c ∷ t) [] h = tt
  item_with-Cited (c ∷ t) (x ∷ cits) h = ((refl, refl, h), tt)

  items-Cited :
      (st : Notes) (bs : List Text) → IsBacked P st → All IsCited (items generate ratio st bs)
  unfolding items
  items-Cited st [] h = tt
  items-Cited st (b ∷ bs) h =
      let r = bullet_citations (by_n st.index) b in
      let cits = inherit generate ratio st.bullets r.0 r.1 in
      All-append IsCited (item_with generate ratio r.0 cits) (items generate ratio st bs)
        (item_with-Cited r.0 cits (
          inherit-All P ratio generate st.bullets r.0 r.1 h.1
            (bullet_citations-All P st.index b h.0)))
        (items-Cited st bs h)

  action_with-Cited :
      (a : Option (Speaker × Text × Option Text)) (cits : List Citation)
      → All P cits
      → All IsCitedAction (action_with generate ratio a cits)
  action_with-Cited none cits h = tt
  action_with-Cited (some a) [] h = tt
  action_with-Cited (some a) (x ∷ cits) h = ((refl, h), tt)

  actions-Cited :
      (st : Notes) (bs : List Text)
      → IsBacked P st
      → All IsCitedAction (actions generate ratio st bs)
  unfolding actions
  actions-Cited st [] h = tt
  actions-Cited st (b ∷ bs) h =
      let r = bullet_citations (by_n st.index) b in
      let cits = inherit generate ratio st.bullets r.0 r.1 in
      All-append IsCitedAction (action_with generate ratio (parse_action r.0) cits)
        (actions generate ratio st bs)
        (action_with-Cited (parse_action r.0) cits (
          inherit-All P ratio generate st.bullets r.0 r.1 h.1
            (bullet_citations-All P st.index b h.0)))
        (actions-Cited st bs h)

  -- Every item of every section of the summary.
  abbrev pub AllCited : SummaryContent → Type 0
  AllCited c = All IsCited c.key_points × All IsCited c.decisions × All IsCitedAction c.action_items

  content-Cited :
      (st : Notes) (ss : Sections) → IsBacked P st → AllCited (content generate ratio st ss)
  unfolding content
  content-Cited st ss h = (
    items-Cited st (items_of key_points ss) h,
    items-Cited st (items_of decisions ss) h,
    actions-Cited st (items_of action_items ss) h,
  )

  reduce-Cited :
      (budget_tokens n : ℕ) (st : Notes) (r : SummaryContent × ℕ)
      → reduce generate ratio budget_tokens st n ≡ some r
      → IsBacked P st
      → AllCited r.0
  unfolding reduce
  reduce-Cited budget_tokens n st r h b =
      let (notes, k, e, h') =
        resume-some (condense generate ratio (length st.notes) (budget_tokens * 4) st.notes n) _ r
          h in
      let (text, k', e', h'') = resume-some (merge generate ratio true notes k) _ r h' in
      subst AllCited (first_of h'') (content-Cited st (parse_sections text) b)

  -- The segments' own citations.
  abbrev Own : ℕ → TranscriptSegment → Type 0
  Own session_id s = P (cite (excerpt session_id 0 s))

  map_windows-Backed :
      (session_id n : ℕ) (ws : List (List TranscriptSegment)) (st : Notes) (r : Notes × ℕ)
      → map_windows generate ratio session_id ws st n ≡ some r
      → All (Own session_id) (concat ws)
      → IsBacked P st
      → IsBacked P r.0
  unfolding map_windows
  map_windows-Backed session_id n [] st r h a b = subst (IsBacked P) (first_of h) b
  map_windows-Backed session_id n (w ∷ ws) st r h a b =
      let excerpts = number session_id 1 w in
      let rules : Rules = record {
        require_overview = false;
        allowed_markers = numbers_of excerpts;
        require_citations = true;
      } in
      let (note, k, e, h') =
        resume-some (call_checked generate rules (summary_map_prompt excerpts) summary_map_system n)
          _ r h in
      map_windows-Backed session_id k ws (add_note excerpts st note) r h'
        (All-append_right (Own session_id) w (concat ws) a)
        (add_note-Backed P excerpts st note
          (number-All P session_id 1 w (All-append_left (Own session_id) w (concat ws) a)) b)

  pub summarize-AllCited :
      (window_s budget_tokens : ℕ) (segments : List TranscriptSegment) (session_id n : ℕ)
      → (r : SummaryContent × ℕ)
      → summarize generate ratio window_s budget_tokens segments session_id n ≡ some r
      → All (Own session_id) segments
      → AllCited r.0
  unfolding summarize
  summarize-AllCited window_s budget_tokens segments session_id n r h own =
      let ws = sized_windows window_s budget_tokens segments in
      let (st, k, e, h') =
        resume-some (map_windows generate ratio session_id ws (no_notes generate ratio) n) _ r h in
      let whole = (sized_windows-Fits window_s budget_tokens segments).0 in
      reduce-Cited budget_tokens k st r h' (
        map_windows-Backed session_id n (sized_windows window_s budget_tokens segments)
          (no_notes generate ratio) (st, k) e
          (subst (All (Own session_id)) (sym whole)
            (All-sort earlier (Own session_id) segments own))
          (tt, tt))

-- The citation is that of one of the segments.
abbrev pub IsOf : ℕ → List TranscriptSegment → Citation → Type 0
IsOf session_id segments c =
    (s : TranscriptSegment) × Memᴰ s segments × (c ≡ cite (excerpt session_id 0 s))

All-own :
    (session_id : ℕ) (xs ys : List TranscriptSegment)
    → ((s : TranscriptSegment) → Memᴰ s xs → Memᴰ s ys)
    → All (λ s. IsOf session_id ys (cite (excerpt session_id 0 s))) xs
All-own session_id [] ys f = tt
All-own session_id (x ∷ xs) ys f =
    ((x, f x (Memᴰ.head refl), refl), All-own session_id xs ys (λ s m. f s (Memᴰ.tail m)))

-- Whatever the model replies, a summary has only items that say something and are cited, and only
-- action items that are cited; every citation is that of a segment of the transcript.
pub summarize-IsCited :
    (generate : Generate) (ratio : Text → Text → ℕ) (window_s budget_tokens : ℕ)
    → (segments : List TranscriptSegment) (session_id n : ℕ) (r : SummaryContent × ℕ)
    → summarize generate ratio window_s budget_tokens segments session_id n ≡ some r
    → AllCited generate ratio (IsOf session_id segments) r.0
summarize-IsCited generate ratio window_s budget_tokens segments session_id n r h =
    summarize-AllCited generate ratio (IsOf session_id segments) window_s budget_tokens segments
      session_id n r h (All-own session_id segments segments (λ s m. m))
