-- ===== src/Assistant/Summary/Bounded.antt =====
-- How often a summary asks the model.
use ambient_recorder.Base.{
  ℕ, zero, suc, ◌+◌, ◌*◌, ◌≤◌, ◌≡◌, subst, ap, arith, Bool, true, false, not, ◌&&◌, Option, none,
  some, List, [], ◌∷◌, ◌++◌, ltb, leb, length, Bool-cases, inl, inr, if◌then◌else◌, length-append,
}
use ambient_recorder.Base.Text.{Text}
use ambient_recorder.Transcripts.Rows.{TranscriptSegment}
use ambient_recorder.Attribution.Twin.{is_empty}
use ambient_recorder.Capture.Engine.Lanes.{some_inj}
use ambient_recorder.Retrieval.{Excerpt, number}
use ambient_recorder.Assistant.Prompts.{
  summary_map_prompt, summary_map_system, summary_reduce_prompt, summary_reduce_system,
}
use ambient_recorder.Assistant.Windows.{sized_windows}
use ambient_recorder.Assistant.Checked.{
  Calls, return, ◌>>=◌, Generate, numbered, ask, Rules, accepted, advice, or_raise, repaired,
  second_reply, first_reply, call_checked,
}
use ambient_recorder.Assistant.Summary.{
  SummaryContent, Notes, numbers_of, all_markers, total, add_note, map_windows, merge, merge_last,
  merge_notes, condense, reduce, summarize, no_notes,
}
use ambient_recorder.Assistant.Summary.Condensed.{resume-some}

-- The computation calls the model at most so often, where it returns.
abbrev Within : {A : Type 0} → ℕ → Calls A → Type 0
Within {A} k m = (n : ℕ) (r : A × ℕ) → m n ≡ some r → r.1 ≤ n + k

counted :
    {A : Type 0} {a : A} {m : ℕ} {r : A × ℕ}
    → ◌≡◌ {A = Option (A × ℕ)} (some (a, m)) (some r)
    → r.1 ≡ m
counted h = ground arith

return-Within : {A : Type 0} (k : ℕ) (a : A) → Within k (return a)
return-Within k a n r h = omega (arith, counted h)

bind-Within :
    {A B : Type 0} (k l : ℕ) (m : Calls A) (f : A → Calls B)
    → Within k m
    → ((a : A) → Within l (f a))
    → Within (k + l) (m >>= f)
bind-Within k l m f h g n r e =
    let (a, i, p, q) = resume-some (m n) f r e in omega (arith, h n (a, i) p, g a i r q)

taken :
    {A : Type 0} {b : Bool} (m m' : Calls A) (n : ℕ) (r : A × ℕ)
    → b ≡ true
    → (if b then m else m') n ≡ some r
    → m n ≡ some r
taken m m' n r e = rw e (λ h. h)

left :
    {A : Type 0} {b : Bool} (m m' : Calls A) (n : ℕ) (r : A × ℕ)
    → b ≡ false
    → (if b then m else m') n ≡ some r
    → m' n ≡ some r
left m m' n r e = rw e (λ h. h)

or_raise-Within : (k : ℕ) (o : Option Text) → Within k (or_raise o)
or_raise-Within k none n r h = absurd (ground arith)
or_raise-Within k (some t) n r h = return-Within k t n r h

module _ (generate : Generate) (ratio : Text → Text → ℕ) where
  ask-Within : (prompt system : Text) → Within 1 (ask generate prompt system)
  ask-Within prompt system n r h = at_most (generate n prompt system) h
    where
      at_most : (o : Option Text) → numbered n o ≡ some r → r.1 ≤ n + 1
      at_most none e = absurd (ground arith)
      at_most (some t) e = omega (arith, counted e)

  second-Within : (rules : Rules) (first second : Text) → Within 0 (second_reply rules first second)
  second-Within rules first second = elim (Bool-cases (accepted rules second)) [
    | inl e ↦ rw e (return-Within 0 second)
    | inr e ↦ rw e (or_raise-Within 0 (repaired rules second (repaired rules first none)))
  ]

  first-Within :
      (rules : Rules) (prompt system first : Text)
      → Within 1 (first_reply generate rules prompt system first)
  first-Within rules prompt system first = elim (Bool-cases (accepted rules first)) [
    | inl e ↦ rw e (return-Within 1 first)
    | inr e ↦ rw e (
        bind-Within 1 0 (ask generate (prompt ++ advice rules first) system)
          (second_reply rules first) (ask-Within (prompt ++ advice rules first) system)
          (second-Within rules first))
  ]

  call_checked-Within :
      (rules : Rules) (prompt system : Text) → Within 2 (call_checked generate rules prompt system)
  unfolding call_checked
  call_checked-Within rules prompt system =
      bind-Within 1 1 (ask generate prompt system) (first_reply generate rules prompt system)
        (ask-Within prompt system) (first-Within rules prompt system)

  merge-Within : (final : Bool) (group : List Text) → Within 2 (merge generate ratio final group)
  unfolding merge
  merge-Within final group =
      call_checked-Within
        (record {
          require_overview = final;
          allowed_markers = all_markers group;
          require_citations = false;
        })
        (summary_reduce_prompt group) summary_reduce_system

  merge_last-Within : (group : List Text) → Within 2 (merge_last generate ratio group)
  merge_last-Within [] = return-Within 2 []
  merge_last-Within (n ∷ group) =
      bind-Within 2 0 (merge generate ratio false (n ∷ group)) _ (merge-Within false (n ∷ group))
        (λ m. return-Within 0 (m ∷ []))

  -- A tier makes at most one note of each.
  merge_notes-Within :
      (budget : ℕ) (group : List Text) (size : ℕ) (notes : List Text)
      → Within (2 + 2 * length notes) (merge_notes generate ratio budget group size notes)
  unfolding merge_notes
  merge_notes-Within budget group size [] = merge_last-Within group
  merge_notes-Within budget group size (x ∷ notes) =
      elim (Bool-cases (not (is_empty group) && ltb budget (size + length x))) [
        | inl e ↦ rw e (λ n r h.
            let bound =
              bind-Within 2 (2 + 2 * length notes + 0) (merge generate ratio false group) _
                (merge-Within false group)
                (λ m.
                  bind-Within (2 + 2 * length notes) 0
                    (merge_notes generate ratio budget (x ∷ []) (length x) notes) _
                    (merge_notes-Within budget (x ∷ []) (length x) notes)
                    (λ rest. return-Within 0 (m ∷ rest)))
                n r h in
            omega (arith, bound))
        | inr e ↦ rw e (λ n r h.
            omega
              (arith, merge_notes-Within budget (group ++ x ∷ []) (size + length x) notes n r h))
      ]

  tier-Within :
      (budget : ℕ) (notes : List Text)
      → 1 ≤ length notes
      → Within (2 * length notes) (merge_notes generate ratio budget [] 0 notes)
  unfolding merge_notes
  tier-Within budget [] l n r h = absurd (omega arith)
  tier-Within budget (x ∷ notes) l n r h =
      omega (arith, merge_notes-Within budget (x ∷ []) (0 + length x) notes n r h)

  more : (k l : ℕ) → k ≤ l → k * suc k ≤ l * suc l
  more zero l h = omega arith
  more (suc k) zero h = absurd (omega arith)
  more (suc k) (suc l) h = let below = more k l (omega (arith, h)) in omega (arith, below, h)

  square : (k : ℕ) → 1 ≤ k → 2 * k ≤ k * suc k
  square zero h = omega arith
  square (suc k) h = omega (arith, more zero k (omega arith))

  -- What is left for the tiers after the first.
  fall : (k l : ℕ) → suc k ≤ l → 2 * l + k * suc k ≤ l * suc l
  fall k zero h = absurd (omega arith)
  fall k (suc l) h = omega (arith, more k l (omega (arith, h)))

  condense-Within :
      (budget f : ℕ) (notes : List Text)
      → Within (length notes * suc (length notes)) (condense generate ratio f budget notes)
  unfolding condense
  condense-Within budget zero notes = return-Within _ notes
  condense-Within budget (suc f) notes =
      elim (Bool-cases (ltb 1 (length notes) && ltb budget (total notes))) [
        | inr e ↦ rw e (return-Within _ notes)
        | inl e ↦ rw e (λ n r h.
            let (merged, i, p, q) =
              resume-some (merge_notes generate ratio budget [] 0 notes n) _ r h in
            let tier = tier-Within budget notes (ground (arith, e)) n (merged, i) p in
            elim (Bool-cases (leb (length notes) (length merged))) [
              | inl e' ↦
                  let same =
                    counted
                      (taken (return merged) (condense generate ratio f budget merged) i r e' q) in
                  omega (arith, tier, same, square (length notes) (ground (arith, e)))
              | inr e' ↦
                  let fewer : suc (length merged) ≤ length notes = ground (arith, e') in
                  let rest =
                    condense-Within budget f merged i r
                      (left (return merged) (condense generate ratio f budget merged) i r e' q) in
                  omega (arith, tier, rest, fall (length merged) (length notes) fewer)
            ])
      ]

  one_note :
      (excerpts : List Excerpt) (st : Notes) (note : Text)
      → length (add_note excerpts st note).notes ≡ length st.notes + 1
  unfolding add_note
  one_note excerpts st note = length-append st.notes _

  -- The map stage, with a note for each window.
  map_windows-Within :
      (session_id : ℕ) (ws : List (List TranscriptSegment)) (st : Notes) (n : ℕ) (r : Notes × ℕ)
      → map_windows generate ratio session_id ws st n ≡ some r
      → (r.1 ≤ n + 2 * length ws) × (length r.0.notes ≡ length st.notes + length ws)
  unfolding map_windows
  map_windows-Within session_id [] st n r h =
      (omega (arith, counted h), omega (arith, ap (λ z. length z.0.notes) (some_inj h)))
  map_windows-Within session_id (w ∷ ws) st n r h =
      let excerpts = number session_id 1 w in
      let rules : Rules = record {
        require_overview = false;
        allowed_markers = numbers_of excerpts;
        require_citations = true;
      } in
      let (note, i, p, q) =
        resume-some (call_checked generate rules (summary_map_prompt excerpts) summary_map_system n)
          _ r h in
      let first =
        call_checked-Within rules (summary_map_prompt excerpts) summary_map_system n _ p in
      let (calls, notes) = map_windows-Within session_id ws (add_note excerpts st note) i r q in
      (omega (arith, first, calls), omega (arith, notes, one_note excerpts st note))

  -- A summary that is returned has asked the model at most (w + 1) (w + 2) times, where w is the number of
  -- parts of the transcript.
  pub summarize_calls :
      (window_s budget_tokens : ℕ) (segments : List TranscriptSegment) (session_id n : ℕ)
      (r : SummaryContent × ℕ)
      → summarize generate ratio window_s budget_tokens segments session_id n ≡ some r
      → let w = length (sized_windows window_s budget_tokens segments) in
        r.1 ≤ n + (w + 1) * (w + 2)
  unfolding summarize reduce
  summarize_calls window_s budget_tokens segments session_id n r h =
      let ws = sized_windows window_s budget_tokens segments in
      let start = no_notes generate ratio in
      let (st, i, p, q) = resume-some (map_windows generate ratio session_id ws start n) _ r h in
      let (mapped, count) = map_windows-Within session_id ws start n (st, i) p in
      let (notes, j, p', q') =
        resume-some (condense generate ratio (length st.notes) (budget_tokens * 4) st.notes i) _ r
          q in
      let tiers = condense-Within (budget_tokens * 4) (length st.notes) st.notes i (notes, j) p' in
      let (text, k, p'', q'') = resume-some (merge generate ratio true notes j) _ r q' in
      let last = merge-Within true notes j (text, k) p'' in
      let same : length st.notes ≡ length ws = omega (arith, count) in
      let tiers' : j ≤ i + length ws * suc (length ws) =
        subst (λ z. j ≤ i + z * suc z) same tiers in
      omega (arith, mapped, tiers', last, counted q'')
