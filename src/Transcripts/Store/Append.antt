-- ===== src/Transcripts/Store/Append.antt =====
-- What an append does to later reads.
use ambient_recorder.Base.{
  ℕ, ◌≤◌, ◌≡◌, ap, ◌∙◌, sym, none, some, List, [], ◌∷◌, ◌++◌, arith, length, ◌⊎◌,
}
use ambient_recorder.Base.Text.{strip}
use ambient_recorder.Base.Text.Strip.{strip_idem}
use ambient_recorder.Transcripts.Rows.{TranscriptSegment, NewSegment, Db, is_valid, validate}
use ambient_recorder.Transcripts.Store.{
  ok, err, validation_error, of_option, next_seq, stored, append_segment, validate_all,
  segments_after,
}
use ambient_recorder.Transcripts.Store.Seqs.{
  rows_of, IsNumbered, next_seq-length, rows_of-append_self, append_segment-IsNumbered,
}
use ambient_recorder.Transcripts.Store.Cursor.{of_option-ok, segments_after-all}

-- A text that was stripped, as all stored texts are, passes the validator as it is.
validate-stored :
    (i n : ℕ) (s : NewSegment) {seg : TranscriptSegment}
    → validate (record (stored i n s) { text = s.text }) ≡ some seg
    → (seg ≡ stored i n s) × (validate (stored i n s) ≡ some (stored i n s))
unfolding validate is_valid
validate-stored i n s h = ground (arith, strip_idem s.text)

invalid-given :
    (i n : ℕ) (s : NewSegment)
    → (strip s.text ≡ []) ⊎ (s.end_s ≤ s.start_s)
    → validate (record (stored i n s) { text = s.text }) ≡ none
unfolding validate is_valid
invalid-given i n s h = ground arith

invalid-stored :
    (i n : ℕ) (s : NewSegment)
    → (strip s.text ≡ []) ⊎ (s.end_s ≤ s.start_s)
    → validate (stored i n s) ≡ none
unfolding validate is_valid
invalid-stored i n s h = ground (arith, strip_idem s.text)

validate_all-append :
    (ss vs : List TranscriptSegment) (s : TranscriptSegment)
    → validate_all ss ≡ some vs
    → validate s ≡ some s
    → validate_all (ss ++ s ∷ []) ≡ some (vs ++ s ∷ [])
unfolding validate_all
validate_all-append [] vs s h v = ground arith
validate_all-append (x ∷ xs) [] s h v = absurd (grind arith)
validate_all-append (x ∷ xs) (y ∷ ys) s h v = ground (arith, validate_all-append xs ys s)

validate_all-none :
    (ss : List TranscriptSegment) (s : TranscriptSegment)
    → validate s ≡ none
    → validate_all (ss ++ s ∷ []) ≡ none
unfolding validate_all
validate_all-none [] s v = ground arith
validate_all-none (x ∷ xs) s v = ground (arith, validate_all-none xs s)

module _ (db : Db) (i : ℕ) (s : NewSegment) (num : IsNumbered db) where
  given_ok :
      {seg : TranscriptSegment}
      → (append_segment db i s).0 ≡ ok seg
      → validate (record (stored i (next_seq (rows_of db i)) s) { text = s.text }) ≡ some seg
  unfolding append_segment
  given_ok h = of_option-ok _ h

  -- What the store returns is the segment under its number, with the text stripped.
  pub segment_of-append :
      {seg : TranscriptSegment}
      → (append_segment db i s).0 ≡ ok seg
      → seg ≡ stored i (next_seq (rows_of db i)) s
  segment_of-append h = (validate-stored i (next_seq (rows_of db i)) s (given_ok h)).0

  -- A segment that the store takes is its own row, after the others.
  pub row_of-append :
      {seg : TranscriptSegment}
      → (append_segment db i s).0 ≡ ok seg
      → rows_of (append_segment db i s).1 i ≡ rows_of db i ++ seg ∷ []
  row_of-append h =
      rows_of-append_self db i s
      ∙ ap (λ x. rows_of db i ++ x ∷ [])
          (sym (validate-stored i (next_seq (rows_of db i)) s (given_ok h)).0)

  appended :
      segments_after (append_segment db i s).1 i none
      ≡ of_option (validate_all (rows_of db i ++ stored i (next_seq (rows_of db i)) s ∷ []))
  appended =
      segments_after-all (append_segment db i s).1 i (append_segment-IsNumbered db i s num)
      ∙ ap (λ rows. of_option (validate_all rows)) (rows_of-append_self db i s)

  -- In numbered tables in which the transcript can be read in full, a segment that the store takes comes
  -- at the end of the full read right after it, behind what was read before, as it was returned, and its
  -- number is the count of the rows before it.
  pub segments_after-append :
      {segs : List TranscriptSegment} {seg : TranscriptSegment}
      → segments_after db i none ≡ ok segs
      → (append_segment db i s).0 ≡ ok seg
      → (segments_after (append_segment db i s).1 i none ≡ ok (segs ++ seg ∷ []))
        × (seg.seq ≡ length (rows_of db i))
  segments_after-append {segs} {seg} h a =
      let row = stored i (next_seq (rows_of db i)) s in
      let valid = validate-stored i (next_seq (rows_of db i)) s (given_ok a) in
      (
        appended
            ∙ ap of_option (
                validate_all-append (rows_of db i) segs row
                  (of_option-ok (validate_all (rows_of db i))
                    (sym (segments_after-all db i num) ∙ h))
                  valid.1)
            ∙ ap (λ x. ok (segs ++ x ∷ [])) (sym valid.0),
        ap (λ x. x.seq) valid.0 ∙ next_seq-length (rows_of db i) (num i),
      )

  -- In numbered tables, a blank text, or an end that is not after the start, raises, but after the row is
  -- written: the full read of the transcript right after it raises too.
  pub segments_after-poisoned :
      (strip s.text ≡ []) ⊎ (s.end_s ≤ s.start_s)
      → ((append_segment db i s).0 ≡ err validation_error)
        × (segments_after (append_segment db i s).1 i none ≡ err validation_error)
  segments_after-poisoned bad = (
    unfold append_segment in ap of_option (invalid-given i (next_seq (rows_of db i)) s bad),
    appended
        ∙ ap of_option (
            validate_all-none (rows_of db i) (stored i (next_seq (rows_of db i)) s)
              (invalid-stored i (next_seq (rows_of db i)) s bad)),
  )
