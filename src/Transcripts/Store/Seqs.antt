-- ===== src/Transcripts/Store/Seqs.antt =====
-- The numbers of a transcript's segments: 0, 1, 2, … without a gap, whatever is appended or deleted.
use mathlib.Core.List.{append-nil}
use ambient_recorder.Base.{
  ℕ, suc, ◌+◌, ◌≡◌, subst, Bool, true, false, not, List, [], ◌∷◌, ◌++◌, arith, length, keep,
  keep-append, max, ◌==◌, Bool-cases, inl, inr, if◌then◌else◌,
}
use ambient_recorder.Transcripts.Rows.{TranscriptSegment, NewSegment, Db}
use ambient_recorder.Transcripts.Store.{is_of, next_seq, stored, append_segment, delete_segments}

-- The segments are numbered from `k` on, in the order of the list.
abbrev pub Numbered : ℕ → List TranscriptSegment → Type 0
Numbered k [] = Unit {0}
Numbered k (s ∷ ss) = (s.seq ≡ k) × Numbered (suc k) ss

abbrev pub rows_of : Db → ℕ → List TranscriptSegment
rows_of db i = keep (is_of i) db.segments

abbrev pub IsNumbered : Db → Type 0
IsNumbered db = (i : ℕ) → Numbered 0 (rows_of db i)

next_seq-Numbered :
    (k : ℕ) (ss : List TranscriptSegment) → Numbered k ss → max k (next_seq ss) ≡ k + length ss
unfolding next_seq
next_seq-Numbered k [] h = omega arith
next_seq-Numbered k (s ∷ ss) h = omega (arith, next_seq-Numbered (suc k) ss h.1)

-- The next number is the number of segments that there are.
pub next_seq-length : (ss : List TranscriptSegment) → Numbered 0 ss → next_seq ss ≡ length ss
next_seq-length ss h = omega (arith, next_seq-Numbered 0 ss h)

pub Numbered-append :
    (k : ℕ) (ss : List TranscriptSegment) (s : TranscriptSegment)
    → Numbered k ss
    → s.seq ≡ k + length ss
    → Numbered k (ss ++ s ∷ [])
Numbered-append k [] s h e = (omega arith, tt)
Numbered-append k (x ∷ xs) s h e = (h.0, Numbered-append (suc k) xs s h.1 (omega arith))

-- What an append does to the rows of each transcript.
pub rows_of-append_self :
    (db : Db) (i : ℕ) (s : NewSegment)
    → rows_of (append_segment db i s).1 i
      ≡ rows_of db i ++ stored i (next_seq (rows_of db i)) s ∷ []
unfolding append_segment
rows_of-append_self db i s =
    ground (arith, keep-append (is_of i) db.segments (stored i (next_seq (rows_of db i)) s ∷ []))

pub rows_of-append_other :
    (db : Db) (i j : ℕ) (s : NewSegment)
    → (i == j) ≡ false
    → rows_of (append_segment db i s).1 j ≡ rows_of db j
unfolding append_segment
rows_of-append_other db i j s h = ground (
  arith,
  keep-append (is_of j) db.segments (stored i (next_seq (rows_of db i)) s ∷ []),
  append-nil (rows_of db j),
)

eq_of : (i j : ℕ) → (i == j) ≡ true → i ≡ j
eq_of i j h = ground arith

-- Every transcript stays numbered 0, 1, 2, … under an append to any of them.
pub append_segment-IsNumbered :
    (db : Db) (i : ℕ) (s : NewSegment) → IsNumbered db → IsNumbered (append_segment db i s).1
append_segment-IsNumbered db i s h j = elim (Bool-cases (i == j)) [
  | inl e ↦
      subst (λ k. Numbered 0 (rows_of (append_segment db i s).1 k)) (eq_of i j e)
        (rw (rows_of-append_self db i s) (
          Numbered-append 0 (rows_of db i) _ (h i)
            (omega (arith, next_seq-length (rows_of db i) (h i)))))
  | inr e ↦ rw (rows_of-append_other db i j s e) (h j)
]

keep_apart :
    (i j : ℕ) (ss : List TranscriptSegment)
    → keep (is_of j) (keep (λ s. not (is_of i s)) ss) ≡ (if i == j then [] else keep (is_of j) ss)
keep_apart i j [] = ground arith
keep_apart i j (s ∷ ss) = ground (arith, keep_apart i j ss)

-- A deletion empties one transcript and leaves the others as they are.
pub rows_of-delete :
    (db : Db) (i j : ℕ) → rows_of (delete_segments db i).1 j ≡ (if i == j then [] else rows_of db j)
unfolding delete_segments
rows_of-delete db i j = keep_apart i j db.segments

pub delete_segments-IsNumbered :
    (db : Db) (i : ℕ) → IsNumbered db → IsNumbered (delete_segments db i).1
delete_segments-IsNumbered db i h j = rw (rows_of-delete db i j) (pick (i == j))
  where
    pick : (b : Bool) → Numbered 0 (if b then [] else rows_of db j)
    pick true = tt
    pick false = h j
