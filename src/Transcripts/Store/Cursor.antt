-- ===== src/Transcripts/Store/Cursor.antt =====
-- Reading from a cursor: what `segments_after` returns behind a segment number.
use ambient_recorder.Base.{
  ℕ, zero, suc, ◌-◌, ◌≤◌, ◌<◌, ◌≡◌, refl, ap, ◌∙◌, sym, true, false, ◌&&◌, Option, none, some, List,
  [], ◌∷◌, arith, keep, drop, All, ltb, leb, Bool-cases, ltb→lt, inl, inr,
}
use ambient_recorder.Base.Sort.{sort, IsSorted, sort-IsSorted_id}
use ambient_recorder.Transcripts.Rows.{TranscriptSegment, Db}
use ambient_recorder.Transcripts.Store.{
  ok, of_option, is_of, beyond, seq_le, validate_all, rows_after, segments_after,
}
use ambient_recorder.Transcripts.Store.Seqs.{Numbered, rows_of, IsNumbered}

keep_both :
    (i : ℕ) (after : Option ℕ) (ss : List TranscriptSegment)
    → keep (λ s. is_of i s && beyond after s) ss ≡ keep (beyond after) (keep (is_of i) ss)
keep_both i after [] = refl
keep_both i after (s ∷ ss) = ground (arith, keep_both i after ss)

Numbered-above :
    (k n : ℕ) (ss : List TranscriptSegment)
    → n ≤ k
    → Numbered k ss
    → All (λ s. leb n s.seq ≡ true) ss
Numbered-above k n [] le h = tt
Numbered-above k n (s ∷ ss) le h = (ground arith, Numbered-above (suc k) n ss (omega arith) h.1)

Numbered-IsSorted : (k : ℕ) (ss : List TranscriptSegment) → Numbered k ss → IsSorted seq_le ss
Numbered-IsSorted k [] h = tt
Numbered-IsSorted k (s ∷ ss) h =
    (Numbered-above (suc k) s.seq ss (omega arith) h.1, Numbered-IsSorted (suc k) ss h.1)

keep_all :
    (k a : ℕ) (ss : List TranscriptSegment) → a < k → Numbered k ss → keep (beyond (some a)) ss ≡ ss
keep_all k a [] lt h = refl
keep_all k a (s ∷ ss) lt h = ground (arith, keep_all (suc k) a ss)

minus_zero : (n : ℕ) → n - 0 ≡ n
minus_zero n = omega arith

drop-IsSorted :
    (n : ℕ) (ss : List TranscriptSegment) → IsSorted seq_le ss → IsSorted seq_le (drop n ss)
drop-IsSorted zero ss h = h
drop-IsSorted (suc n) [] h = tt
drop-IsSorted (suc n) (s ∷ ss) h = drop-IsSorted n ss h.1

drop-nil : (n : ℕ) → ◌≡◌ {A = List TranscriptSegment} (drop n []) []
drop-nil zero = refl
drop-nil (suc n) = refl

keep_true : (ss : List TranscriptSegment) → keep (beyond none) ss ≡ ss
keep_true [] = refl
keep_true (s ∷ ss) = ap (λ t. s ∷ t) (keep_true ss)

not_left : (a k : ℕ) → ltb a k ≡ true → 0 ≡ suc a - k
not_left a k h = ground arith

one_left : (a k : ℕ) → ltb a k ≡ false → suc a - k ≡ suc (a - k)
one_left a k h = ground arith

ltb-false : (a k : ℕ) → ltb a k ≡ false → k ≤ a
ltb-false a k h = ground arith

-- Behind segment `a` of a numbered list stands the list without its first `a + 1`.
keep-beyond :
    (k a : ℕ) (ss : List TranscriptSegment)
    → k ≤ suc a
    → Numbered k ss
    → keep (beyond (some a)) ss ≡ drop (suc a - k) ss
keep-beyond k a [] le h = sym (drop-nil (suc a - k))
keep-beyond k a (s ∷ ss) le h = elim (Bool-cases (ltb a k)) [
  | inl e ↦ rw (keep_all k a (s ∷ ss) (ltb→lt a k e) h) (ap (λ n. drop n (s ∷ ss)) (not_left a k e))
  | inr e ↦ ground (
    arith,
    keep-beyond (suc k) a ss (omega (arith, ltb-false a k e)) h.1,
    ap (λ n. drop n (s ∷ ss)) (one_left a k e),
  )
]

from_start :
    (a : ℕ) (ss : List TranscriptSegment)
    → Numbered 0 ss
    → keep (beyond (some a)) ss ≡ drop (suc a) ss
from_start a ss h = keep-beyond 0 a ss (omega arith) h ∙ ap (λ n. drop n ss) (minus_zero (suc a))

-- The rows of a numbered transcript, from the start and from a cursor.
rows_after-all : (db : Db) (i : ℕ) → IsNumbered db → rows_after db i none ≡ rows_of db i
unfolding rows_after
rows_after-all db i h =
    rw (keep_both i none db.segments, keep_true (rows_of db i))
      (sort-IsSorted_id seq_le (rows_of db i) (Numbered-IsSorted 0 (rows_of db i) (h i)))

rows_after-cursor :
    (db : Db) (i a : ℕ) → IsNumbered db → rows_after db i (some a) ≡ drop (suc a) (rows_of db i)
unfolding rows_after
rows_after-cursor db i a h = rw (keep_both i (some a) db.segments) (
    ap (sort seq_le) (from_start a (rows_of db i) (h i))
    ∙ sort-IsSorted_id seq_le (drop (suc a) (rows_of db i))
        (drop-IsSorted (suc a) (rows_of db i) (Numbered-IsSorted 0 (rows_of db i) (h i))))

validate_all-drop :
    (n : ℕ) (ss vs : List TranscriptSegment)
    → validate_all ss ≡ some vs
    → validate_all (drop n ss) ≡ some (drop n vs)
unfolding validate_all
validate_all-drop zero ss vs h = h
validate_all-drop (suc n) [] [] h = refl
validate_all-drop (suc n) [] (v ∷ vs) h = cc
validate_all-drop (suc n) (s ∷ ss) [] h = absurd (grind arith)
validate_all-drop (suc n) (s ∷ ss) (v ∷ vs) h = validate_all-drop n ss vs (grind arith)

pub of_option-ok {ℓ} : {A : Type ℓ} (o : Option A) {a : A} → of_option o ≡ ok a → o ≡ some a
of_option-ok o h = ground arith

-- What a full read returns are the rows of the transcript, validated.
pub segments_after-all :
    (db : Db) (i : ℕ)
    → IsNumbered db
    → segments_after db i none ≡ of_option (validate_all (rows_of db i))
unfolding segments_after
segments_after-all db i num = rw (rows_after-all db i num)

segments_after-cursor :
    (db : Db) (i a : ℕ)
    → IsNumbered db
    → segments_after db i (some a) ≡ of_option (validate_all (drop (suc a) (rows_of db i)))
unfolding segments_after
segments_after-cursor db i a num = rw (rows_after-cursor db i a num)

-- Reading behind segment `a` gives what a full read gives, without its first `a + 1` segments: a
-- client that resumes from its last number misses none and is sent none twice.
pub segments_after-resume :
    (db : Db) (i a : ℕ) {segs : List TranscriptSegment}
    → IsNumbered db
    → segments_after db i none ≡ ok segs
    → segments_after db i (some a) ≡ ok (drop (suc a) segs)
segments_after-resume db i a {segs} num h =
    segments_after-cursor db i a num
    ∙ ap of_option (
        validate_all-drop (suc a) (rows_of db i) segs
          (of_option-ok (validate_all (rows_of db i)) (sym (segments_after-all db i num) ∙ h)))
