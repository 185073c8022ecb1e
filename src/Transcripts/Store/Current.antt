-- ===== src/Transcripts/Store/Current.antt =====
-- Which version of a transcript a session shows.
use mathlib.Core.List.{append-nil}
use ambient_recorder.Base.{
  ℕ, ◌≡◌, subst, true, false, some, List, [], ◌∷◌, arith, keep, keep-append, All, All-map_of,
  All-of_keep, All-keep-true,
}
use ambient_recorder.Base.Sort.{sort, IsSorted, sort-IsSorted, All-sort, All-of_sort}
use ambient_recorder.Transcripts.Rows.{Transcript, TranscriptionJob, Db}
use ambient_recorder.Transcripts.Store.{
  ok, newer, eligible, first, is_pending, current_transcript, create_transcript,
}

newer_total : (a b : Transcript) → newer a b ≡ false → newer b a ≡ true
newer_total a b h = ground arith

newer_trans : (a b c : Transcript) → newer a b ≡ true → newer b c ≡ true → newer a c ≡ true
newer_trans a b c h k = ground arith

newer_refl : (a : Transcript) → newer a a ≡ true
newer_refl a = ground arith

first-best :
    (ts : List Transcript) {t : Transcript}
    → IsSorted newer ts
    → first ts ≡ some t
    → All (λ u. newer t u ≡ true) ts
first-best [] h e = tt
first-best (x ∷ xs) {t} h e =
    (ground (arith, newer_refl x), All-map_of xs (λ u k. ground arith) h.0)

first-All :
    (P : Transcript → Type 0) (ts : List Transcript) {t : Transcript}
    → All P ts
    → first ts ≡ some t
    → P t
first-All P [] h e = cc
first-All P (x ∷ xs) {t} h e = let same : x ≡ t = ground arith in subst P same h.0

-- The version shown belongs to the session and is neither failed nor pending, and no other such
-- version of the session was created later, or at the same time under a larger identifier.
pub current_transcript-newest :
    (db : Db) (session : ℕ) {t : Transcript}
    → current_transcript db session ≡ some t
    → (eligible session t ≡ true)
      × All (λ u. eligible session u ≡ true → newer t u ≡ true) db.transcripts
unfolding current_transcript
current_transcript-newest db session h =
    let rows = keep (eligible session) db.transcripts in
    (
      first-All (λ u. eligible session u ≡ true) (sort newer rows)
          (All-sort newer _ rows (All-keep-true (eligible session) db.transcripts)) h,
      All-of_keep _ (eligible session) db.transcripts (
          All-of_sort newer _ rows
            (first-best (sort newer rows) (sort-IsSorted newer newer_total newer_trans rows) h)),
    )

-- An attempt that is pending does not displace the version shown.
pub current_transcript-create_pending :
    (db : Db) (t : Transcript) (job : TranscriptionJob) (session : ℕ) {db' : Db}
    → is_pending t.state ≡ true
    → create_transcript db t job ≡ ok db'
    → current_transcript db' session ≡ current_transcript db session
unfolding current_transcript create_transcript
current_transcript-create_pending db t job session p h = ground (
  arith,
  keep-append (eligible session) db.transcripts (t ∷ []),
  append-nil (keep (eligible session) db.transcripts),
)
