-- ===== src/Worker/Chunk/Emitted.antt =====
-- What an attributed batch does to the tables and the streams: the rows that it adds are the frames
-- that it publishes.
use mathlib.Core.List.{append-nil, append_assoc}
use ambient_recorder.Base.{
  ℕ, ◌≤◌, ◌≡◌, refl, ap, sym, ◌∙◌, arith, true, false, not, ◌||◌, List, [], ◌∷◌, ◌++◌, Bool-cases,
  inl, inr,
}
use ambient_recorder.Models.{SourceKind}
use ambient_recorder.Attribution.Segment.{AttributedSegment}
use ambient_recorder.Transcripts.Rows.{TranscriptSegment, Db}
use ambient_recorder.Transcripts.Store.{Result, ok, err, append_segment}
use ambient_recorder.Transcripts.Store.Seqs.{rows_of, IsNumbered, append_segment-IsNumbered}
use ambient_recorder.Transcripts.Store.Append.{row_of-append}
use ambient_recorder.Stream.{SegmentStream, segment, publish}
use ambient_recorder.Worker.State.{TrackState}
use ambient_recorder.Worker.Chunk.{Emission, emit_one, emit_all, after_append, new_segment, is_own}

-- Where the next window of a track begins, and what it holds already.
abbrev pub window_of : {Sample : Type 0} → TrackState Sample → ℕ × ℕ × List Sample
window_of t = (t.next_start_s, t.tail_start_s, t.tail_pcm)

abbrev pub publish_all : SegmentStream → ℕ → List TranscriptSegment → SegmentStream
publish_all st tid [] = st
publish_all st tid (s ∷ ss) = publish_all (publish st tid (segment s)) tid ss

pub publish_all-append :
    (st : SegmentStream) (tid : ℕ) (xs ys : List TranscriptSegment)
    → publish_all st tid (xs ++ ys) ≡ publish_all (publish_all st tid xs) tid ys
publish_all-append st tid [] ys = refl
publish_all-append st tid (x ∷ xs) ys = publish_all-append (publish st tid (segment x)) tid xs ys

-- From the one pair of tables and streams to the other, the transcript got the segments that were
-- published to it, in that order.
abbrev pub Published : ℕ → Db → SegmentStream → Db → SegmentStream → Type 0
Published tid db st db' st' =
    (news : List TranscriptSegment) × (rows_of db' tid ≡ rows_of db tid ++ news)
    × (st' ≡ publish_all st tid news)

pub Published-nothing : (tid : ℕ) (db : Db) (st : SegmentStream) → Published tid db st db st
Published-nothing tid db st = ([], sym (append-nil (rows_of db tid)), refl)

pub Published-then :
    (tid : ℕ) (db : Db) (st : SegmentStream) (db' : Db) (st' : SegmentStream) (db'' : Db)
    (st'' : SegmentStream)
    → Published tid db st db' st'
    → Published tid db' st' db'' st''
    → Published tid db st db'' st''
Published-then tid db st db' st' db'' st'' (xs, r, p) (ys, r', p') = (
  xs ++ ys,
  r' ∙ ap (λ z. z ++ ys) r ∙ append_assoc (rows_of db tid) xs ys,
  p' ∙ ap (λ z. publish_all z tid ys) p ∙ sym (publish_all-append st tid xs ys),
)

module _ {Sample : Type 0} (tid : ℕ) (kind : SourceKind) where
  abbrev Adds : Emission Sample → Emission Sample → Type 0
  Adds st st' = Published tid st.db st.stream st'.db st'.stream

  after_append-Adds :
      (a : AttributedSegment) (st : Emission Sample) (r : Result TranscriptSegment × Db)
      → IsNumbered st.db
      → r ≡ append_segment st.db tid (new_segment a)
      → (after_append tid a r st).raised ≡ false
      → Adds st (after_append tid a r st)
  unfolding after_append
  after_append-Adds a st (err e, db) num h q = absurd (ground arith)
  after_append-Adds a st (ok seg, db) num h q = (
    seg ∷ [],
    ap (λ x. rows_of x.1 tid) h
        ∙ row_of-append st.db tid (new_segment a) num (sym (ap (λ x. x.0) h)),
    refl,
  )

  after_append-IsNumbered :
      (a : AttributedSegment) (st : Emission Sample) (r : Result TranscriptSegment × Db)
      → IsNumbered r.1
      → IsNumbered (after_append tid a r st).db
  unfolding after_append
  after_append-IsNumbered a st (err e, db) num = num
  after_append-IsNumbered a st (ok seg, db) num = num

  emit_one-Adds :
      (a : AttributedSegment) (st : Emission Sample)
      → IsNumbered st.db
      → (emit_one tid kind a st).raised ≡ false
      → Adds st (emit_one tid kind a st)
  unfolding emit_one
  emit_one-Adds a st num = elim (Bool-cases (st.raised || not (is_own kind a))) [
    | inl e ↦ rw e (λ q. Published-nothing tid st.db st.stream)
    | inr e ↦ rw e (after_append-Adds a st (append_segment st.db tid (new_segment a)) num refl)
  ]

  emit_one-IsNumbered :
      (a : AttributedSegment) (st : Emission Sample)
      → IsNumbered st.db
      → IsNumbered (emit_one tid kind a st).db
  unfolding emit_one
  emit_one-IsNumbered a st num = elim (Bool-cases (st.raised || not (is_own kind a))) [
    | inl e ↦ rw e num
    | inr e ↦ rw e (
        after_append-IsNumbered a st (append_segment st.db tid (new_segment a))
          (append_segment-IsNumbered st.db tid (new_segment a) num))
  ]

  emit_one-raised :
      (a : AttributedSegment) (st : Emission Sample)
      → st.raised ≡ true
      → emit_one tid kind a st ≡ st
  unfolding emit_one
  emit_one-raised a st h = ground arith

  emit_all-raised :
      (aa : List AttributedSegment) (st : Emission Sample)
      → st.raised ≡ true
      → emit_all tid kind aa st ≡ st
  unfolding emit_all
  emit_all-raised [] st h = refl
  emit_all-raised (a ∷ aa) st h = rw (emit_one-raised a st h) (emit_all-raised aa st h)

  pub emit_all-IsNumbered :
      (aa : List AttributedSegment) (st : Emission Sample)
      → IsNumbered st.db
      → IsNumbered (emit_all tid kind aa st).db
  unfolding emit_all
  emit_all-IsNumbered [] st num = num
  emit_all-IsNumbered (a ∷ aa) st num =
      emit_all-IsNumbered aa (emit_one tid kind a st) (emit_one-IsNumbered a st num)

  pub emit_all-Adds :
      (aa : List AttributedSegment) (st : Emission Sample)
      → IsNumbered st.db
      → (emit_all tid kind aa st).raised ≡ false
      → Adds st (emit_all tid kind aa st)
  unfolding emit_all
  emit_all-Adds [] st num q = Published-nothing tid st.db st.stream
  emit_all-Adds (a ∷ aa) st num q =
      let st' = emit_one tid kind a st in
      elim (Bool-cases st'.raised) [
        | inl e ↦ absurd (grind (arith, emit_all-raised aa st' e))
        | inr e ↦
            Published-then tid st.db st.stream st'.db st'.stream (emit_all tid kind aa st').db
              (emit_all tid kind aa st').stream (emit_one-Adds a st num e)
              (emit_all-Adds aa st' (emit_one-IsNumbered a st num) q)
      ]

  after_append-later :
      (a : AttributedSegment) (st : Emission Sample) (r : Result TranscriptSegment × Db)
      → st.track_state.emitted_until_s ≤ (after_append tid a r st).track_state.emitted_until_s
  unfolding after_append
  after_append-later a st (err e, db) = omega arith
  after_append-later a st (ok seg, db) = omega arith

  emit_one-later :
      (a : AttributedSegment) (st : Emission Sample)
      → st.track_state.emitted_until_s ≤ (emit_one tid kind a st).track_state.emitted_until_s
  unfolding emit_one
  emit_one-later a st =
      ground (arith, after_append-later a st (append_segment st.db tid (new_segment a)))

  after_append-start :
      (a : AttributedSegment) (st : Emission Sample) (r : Result TranscriptSegment × Db)
      → window_of (after_append tid a r st).track_state ≡ window_of st.track_state
  unfolding after_append
  after_append-start a st (err e, db) = refl
  after_append-start a st (ok seg, db) = refl

  emit_one-start :
      (a : AttributedSegment) (st : Emission Sample)
      → window_of (emit_one tid kind a st).track_state ≡ window_of st.track_state
  unfolding emit_one
  emit_one-start a st = elim (Bool-cases (st.raised || not (is_own kind a))) [
    | inl e ↦ rw e refl
    | inr e ↦ rw e (after_append-start a st (append_segment st.db tid (new_segment a)))
  ]

  -- The emissions leave the start of the next chunk and the tail as they are, and no watermark goes back.
  pub emit_all-start :
      (aa : List AttributedSegment) (st : Emission Sample)
      → window_of (emit_all tid kind aa st).track_state ≡ window_of st.track_state
  unfolding emit_all
  emit_all-start [] st = refl
  emit_all-start (a ∷ aa) st = emit_all-start aa (emit_one tid kind a st) ∙ emit_one-start a st

  pub emit_all-later :
      (aa : List AttributedSegment) (st : Emission Sample)
      → st.track_state.emitted_until_s ≤ (emit_all tid kind aa st).track_state.emitted_until_s
  unfolding emit_all
  emit_all-later [] st = omega arith
  emit_all-later (a ∷ aa) st =
      omega (arith, emit_one-later a st, emit_all-later aa (emit_one tid kind a st))
