-- ===== src/Worker/Live/Flush.antt =====
-- What the flush at the end of a session writes and publishes.
use mathlib.Core.List.{append-nil, append_assoc, map-append}
use ambient_recorder.Base.{
  ℕ, ◌≡◌, refl, ap, sym, ◌∙◌, subst, arith, Bool, true, false, not, ◌||◌, List, [], ◌∷◌, ◌++◌,
  Bool-cases, inl, inr, map, keep,
}
use ambient_recorder.Base.Text.{strip}
use ambient_recorder.Models.{SourceKind, speaker_of}
use ambient_recorder.Attribution.Segment.{TimedSegment}
use ambient_recorder.Attribution.Decide.{AttributionConfig}
use ambient_recorder.Transcripts.Rows.{TranscriptSegment, NewSegment, Db}
use ambient_recorder.Transcripts.Store.{Result, ok, err, append_segment}
use ambient_recorder.Transcripts.Store.Seqs.{rows_of, IsNumbered, append_segment-IsNumbered}
use ambient_recorder.Transcripts.Store.Append.{row_of-append, segment_of-append}
use ambient_recorder.Worker.State.{LiveSession}
use ambient_recorder.Worker.Chunk.{Step}
use ambient_recorder.Worker.Chunk.Emitted.{publish_all, publish_all-append}
use ambient_recorder.Worker.Live.Steps.{
  is_raised, flushed, is_bleed, after_flush, flush_one, flush_each,
}

-- A segment without its number, and what a candidate becomes.
abbrev pub content : TranscriptSegment → NewSegment
content s = record { source = s.source; start_s = s.start_s; end_s = s.end_s; text = s.text }

abbrev pub content_of : SourceKind → TimedSegment → NewSegment
content_of kind c = record {
  source = speaker_of kind;
  start_s = c.start_s;
  end_s = c.end_s;
  text = strip c.text;
}

module _ {Sample Level : Type 0} where
  -- From the one step to the other, the transcript got the wanted segments, and they were published.
  abbrev pub Delivers : ℕ → Step Sample Level → Step Sample Level → List NewSegment → Type 0
  Delivers tid a b want =
      (news : List TranscriptSegment) × (rows_of b.db tid ≡ rows_of a.db tid ++ news)
      × (b.stream ≡ publish_all a.stream tid news)
      × (map content news ≡ want)

  Delivers-nothing : (tid : ℕ) (a : Step Sample Level) → Delivers tid a a []
  Delivers-nothing tid a = ([], sym (append-nil (rows_of a.db tid)), refl, refl)

  pub Delivers-then :
      (tid : ℕ) (a b c : Step Sample Level) (xs ys : List NewSegment)
      → Delivers tid a b xs
      → Delivers tid b c ys
      → Delivers tid a c (xs ++ ys)
  Delivers-then tid a b c xs ys (n, r, p, e) (n', r', p', e') = (
    n ++ n',
    r' ∙ ap (λ z. z ++ n') r ∙ append_assoc (rows_of a.db tid) n n',
    p' ∙ ap (λ z. publish_all z tid n') p ∙ sym (publish_all-append a.stream tid n n'),
    map-append content n n' ∙ ap (λ z. z ++ map content n') e ∙ ap (λ z. xs ++ z) e',
  )

module _ {Sample Level : Type 0} (cfg : AttributionConfig) (kind : SourceKind) where
  abbrev pub wanted : LiveSession Sample Level → List TimedSegment → List NewSegment
  wanted live cs = map (content_of kind) (keep (λ c. not (is_bleed cfg live kind c)) cs)

  after_flush-Delivers :
      (c : TimedSegment) (st : Step Sample Level) (r : Result TranscriptSegment × Db)
      → IsNumbered st.db
      → r ≡ append_segment st.db st.session.transcript_id (flushed kind c)
      → is_raised (after_flush cfg true r st).outcome ≡ false
      → Delivers st.session.transcript_id st (after_flush cfg true r st) (content_of kind c ∷ [])
  unfolding after_flush
  after_flush-Delivers c st (err e, db) num h q = absurd (ground arith)
  after_flush-Delivers c st (ok seg, db) num h q =
      let i = st.session.transcript_id in
      let given = sym (ap (λ x. x.0) h) in
      (
        seg ∷ [],
        ap (λ x. rows_of x.1 i) h ∙ row_of-append st.db i (flushed kind c) num given,
        refl,
        ap (λ s. content s ∷ []) (segment_of-append st.db i (flushed kind c) num given),
      )

  after_flush-session :
      (publishes : Bool) (st : Step Sample Level) (r : Result TranscriptSegment × Db)
      → (after_flush cfg publishes r st).session ≡ st.session
  unfolding after_flush
  after_flush-session publishes st (err e, db) = refl
  after_flush-session true st (ok seg, db) = refl
  after_flush-session false st (ok seg, db) = refl

  -- What every append keeps, the flush keeps.
  module _ (P : Db → Type 0)
      (step : (db : Db) (i : ℕ) (s : NewSegment) → P db → P (append_segment db i s).1) where
    after_flush_keeps :
        (publishes : Bool) (st : Step Sample Level) (r : Result TranscriptSegment × Db)
        → P r.1
        → P (after_flush cfg publishes r st).db
    unfolding after_flush
    after_flush_keeps publishes st (err e, db) h = h
    after_flush_keeps true st (ok seg, db) h = h
    after_flush_keeps false st (ok seg, db) h = h

    flush_one_keeps :
        (publishes : Bool) (c : TimedSegment) (st : Step Sample Level)
        → P st.db
        → P (flush_one cfg publishes kind c st).db
    unfolding flush_one
    flush_one_keeps publishes c st h =
        let i = st.session.transcript_id in
        elim (Bool-cases (is_raised st.outcome || is_bleed cfg st.session kind c)) [
          | inl e ↦ rw e h
          | inr e ↦ rw e (
              after_flush_keeps publishes st (append_segment st.db i (flushed kind c))
                (step st.db i (flushed kind c) h))
        ]

    pub flush_each_keeps :
        (publishes : Bool) (cs : List TimedSegment) (st : Step Sample Level)
        → P st.db
        → P (flush_each cfg publishes kind cs st).db
    unfolding flush_each
    flush_each_keeps publishes [] st h = h
    flush_each_keeps publishes (c ∷ cs) st h =
        flush_each_keeps publishes cs (flush_one cfg publishes kind c st)
          (flush_one_keeps publishes c st h)

  flush_one-session :
      (publishes : Bool) (c : TimedSegment) (st : Step Sample Level)
      → (flush_one cfg publishes kind c st).session ≡ st.session
  unfolding flush_one
  flush_one-session publishes c st =
      elim (Bool-cases (is_raised st.outcome || is_bleed cfg st.session kind c)) [
        | inl e ↦ rw e refl
        | inr e ↦ rw e (
            after_flush-session publishes st
              (append_segment st.db st.session.transcript_id (flushed kind c)))
      ]

  flush_one-raised :
      (c : TimedSegment) (st : Step Sample Level)
      → is_raised st.outcome ≡ true
      → flush_one cfg true kind c st ≡ st
  unfolding flush_one
  flush_one-raised c st h = rw h refl

  pub flush_each-raised :
      (cs : List TimedSegment) (st : Step Sample Level)
      → is_raised st.outcome ≡ true
      → flush_each cfg true kind cs st ≡ st
  unfolding flush_each
  flush_each-raised [] st h = refl
  flush_each-raised (c ∷ cs) st h = rw (flush_one-raised c st h) (flush_each-raised cs st h)

  flush_one-Delivers :
      (c : TimedSegment) (st : Step Sample Level)
      → IsNumbered st.db
      → is_raised st.outcome ≡ false
      → is_raised (flush_one cfg true kind c st).outcome ≡ false
      → Delivers st.session.transcript_id st
          (flush_one cfg true kind c st)
          (wanted st.session (c ∷ []))
  unfolding flush_one
  flush_one-Delivers c st num o = elim (Bool-cases (is_bleed cfg st.session kind c)) [
    | inl e ↦ rw (o, e) (λ q. Delivers-nothing st.session.transcript_id st)
    | inr e ↦
        rw (o, e)
          (after_flush-Delivers c st
            (append_segment st.db st.session.transcript_id (flushed kind c)) num refl)
  ]

  pub flush_each-session :
      (publishes : Bool) (cs : List TimedSegment) (st : Step Sample Level)
      → (flush_each cfg publishes kind cs st).session ≡ st.session
  unfolding flush_each
  flush_each-session publishes [] st = refl
  flush_each-session publishes (c ∷ cs) st =
      flush_each-session publishes cs (flush_one cfg publishes kind c st)
      ∙ flush_one-session publishes c st

  wanted-cons :
      (live : LiveSession Sample Level) (c : TimedSegment) (cs : List TimedSegment)
      → wanted live (c ∷ []) ++ wanted live cs ≡ wanted live (c ∷ cs)
  wanted-cons live c cs = ground arith

  pub flush_each-Delivers :
      (cs : List TimedSegment) (st : Step Sample Level)
      → IsNumbered st.db
      → is_raised st.outcome ≡ false
      → is_raised (flush_each cfg true kind cs st).outcome ≡ false
      → Delivers st.session.transcript_id st (flush_each cfg true kind cs st) (wanted st.session cs)
  unfolding flush_each
  flush_each-Delivers [] st num o q = Delivers-nothing st.session.transcript_id st
  flush_each-Delivers (c ∷ cs) st num o q =
      let st' = flush_one cfg true kind c st in
      let same = flush_one-session true c st in
      elim (Bool-cases (is_raised st'.outcome)) [
        | inl e ↦ absurd (grind (arith, flush_each-raised cs st' e))
        | inr e ↦
            subst (Delivers st.session.transcript_id st (flush_each cfg true kind cs st'))
              (wanted-cons st.session c cs)
              (Delivers-then st.session.transcript_id st st' (flush_each cfg true kind cs st')
                (wanted st.session (c ∷ [])) (wanted st.session cs)
                (flush_one-Delivers c st num o e)
                (subst
                  (λ live.
                    Delivers live.transcript_id st' (flush_each cfg true kind cs st')
                      (wanted live cs))
                  same
                  (flush_each-Delivers cs st'
                    (flush_one_keeps IsNumbered append_segment-IsNumbered true c st num) e q)))
      ]
