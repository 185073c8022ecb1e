-- ===== src/Worker/Live/Flushed.antt =====
-- `_flush_pending` on both tracks.
use mathlib.Core.List.{map}
use ambient_recorder.Base.{
  ℕ, ◌≡◌, refl, ap, ◌∙◌, subst, arith, Bool, true, false, not, List, [], ◌∷◌, ◌++◌, Bool-cases, inl,
  inr, keep,
}
use ambient_recorder.Models.{SourceKind, mic, system}
use ambient_recorder.Attribution.Segment.{TimedSegment}
use ambient_recorder.Attribution.Decide.{AttributionConfig}
use ambient_recorder.Transcripts.Rows.{NewSegment, Db}
use ambient_recorder.Transcripts.Store.Seqs.{IsNumbered, append_segment-IsNumbered}
use ambient_recorder.Transcripts.Store.{append_segment}
use ambient_recorder.Stream.{SegmentStream}
use ambient_recorder.Worker.State.{LiveSession, track, set_track}
use ambient_recorder.Worker.Chunk.{Outcome, done, Step}
use ambient_recorder.Worker.Live.Steps.{
  is_raised, is_bleed, flush_each, clear, flush_track, flush_pending,
}
use ambient_recorder.Worker.Live.Flush.{
  content_of, Delivers, Delivers-then, wanted, flush_each-session, flush_each_keeps,
  flush_each-Delivers, flush_each-raised,
}

raised_of : (o : Outcome) → o ≡ done → is_raised o ≡ false
raised_of o h = ap is_raised h

module _ {Sample Level : Type 0} (cfg : AttributionConfig) where
  abbrev emptied : LiveSession Sample Level → SourceKind → LiveSession Sample Level
  emptied live kind = set_track live kind (record (track live kind) { pending = [] })

  clear-raised :
      (kind : SourceKind) (st : Step Sample Level)
      → is_raised st.outcome ≡ true
      → clear cfg kind st ≡ st
  clear-raised kind st h = rw h refl

  clear-done :
      (kind : SourceKind) (st : Step Sample Level)
      → is_raised st.outcome ≡ false
      → clear cfg kind st ≡ record st { session = emptied st.session kind }
  clear-done kind st h = rw h refl

  clear_keeps :
      (P : Db → Type 0) (kind : SourceKind) (st : Step Sample Level)
      → P st.db
      → P (clear cfg kind st).db
  clear_keeps P kind st h = elim (Bool-cases (is_raised st.outcome)) [
    | inl e ↦ rw (clear-raised kind st e) h
    | inr e ↦ rw (clear-done kind st e) h
  ]

  module _ (P : Db → Type 0)
      (step : (db : Db) (i : ℕ) (s : NewSegment) → P db → P (append_segment db i s).1) where
    flush_track_keeps :
        (publishes : Bool) (kind : SourceKind) (st : Step Sample Level)
        → P st.db
        → P (flush_track cfg publishes kind st).db
    unfolding flush_track
    flush_track_keeps publishes kind st h =
        clear_keeps P kind (flush_each cfg publishes kind (track st.session kind).pending st)
          (flush_each_keeps cfg kind P step publishes (track st.session kind).pending st h)

  flush_track-raised :
      (kind : SourceKind) (st : Step Sample Level)
      → is_raised st.outcome ≡ true
      → flush_track cfg true kind st ≡ st
  unfolding flush_track
  flush_track-raised kind st h =
      ap (clear cfg kind) (flush_each-raised cfg kind (track st.session kind).pending st h)
      ∙ clear-raised kind st h

  flush_track-Delivers :
      (kind : SourceKind) (st : Step Sample Level)
      → IsNumbered st.db
      → is_raised st.outcome ≡ false
      → is_raised (flush_track cfg true kind st).outcome ≡ false
      → Delivers st.session.transcript_id st
          (flush_track cfg true kind st)
          (wanted cfg kind st.session (track st.session kind).pending)
        × ((flush_track cfg true kind st).session ≡ emptied st.session kind)
  unfolding flush_track
  flush_track-Delivers kind st num o =
      let cs = (track st.session kind).pending in
      let e = flush_each cfg true kind cs st in
      elim (Bool-cases (is_raised e.outcome)) [
        | inl h ↦ rw (clear-raised kind e h) (λ q. absurd (ground arith))
        | inr h ↦ rw (clear-done kind e h) (λ q. (
          flush_each-Delivers cfg kind cs st num o h,
          ap (λ live. emptied live kind) (flush_each-session cfg kind true cs st),
        ))
      ]

  keep-system :
      (live : LiveSession Sample Level) (cs : List TimedSegment)
      → keep (λ c. not (is_bleed cfg live system c)) cs ≡ cs
  unfolding is_bleed
  keep-system live [] = refl
  keep-system live (c ∷ cs) = ground (arith, keep-system live cs)

  module _ (db : Db) (stream : SegmentStream) (live : LiveSession Sample Level) where
    abbrev pub start : Step Sample Level
    start = record { db = db; stream = stream; session = live; outcome = done }

    pub flush_pending_keeps :
        (P : Db → Type 0)
        → ((db : Db) (i : ℕ) (s : NewSegment) → P db → P (append_segment db i s).1)
        → (publishes : Bool) → P db
        → P (flush_pending cfg publishes db stream live).db
    unfolding flush_pending
    flush_pending_keeps P step publishes h =
        flush_track_keeps P step publishes system (flush_track cfg publishes mic start)
          (flush_track_keeps P step publishes mic start h)

    -- In numbered tables, the flush of a live session, which publishes, where it does not raise writes
    -- and publishes, in order, the microphone's pending candidates that have no twin on the system's
    -- side, then all of the system's, and leaves none pending.
    pub flush_pending-Delivers :
        IsNumbered db
        → (flush_pending cfg true db stream live).outcome ≡ done
        → Delivers live.transcript_id start (flush_pending cfg true db stream live) (
            map (content_of mic) (keep (λ c. not (is_bleed cfg live mic c)) live.mic_track.pending)
            ++ map (content_of system) live.system_track.pending)
          × ((flush_pending cfg true db stream live).session ≡ emptied (emptied live mic) system)
    unfolding flush_pending
    flush_pending-Delivers num q =
        let b = flush_track cfg true mic start in
        let c = flush_track cfg true system b in
        let calm = raised_of c.outcome q in
        elim (Bool-cases (is_raised b.outcome)) [
          | inl e ↦ absurd (grind (arith, flush_track-raised system b e))
          | inr e ↦
              let first = flush_track-Delivers mic start num refl e in
              let numbered =
                flush_track_keeps IsNumbered append_segment-IsNumbered true mic start num in
              let second = flush_track-Delivers system b numbered e calm in
              let moved =
                subst
                  (λ z. Delivers z.transcript_id b c (wanted cfg system z (track z system).pending))
                  first.1 second.0 in
              (
                Delivers-then live.transcript_id start b c
                    (wanted cfg mic live live.mic_track.pending)
                    (map (content_of system) live.system_track.pending) first.0
                    (subst (λ z. Delivers live.transcript_id b c (map (content_of system) z))
                      (keep-system (emptied live mic) live.system_track.pending) moved),
                second.1 ∙ ap (λ z. emptied z system) first.1,
              )
        ]
