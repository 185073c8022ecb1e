-- ===== src/Worker/Chunk/Watermark.antt =====
-- What one chunk does to the session: where its track stands then, and that the rows that are added are
-- published.
use ambient_recorder.Base.{
  ℕ, ◌+◌, ◌≤◌, ◌≡◌, refl, sym, subst, ◌∙◌, arith, Bool, false, List, [], ◌∷◌, ◌++◌, length,
}
use ambient_recorder.Models.{SourceKind, mic, system, other_kind}
use ambient_recorder.Attribution.Segment.{TimedSegment}
use ambient_recorder.Attribution.Decide.{AttributionConfig, Pass, deferred}
use ambient_recorder.Transcripts.Rows.{Db}
use ambient_recorder.Transcripts.Store.Seqs.{IsNumbered}
use ambient_recorder.Stream.{SegmentStream}
use ambient_recorder.Worker.State.{Speech, RawSegment, TrackState, LiveSession, track, set_track}
use ambient_recorder.Worker.Chunk.{
  candidates, Emission, emit_all, Outcome, done, engine_failed, raised, Step, outcome_of,
}
use ambient_recorder.Worker.Chunk.Transcribe.{
  emit_pass, attribute_and_emit, pass_of, retry_after, take_in, advance, window_start,
}
use ambient_recorder.Worker.Chunk.Emitted.{
  window_of, Published, Published-nothing, Published-then, emit_all-IsNumbered, emit_all-Adds,
  emit_all-start, emit_all-later,
}

-- The session keeps its identity, its flag and its count.
abbrev pub SameSession :
    {Sample Level : Type 0} → LiveSession Sample Level → LiveSession Sample Level → Type 0
SameSession a b =
    (b.transcript_id ≡ a.transcript_id)
    × (b.stopping ≡ a.stopping)
    × (b.outstanding ≡ a.outstanding)

-- The session after it: the tracks stand where they stood, and no watermark goes back.
abbrev pub Kept :
    {Sample Level : Type 0} → LiveSession Sample Level → LiveSession Sample Level → Type 0
Kept a b =
    SameSession a b
    × ((k : SourceKind) → window_of (track b k) ≡ window_of (track a k))
    × ((k : SourceKind) → (track a k).emitted_until_s ≤ (track b k).emitted_until_s)

module _ {Sample Level : Type 0} where
  Kept-same : (a : LiveSession Sample Level) → Kept a a
  Kept-same a = ((refl, refl, refl), (λ k. refl), λ k. omega arith)

  Kept-then : (a b c : LiveSession Sample Level) → Kept a b → Kept b c → Kept a c
  Kept-then a b c (s, n, e) (s', n', e') =
      ((s'.0 ∙ s.0, s'.1 ∙ s.1, s'.2 ∙ s.2), (λ k. n' k ∙ n k), λ k. omega (arith, e k, e' k))

  Kept-set :
      (a : LiveSession Sample Level) (kind : SourceKind) (t : TrackState Sample)
      → window_of t ≡ window_of (track a kind)
      → (track a kind).emitted_until_s ≤ t.emitted_until_s
      → Kept a (set_track a kind t)
  Kept-set a mic t n e = ((refl, refl, refl), starts, ends)
    where
      starts : (k : SourceKind) → window_of (track (set_track a mic t) k) ≡ window_of (track a k)
      starts mic = n
      starts system = refl

      ends :
          (k : SourceKind)
          → (track a k).emitted_until_s ≤ (track (set_track a mic t) k).emitted_until_s
      ends mic = e
      ends system = omega arith
  Kept-set a system t n e = ((refl, refl, refl), starts, ends)
    where
      starts : (k : SourceKind) → window_of (track (set_track a system t) k) ≡ window_of (track a k)
      starts mic = refl
      starts system = n

      ends :
          (k : SourceKind)
          → (track a k).emitted_until_s ≤ (track (set_track a system t) k).emitted_until_s
      ends mic = omega arith
      ends system = e

done_of : (b : Bool) → outcome_of b ≡ done → b ≡ false
done_of b h = ground arith

module _ (sp : Speech) (cfg : AttributionConfig) where
  abbrev Result : Type 0
  Result = Step sp.acoustics.Sample sp.acoustics.Db

  abbrev Session : Type 0
  Session = LiveSession sp.acoustics.Sample sp.acoustics.Db

  abbrev cands_of :
      Session → SourceKind → List sp.acoustics.Sample → List RawSegment → List TimedSegment
  cands_of live kind pcm raw =
      let ts = track live kind in
      candidates (window_start ts ts.tail_pcm) ts.emitted_until_s (ts.next_start_s + length pcm)
        live.stopping raw

  -- What holds of every step from `db`, `stream` and a session of the transcript.
  abbrev pub Sound : ℕ → Db → SegmentStream → Result → Type 0
  Sound tid db stream st =
      IsNumbered st.db × (st.outcome ≡ done → Published tid db stream st.db st.stream)

  abbrev start_of : Db → SegmentStream → Session → SourceKind → Pass → Emission sp.acoustics.Sample
  start_of db stream live kind pass = record {
    db = db;
    stream = stream;
    track_state = record (track live kind) { pending = deferred pass kind };
    raised = false;
  }

  emit_pass-Kept :
      (db : Db) (stream : SegmentStream) (live : Session) (kind : SourceKind) (pass : Pass)
      → Kept live (emit_pass sp cfg db stream live kind pass).session
  unfolding emit_pass
  emit_pass-Kept db stream live kind pass =
      let st = start_of db stream live kind pass in
      Kept-set live kind (emit_all live.transcript_id kind pass.out st).track_state
        (emit_all-start live.transcript_id kind pass.out st)
        (emit_all-later live.transcript_id kind pass.out st)

  emit_pass-Sound :
      (db : Db) (stream : SegmentStream) (live : Session) (kind : SourceKind) (pass : Pass)
      → IsNumbered db
      → Sound live.transcript_id db stream (emit_pass sp cfg db stream live kind pass)
  unfolding emit_pass
  emit_pass-Sound db stream live kind pass num =
      let st = start_of db stream live kind pass in
      (
        emit_all-IsNumbered live.transcript_id kind pass.out st num,
        λ q.
            emit_all-Adds live.transcript_id kind pass.out st num
              (done_of (emit_all live.transcript_id kind pass.out st).raised q),
      )

  attribute_and_emit-Kept :
      (db : Db) (stream : SegmentStream) (live : Session) (kind : SourceKind)
      (cs : List TimedSegment)
      → Kept live (attribute_and_emit sp cfg db stream live kind cs).session
  unfolding attribute_and_emit
  attribute_and_emit-Kept db stream live kind [] = Kept-same live
  attribute_and_emit-Kept db stream live kind (c ∷ cs) =
      emit_pass-Kept db stream live kind (pass_of sp cfg live kind (c ∷ cs))

  attribute_and_emit-Sound :
      (db : Db) (stream : SegmentStream) (live : Session) (kind : SourceKind)
      (cs : List TimedSegment)
      → IsNumbered db
      → Sound live.transcript_id db stream (attribute_and_emit sp cfg db stream live kind cs)
  unfolding attribute_and_emit
  attribute_and_emit-Sound db stream live kind [] num =
      (num, λ q. Published-nothing live.transcript_id db stream)
  attribute_and_emit-Sound db stream live kind (c ∷ cs) num =
      emit_pass-Sound db stream live kind (pass_of sp cfg live kind (c ∷ cs)) num

  retry_after-Kept :
      (o : Outcome) (kind : SourceKind) (st : Result)
      → Kept st.session (retry_after sp cfg o kind st).session
  unfolding retry_after
  retry_after-Kept engine_failed kind st = Kept-same st.session
  retry_after-Kept raised kind st = Kept-same st.session
  retry_after-Kept done kind st =
      let other = track st.session (other_kind kind) in
      let emptied = set_track st.session (other_kind kind) (record other { pending = [] }) in
      Kept-then st.session emptied (retry_after sp cfg done kind st).session
        (Kept-set st.session (other_kind kind) (record other { pending = [] }) refl (omega arith))
        (attribute_and_emit-Kept st.db st.stream emptied (other_kind kind) other.pending)

  id_set_track :
      (a : Session) (k : SourceKind) (t : TrackState sp.acoustics.Sample)
      → (set_track a k t).transcript_id ≡ a.transcript_id
  id_set_track a mic t = refl
  id_set_track a system t = refl

  retry_after-Sound :
      (o : Outcome) (kind : SourceKind) (tid : ℕ) (db : Db) (stream : SegmentStream) (st : Result)
      → st.session.transcript_id ≡ tid
      → o ≡ st.outcome
      → Sound tid db stream st
      → Sound tid db stream (retry_after sp cfg o kind st)
  unfolding retry_after
  retry_after-Sound engine_failed kind tid db stream st e o s = s
  retry_after-Sound raised kind tid db stream st e o s = s
  retry_after-Sound done kind tid db stream st e o (num, pub_) =
      let other = track st.session (other_kind kind) in
      let emptied = set_track st.session (other_kind kind) (record other { pending = [] }) in
      let again =
        subst (λ i. Sound i st.db st.stream (retry_after sp cfg done kind st))
          (id_set_track st.session (other_kind kind) (record other { pending = [] }) ∙ e)
          (attribute_and_emit-Sound st.db st.stream emptied (other_kind kind) other.pending num) in
      (
        again.0,
        λ q.
            Published-then tid db stream st.db st.stream (retry_after sp cfg done kind st).db
              (retry_after sp cfg done kind st).stream (pub_ (sym o)) (again.1 q),
      )

  pub take_in-Kept :
      (db : Db) (stream : SegmentStream) (live : Session) (kind : SourceKind)
      (pcm : List sp.acoustics.Sample) (raw : List RawSegment)
      → Kept (advance live kind pcm) (take_in sp cfg db stream live kind pcm raw).session
  unfolding take_in
  take_in-Kept db stream live kind pcm raw =
      let cs = (track live kind).pending ++ cands_of live kind pcm raw in
      let st = attribute_and_emit sp cfg db stream (advance live kind pcm) kind cs in
      Kept-then (advance live kind pcm) st.session (retry_after sp cfg st.outcome kind st).session
        (attribute_and_emit-Kept db stream (advance live kind pcm) kind cs)
        (retry_after-Kept st.outcome kind st)

  id_advance :
      (live : Session) (kind : SourceKind) (pcm : List sp.acoustics.Sample)
      → (advance live kind pcm).transcript_id ≡ live.transcript_id
  id_advance live mic pcm = refl
  id_advance live system pcm = refl

  pub take_in-Sound :
      (db : Db) (stream : SegmentStream) (live : Session) (kind : SourceKind)
      (pcm : List sp.acoustics.Sample) (raw : List RawSegment)
      → IsNumbered db
      → Sound live.transcript_id db stream (take_in sp cfg db stream live kind pcm raw)
  unfolding take_in
  take_in-Sound db stream live kind pcm raw num =
      let cs = (track live kind).pending ++ cands_of live kind pcm raw in
      let st = attribute_and_emit sp cfg db stream (advance live kind pcm) kind cs in
      retry_after-Sound st.outcome kind live.transcript_id db stream st
        ((attribute_and_emit-Kept db stream (advance live kind pcm) kind cs).0.0
          ∙ id_advance live kind pcm)
        refl
        (subst (λ i. Sound i db stream st) (id_advance live kind pcm)
          (attribute_and_emit-Sound db stream (advance live kind pcm) kind cs num))
