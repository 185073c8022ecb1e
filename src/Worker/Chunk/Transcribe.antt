-- ===== src/Worker/Chunk/Transcribe.antt =====
-- `_attribute_and_emit` and `_transcribe_chunk`.
use ambient_recorder.Base.{
  ℕ, ◌+◌, ◌-◌, false, Option, none, some, List, [], ◌∷◌, ◌++◌, length, take_last, max,
}
use ambient_recorder.Models.{SourceKind, mic, system, other_kind}
use ambient_recorder.Attribution.Segment.{TimedSegment}
use ambient_recorder.Attribution.Energy.{add}
use ambient_recorder.Attribution.Decide.{AttributionConfig, Pass, deferred, attribute}
use ambient_recorder.Transcripts.Rows.{TranscriptMode, Db}
use ambient_recorder.Stream.{SegmentStream}
use ambient_recorder.Worker.State.{
  ChunkMeta, RawSegment, Speech, TrackState, LiveSession, track, set_track,
}
use ambient_recorder.Worker.Chunk.{
  overlap, candidates, recent_emitted, emit_all, Outcome, done, engine_failed, raised, Step,
  outcome_of,
}

-- The candidates stand on their own side of `attribute`, the reference set on the other.
abbrev pub on_side :
    SourceKind → SourceKind → List TimedSegment → List TimedSegment → List TimedSegment
on_side mic mic own others = own
on_side system system own others = own
on_side mic system own others = others
on_side system mic own others = others

module _ {Sample : Type 0} where
  -- `ts.tail_start_s if ts.tail_pcm else chunk_start`
  abbrev pub window_start : TrackState Sample → List Sample → ℕ
  window_start ts [] = ts.next_start_s
  window_start ts (x ∷ xs) = ts.tail_start_s

  -- The track after its chunk was read: the tail for the next window, and the next start.
  abbrev pub consume : TrackState Sample → List Sample → TrackState Sample
  consume ts pcm = record ts {
    tail_pcm = take_last overlap pcm;
    tail_start_s = max ts.next_start_s (ts.next_start_s + length pcm - overlap);
    next_start_s = ts.next_start_s + length pcm;
    pending = [];
  }

  -- The session once a chunk of `kind` is read.
  abbrev pub advance :
      {Level : Type 0}
      → LiveSession Sample Level
      → SourceKind
      → List Sample
      → LiveSession Sample Level
  advance live kind pcm = record (set_track live kind (consume (track live kind) pcm)) {
    last_chunk_end_s = max live.last_chunk_end_s ((track live kind).next_start_s + length pcm);
  }

module _ (sp : Speech) (cfg : AttributionConfig) where
  abbrev Session : Type 0
  Session = LiveSession sp.acoustics.Sample sp.acoustics.Db

  abbrev Result : Type 0
  Result = Step sp.acoustics.Sample sp.acoustics.Db

  -- The part of `_attribute_and_emit` that follows `attribute`.
  unfoldable pub emit_pass : Db → SegmentStream → Session → SourceKind → Pass → Result
  unfolding emit_all
  emit_pass db stream live kind pass =
      let own = record (track live kind) { pending = deferred pass kind } in
      let st =
        emit_all live.transcript_id kind pass.out
          (record { db = db; stream = stream; track_state = own; raised = false }) in
      record {
        db = st.db;
        stream = st.stream;
        session = set_track live kind st.track_state;
        outcome = outcome_of st.raised;
      }

  -- The reference set of the candidates, and what `attribute` makes of both.
  unfoldable pub pass_of : Session → SourceKind → List TimedSegment → Pass
  unfolding recent_emitted attribute
  pass_of live kind cands =
      let other = track live (other_kind kind) in
      let others = recent_emitted other.recent cands ++ other.pending in
      attribute sp.acoustics (on_side mic kind cands others) (on_side system kind cands others)
        live.energy cfg (λ k. some (track live k).next_start_s)

  unfoldable pub attribute_and_emit :
      Db → SegmentStream → Session → SourceKind → List TimedSegment → Result
  unfolding pass_of emit_pass
  attribute_and_emit db stream live kind [] = record {
    db = db;
    stream = stream;
    session = live;
    outcome = done;
  }
  attribute_and_emit db stream live kind (c ∷ cs) =
      emit_pass db stream live kind (pass_of live kind (c ∷ cs))

  -- The other track's deferred candidates are tried again, unless the store has raised.
  unfoldable pub retry_after : Outcome → SourceKind → Result → Result
  unfolding attribute_and_emit
  retry_after done kind st =
      let other = track st.session (other_kind kind) in
      attribute_and_emit st.db st.stream
        (set_track st.session (other_kind kind) (record other { pending = [] })) (other_kind kind)
        other.pending
  retry_after engine_failed kind st = st
  retry_after raised kind st = st

  -- What follows once the engine has answered for the window.
  unfoldable pub take_in :
      Db
      → SegmentStream
      → Session
      → SourceKind
      → List sp.acoustics.Sample
      → List RawSegment
      → Result
  unfolding candidates attribute_and_emit retry_after
  take_in db stream live kind pcm raw =
      let ts = track live kind in
      let chunk_end = ts.next_start_s + length pcm in
      let cands =
        candidates (window_start ts ts.tail_pcm) ts.emitted_until_s chunk_end live.stopping raw in
      let st = attribute_and_emit db stream (advance live kind pcm) kind (ts.pending ++ cands) in
      retry_after st.outcome kind st

  -- What the engine answers for the window, after the energy was added.
  unfoldable pub take_answer :
      Db
      → SegmentStream
      → Session
      → SourceKind
      → List sp.acoustics.Sample
      → Option (List RawSegment)
      → Result
  unfolding take_in
  take_answer db stream live kind pcm none = record {
    db = db;
    stream = stream;
    session = live;
    outcome = engine_failed;
  }
  take_answer db stream live kind pcm (some raw) = take_in db stream live kind pcm raw

  abbrev pub with_energy : Session → SourceKind → List sp.acoustics.Sample → Session
  with_energy live kind pcm = record live {
    energy = add sp.acoustics live.energy kind (track live kind).next_start_s pcm;
  }

  unfoldable pub transcribe_pcm :
      Db
      → SegmentStream
      → Session
      → SourceKind
      → ℕ
      → TranscriptMode
      → Option (List sp.acoustics.Sample)
      → Result
  unfolding add take_answer
  transcribe_pcm db stream live kind beam_size mode none = record {
    db = db;
    stream = stream;
    session = live;
    outcome = raised;
  }
  transcribe_pcm db stream live kind beam_size mode (some pcm) =
      take_answer db stream (with_energy live kind pcm) kind pcm
        (sp.transcribe ((track live kind).tail_pcm ++ pcm) beam_size kind mode)

  -- `engine` is what `_get_engine` returns.
  unfoldable pub transcribe_chunk :
      Option (List ℕ)
      → Db
      → SegmentStream
      → Session
      → SourceKind
      → ChunkMeta
      → ℕ
      → TranscriptMode
      → Result
  unfolding transcribe_pcm
  transcribe_chunk none db stream live kind meta beam_size mode = record {
    db = db;
    stream = stream;
    session = live;
    outcome = engine_failed;
  }
  transcribe_chunk (some descriptor) db stream live kind meta beam_size mode =
      transcribe_pcm db stream live kind beam_size mode (sp.read_pcm meta)
