-- ===== src/Worker/Chunk.antt =====
-- `_transcribe_chunk` and what it calls: the candidates of a window, their attribution, and the
-- segments that are emitted, stored and published.
pub mod Transcribe
pub mod Candidates
pub mod Emitted
pub mod Watermark
pub mod Consumed
use ambient_recorder.Base.{
  ℕ, ◌+◌, ◌-◌, ◌*◌, Bool, true, false, not, ◌&&◌, ◌||◌, Option, none, some, List, [], ◌∷◌, ◌++◌,
  ltb, leb, if◌then◌else◌, keep, length, take_last, min, max,
}
use ambient_recorder.Base.Text.{Text, strip, codes}
use ambient_recorder.Models.{
  SourceKind, mic, system, Speaker, me, them, other_kind, speaker_of, is_me, is_them,
}
use ambient_recorder.Attribution.Segment.{TimedSegment, AttributedSegment}
use ambient_recorder.Attribution.Energy.{EnergyBuffer, add}
use ambient_recorder.Attribution.Decide.{AttributionConfig, Pass, deferred, attribute}
use ambient_recorder.Attribution.Twin.{is_empty}
use ambient_recorder.Transcripts.Rows.{NewSegment, TranscriptMode, TranscriptSegment, Db}
use ambient_recorder.Transcripts.Store.{Result, ok, err, append_segment}
use ambient_recorder.Stream.{SegmentStream, segment, publish}
use ambient_recorder.Worker.State.{
  ChunkMeta, RawSegment, Speech, Settings, TrackState, LiveSession, track, set_track,
}

-- One second, and `OVERLAP_S`, in samples.
abbrev pub second : ℕ
second = 16000

abbrev pub overlap : ℕ
overlap = 80000

-- A raw segment of the window, in session time.
abbrev pub placed_at : ℕ → RawSegment → TimedSegment
placed_at window_start r = record {
  start_s = window_start + r.start_s;
  end_s = window_start + r.end_s;
  text = strip r.text;
}

-- The three tests of the loop over the raw segments: not emitted yet, not running past the chunk,
-- and not a second reading of what was emitted.
abbrev pub is_old : ℕ → TimedSegment → Bool
is_old emitted_until s = leb s.end_s (emitted_until + 16) || is_empty s.text

abbrev pub straddles : ℕ → Bool → TimedSegment → Bool
straddles chunk_end stopping s = ltb chunk_end (s.end_s + 800) && not stopping

abbrev pub is_reread : ℕ → TimedSegment → Bool
is_reread emitted_until s =
    ltb s.start_s emitted_until && leb (s.end_s - s.start_s) (2 * (emitted_until - s.start_s))

unfoldable pub candidates : ℕ → ℕ → ℕ → Bool → List RawSegment → List TimedSegment
candidates window_start emitted_until chunk_end stopping [] = []
candidates window_start emitted_until chunk_end stopping (r ∷ rs) =
    let s = placed_at window_start r in
    let rest = candidates window_start emitted_until chunk_end stopping rs in
    if is_old emitted_until s || straddles chunk_end stopping s || is_reread emitted_until s
    then rest
    else s ∷ rest

-- `min(c.start_s for c in around)` and `max(c.end_s for c in around)` of a list that begins with `c`.
abbrev pub earliest : ℕ → List TimedSegment → ℕ
earliest lo [] = lo
earliest lo (c ∷ cs) = earliest (min lo c.start_s) cs

abbrev pub latest : ℕ → List TimedSegment → ℕ
latest hi [] = hi
latest hi (c ∷ cs) = latest (max hi c.end_s) cs

-- The emitted segments within a second of the candidates.
unfoldable pub recent_emitted : List TimedSegment → List TimedSegment → List TimedSegment
recent_emitted recent [] = []
recent_emitted recent (c ∷ cs) =
    let lo = earliest c.start_s cs in
    let hi = latest c.end_s cs in
    keep (λ s. ltb s.start_s (hi + second) && ltb lo (s.end_s + second)) recent

abbrev oldest_before : ℕ → List TimedSegment → Bool
oldest_before cutoff_end [] = false
oldest_before cutoff_end (s ∷ ss) = ltb (s.end_s + 480000) cutoff_end

-- `_remember`: the segments of the last 30 seconds.
unfoldable pub remember : List TimedSegment → TimedSegment → List TimedSegment
remember recent seg =
    let all = recent ++ seg ∷ [] in
    if oldest_before seg.end_s all then keep (λ s. leb seg.end_s (s.end_s + 480000)) all else all

-- What the loop over the attributed segments changes; `raised` once the store has raised.
pub record Emission (Sample : Type 0) : Type 0 where
  pub db : Db
  pub stream : SegmentStream
  pub track_state : TrackState Sample
  pub raised : Bool

abbrev pub is_own : SourceKind → AttributedSegment → Bool
is_own mic a = is_me a.source
is_own system a = is_them a.source

abbrev pub new_segment : AttributedSegment → NewSegment
new_segment a = record { source = a.source; start_s = a.start_s; end_s = a.end_s; text = a.text }

module _ {Sample : Type 0} where
  unfoldable pub after_append :
      ℕ → AttributedSegment → Result TranscriptSegment × Db → Emission Sample → Emission Sample
  unfolding remember publish
  after_append tid a (err e, db) st = record st { db = db; raised = true }
  after_append tid a (ok seg, db) st = record {
    db = db;
    stream = publish st.stream tid (segment seg);
    track_state = record st.track_state {
      emitted_until_s = max st.track_state.emitted_until_s a.end_s;
      recent =
          remember st.track_state.recent
            (record { start_s = a.start_s; end_s = a.end_s; text = a.text });
    };
    raised = false;
  }

  -- One round: segments of the other track are skipped, and nothing is done after a raise.
  unfoldable pub emit_one : ℕ → SourceKind → AttributedSegment → Emission Sample → Emission Sample
  unfolding after_append append_segment
  emit_one tid kind a st =
      if st.raised || not (is_own kind a)
      then st
      else after_append tid a (append_segment st.db tid (new_segment a)) st

  unfoldable pub emit_all :
      ℕ → SourceKind → List AttributedSegment → Emission Sample → Emission Sample
  unfolding emit_one
  emit_all tid kind [] st = st
  emit_all tid kind (a ∷ rest) st = emit_all tid kind rest (emit_one tid kind a st)

-- The tables, the streams and the session, after a step that may have raised.
pub data Outcome : Type 0 where
  done engine_failed raised : Outcome

pub record Step (Sample Level : Type 0) : Type 0 where
  pub db : Db
  pub stream : SegmentStream
  pub session : LiveSession Sample Level
  pub outcome : Outcome

abbrev pub outcome_of : Bool → Outcome
outcome_of true = raised
outcome_of false = done
