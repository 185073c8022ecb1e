-- ===== src/Worker/Live/Steps.antt =====
-- The steps of a live transcription on the worker's thread: a chunk, the flush at the end, the end
-- itself, and a failure. Each is one step; what capture threads do falls between steps.
use ambient_recorder.Base.{
  ℕ, ◌-◌, Bool, true, false, not, ◌&&◌, ◌||◌, Option, none, some, List, [], ◌∷◌, ◌++◌, ltb,
  if◌then◌else◌,
}
use ambient_recorder.Base.Text.{Text, codes}
use ambient_recorder.Models.{SourceKind, mic, system, speaker_of}
use ambient_recorder.Attribution.Segment.{TimedSegment}
use ambient_recorder.Attribution.Twin.{find_twin}
use ambient_recorder.Attribution.Decide.{AttributionConfig, truthy}
use ambient_recorder.Transcripts.Rows.{
  NewSegment, TranscriptSegment, TranscriptMode, TranscriptState, JobState, Db,
}
use ambient_recorder.Transcripts.Store.{
  Result, ok, err, append_segment, update_job, set_state, to_state, to_lag, to_ended, to_reason,
}
use ambient_recorder.Stream.{SegmentStream, segment, status, publish, close}
use ambient_recorder.Worker.State.{
  Speech, ChunkMeta, LiveSession, track, set_track, Worker, lookup, insert, remove,
}
use ambient_recorder.Worker.Chunk.{recent_emitted, Outcome, done, engine_failed, raised, Step}
use ambient_recorder.Worker.Chunk.Transcribe.{transcribe_chunk}
use ambient_recorder.Worker.Live.{status_frame, lag_of}

abbrev pub is_raised : Outcome → Bool
is_raised done = false
is_raised engine_failed = true
is_raised raised = true

abbrev pub flushed : SourceKind → TimedSegment → NewSegment
flushed kind c = record {
  source = speaker_of kind;
  start_s = c.start_s;
  end_s = c.end_s;
  text = c.text;
}

module _ {Sample Level : Type 0} (cfg : AttributionConfig) where
  -- On the mic's side, the system's copy already exists.
  unfoldable pub is_bleed : LiveSession Sample Level → SourceKind → TimedSegment → Bool
  unfolding recent_emitted find_twin
  is_bleed live mic c =
      let others = recent_emitted live.system_track.recent (c ∷ []) ++ live.system_track.pending in
      truthy (find_twin c others cfg.overlap_ratio)
  is_bleed live system c = false

  unfoldable pub after_flush :
      Bool → Result TranscriptSegment × Db → Step Sample Level → Step Sample Level
  unfolding publish
  after_flush publishes (err e, db) st = record st { db = db; outcome = raised }
  after_flush true (ok seg, db) st = record st {
    db = db;
    stream = publish st.stream st.session.transcript_id (segment seg);
  }
  after_flush false (ok seg, db) st = record st { db = db }

  unfoldable pub flush_one :
      Bool → SourceKind → TimedSegment → Step Sample Level → Step Sample Level
  unfolding is_bleed after_flush append_segment
  flush_one publishes kind c st =
      if is_raised st.outcome || is_bleed st.session kind c
      then st
      else after_flush publishes (append_segment st.db st.session.transcript_id (flushed kind c)) st

  unfoldable pub flush_each :
      Bool → SourceKind → List TimedSegment → Step Sample Level → Step Sample Level
  unfolding flush_one
  flush_each publishes kind [] st = st
  flush_each publishes kind (c ∷ cs) st =
      flush_each publishes kind cs (flush_one publishes kind c st)

  -- `ts.pending = []`, once the loop has ended.
  abbrev pub clear : SourceKind → Step Sample Level → Step Sample Level
  clear kind st = if is_raised st.outcome then st else record st {
    session = set_track st.session kind (record (track st.session kind) { pending = [] });
  }

  unfoldable pub flush_track : Bool → SourceKind → Step Sample Level → Step Sample Level
  unfolding flush_each
  flush_track publishes kind st =
      clear kind (flush_each publishes kind (track st.session kind).pending st)

  unfoldable pub flush_pending :
      Bool → Db → SegmentStream → LiveSession Sample Level → Step Sample Level
  unfolding flush_track
  flush_pending publishes db stream live = flush_track publishes system (
      flush_track publishes mic
        (record { db = db; stream = stream; session = live; outcome = done }))

  -- `_finalise_live` with a backlog: the session stays.
  unfoldable pub await_backlog :
      Worker Sample Level → LiveSession Sample Level → Worker Sample Level
  unfolding update_job set_state publish
  await_backlog w live =
      let db = update_job w.db live.transcript_id (to_state JobState.finalising ∷ []) in
      record w {
        db = set_state db live.transcript_id TranscriptState.finalising false none none;
        stream =
            publish w.stream live.transcript_id
              (status (status_frame TranscriptState.finalising (some (lag_of live)) false));
      }

  -- What follows the flush, unless it has raised.
  unfoldable pub complete : ℕ → ℕ → Outcome → Worker Sample Level → Worker Sample Level
  unfolding update_job set_state publish close
  complete tid now engine_failed w = w
  complete tid now raised w = w
  complete tid now done w =
      let db = set_state w.db tid TranscriptState.completed true none (some now) in
      record w {
        db = update_job db tid (to_state JobState.completed ∷ to_ended now ∷ to_lag 0 ∷ []);
        stream =
            close
              (publish w.stream tid (status (status_frame TranscriptState.completed (some 0) true)))
              tid;
      }

  unfoldable pub end_live :
      Worker Sample Level → ℕ → ℕ → LiveSession Sample Level → Worker Sample Level
  unfolding flush_pending complete remove
  end_live w session_id now live =
      let st = flush_pending true w.db w.stream live in
      complete live.transcript_id now st.outcome
        (record w { db = st.db; stream = st.stream; live = remove session_id w.live })

  abbrev pub finalise_found :
      Worker Sample Level → ℕ → ℕ → Option (LiveSession Sample Level) → Worker Sample Level
  finalise_found w session_id now none = w
  finalise_found w session_id now (some live) =
      if ltb 0 live.outstanding then await_backlog w live else end_live w session_id now live

  unfoldable pub finalise_live : Worker Sample Level → ℕ → ℕ → Worker Sample Level
  unfolding await_backlog end_live lookup
  finalise_live w session_id now = finalise_found w session_id now (lookup session_id w.live)

  unfoldable pub fail_live :
      Worker Sample Level → LiveSession Sample Level → ℕ → Text → ℕ → Worker Sample Level
  unfolding set_state update_job publish close remove
  fail_live w live session_id reason now =
      let tid = live.transcript_id in
      let db = set_state w.db tid TranscriptState.failed false (some reason) none in
      record w {
        db = update_job db tid (to_state JobState.failed ∷ to_ended now ∷ to_reason reason ∷ []);
        stream =
            close (publish w.stream tid (status (status_frame TranscriptState.failed none false)))
              tid;
        live = remove session_id w.live;
      }

module _ (sp : Speech) (cfg : AttributionConfig) where
  abbrev pub W : Type 0
  W = Worker sp.acoustics.Sample sp.acoustics.Db

  abbrev pub S : Type 0
  S = LiveSession sp.acoustics.Sample sp.acoustics.Db

  -- `_get_engine`: the engine is loaded once.
  abbrev pub get_engine : Option Text → Option Text
  get_engine none = sp.load
  get_engine (some descriptor) = some descriptor

  -- The lag is reported, and a session that is stopping ends with its last chunk.
  unfoldable pub report : W → ℕ → ℕ → S → W
  unfolding update_job publish insert finalise_live
  report w session_id now live =
      let lag = lag_of live in
      let w' : W = record w {
        db = update_job w.db live.transcript_id (to_lag lag ∷ to_state JobState.running ∷ []);
        stream =
            publish w.stream live.transcript_id
              (status (status_frame TranscriptState.live (some lag) false));
        live = insert session_id live w.live;
      } in
      let ended = finalise_live cfg w' session_id now in
      if live.stopping && not (ltb 0 live.outstanding) then ended else w'

  -- How `_process_live_chunk` goes on; whatever happened, the chunk is no longer outstanding.
  unfoldable pub after_chunk : Outcome → W → ℕ → ℕ → Text → S → W
  unfolding insert fail_live report
  after_chunk engine_failed w session_id now error live =
      fail_live cfg w live session_id (codes "engine_error: " ++ error) now
  after_chunk raised w session_id now error live = record w { live = insert session_id live w.live }
  after_chunk done w session_id now error live = report w session_id now live

  -- `error` is the text of the exception, should the engine raise one.
  abbrev pub process_found : W → ℕ → SourceKind → ChunkMeta → ℕ → Text → Option S → W
  process_found w session_id kind meta now error none = w
  process_found w session_id kind meta now error (some live) =
      let engine = get_engine w.engine in
      let st = transcribe_chunk sp cfg engine w.db w.stream live kind meta 1 TranscriptMode.live in
      after_chunk st.outcome (record w { db = st.db; stream = st.stream; engine = engine })
        session_id now error (record st.session { outstanding = st.session.outstanding - 1 })

  unfoldable pub process_live_chunk : W → ℕ → SourceKind → ChunkMeta → ℕ → Text → W
  unfolding after_chunk transcribe_chunk lookup
  process_live_chunk w session_id kind meta now error =
      process_found w session_id kind meta now error (lookup session_id w.live)
