-- ===== src/Worker/Examples.antt =====
-- A recorder at work on one session: the microphone has been read for 0.2 s, the system's chunk of
-- the same time comes next. Tests, and the theorems at this state.
use mathlib.Core.List.{map}
use ambient_recorder.Base.{
  ℕ, zero, suc, ◌+◌, ◌≡◌, refl, arith, true, false, not, Option, none, some, List, [], ◌∷◌, ◌++◌,
  ltb, keep, All,
}
use ambient_recorder.Base.Text.{codes, strip}
use ambient_recorder.Models.{SourceKind, mic, system}
use ambient_recorder.Attribution.Segment.{TimedSegment}
use ambient_recorder.Attribution.Energy.{Acoustics, init, add, rms_db}
use ambient_recorder.Attribution.Decide.{AttributionConfig}
use ambient_recorder.Transcripts.Rows.{TranscriptMode, TranscriptState, JobState, Db, empty_db}
use ambient_recorder.Transcripts.Store.Seqs.{IsNumbered, rows_of}
use ambient_recorder.Stream.{SegmentStream}
use ambient_recorder.Worker.State.{
  ChunkMeta, RawSegment, Speech, Settings, LiveSession, Queued, chunk, session_stopped, Worker,
  lookup, insert,
}
use ambient_recorder.Worker.Chunk.{candidates, done, Step}
use ambient_recorder.Worker.Chunk.Transcribe.{transcribe_chunk}
use ambient_recorder.Worker.Chunk.Emitted.{Published}
use ambient_recorder.Worker.Chunk.Candidates.{IsNew, candidates-IsNew}
use ambient_recorder.Worker.Chunk.Consumed.{
  Consumed, transcribe_chunk-Consumed, transcribe_chunk-Published,
}
use ambient_recorder.Worker.Live.{new_track}
use ambient_recorder.Worker.Live.Steps.{is_bleed, flush_pending}
use ambient_recorder.Worker.Live.Flush.{content_of, Delivers}
use ambient_recorder.Worker.Live.Flushed.{flush_pending-Delivers}
use ambient_recorder.Worker.Live.Balance.{Balanced, insert-Counted, chunks_of}
use ambient_recorder.Worker.Loop.{least, pop, run_once}
use ambient_recorder.Worker.Loop.Rounds.{run_once-Balanced}

abbrev pub loudest : List ℕ → ℕ
loudest [] = 0
loudest (x ∷ xs) = x

abbrev pub tone : ℕ → ℕ → List ℕ
tone level zero = []
tone level (suc n) = level ∷ tone level n

abbrev pub meter : Acoustics
meter = record {
  Sample = ℕ;
  Db = ℕ;
  level = loudest;
  mean = loudest;
  clearly_louder = λ own other. ltb (other + 3) own;
}

abbrev pub hello : RawSegment
hello = record { start_s = 160; end_s = 1600; text = codes " Hello there " }

-- An engine that hears the greeting on the system's track, and refuses the microphone's.
abbrev pub hears : SourceKind → Option (List RawSegment)
hears mic = none
hears system = some (hello ∷ [])

abbrev pub speech : Speech
speech = record {
  acoustics = meter;
  load = some (codes "whisper small");
  read_pcm = λ meta. some (tone 60 3200);
  transcribe = λ pcm beam_size kind mode. hears kind;
  inventory = λ session_id kind. [];
}

abbrev pub cfg : AttributionConfig
cfg = record { overlap_ratio = record { num = 3; den = 5 } }

abbrev pub settings : Settings
settings = record { overlap_ratio = record { num = 3; den = 5 }; on_demand_beam_size = 5 }

abbrev pub meta : ChunkMeta
meta = record { file_path = codes "system/0.wav"; seq = 0; duration_s = 3200; size_bytes = 6444 }

abbrev pub live : LiveSession ℕ ℕ
live = record {
  transcript_id = 7;
  mic_track = record (new_track {Sample = ℕ}) { next_start_s = 3200 };
  system_track = new_track {Sample = ℕ};
  energy = add meter (init 4800000) mic 0 (tone 40 3200);
  stopping = false;
  outstanding = 1;
  last_chunk_end_s = 3200;
}

abbrev pub nobody : SegmentStream
nobody = record { subs = []; latest = [] }

abbrev run : SourceKind → Step ℕ ℕ
run kind =
    transcribe_chunk speech cfg (some (codes "whisper small")) empty_db nobody live kind meta 1
      TranscriptMode.live

run_done : (run system).outcome ≡ done
unfolding transcribe_chunk add init strip rms_db
run_done = refl

run_rows : map (λ s. s.text) (rows_of (run system).db 7) ≡ codes "Hello there" ∷ []
unfolding transcribe_chunk add init strip rms_db
run_rows = refl

transcribe_chunk-Consumed_example :
    Consumed speech cfg live system (tone 60 3200) (run system).session
transcribe_chunk-Consumed_example =
    transcribe_chunk-Consumed speech cfg empty_db nobody live system meta 1 TranscriptMode.live
      (codes "whisper small") (tone 60 3200) (hello ∷ []) refl refl

transcribe_chunk-Published_example :
    IsNumbered (run system).db × Published 7 empty_db nobody (run system).db (run system).stream
transcribe_chunk-Published_example =
    transcribe_chunk-Published speech cfg empty_db nobody live system meta 1 TranscriptMode.live
      (some (codes "whisper small")) (λ i. tt) run_done

candidates-IsNew_example : All (IsNew 0 3200 false) (candidates 0 0 3200 false (hello ∷ []))
candidates-IsNew_example = candidates-IsNew 0 0 3200 false (hello ∷ [])

abbrev pub tables : Db
tables = record {
  transcripts =
      record {
        id = 7;
        session_id = 5;
        mode = TranscriptMode.live;
        state = TranscriptState.live;
        final = false;
        engine = none;
        model = none;
        created_at = 1;
        finalised_at = none;
        failure_reason = none;
      }
      ∷ [];
  segments = [];
  jobs =
      record {
        transcript_id = 7;
        session_id = 5;
        mode = TranscriptMode.live;
        state = JobState.running;
        priority = 0;
        progress_chunks = 0;
        total_chunks = none;
        lag_s = some 0;
        enqueued_at = 1;
        started_at = some 1;
        ended_at = none;
        failure_reason = none;
      }
      ∷ [];
}

abbrev pub greeting : TimedSegment
greeting = record { start_s = 160; end_s = 1600; text = codes "Hello there" }

abbrev pub answer : TimedSegment
answer = record { start_s = 1700; end_s = 3000; text = codes "Nice to see you" }

-- The microphone has heard the greeting too, through the loudspeaker, and an answer.
abbrev pub stopping : ℕ → LiveSession ℕ ℕ
stopping n = record live {
  mic_track = record (new_track {Sample = ℕ}) { pending = greeting ∷ answer ∷ [] };
  system_track = record (new_track {Sample = ℕ}) { pending = greeting ∷ [] };
  energy = init 4800000;
  stopping = true;
  outstanding = n;
}

flushed_all : (flush_pending cfg true tables nobody (stopping 0)).outcome ≡ done
unfolding flush_pending strip
flushed_all = refl

flushed_rows :
    map (λ s. s.text) (rows_of (flush_pending cfg true tables nobody (stopping 0)).db 7)
    ≡ codes "Nice to see you" ∷ codes "Hello there" ∷ []
unfolding flush_pending strip
flushed_rows = refl

flush_pending-Delivers_example :
    Delivers 7
      (record { db = tables; stream = nobody; session = stopping 0; outcome = done })
      (flush_pending cfg true tables nobody (stopping 0))
      (map
          (content_of mic)
          (keep (λ c. not (is_bleed cfg (stopping 0) mic c)) (greeting ∷ answer ∷ []))
        ++ map (content_of system) (greeting ∷ []))
    × ((flush_pending cfg true tables nobody (stopping 0)).session ≡ record (stopping 0) {
      mic_track = new_track {Sample = ℕ};
      system_track = new_track {Sample = ℕ};
    })
flush_pending-Delivers_example =
    flush_pending-Delivers cfg tables nobody (stopping 0) (λ i. tt) flushed_all

abbrev recorder : ℕ → Worker ℕ ℕ
recorder n = record {
  db = tables;
  stream = nobody;
  live = (5, stopping n) ∷ [];
  on_demand = [];
  q = record { priority = 1; order = 1; item = chunk 5 system meta } ∷ [];
  counter = 2;
  engine = none;
  stopped = false;
}

one_session : (n : ℕ) → lookup 5 (recorder n).live ≡ some (stopping n)
unfolding lookup
one_session n = refl

balanced : Balanced (recorder 1)
unfolding lookup insert
balanced =
    insert-Counted 5 (stopping 1) [] (λ j. 0) (λ j. chunks_of j (recorder 1).q) (λ j e. rw e refl)
      refl (λ sid s h. absurd (ground arith))

run_once-Balanced_example :
    Balanced (run_once speech cfg settings (recorder 1) 100 (codes "out of memory"))
run_once-Balanced_example =
    run_once-Balanced speech cfg settings 100 (codes "out of memory") (recorder 1) balanced

abbrev queued : ℕ → ℕ → Queued
queued p o = record { priority = p; order = o; item = session_stopped o }

taken :
    pop (queued 2 0 ∷ queued 1 2 ∷ queued 1 1 ∷ [])
    ≡ some (queued 1 1, queued 2 0 ∷ queued 1 2 ∷ [])
unfolding least
taken = refl
