-- ===== src/Worker/State.antt =====
-- The records of transcription/worker.py, and what the worker calls of other libraries.
use ambient_recorder.Base.{
  ℕ, Bool, Option, none, some, List, [], ◌∷◌, ◌==◌, if◌then◌else◌, refl, arith, ◌≡◌,
}
use ambient_recorder.Base.Text.{Text}
use ambient_recorder.Models.{SourceKind, mic, system}
use ambient_recorder.Attribution.Segment.{Ratio, TimedSegment}
use ambient_recorder.Attribution.Energy.{Acoustics, EnergyBuffer}
use ambient_recorder.Transcripts.Rows.{TranscriptMode, Db}
use ambient_recorder.Stream.{SegmentStream}

-- A chunk file as the store lists it.
pub record ChunkMeta : Type 0 where
  pub file_path : Text
  pub seq : ℕ
  pub duration_s : ℕ
  pub size_bytes : ℕ

-- A segment as the speech engine returns it, in the time of the window that it was given; its
-- probability is not read.
pub record RawSegment : Type 0 where
  pub start_s : ℕ
  pub end_s : ℕ
  pub text : Text

-- The speech engine, the `wave` files and the inventory of chunks. Of the engine `none` is
-- `EngineError` or `EngineNotReadyError`, of a file any error of `wave.open`.
pub record Speech : Type 1 where
  pub acoustics : Acoustics
  pub open acoustics use *
  pub load : Option Text
  pub read_pcm : ChunkMeta → Option (List Sample)
  pub transcribe : List Sample → ℕ → SourceKind → TranscriptMode → Option (List RawSegment)
  pub inventory : ℕ → SourceKind → List ChunkMeta

-- What the worker reads of `readiness()`.
pub data ReadinessState : Type 0 where
  not_installed not_ready ready : ReadinessState

pub record TranscriptionReadiness : Type 0 where
  pub status : ReadinessState
  pub engine : Option Text
  pub model : Option Text
  pub reason : Option Text

-- `cfg` and the settings that the worker reads.
pub record Settings : Type 0 where
  pub overlap_ratio : Ratio
  pub on_demand_beam_size : ℕ

pub record TrackState (Sample : Type 0) : Type 0 where
  pub tail_pcm : List Sample
  pub tail_start_s : ℕ
  pub next_start_s : ℕ
  pub emitted_until_s : ℕ
  pub pending : List TimedSegment
  pub recent : List TimedSegment

pub record LiveSession (Sample Db : Type 0) : Type 0 where
  pub transcript_id : ℕ
  pub mic_track : TrackState Sample
  pub system_track : TrackState Sample
  pub energy : EnergyBuffer Db
  pub stopping : Bool
  pub outstanding : ℕ
  pub last_chunk_end_s : ℕ

module _ {Sample Db : Type 0} where
  abbrev pub track : LiveSession Sample Db → SourceKind → TrackState Sample
  track s mic = s.mic_track
  track s system = s.system_track

  abbrev pub set_track :
      LiveSession Sample Db → SourceKind → TrackState Sample → LiveSession Sample Db
  set_track s mic t = record s { mic_track = t }
  set_track s system t = record s { system_track = t }

-- The entries of the queue.
pub data Item : Type 0 where
  chunk : ℕ → SourceKind → ChunkMeta → Item
  session_stopped : ℕ → Item
  on_demand_step : ℕ → ℕ → Item
  shutdown : Item

-- An entry with its place: entries of priority -1, 0 and 1 are 0, 1 and 2 here.
pub record Queued : Type 0 where
  pub priority : ℕ
  pub order : ℕ
  pub item : Item

-- One on-demand job under way: its state, the inventories of both tracks, and the next index.
pub record Progress (Sample Db : Type 0) : Type 0 where
  pub session : LiveSession Sample Db
  pub inv : List (SourceKind × ChunkMeta)
  pub next : ℕ

pub record Worker (Sample Level : Type 0) : Type 0 where
  pub db : Db
  pub stream : SegmentStream
  pub live : List (ℕ × LiveSession Sample Level)
  pub on_demand : List (ℕ × Progress Sample Level)
  pub q : List Queued
  pub counter : ℕ
  pub engine : Option Text
  pub stopped : Bool

-- A dictionary as an association list: `d.get(k)`, `d[k] = v` and `d.pop(k, None)`.
module _ {V : Type 0} where
  unfoldable pub lookup : ℕ → List (ℕ × V) → Option V
  lookup key [] = none
  lookup key (entry ∷ d) = if entry.0 == key then some entry.1 else lookup key d

  unfoldable pub insert : ℕ → V → List (ℕ × V) → List (ℕ × V)
  insert key value [] = (key, value) ∷ []
  insert key value (entry ∷ d) =
      if entry.0 == key then (entry.0, value) ∷ d else entry ∷ insert key value d

  unfoldable pub remove : ℕ → List (ℕ × V) → List (ℕ × V)
  remove key [] = []
  remove key (entry ∷ d) = let rest = remove key d in if entry.0 == key then rest else entry ∷ rest

  pub lookup-insert :
      (key other : ℕ) (value : V) (d : List (ℕ × V))
      → lookup other (insert key value d) ≡ (if key == other then some value else lookup other d)
  unfolding lookup insert
  lookup-insert key other value [] = refl
  lookup-insert key other value (entry ∷ d) = ground (arith, lookup-insert key other value d)

  pub lookup-remove :
      (key other : ℕ) (d : List (ℕ × V))
      → lookup other (remove key d) ≡ (if key == other then none else lookup other d)
  unfolding lookup remove
  lookup-remove key other [] = ground arith
  lookup-remove key other (entry ∷ d) = ground (arith, lookup-remove key other d)
