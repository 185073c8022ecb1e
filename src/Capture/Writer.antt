-- ===== src/Capture/Writer.antt =====
-- `_SourceWorker` on its writer thread: gaps are filled, chunks are cut, converted and stored. Times
-- count microseconds.
use ambient_recorder.Base.{
  ℕ, zero, suc, ◌+◌, ◌-◌, ◌*◌, ◌/◌, ◌%◌, Bool, true, false, ◌&&◌, Option, none, some, List, [], ◌∷◌,
  ◌++◌, ltb, leb, if◌then◌else◌, length, take, drop,
}
use ambient_recorder.Models.{SourceKind}
use ambient_recorder.Metadata.Rows.{AudioChunk, Meta, is_valid_chunk}
use ambient_recorder.Metadata.Store.{Result, ok, err, record_chunk}
use ambient_recorder.Worker.State.{ChunkMeta}

-- The chunk, `DiskFullError`, or another `OSError`.
pub data Written : Type 0 where
  written : ChunkMeta → Written
  disk_full os_error : Written

-- The stream's format, the conversion to 16 kHz mono, and the chunk store; and of the track's writer
-- thread, which does not take the engine's lock: whether it dies of the entry that it has in hand while the
-- engine waits for a place in its full queue, and what the track hears (`some`) and its thread writes
-- (`none`) while the other track's thread is joined.
pub record Device : Type 1 where
  pub Sample : Type 0
  pub native_rate_hz : ℕ
  pub channels : ℕ
  pub realtime : Bool
  pub to_pcm16k_mono : List ℕ → List Sample
  pub write_chunk : ℕ → List Sample → Written
  pub dies_in_hand : Bool
  pub meanwhile : List (Option (ℕ × List ℕ))

-- `_run` goes on, has returned, or has raised.
pub data Thread : Type 0 where
  running returned raised : Thread

-- `chunks` are the converted chunks that the store took, with their numbers; `finalising` says that
-- `_on_disk_full` was called.
pub record SourceWorker (Sample : Type 0) : Type 0 where
  pub session_id : ℕ
  pub kind : SourceKind
  pub buffer : List ℕ
  pub last_arrival : Option ℕ
  pub seq : ℕ
  pub duration_s : ℕ
  pub ended : Bool
  pub finalising : Bool
  pub thread : Thread
  pub tables : Meta
  pub chunks : List (ℕ × List Sample)
  pub notified : List ChunkMeta

abbrev pub is_running : Thread → Bool
is_running running = true
is_running returned = false
is_running raised = false

-- `chunk_byte_target`, for `CHUNK_SECONDS` = 10
unfoldable pub chunk_byte_target : ℕ → ℕ → ℕ
chunk_byte_target native_rate_hz channels = native_rate_hz * channels * 2 * 10

abbrev pub zeros : ℕ → List ℕ
zeros zero = []
zeros (suc n) = 0 ∷ zeros n

abbrev pub audio_chunk : {Sample : Type 0} → SourceWorker Sample → ChunkMeta → ℕ → AudioChunk
audio_chunk w meta now = record {
  session_id = w.session_id;
  source_kind = w.kind;
  seq = w.seq;
  file_path = meta.file_path;
  duration_s = meta.duration_s;
  size_bytes = meta.size_bytes;
  written_at = now;
}

module _ (dev : Device) (now : ℕ) where
  abbrev pub W : Type 0
  W = SourceWorker dev.Sample

  -- The row is written, the counters move on, and the observers are told.
  unfoldable pub after_record : List dev.Sample → ChunkMeta → Result Meta → W → W
  after_record pcm meta (err e) w = record w {
    chunks = w.chunks ++ (w.seq, pcm) ∷ [];
    thread = raised;
  }
  after_record pcm meta (ok m) w = record w {
    chunks = w.chunks ++ (w.seq, pcm) ∷ [];
    tables = m;
    seq = w.seq + 1;
    duration_s = w.duration_s + meta.duration_s;
    notified = w.notified ++ meta ∷ [];
  }

  -- With the disk full the lane ends; another error and a chunk that the validators refuse raise.
  unfoldable pub after_write : List dev.Sample → Written → W → W
  unfolding after_record record_chunk is_valid_chunk
  after_write pcm disk_full w = record w { ended = true; finalising = true; thread = returned }
  after_write pcm os_error w = record w { thread = raised }
  after_write pcm (written meta) w =
      if is_valid_chunk (audio_chunk w meta now)
      then after_record pcm meta (record_chunk w.tables (audio_chunk w meta now)) w
      else record w { chunks = w.chunks ++ (w.seq, pcm) ∷ []; thread = raised }

  unfoldable pub flush_pcm : List dev.Sample → W → W
  unfolding after_write
  flush_pcm [] w = w
  flush_pcm (x ∷ pcm) w = after_write (x ∷ pcm) (dev.write_chunk w.seq (x ∷ pcm)) w

  -- `_flush`
  unfoldable pub flush : List ℕ → W → W
  unfolding flush_pcm
  flush [] w = w
  flush (b ∷ native) w = flush_pcm (dev.to_pcm16k_mono (b ∷ native)) w

  -- `while len(buffer) >= native_chunk_bytes`, with the length of the buffer as fuel.
  unfoldable pub drain : ℕ → ℕ → W → W
  unfolding flush
  drain target zero w = w
  drain target (suc fuel) w =
      let w' = flush (take target w.buffer) w in
      let rest = drain target fuel (record w' { buffer = drop target w.buffer }) in
      if leb target (length w.buffer) then (if is_running w'.thread then rest else w') else w

  -- `int(gap_s * bytes_per_s) & ~1`, where the gap is longer than half a second.
  unfoldable pub gap_bytes : Option ℕ → ℕ → ℕ
  gap_bytes none arrived_at = 0
  gap_bytes (some last) arrived_at =
      let fill = (arrived_at - last) * (dev.native_rate_hz * dev.channels * 2) / 1000000 in
      if dev.realtime && ltb 500000 (arrived_at - last) then fill - fill % 2 else 0

  -- What a block of frames adds to the buffer.
  abbrev pub incoming : W → ℕ → List ℕ → List ℕ
  incoming w arrived_at raw = zeros (gap_bytes w.last_arrival arrived_at) ++ raw

  -- One round of `_run`: frames, or the sentinel.
  unfoldable pub on_item : Option (ℕ × List ℕ) → W → W
  unfolding drain gap_bytes chunk_byte_target
  on_item none w =
      let w' = flush w.buffer w in
      if is_running w'.thread then record w' { buffer = []; thread = returned } else w'
  on_item (some (arrived_at, raw)) w =
      let buffer = w.buffer ++ incoming w arrived_at raw in
      drain (chunk_byte_target dev.native_rate_hz dev.channels) (length buffer)
        (record w { buffer = buffer; last_arrival = some arrived_at })

  unfoldable pub run : List (Option (ℕ × List ℕ)) → W → W
  unfolding on_item
  run [] w = w
  run (item ∷ items) w =
      let rest = run items (on_item item w) in if is_running w.thread then rest else w
