-- ===== src/Worker/Chunk/Consumed.antt =====
-- One chunk, from its file to the emitted segments.
use ambient_recorder.Base.{
  ℕ, ◌+◌, ◌-◌, ◌≤◌, ◌≡◌, refl, sym, ap, ap₂, ◌∙◌, arith, Option, none, some, List, ◌++◌, length,
  take_last, length-drop,
}
use ambient_recorder.Models.{SourceKind, mic, system, other_kind}
use ambient_recorder.Attribution.Energy.{EnergyBuffer}
use ambient_recorder.Attribution.Decide.{AttributionConfig}
use ambient_recorder.Transcripts.Rows.{Db, TranscriptMode}
use ambient_recorder.Transcripts.Store.Seqs.{IsNumbered}
use ambient_recorder.Stream.{SegmentStream}
use ambient_recorder.Worker.State.{Speech, RawSegment, ChunkMeta, TrackState, LiveSession, track}
use ambient_recorder.Worker.Chunk.{overlap, done, engine_failed, Step}
use ambient_recorder.Worker.Chunk.Transcribe.{
  take_in, take_answer, with_energy, transcribe_pcm, transcribe_chunk, consume, advance,
}
use ambient_recorder.Worker.Chunk.Emitted.{window_of, Published, Published-nothing}
use ambient_recorder.Worker.Chunk.Watermark.{Kept, SameSession, Sound, take_in-Kept, take_in-Sound}

module _ (sp : Speech) (cfg : AttributionConfig) where
  abbrev Session : Type 0
  Session = LiveSession sp.acoustics.Sample sp.acoustics.Db

  abbrev Result : Type 0
  Result = Step sp.acoustics.Sample sp.acoustics.Db

  -- The track stands at the end of the chunk and keeps the last samples of it, which end where the next
  -- chunk starts; the other track stands where it stood, and no watermark goes back.
  abbrev pub Consumed : Session → SourceKind → List sp.acoustics.Sample → Session → Type 0
  Consumed live kind pcm after =
      let t = track after kind in
      (t.next_start_s ≡ (track live kind).next_start_s + length pcm)
      × (t.tail_pcm ≡ take_last overlap pcm)
      × (t.tail_start_s + length t.tail_pcm ≡ t.next_start_s)
      × (window_of (track after (other_kind kind)) ≡ window_of (track live (other_kind kind)))
      × ((k : SourceKind) → (track live k).emitted_until_s ≤ (track after k).emitted_until_s)

  -- The tail of a track that has read the chunk ends where the next chunk starts.
  tail_end :
      (t : TrackState sp.acoustics.Sample) (pcm : List sp.acoustics.Sample)
      → (consume t pcm).tail_start_s + length (consume t pcm).tail_pcm
        ≡ (consume t pcm).next_start_s
  tail_end t pcm = ground (arith, length-drop (length pcm - overlap) pcm)

  stands :
      (t : TrackState sp.acoustics.Sample) (pcm : List sp.acoustics.Sample)
      (t' : TrackState sp.acoustics.Sample)
      → window_of t' ≡ window_of (consume t pcm)
      → (t'.next_start_s ≡ t.next_start_s + length pcm)
        × (t'.tail_pcm ≡ take_last overlap pcm)
        × (t'.tail_start_s + length t'.tail_pcm ≡ t'.next_start_s)
  stands t pcm t' h =
      let next = ap (λ z. z.0) h in
      let start = ap (λ z. z.1) h in
      let tail = ap (λ z. z.2) h in
      (next, tail, ap₂ (λ a b. a + length b) start tail ∙ tail_end t pcm ∙ sym next)

  Consumed-of :
      (live : Session) (kind : SourceKind) (pcm : List sp.acoustics.Sample)
      (e : EnergyBuffer sp.acoustics.Db) (after : Session)
      → Kept (advance (record live { energy = e }) kind pcm) after
      → Consumed live kind pcm after
  Consumed-of live mic pcm e after h =
      let (n, p, s) = stands live.mic_track pcm after.mic_track (h.1 mic) in
      (
        n,
        p,
        s,
        h.1 system,
        λ k. elim k as (λ k. (track live k).emitted_until_s ≤ (track after k).emitted_until_s) [
          | mic ↦ h.2 mic
          | system ↦ h.2 system
        ],
      )
  Consumed-of live system pcm e after h =
      let (n, p, s) = stands live.system_track pcm after.system_track (h.1 system) in
      (
        n,
        p,
        s,
        h.1 mic,
        λ k. elim k as (λ k. (track live k).emitted_until_s ≤ (track after k).emitted_until_s) [
          | mic ↦ h.2 mic
          | system ↦ h.2 system
        ],
      )

  module _ (db : Db) (stream : SegmentStream) (live : Session) (kind : SourceKind)
      (meta : ChunkMeta) (beam_size : ℕ) (mode : TranscriptMode) where
    abbrev run : List ℕ → Result
    run descriptor =
        transcribe_chunk sp cfg (some descriptor) db stream live kind meta beam_size mode

    heard_run :
        (descriptor : List ℕ) (pcm : List sp.acoustics.Sample) (raw : List RawSegment)
        → sp.read_pcm meta ≡ some pcm
        → sp.transcribe ((track live kind).tail_pcm ++ pcm) beam_size kind mode ≡ some raw
        → run descriptor ≡ take_in sp cfg db stream (with_energy sp cfg live kind pcm) kind pcm raw
    unfolding transcribe_chunk transcribe_pcm take_answer
    heard_run descriptor pcm raw r t = rw (r, t, transcribe_chunk, transcribe_pcm, take_answer) refl

    -- Once the engine has answered for the window, whether or not the store raises, the track stands
    -- at the end of the chunk and keeps the last `overlap` samples of it, or all where it has fewer,
    -- which end where the next chunk starts; the other track stands where it stood with the tail that it
    -- had, and the watermark of neither track goes back.
    pub transcribe_chunk-Consumed :
        (descriptor : List ℕ) (pcm : List sp.acoustics.Sample) (raw : List RawSegment)
        → sp.read_pcm meta ≡ some pcm
        → sp.transcribe ((track live kind).tail_pcm ++ pcm) beam_size kind mode ≡ some raw
        → Consumed live kind pcm (run descriptor).session
    transcribe_chunk-Consumed descriptor pcm raw r t = rw (heard_run descriptor pcm raw r t) (
        Consumed-of live kind pcm (with_energy sp cfg live kind pcm).energy
          (take_in sp cfg db stream (with_energy sp cfg live kind pcm) kind pcm raw).session
          (take_in-Kept sp cfg db stream (with_energy sp cfg live kind pcm) kind pcm raw))

    -- When the engine refuses the window, the tables, the streams and both watermarks are as they were.
    pub transcribe_chunk-refused :
        (descriptor : List ℕ) (pcm : List sp.acoustics.Sample)
        → sp.read_pcm meta ≡ some pcm
        → sp.transcribe ((track live kind).tail_pcm ++ pcm) beam_size kind mode ≡ none
        → (run descriptor).outcome ≡ engine_failed
          × ((run descriptor).db ≡ db)
          × ((run descriptor).stream ≡ stream)
          × ((k : SourceKind) → track (run descriptor).session k ≡ track live k)
    unfolding transcribe_chunk transcribe_pcm take_answer
    transcribe_chunk-refused descriptor pcm r t =
        rw (r, t, transcribe_chunk, transcribe_pcm, take_answer)
          (
            refl,
            refl,
            refl,
            λ k. elim k as (λ k. track (with_energy sp cfg live kind pcm) k ≡ track live k) [
              | mic ↦ refl
              | system ↦ refl
            ],
          )

    take_answer-Sound :
        (pcm : List sp.acoustics.Sample) (answer : Option (List RawSegment))
        → IsNumbered db
        → Sound sp cfg live.transcript_id db stream
            (take_answer sp cfg db stream (with_energy sp cfg live kind pcm) kind pcm answer)
    unfolding take_answer
    take_answer-Sound pcm none num = (num, λ q. Published-nothing live.transcript_id db stream)
    take_answer-Sound pcm (some raw) num =
        take_in-Sound sp cfg db stream (with_energy sp cfg live kind pcm) kind pcm raw num

    transcribe_pcm-Sound :
        (read : Option (List sp.acoustics.Sample))
        → IsNumbered db
        → Sound sp cfg live.transcript_id db stream
            (transcribe_pcm sp cfg db stream live kind beam_size mode read)
    unfolding transcribe_pcm
    transcribe_pcm-Sound none num = (num, λ q. Published-nothing live.transcript_id db stream)
    transcribe_pcm-Sound (some pcm) num =
        take_answer-Sound pcm
          (sp.transcribe ((track live kind).tail_pcm ++ pcm) beam_size kind mode) num

    pub transcribe_chunk-Sound :
        (engine : Option (List ℕ))
        → IsNumbered db
        → Sound sp cfg live.transcript_id db stream
            (transcribe_chunk sp cfg engine db stream live kind meta beam_size mode)
    unfolding transcribe_chunk
    transcribe_chunk-Sound none num = (num, λ q. Published-nothing live.transcript_id db stream)
    transcribe_chunk-Sound (some descriptor) num = transcribe_pcm-Sound (sp.read_pcm meta) num

    -- Where nothing raised, the transcripts stay numbered without a gap, and the rows that the
    -- transcript got are the segments that were published to it, in that order.
    pub transcribe_chunk-Published :
        (engine : Option (List ℕ))
        → IsNumbered db
        → (transcribe_chunk sp cfg engine db stream live kind meta beam_size mode).outcome ≡ done
        → IsNumbered (transcribe_chunk sp cfg engine db stream live kind meta beam_size mode).db
          × Published live.transcript_id db stream
              (transcribe_chunk sp cfg engine db stream live kind meta beam_size mode).db
              (transcribe_chunk sp cfg engine db stream live kind meta beam_size mode).stream
    transcribe_chunk-Published engine num q =
        ((transcribe_chunk-Sound engine num).0, (transcribe_chunk-Sound engine num).1 q)

    same_advance :
        (a : Session) (pcm : List sp.acoustics.Sample) → SameSession a (advance a kind pcm)
    same_advance a pcm = elim kind as (λ k. SameSession a (advance a k pcm)) [
      | mic ↦ (refl, refl, refl)
      | system ↦ (refl, refl, refl)
    ]

    same_then : (a b c : Session) → SameSession a b → SameSession b c → SameSession a c
    same_then a b c h k = (k.0 ∙ h.0, k.1 ∙ h.1, k.2 ∙ h.2)

    take_answer-SameSession :
        (a : Session) (pcm : List sp.acoustics.Sample) (answer : Option (List RawSegment))
        → SameSession a (take_answer sp cfg db stream a kind pcm answer).session
    unfolding take_answer
    take_answer-SameSession a pcm none = (refl, refl, refl)
    take_answer-SameSession a pcm (some raw) =
        same_then a (advance a kind pcm) (take_in sp cfg db stream a kind pcm raw).session
          (same_advance a pcm) (take_in-Kept sp cfg db stream a kind pcm raw).0

    transcribe_pcm-SameSession :
        (read : Option (List sp.acoustics.Sample))
        → SameSession live (transcribe_pcm sp cfg db stream live kind beam_size mode read).session
    unfolding transcribe_pcm
    transcribe_pcm-SameSession none = (refl, refl, refl)
    transcribe_pcm-SameSession (some pcm) =
        take_answer-SameSession (with_energy sp cfg live kind pcm) pcm
          (sp.transcribe ((track live kind).tail_pcm ++ pcm) beam_size kind mode)

    -- However the chunk ends, the session keeps its transcript, its flag and its count.
    pub transcribe_chunk-SameSession :
        (engine : Option (List ℕ))
        → SameSession live
            (transcribe_chunk sp cfg engine db stream live kind meta beam_size mode).session
    unfolding transcribe_chunk
    transcribe_chunk-SameSession none = (refl, refl, refl)
    transcribe_chunk-SameSession (some descriptor) = transcribe_pcm-SameSession (sp.read_pcm meta)
