-- ===== src/Capture/Lane.antt =====
-- The lane as a whole: what was heard is what was stored and what waits in the buffer.
use mathlib.Core.List.{append-nil, append_assoc, map}
use ambient_recorder.Base.{
  ℕ, zero, suc, ◌≤◌, ◌≡◌, refl, ap, sym, ◌∙◌, subst, arith, true, false, Option, some, List, [],
  ◌∷◌, ◌++◌, leb, if◌then◌else◌, length, take, drop, All, All-append, Bool-cases, inl, inr,
}
use ambient_recorder.Metadata.Rows.{is_valid_chunk, Meta}
use ambient_recorder.Metadata.Store.{Result, ok, err, record_chunk}
use ambient_recorder.Worker.State.{ChunkMeta}
use ambient_recorder.Capture.Writer.{
  Written, written, disk_full, os_error, Device, is_running, W, after_record, after_write,
  flush_pcm, flush, drain, chunk_byte_target, incoming, on_item, run, audio_chunk, zeros, gap_bytes,
}
use ambient_recorder.Capture.Conserved.{
  concat, concat-append, Stored, Stored-none, Stored-then, drain-Drained,
}

module _ (dev : Device) (now : ℕ) where
  after_record-last_arrival :
      (pcm : List dev.Sample) (meta : ChunkMeta) (r : Result Meta) (w : W dev now)
      → (after_record dev now pcm meta r w).last_arrival ≡ w.last_arrival
  unfolding after_record
  after_record-last_arrival pcm meta (err e) w = refl
  after_record-last_arrival pcm meta (ok m) w = refl

  after_write-last_arrival :
      (pcm : List dev.Sample) (meta : Written) (w : W dev now)
      → (after_write dev now pcm meta w).last_arrival ≡ w.last_arrival
  unfolding after_write
  after_write-last_arrival pcm disk_full w = refl
  after_write-last_arrival pcm os_error w = refl
  after_write-last_arrival pcm (written meta) w =
      elim (Bool-cases (is_valid_chunk (audio_chunk w meta now))) [
        | inl e ↦
            rw e (
              after_record-last_arrival pcm meta (record_chunk w.tables (audio_chunk w meta now)) w)
        | inr e ↦ rw e refl
      ]

  flush_pcm-last_arrival :
      (pcm : List dev.Sample) (w : W dev now)
      → (flush_pcm dev now pcm w).last_arrival ≡ w.last_arrival
  unfolding flush_pcm
  flush_pcm-last_arrival [] w = refl
  flush_pcm-last_arrival (x ∷ pcm) w =
      after_write-last_arrival (x ∷ pcm) (dev.write_chunk w.seq (x ∷ pcm)) w

  flush-last_arrival :
      (native : List ℕ) (w : W dev now) → (flush dev now native w).last_arrival ≡ w.last_arrival
  unfolding flush
  flush-last_arrival [] w = refl
  flush-last_arrival (b ∷ native) w = flush_pcm-last_arrival (dev.to_pcm16k_mono (b ∷ native)) w

  drain-last_arrival :
      (target fuel : ℕ) (w : W dev now)
      → (drain dev now target fuel w).last_arrival ≡ w.last_arrival
  unfolding drain
  drain-last_arrival target zero w = refl
  drain-last_arrival target (suc fuel) w =
      let w' = flush dev now (take target w.buffer) w in
      let next = record w' { buffer = drop target w.buffer } in
      elim (Bool-cases (leb target (length w.buffer))) [
        | inr e ↦ rw e refl
        | inl e ↦ elim (Bool-cases (is_running w'.thread)) [
          | inr g ↦ rw (e, g) (flush-last_arrival (take target w.buffer) w)
          | inl g ↦
              rw (e, g)
                (drain-last_arrival target fuel next ∙ flush-last_arrival (take target w.buffer) w)
        ]
      ]

  abbrev pub target : ℕ
  target = chunk_byte_target dev.native_rate_hz dev.channels

  -- What is heard: the frames, with silence for the gaps between them.
  abbrev pub heard : Option ℕ → List (ℕ × List ℕ) → List ℕ
  heard last [] = []
  heard last ((arrived_at, raw) ∷ frames) =
      (zeros (gap_bytes dev now last arrived_at) ++ raw) ++ heard (some arrived_at) frames

  -- What was in the buffer and was heard is in whole blocks, which are stored, and in the buffer.
  abbrev pub Conserved : W dev now → List ℕ → W dev now → Type 0
  Conserved w bytes w' =
      (blocks : List (List ℕ)) × (w.buffer ++ bytes ≡ concat blocks ++ w'.buffer)
      × Stored dev now blocks w w'
      × All (λ b. length b ≡ target) blocks

  run-stopped :
      (items : List (Option (ℕ × List ℕ))) (w : W dev now)
      → is_running w.thread ≡ false
      → run dev now items w ≡ w
  unfolding run
  run-stopped [] w h = refl
  run-stopped (item ∷ items) w h =
      elim (is_running w.thread)
          as (λ b. b ≡ false → (if b then run dev now items (on_item dev now item w) else w) ≡ w) [
            | true ↦ λ e. absurd (ground arith)
            | false ↦ λ e. refl
          ]
        h

  frame-Conserved :
      (arrived_at : ℕ) (raw : List ℕ) (w : W dev now)
      → 1 ≤ target
      → is_running (on_item dev now (some (arrived_at, raw)) w).thread ≡ true
      → Conserved w (incoming dev now w arrived_at raw) (on_item dev now (some (arrived_at, raw)) w)
  unfolding on_item
  frame-Conserved arrived_at raw w t h =
      let buffer = w.buffer ++ incoming dev now w arrived_at raw in
      let filled = record w { buffer = buffer; last_arrival = some arrived_at } in
      let d = drain-Drained dev now target (length buffer) filled t (omega arith) h in
      (d.0, d.1, d.2, d.3)

  frame-last_arrival :
      (arrived_at : ℕ) (raw : List ℕ) (w : W dev now)
      → (on_item dev now (some (arrived_at, raw)) w).last_arrival ≡ some arrived_at
  unfolding on_item
  frame-last_arrival arrived_at raw w = drain-last_arrival target _ _

  Conserved-then :
      (a b c : W dev now) (xs ys : List ℕ)
      → Conserved a xs b
      → Conserved b ys c
      → Conserved a (xs ++ ys) c
  Conserved-then a b c xs ys (B, e, st, l) (B', e', st', l') = (
    B ++ B',
    sym (append_assoc a.buffer xs ys)
        ∙ ap (λ z. z ++ ys) e
        ∙ append_assoc (concat B) b.buffer ys
        ∙ ap (λ z. concat B ++ z) e'
        ∙ sym (append_assoc (concat B) (concat B') c.buffer)
        ∙ ap (λ z. z ++ c.buffer) (sym (concat-append B B')),
    Stored-then dev now B B' a b c st st',
    All-append (λ b. length b ≡ target) B B' l l',
  )

  -- While the thread runs, every byte that was heard, the silence of the gaps included, is in a chunk
  -- of exactly ten seconds that is stored under the next number, or waits in the buffer, in order.
  pub run-Conserved :
      (frames : List (ℕ × List ℕ)) (w : W dev now)
      → 1 ≤ target
      → is_running (run dev now (map (λ f. some f) frames) w).thread ≡ true
      → Conserved w (heard w.last_arrival frames) (run dev now (map (λ f. some f) frames) w)
  unfolding run
  run-Conserved [] w t h = ([], append-nil w.buffer, Stored-none dev now w, tt)
  run-Conserved ((arrived_at, raw) ∷ frames) w t h0 =
      let w1 = on_item dev now (some (arrived_at, raw)) w in
      let after = run dev now (map (λ f. some f) frames) w1 in
      elim (is_running w.thread)
          as (λ b.
            is_running (if b then after else w).thread ≡ true
            → is_running w.thread ≡ b
            → Conserved w (incoming dev now w arrived_at raw ++ heard (some arrived_at) frames)
                (if b then after else w)) [
                  | false ↦ λ h e. absurd (grind (arith, h, e))
                  | true ↦ λ h e. elim (Bool-cases (is_running w1.thread)) [
                    | inr g ↦
                        absurd (grind (arith, run-stopped (map (λ f. some f) frames) w1 g, g, h))
                    | inl g ↦
                        Conserved-then w w1 after (incoming dev now w arrived_at raw)
                          (heard (some arrived_at) frames) (frame-Conserved arrived_at raw w t g)
                          (subst (λ l. Conserved w1 (heard l frames) after)
                            (frame-last_arrival arrived_at raw w) (run-Conserved frames w1 t h))
                  ]
                ]
        h0 refl
