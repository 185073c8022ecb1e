-- ===== src/Capture/Kept.antt =====
-- What every step of a writer thread keeps, a run of it keeps.
use ambient_recorder.Base.{
  ℕ, zero, suc, Option, none, some, List, [], ◌∷◌, ◌++◌, leb, length, take, drop, Bool-cases, inl,
  inr,
}
use ambient_recorder.Capture.Writer.{
  Device, returned, is_running, W, after_write, flush_pcm, flush, drain, chunk_byte_target,
  incoming, on_item, run,
}

module _ (dev : Device) (now : ℕ) (Q : W dev now → Type 0)
    (filled : (w : W dev now) (b : List ℕ) (l : Option ℕ)
      → Q w
      → Q (record w { buffer = b; last_arrival = l }))
    (stored : (pcm : List dev.Sample) (w : W dev now)
      → Q w
      → Q (after_write dev now pcm (dev.write_chunk w.seq pcm) w)) where
  flush_pcm-kept : (pcm : List dev.Sample) (w : W dev now) → Q w → Q (flush_pcm dev now pcm w)
  unfolding flush_pcm
  flush_pcm-kept [] w h = h
  flush_pcm-kept (x ∷ pcm) w h = stored (x ∷ pcm) w h

  flush-kept : (native : List ℕ) (w : W dev now) → Q w → Q (flush dev now native w)
  unfolding flush
  flush-kept [] w h = h
  flush-kept (b ∷ native) w h = flush_pcm-kept (dev.to_pcm16k_mono (b ∷ native)) w h

  drain-kept : (target fuel : ℕ) (w : W dev now) → Q w → Q (drain dev now target fuel w)
  unfolding drain
  drain-kept target zero w h = h
  drain-kept target (suc fuel) w h =
      let w' = flush dev now (take target w.buffer) w in
      let k = flush-kept (take target w.buffer) w h in
      elim (Bool-cases (leb target (length w.buffer))) [
        | inr e ↦ rw e h
        | inl e ↦ elim (Bool-cases (is_running w'.thread)) [
          | inr g ↦ rw (e, g) k
          | inl g ↦
              rw (e, g)
                (drain-kept target fuel (record w' { buffer = drop target w.buffer })
                  (filled w' (drop target w.buffer) w'.last_arrival k))
        ]
      ]

  -- A round with frames.
  pub frame-kept :
      (arrived_at : ℕ) (raw : List ℕ) (w : W dev now)
      → Q w
      → Q (on_item dev now (some (arrived_at, raw)) w)
  unfolding on_item
  frame-kept arrived_at raw w h =
      let buffer = w.buffer ++ incoming dev now w arrived_at raw in
      drain-kept (chunk_byte_target dev.native_rate_hz dev.channels) (length buffer)
        (record w { buffer = buffer; last_arrival = some arrived_at })
        (filled w buffer (some arrived_at) h)

  -- Any round, where the return of the thread keeps it too.
  pub on_item-kept :
      ((w : W dev now) → Q w → Q (record w { buffer = []; thread = returned }))
      → (item : Option (ℕ × List ℕ)) (w : W dev now) → Q w
      → Q (on_item dev now item w)
  unfolding on_item
  on_item-kept quit none w h =
      let k = flush-kept w.buffer w h in
      elim (Bool-cases (is_running (flush dev now w.buffer w).thread)) [
        | inl e ↦ rw e (quit (flush dev now w.buffer w) k)
        | inr e ↦ rw e k
      ]
  on_item-kept quit (some (arrived_at, raw)) w h = frame-kept arrived_at raw w h

  pub run-kept :
      ((w : W dev now) → Q w → Q (record w { buffer = []; thread = returned }))
      → (items : List (Option (ℕ × List ℕ))) (w : W dev now) → Q w
      → Q (run dev now items w)
  unfolding run
  run-kept quit [] w h = h
  run-kept quit (item ∷ items) w h = elim (Bool-cases (is_running w.thread)) [
    | inl e ↦ rw e (run-kept quit items (on_item dev now item w) (on_item-kept quit item w h))
    | inr e ↦ rw e h
  ]
