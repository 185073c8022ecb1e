-- ===== src/Capture/Conserved.antt =====
-- No byte of the capture is lost between the frames and the chunks.
use mathlib.Core.List.{append-nil, append_assoc, map, map-append}
use ambient_recorder.Base.{
  ℕ, zero, suc, ◌+◌, ◌≤◌, ◌≡◌, refl, ap, sym, ◌∙◌, arith, true, not, List, [], ◌∷◌, ◌++◌, leb,
  length, take, drop, All, keep, keep-append, Bool-cases, inl, inr, length-append, length-take,
  length-drop,
}
use ambient_recorder.Attribution.Twin.{is_empty}
use ambient_recorder.Metadata.Rows.{is_valid_chunk, Meta}
use ambient_recorder.Metadata.Store.{Result, ok, err, record_chunk}
use ambient_recorder.Worker.State.{ChunkMeta}
use ambient_recorder.Capture.Writer.{
  Written, written, disk_full, os_error, Device, is_running, W, after_record, after_write,
  flush_pcm, flush, drain, audio_chunk,
}

abbrev pub concat {ℓ} : {A : Type ℓ} → List (List A) → List A
concat [] = []
concat (x ∷ xs) = x ++ concat xs

pub concat-append {ℓ} :
    {A : Type ℓ} → (xs ys : List (List A)) → concat (xs ++ ys) ≡ concat xs ++ concat ys
concat-append [] ys = refl
concat-append (x ∷ xs) ys =
    ap (λ z. x ++ z) (concat-append xs ys) ∙ sym (append_assoc x (concat xs) (concat ys))

abbrev pub numbered {ℓ} : {A : Type ℓ} → ℕ → List A → List (ℕ × A)
numbered n [] = []
numbered n (x ∷ xs) = (n, x) ∷ numbered (n + 1) xs

numbered-append {ℓ} :
    {A : Type ℓ}
    → (n : ℕ) (xs ys : List A)
    → numbered n (xs ++ ys) ≡ numbered n xs ++ numbered (n + length xs) ys
numbered-append n [] ys = ap (λ k. numbered k ys) (omega arith)
numbered-append n (x ∷ xs) ys =
    ap (λ z. (n, x) ∷ z)
      (numbered-append (n + 1) xs ys ∙ ap (λ k. numbered (n + 1) xs ++ numbered k ys) (omega arith))

pub plus_assoc : (a b c : ℕ) → a + b + c ≡ a + (b + c)
plus_assoc a b c = omega arith

take-drop {ℓ} : {A : Type ℓ} → (n : ℕ) (xs : List A) → take n xs ++ drop n xs ≡ xs
take-drop zero xs = refl
take-drop (suc n) [] = refl
take-drop (suc n) (x ∷ xs) = ap (λ z. x ∷ z) (take-drop n xs)

module _ (dev : Device) (now : ℕ) where
  -- What the blocks convert to; a conversion to nothing writes nothing.
  abbrev pub converted : List (List ℕ) → List (List dev.Sample)
  converted blocks = keep (λ pcm. not (is_empty pcm)) (map (λ b. dev.to_pcm16k_mono b) blocks)

  converted-append : (xs ys : List (List ℕ)) → converted (xs ++ ys) ≡ converted xs ++ converted ys
  converted-append xs ys =
      ap (keep (λ pcm. not (is_empty pcm))) (map-append (λ b. dev.to_pcm16k_mono b) xs ys)
      ∙ keep-append (λ pcm. not (is_empty pcm)) (map (λ b. dev.to_pcm16k_mono b) xs)
          (map (λ b. dev.to_pcm16k_mono b) ys)

  -- The blocks became the next chunks, under the next numbers.
  abbrev pub Stored : List (List ℕ) → W dev now → W dev now → Type 0
  Stored blocks w w' =
      (w'.chunks ≡ w.chunks ++ numbered w.seq (converted blocks))
      × (w'.seq ≡ w.seq + length (converted blocks))

  after_record-Stored :
      (pcm : List dev.Sample) (meta : ChunkMeta) (r : Result Meta) (w : W dev now)
      → is_running (after_record dev now pcm meta r w).thread ≡ true
      → ((after_record dev now pcm meta r w).chunks ≡ w.chunks ++ (w.seq, pcm) ∷ [])
        × ((after_record dev now pcm meta r w).seq ≡ w.seq + 1)
  unfolding after_record
  after_record-Stored pcm meta (err e) w h = absurd (ground arith)
  after_record-Stored pcm meta (ok m) w h = (refl, refl)

  after_write-Stored :
      (pcm : List dev.Sample) (meta : Written) (w : W dev now)
      → is_running (after_write dev now pcm meta w).thread ≡ true
      → ((after_write dev now pcm meta w).chunks ≡ w.chunks ++ (w.seq, pcm) ∷ [])
        × ((after_write dev now pcm meta w).seq ≡ w.seq + 1)
  unfolding after_write
  after_write-Stored pcm disk_full w = λ h. absurd (ground arith)
  after_write-Stored pcm os_error w = λ h. absurd (ground arith)
  after_write-Stored pcm (written meta) w =
      elim (Bool-cases (is_valid_chunk (audio_chunk w meta now))) [
        | inl e ↦
            rw e (after_record-Stored pcm meta (record_chunk w.tables (audio_chunk w meta now)) w)
        | inr e ↦ rw e (λ h. absurd (ground arith))
      ]

  flush_pcm-Stored :
      (pcm : List dev.Sample) (w : W dev now)
      → is_running (flush_pcm dev now pcm w).thread ≡ true
      → ((flush_pcm dev now pcm w).chunks
          ≡ w.chunks ++ numbered w.seq (keep (λ p. not (is_empty p)) (pcm ∷ [])))
        × ((flush_pcm dev now pcm w).seq ≡ w.seq + length (keep (λ p. not (is_empty p)) (pcm ∷ [])))
  unfolding flush_pcm
  flush_pcm-Stored [] w h = (sym (append-nil w.chunks), omega arith)
  flush_pcm-Stored (x ∷ pcm) w h =
      after_write-Stored (x ∷ pcm) (dev.write_chunk w.seq (x ∷ pcm)) w h

  Stored-flush :
      (b : ℕ) (native : List ℕ) (w : W dev now)
      → is_running (flush dev now (b ∷ native) w).thread ≡ true
      → Stored ((b ∷ native) ∷ []) w (flush dev now (b ∷ native) w)
  unfolding flush
  Stored-flush b native w h = flush_pcm-Stored (dev.to_pcm16k_mono (b ∷ native)) w h

  pub Stored-none : (w : W dev now) → Stored [] w w
  Stored-none w = (sym (append-nil w.chunks), omega arith)

  pub Stored-then :
      (xs ys : List (List ℕ)) (a b c : W dev now)
      → Stored xs a b
      → Stored ys b c
      → Stored (xs ++ ys) a c
  Stored-then xs ys a b c h k = (
    k.0
        ∙ ap (λ n. b.chunks ++ numbered n (converted ys)) h.1
        ∙ ap (λ z. z ++ numbered (a.seq + length (converted xs)) (converted ys)) h.0
        ∙ append_assoc a.chunks (numbered a.seq (converted xs))
            (numbered (a.seq + length (converted xs)) (converted ys))
        ∙ ap (λ z. a.chunks ++ z) (sym (numbered-append a.seq (converted xs) (converted ys)))
        ∙ ap (λ z. a.chunks ++ numbered a.seq z) (sym (converted-append xs ys)),
    k.1
        ∙ ap (λ n. n + length (converted ys)) h.1
        ∙ plus_assoc a.seq (length (converted xs)) (length (converted ys))
        ∙ ap (λ n. a.seq + n) (sym (length-append (converted xs) (converted ys)))
        ∙ ap (λ z. a.seq + length z) (sym (converted-append xs ys)),
  )

  Stored-block :
      (native : List ℕ) (w : W dev now)
      → 1 ≤ length native
      → is_running (flush dev now native w).thread ≡ true
      → Stored (native ∷ []) w (flush dev now native w)
  Stored-block [] w l = absurd (omega arith)
  Stored-block (b ∷ native) w l = Stored-flush b native w

  -- What was in the buffer is in whole blocks, which are stored, and in the rest of the buffer.
  abbrev pub Drained : ℕ → W dev now → W dev now → Type 0
  Drained target w w' =
      (blocks : List (List ℕ)) × (w.buffer ≡ concat blocks ++ w'.buffer)
      × Stored blocks w w'
      × All (λ b. length b ≡ target) blocks
      × (length w'.buffer + 1 ≤ target)

  pub drain-Drained :
      (target fuel : ℕ) (w : W dev now)
      → 1 ≤ target
      → length w.buffer ≤ fuel
      → is_running (drain dev now target fuel w).thread ≡ true
      → Drained target w (drain dev now target fuel w)
  unfolding drain
  drain-Drained target zero w t f = λ h. ([], refl, Stored-none w, tt, omega arith)
  drain-Drained target (suc fuel) w t f =
      let block = take target w.buffer in
      let w' = flush dev now block w in
      let next = record w' { buffer = drop target w.buffer } in
      elim (Bool-cases (leb target (length w.buffer))) [
        | inr e ↦ rw e (λ h. ([], refl, Stored-none w, tt, ground (arith, e)))
        | inl e ↦ elim (Bool-cases (is_running w'.thread)) [
          | inr g ↦ rw (e, g) (λ h. absurd (grind (arith, h, g)))
          | inl g ↦
              rw (e, g)
                (λ h.
                  let full = length-take target w.buffer (ground (arith, e)) in
                  let rest =
                    drain-Drained target fuel next t
                      (omega (arith, length-drop target w.buffer, f, t)) h in
                  (
                    block ∷ rest.0,
                    sym (take-drop target w.buffer)
                        ∙ ap (λ z. block ++ z) rest.1
                        ∙ sym (append_assoc block (concat rest.0) _),
                    Stored-then (block ∷ []) rest.0 w next (drain dev now target fuel next)
                        (Stored-block block w (omega arith) g) rest.2,
                    (full, rest.3),
                    rest.4,
                  ))
        ]
      ]
