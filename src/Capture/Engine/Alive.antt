-- ===== src/Capture/Engine/Alive.antt =====
-- The lanes of a session, while the chunk store stores what it is given or says that the disk is full.
use ambient_recorder.Base.{
  ℕ, ◌≡◌, refl, ap, ◌∙◌, arith, Bool, true, false, Option, some, List, [], ◌∷◌, ◌<◌, ◌≤◌,
}
use ambient_recorder.Metadata.Rows.{AudioChunk, Meta, is_valid_chunk}
use ambient_recorder.Metadata.Store.{Error, ok, err, record_chunk, exists_session}
use ambient_recorder.Metadata.Reconcile.Actives.{actives, record_chunk-actives}
use ambient_recorder.Worker.State.{ChunkMeta}
use ambient_recorder.Capture.Writer.{
  Written, written, disk_full, os_error, Device, Thread, running, returned, raised, W, after_record,
  after_write, on_item, run, audio_chunk,
}
use ambient_recorder.Capture.Kept.{frame-kept, run-kept}
use ambient_recorder.Capture.Engine.Actives.{actives-exists}

-- A chunk that the store has taken passes the validators of `AudioChunk`, and the disk may be full.
abbrev pub IsStored : Written → Type 0
IsStored (written meta) =
    (0 < meta.duration_s) × (meta.duration_s ≤ 160000) × (44 < meta.size_bytes)
IsStored disk_full = Unit
IsStored os_error = ⊥

abbrev pub IsReliable : Device → Type 0
IsReliable dev =
    (dev.dies_in_hand ≡ false)
    × ((seq : ℕ) (pcm : List dev.Sample) → IsStored (dev.write_chunk seq pcm))

-- The thread works, or has ended on its own account.
abbrev pub Lives : Thread → Bool → Type 0
Lives running ended = Unit
Lives returned ended = ended ≡ true
Lives raised ended = ⊥

record_chunk-never_err :
    (m : Meta) (c : AudioChunk) (x : Error)
    → exists_session c.session_id m ≡ true
    → ¬ (record_chunk m c ≡ err x)
unfolding record_chunk
record_chunk-never_err m c x h e = ground arith

module _ (dev : Device) (now i : ℕ) where
  -- The writer of an active session.
  abbrev pub IsAlive : W dev now → Type 0
  IsAlive w = (actives w.tables ≡ i ∷ []) × (w.session_id ≡ i) × Lives w.thread w.ended

  -- The same, where it was told to end.
  abbrev pub IsEnding : W dev now → Type 0
  IsEnding w = IsAlive w × (w.ended ≡ true)

  after_record-Alive :
      (pcm : List dev.Sample) (meta : ChunkMeta) (c : AudioChunk) (w : W dev now)
      → IsAlive w
      → c.session_id ≡ i
      → IsAlive (after_record dev now pcm meta (record_chunk w.tables c) w)
        × ((after_record dev now pcm meta (record_chunk w.tables c) w).ended ≡ w.ended)
  after_record-Alive pcm meta c w (a, own, l) e =
      let there = ap (λ j. exists_session j w.tables) e ∙ actives-exists w.tables i a in
      elim (record_chunk w.tables c)
          as (λ r.
            record_chunk w.tables c ≡ r
            → IsAlive (after_record dev now pcm meta r w)
              × ((after_record dev now pcm meta r w).ended ≡ w.ended)) [
                | err x ↦ λ q. absurd (record_chunk-never_err w.tables c x there q)
                | ok m ↦ λ q.
                    unfold after_record in ((record_chunk-actives w.tables m c q ∙ a, own, l), refl)
              ]
        refl

  valid :
      (meta : ChunkMeta) (w : W dev now)
      → IsStored (written meta)
      → is_valid_chunk (audio_chunk w meta now) ≡ true
  valid meta w h = unfold is_valid_chunk in ground (arith, h)

  after_write-Alive :
      (pcm : List dev.Sample) (x : Written) (w : W dev now)
      → IsStored x
      → IsAlive w
      → IsAlive (after_write dev now pcm x w)
        × (w.ended ≡ true → (after_write dev now pcm x w).ended ≡ true)
  unfolding after_write
  after_write-Alive pcm disk_full w st (a, own, l) = ((a, own, refl), λ e. refl)
  after_write-Alive pcm os_error w st h = absurd st
  after_write-Alive pcm (written meta) w st h =
      let kept = after_record-Alive pcm meta (audio_chunk w meta now) w h h.1 in
      rw (valid meta w st) (kept.0, λ e. kept.1 ∙ e)

module _ (dev : Device) (now i : ℕ) (reliable : IsReliable dev) where
  pub frame-Alive :
      (arrived_at : ℕ) (raw : List ℕ) (w : W dev now)
      → IsAlive dev now i w
      → IsAlive dev now i (on_item dev now (some (arrived_at, raw)) w)
  frame-Alive =
      frame-kept dev now (IsAlive dev now i) (λ w b l h. h)
        (λ pcm w h.
          (after_write-Alive dev now i pcm (dev.write_chunk w.seq pcm) w (reliable.1 w.seq pcm)
            h).0)

  pub run-Ending :
      (items : List (Option (ℕ × List ℕ))) (w : W dev now)
      → IsEnding dev now i w
      → IsEnding dev now i (run dev now items w)
  run-Ending =
      run-kept dev now (IsEnding dev now i) (λ w b l h. h)
        (λ pcm w h.
          let kept =
            after_write-Alive dev now i pcm (dev.write_chunk w.seq pcm) w (reliable.1 w.seq pcm)
              h.0 in
          (kept.0, kept.1 h.1))
        (λ w h. ((h.0.0, h.0.1, h.1), h.1))
