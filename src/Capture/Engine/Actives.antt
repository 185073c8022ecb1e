-- ===== src/Capture/Engine/Actives.antt =====
-- The store's active sessions, as the engine's operations change them.
use mathlib.Core.List.{map-append}
use ambient_recorder.Base.{
  ℕ, ◌≡◌, refl, ap, ◌∙◌, arith, true, false, not, keep, keep-append, map, Option, List, [], ◌∷◌,
  ◌++◌, any, Bool-cases, inl, inr, ◌==◌, ◌&&◌, update_where,
}
use ambient_recorder.Metadata.Rows.{
  SessionStatus, Session, CaptureSource, AudioChunk, SessionEvent, Meta, is_active, is_valid_chunk,
}
use ambient_recorder.Metadata.Store.{
  ok, err, has_id, session_active, exists_session, insert_session, create_active_session,
  record_chunk, append_event, finalize_session,
}
use ambient_recorder.Metadata.Store.Active.{insert_session-added, from_sources, past_test}
use ambient_recorder.Metadata.Reconcile.Actives.{actives, record_chunk-actives, finalize-actives}
use ambient_recorder.Worker.State.{ChunkMeta}
use ambient_recorder.Capture.Writer.{
  Written, written, disk_full, os_error, Device, W, after_record, after_write, on_item, run,
  audio_chunk,
}
use ambient_recorder.Capture.Kept.{on_item-kept, run-kept}

module _ (dev : Device) (now : ℕ) (ids : List ℕ) where
  abbrev Keeps : W dev now → Type 0
  Keeps w = actives w.tables ≡ ids

  after_record-actives :
      (pcm : List dev.Sample) (meta : ChunkMeta) (c : AudioChunk) (w : W dev now)
      → Keeps w
      → Keeps (after_record dev now pcm meta (record_chunk w.tables c) w)
  after_record-actives pcm meta c w h =
      elim (record_chunk w.tables c)
          as (λ r. record_chunk w.tables c ≡ r → Keeps (after_record dev now pcm meta r w)) [
            | err x ↦ λ e. unfold after_record in h
            | ok m ↦ λ e. unfold after_record in record_chunk-actives w.tables m c e ∙ h
          ]
        refl

  after_write-actives :
      (pcm : List dev.Sample) (x : Written) (w : W dev now)
      → Keeps w
      → Keeps (after_write dev now pcm x w)
  unfolding after_write
  after_write-actives pcm disk_full w h = h
  after_write-actives pcm os_error w h = h
  after_write-actives pcm (written meta) w h =
      elim (Bool-cases (is_valid_chunk (audio_chunk w meta now))) [
        | inl e ↦ rw e (after_record-actives pcm meta (audio_chunk w meta now) w h)
        | inr e ↦ rw e h
      ]

  pub on_item-actives :
      (item : Option (ℕ × List ℕ)) (w : W dev now)
      → actives w.tables ≡ ids
      → actives (on_item dev now item w).tables ≡ ids
  on_item-actives =
      on_item-kept dev now Keeps (λ w b l h. h)
        (λ pcm w h. after_write-actives pcm (dev.write_chunk w.seq pcm) w h) (λ w h. h)

  pub run-actives :
      (items : List (Option (ℕ × List ℕ))) (w : W dev now)
      → actives w.tables ≡ ids
      → actives (run dev now items w).tables ≡ ids
  run-actives =
      run-kept dev now Keeps (λ w b l h. h)
        (λ pcm w h. after_write-actives pcm (dev.write_chunk w.seq pcm) w h) (λ w h. h)

exists_of_active :
    (i : ℕ) (xs : List Session)
    → map (λ s. s.id) (keep session_active xs) ≡ i ∷ []
    → any (has_id i) xs ≡ true
exists_of_active i [] h = absurd (ground arith)
exists_of_active i (x ∷ xs) h = ground (arith, exists_of_active i xs)

-- A session that is active is in the store.
pub actives-exists : (m : Meta) (i : ℕ) → actives m ≡ i ∷ [] → exists_session i m ≡ true
actives-exists m i h = exists_of_active i m.sessions h

any-finalised :
    (i j : ℕ) (to : Session → Session) (xs : List Session)
    → ((s : Session) → (to s).id ≡ s.id)
    → any (has_id i) (update_where (λ s. has_id j s && session_active s) to xs) ≡ any (has_id i) xs
any-finalised i j to [] h = refl
any-finalised i j to (x ∷ xs) h = ground (arith, h x, any-finalised i j to xs h)

pub finalize_session-exists :
    (m : Meta) (i j : ℕ) (status : SessionStatus) (now n : ℕ)
    → exists_session i (finalize_session m j status now n) ≡ exists_session i m
unfolding finalize_session
finalize_session-exists m i j status now n = any-finalised i j _ m.sessions (λ s. refl)

-- An event of a session that is there is added.
pub append_event-added :
    (m : Meta) (e : SessionEvent)
    → exists_session e.session_id m ≡ true
    → append_event m e ≡ ok (record m { session_events = m.session_events ++ e ∷ [] })
unfolding append_event
append_event-added m e h = rw h refl

IsOnly-keyed : (i : ℕ) → keep (λ j. not (j == i)) (i ∷ []) ≡ []
IsOnly-keyed i = ground arith

-- Of one active session that is finalised none is left.
pub finalize-none :
    (m : Meta) (i : ℕ) (status : SessionStatus) (now n : ℕ)
    → is_active status ≡ false
    → actives m ≡ i ∷ []
    → actives (finalize_session m i status now n) ≡ []
finalize-none m i status now n h a =
    finalize-actives m i status now n h ∙ ap (keep (λ j. not (j == i))) a ∙ IsOnly-keyed i

-- The session that is created is the only active one where none was.
pub create_active_session-actives :
    (m m' : Meta) (s : Session) (sources : List CaptureSource)
    → session_active s ≡ true
    → actives m ≡ []
    → create_active_session m s sources ≡ ok m'
    → actives m' ≡ s.id ∷ []
create_active_session-actives m m' s sources a none_active h =
    let source = from_sources (insert_session m s) m' sources (past_test m m' s sources h) in
    let added = insert_session-added m source.0 s source.1 in
    ap (λ xs. map (λ t. t.id) (keep session_active xs)) (source.2 ∙ added.0)
    ∙ ap (map (λ t. t.id)) (keep-append session_active m.sessions (s ∷ []))
    ∙ map-append (λ t. t.id) (keep session_active m.sessions) (keep session_active (s ∷ []))
    ∙ ap (λ z. z ++ map (λ t. t.id) (keep session_active (s ∷ []))) none_active
    ∙ rw a refl
