-- ===== src/Metadata/Reconcile/Actives.antt =====
-- What each part of a start does to the active sessions.
use ambient_recorder.Base.{
  ℕ, ◌≡◌, refl, ◌∙◌, arith, false, not, ◌&&◌, ◌==◌, List, [], ◌∷◌, keep, map, update_where,
  Bool-cases, inl, inr,
}
use ambient_recorder.Models.{SourceKind}
use ambient_recorder.Metadata.Rows.{
  SessionStatus, SourceStatus, Session, AudioChunk, SessionEvent, Meta, is_active, is_valid_chunk,
}
use ambient_recorder.Metadata.Store.{
  Result, ok, err, has_id, session_active, record_chunk, grow, end_source, finalize_session,
  append_event,
}
use ambient_recorder.Metadata.Reconcile.{
  Run, after, record_found, record_all, found_chunk, close_source,
}
use ambient_recorder.Worker.State.{ChunkMeta}

-- The identifiers of the active sessions.
abbrev pub actives : Meta → List ℕ
actives m = map (λ s. s.id) (keep session_active m.sessions)

grown :
    (i n : ℕ) (xs : List Session)
    → map (λ s. s.id) (keep session_active (update_where (has_id i) (grow n) xs))
      ≡ map (λ s. s.id) (keep session_active xs)
grown i n [] = refl
grown i n (x ∷ xs) = ground (arith, grown i n xs)

pub after-actives :
    (m m' : Meta) (r : Result Meta)
    → ((m'' : Meta) → r ≡ ok m'' → actives m'' ≡ actives m)
    → actives (after m r).tables ≡ actives m
after-actives m m' (err e) h = refl
after-actives m m' (ok x) h = h x refl

pub record_chunk-actives :
    (m m' : Meta) (c : AudioChunk) → record_chunk m c ≡ ok m' → actives m' ≡ actives m
unfolding record_chunk
record_chunk-actives m m' c h = ground (arith, grown c.session_id c.size_bytes m.sessions)

pub append_event-actives :
    (m m' : Meta) (e : SessionEvent) → append_event m e ≡ ok m' → actives m' ≡ actives m
unfolding append_event
append_event-actives m m' e h = ground arith

record_found-actives :
    (c : AudioChunk) (r : Run) → actives (record_found c r).tables ≡ actives r.tables
unfolding record_found
record_found-actives c r = elim (Bool-cases r.raised) [
  | inl e ↦ rw e refl
  | inr e ↦ elim (Bool-cases (is_valid_chunk c)) [
    | inl v ↦
        rw (e, v)
          (after-actives r.tables r.tables (record_chunk r.tables c)
            (λ m'' h. record_chunk-actives r.tables m'' c h))
    | inr v ↦ rw (e, v) refl
  ]
]

record_all-actives :
    (i : ℕ) (kind : SourceKind) (now : ℕ) (cs : List ChunkMeta) (r : Run)
    → actives (record_all i kind now cs r).tables ≡ actives r.tables
unfolding record_all
record_all-actives i kind now [] r = refl
record_all-actives i kind now (c ∷ cs) r =
    record_all-actives i kind now cs (record_found (found_chunk i kind now c) r)
    ∙ record_found-actives (found_chunk i kind now c) r

pub close_source-actives :
    (i : ℕ) (kind : SourceKind) (now : ℕ) (cs : List ChunkMeta) (r : Run)
    → actives (close_source i kind now cs r).tables ≡ actives r.tables
unfolding close_source end_source
close_source-actives i kind now cs r = elim (Bool-cases (record_all i kind now cs r).raised) [
  | inl e ↦ rw e (record_all-actives i kind now cs r)
  | inr e ↦ rw e (record_all-actives i kind now cs r)
]

finalised :
    (i : ℕ) (to : Session → Session) (xs : List Session)
    → ((s : Session) → session_active (to s) ≡ false)
    → map
        (λ s. s.id)
        (keep session_active (update_where (λ s. has_id i s && session_active s) to xs))
      ≡ keep (λ j. not (j == i)) (map (λ s. s.id) (keep session_active xs))
finalised i to [] h = refl
finalised i to (x ∷ xs) h = ground (arith, h x, finalised i to xs h)

pub finalize-actives :
    (m : Meta) (i : ℕ) (status : SessionStatus) (now n : ℕ)
    → is_active status ≡ false
    → actives (finalize_session m i status now n) ≡ keep (λ j. not (j == i)) (actives m)
unfolding finalize_session
finalize-actives m i status now n h = finalised i _ m.sessions (λ s. h)

pub end_source-actives :
    (m : Meta) (i : ℕ) (kind : SourceKind) (status : SourceStatus) (now : ℕ)
    → actives (end_source m i kind status now) ≡ actives m
unfolding end_source
end_source-actives m i kind status now = refl
