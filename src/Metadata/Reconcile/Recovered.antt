-- ===== src/Metadata/Reconcile/Recovered.antt =====
-- After a start that does not raise, no session is active.
use ambient_recorder.Base.{
  ℕ, ◌≡◌, refl, ap, sym, ◌∙◌, subst, arith, true, false, not, ◌==◌, List, [], ◌∷◌, max, keep, any,
  All, map, Bool-cases, inl, inr,
}
use ambient_recorder.Base.Text.{Text}
use ambient_recorder.Models.{SourceKind, mic, system}
use ambient_recorder.Metadata.Rows.{SessionStatus, Session, AudioChunk, Meta}
use ambient_recorder.Metadata.Store.{
  has_id, session_active, finalize_session, append_event, active_sessions,
}
use ambient_recorder.Metadata.Reconcile.{
  Run, record_found, record_all, found_chunk, close_source, close_session, reconciled_event,
  reconcile_one, reconcile_each, reconcile_interrupted, total,
}
use ambient_recorder.Worker.State.{ChunkMeta}
use ambient_recorder.Metadata.Reconcile.Actives.{
  actives, after-actives, append_event-actives, close_source-actives, finalize-actives,
}

record_found-raised :
    (c : AudioChunk) (r : Run) → r.raised ≡ true → (record_found c r).raised ≡ true
unfolding record_found
record_found-raised c r h = ground arith

record_all-raised :
    (i : ℕ) (kind : SourceKind) (now : ℕ) (cs : List ChunkMeta) (r : Run)
    → r.raised ≡ true
    → (record_all i kind now cs r).raised ≡ true
unfolding record_all
record_all-raised i kind now [] r h = h
record_all-raised i kind now (c ∷ cs) r h =
    record_all-raised i kind now cs (record_found (found_chunk i kind now c) r)
      (record_found-raised (found_chunk i kind now c) r h)

close_source-raised :
    (i : ℕ) (kind : SourceKind) (now : ℕ) (cs : List ChunkMeta) (r : Run)
    → r.raised ≡ true
    → (close_source i kind now cs r).raised ≡ true
unfolding close_source
close_source-raised i kind now cs r h = ground (arith, record_all-raised i kind now cs r h)

module _ (inventory : ℕ → SourceKind → List ChunkMeta) (dumps : ℕ → ℕ → Text) (now : ℕ) where
  close_session-raised :
      (i : ℕ) (r : Run) → r.raised ≡ true → (close_session inventory dumps now i r).raised ≡ true
  unfolding close_session
  close_session-raised i r h = ground arith

  reconcile_one-raised :
      (i : ℕ) (r : Run) → r.raised ≡ true → (reconcile_one inventory dumps now i r).raised ≡ true
  unfolding reconcile_one
  reconcile_one-raised i r h = close_session-raised i _ (
      close_source-raised i system now (inventory i system) _
        (close_source-raised i mic now (inventory i mic) r h))

  reconcile_each-raised :
      (ss : List Session) (r : Run)
      → r.raised ≡ true
      → (reconcile_each inventory dumps now ss r).raised ≡ true
  unfolding reconcile_each
  reconcile_each-raised [] r h = h
  reconcile_each-raised (s ∷ ss) r h =
      reconcile_each-raised ss (reconcile_one inventory dumps now s.id r)
        (reconcile_one-raised s.id r h)

  close_session-actives :
      (i : ℕ) (r : Run)
      → (close_session inventory dumps now i r).raised ≡ false
      → actives (close_session inventory dumps now i r).tables
        ≡ keep (λ j. not (j == i)) (actives r.tables)
  unfolding close_session
  close_session-actives i r = elim (Bool-cases r.raised) [
    | inl e ↦ rw e (λ q. absurd (ground arith))
    | inr e ↦
        let m =
          finalize_session r.tables i SessionStatus.interrupted now
            (max (total (inventory i mic)) (total (inventory i system))) in
        rw e (λ q.
          after-actives m m (append_event m (reconciled_event inventory dumps now i))
            (λ m'' h. append_event-actives m m'' _ h)
          ∙ finalize-actives r.tables i SessionStatus.interrupted now
              (max (total (inventory i mic)) (total (inventory i system))) refl)
  ]

  reconcile_one-actives :
      (i : ℕ) (r : Run)
      → (reconcile_one inventory dumps now i r).raised ≡ false
      → actives (reconcile_one inventory dumps now i r).tables
        ≡ keep (λ j. not (j == i)) (actives r.tables)
  unfolding reconcile_one
  reconcile_one-actives i r q =
      let a = close_source i mic now (inventory i mic) r in
      let b = close_source i system now (inventory i system) a in
      close_session-actives i b q
      ∙ ap (keep (λ j. not (j == i))) (
          close_source-actives i system now (inventory i system) a
          ∙ close_source-actives i mic now (inventory i mic) r)

abbrev Listed : List Session → ℕ → Type 0
Listed ss i = any (has_id i) ss ≡ true

Listed-fewer :
    (s : Session) (ss : List Session) (xs : List ℕ)
    → All (Listed (s ∷ ss)) xs
    → All (Listed ss) (keep (λ j. not (j == s.id)) xs)
Listed-fewer s ss [] h = tt
Listed-fewer s ss (x ∷ xs) h = ground (arith, Listed-fewer s ss xs h.1)

Listed-more :
    (s : Session) (ss : List Session) (xs : List ℕ) → All (Listed ss) xs → All (Listed (s ∷ ss)) xs
Listed-more s ss [] h = tt
Listed-more s ss (x ∷ xs) h = (ground (arith, h.0), Listed-more s ss xs h.1)

Listed-self : (ss : List Session) → All (Listed ss) (map (λ s. s.id) ss)
Listed-self [] = tt
Listed-self (s ∷ ss) = (ground arith, Listed-more s ss (map (λ x. x.id) ss) (Listed-self ss))

none-Listed : (xs : List Session) → All (Listed []) (map (λ s. s.id) xs) → xs ≡ []
none-Listed [] h = refl
none-Listed (x ∷ xs) h = absurd (ground (arith, h.0))

module _ (inventory : ℕ → SourceKind → List ChunkMeta) (dumps : ℕ → ℕ → Text) (now : ℕ) where
  settles :
      (ss : List Session) (r : Run)
      → (reconcile_each inventory dumps now ss r).raised ≡ false
      → All (Listed ss) (actives r.tables)
      → All (Listed []) (actives (reconcile_each inventory dumps now ss r).tables)
  unfolding reconcile_each
  settles [] r q h = h
  settles (s ∷ ss) r q h =
      let r' = reconcile_one inventory dumps now s.id r in
      elim (Bool-cases r'.raised) [
        | inl e ↦ absurd (grind (arith, reconcile_each-raised inventory dumps now ss r' e))
        | inr e ↦ settles ss r' q (
            subst (All (Listed ss)) (sym (reconcile_one-actives inventory dumps now s.id r e))
              (Listed-fewer s ss (actives r.tables) h))
      ]

  -- A start that does not raise leaves no session active.
  pub active_sessions-reconcile :
      (m : Meta)
      → (reconcile_interrupted inventory dumps now m).0.raised ≡ false
      → active_sessions (reconcile_interrupted inventory dumps now m).0.tables ≡ []
  unfolding reconcile_interrupted active_sessions
  active_sessions-reconcile m q = none-Listed _ (
      settles (keep session_active m.sessions) (record { tables = m; raised = false }) q
        (Listed-self (keep session_active m.sessions)))

  -- With no session active a start changes nothing, and the next start after one that does not raise
  -- is such a start.
  pub reconcile_interrupted-again :
      (m : Meta)
      → (reconcile_interrupted inventory dumps now m).0.raised ≡ false
      → reconcile_interrupted inventory dumps now
          (reconcile_interrupted inventory dumps now m).0.tables
        ≡ (
          record {
            tables = (reconcile_interrupted inventory dumps now m).0.tables;
            raised = false;
          },
          0,
        )
  reconcile_interrupted-again m q =
      quiet (reconcile_interrupted inventory dumps now m).0.tables (active_sessions-reconcile m q)
    where
      quiet :
          (m' : Meta)
          → active_sessions m' ≡ []
          → reconcile_interrupted inventory dumps now m'
            ≡ (record { tables = m'; raised = false }, 0)
      quiet m' e = unfold reconcile_interrupted reconcile_each in rw e refl
