-- ===== src/Worker/Live/Balance.antt =====
-- The count of a session's outstanding chunks, against the queue.
use mathlib.Core.Option.{some-injective}
use ambient_recorder.Base.{
  ℕ, ◌+◌, ◌≡◌, refl, ap, sym, ◌∙◌, arith, Bool, true, false, none, some, List, [], ◌∷◌, ◌==◌, keep,
  keep-append, length, length-append, Bool-cases, inl, inr,
}
use ambient_recorder.Models.{SourceKind}
use ambient_recorder.Worker.State.{
  ChunkMeta, LiveSession, Item, chunk, session_stopped, on_demand_step, shutdown, Queued, Worker,
  lookup, insert, remove, lookup-insert, lookup-remove,
}
use ambient_recorder.Worker.Live.{push, accept, stop, on_chunk, on_session_stopped}

abbrev pub asks_for : ℕ → Item → Bool
asks_for sid (chunk s kind meta) = s == sid
asks_for sid (session_stopped s) = false
asks_for sid (on_demand_step s tid) = false
asks_for sid shutdown = false

abbrev pub is_chunk_of : ℕ → Queued → Bool
is_chunk_of sid x = asks_for sid x.item

pub same_id : (k : ℕ) → (k == k) ≡ true
same_id k = ground arith

equal_of : (k j : ℕ) → (k == j) ≡ true → k ≡ j
equal_of k j h = ground arith

abbrev pub chunks_of : ℕ → List Queued → ℕ
chunks_of sid q = length (keep (is_chunk_of sid) q)

module _ {Sample Level : Type 0} where
  -- Each session's count is what `n` says of it.
  abbrev pub Counted : List (ℕ × LiveSession Sample Level) → (ℕ → ℕ) → Type 0
  Counted m n =
      (sid : ℕ) (live : LiveSession Sample Level)
      → lookup sid m ≡ some live
      → live.outstanding ≡ n sid

  -- Each live session counts its chunks in the queue.
  abbrev pub Balanced : Worker Sample Level → Type 0
  Balanced w = Counted w.live (λ sid. chunks_of sid w.q)

  pub insert-Counted :
      (k : ℕ) (v : LiveSession Sample Level) (m : List (ℕ × LiveSession Sample Level))
      (n n' : ℕ → ℕ)
      → ((j : ℕ) → (k == j) ≡ false → n j ≡ n' j)
      → v.outstanding ≡ n' k
      → Counted m n
      → Counted (insert k v m) n'
  insert-Counted k v m n n' same o c sid live = elim (Bool-cases (k == sid)) [
    | inl e ↦
        rw (lookup-insert k sid v m, e)
          (λ h.
            ap (λ x. x.outstanding) (sym (some-injective v live h)) ∙ o ∙ ap n' (equal_of k sid e))
    | inr e ↦ rw (lookup-insert k sid v m, e) (λ h. c sid live h ∙ same sid e)
  ]

  pub remove-Counted :
      (k : ℕ) (m : List (ℕ × LiveSession Sample Level)) (n n' : ℕ → ℕ)
      → ((j : ℕ) → (k == j) ≡ false → n j ≡ n' j)
      → Counted m n
      → Counted (remove k m) n'
  remove-Counted k m n n' same c sid live = elim (Bool-cases (k == sid)) [
    | inl e ↦ rw (lookup-remove k sid m, e) (λ h. absurd (ground arith))
    | inr e ↦ rw (lookup-remove k sid m, e) (λ h. c sid live h ∙ same sid e)
  ]

  pub absent-Counted :
      (k : ℕ) (m : List (ℕ × LiveSession Sample Level)) (n n' : ℕ → ℕ)
      → ((j : ℕ) → (k == j) ≡ false → n j ≡ n' j)
      → lookup k m ≡ none
      → Counted m n
      → Counted m n'
  absent-Counted k m n n' same a c sid live h = elim (Bool-cases (k == sid)) [
    | inl e ↦ absurd (absent (equal_of k sid e))
    | inr e ↦ c sid live h ∙ same sid e
  ]
    where
      absent : k ≡ sid → ⊥
      absent e = grind (arith, e, a, h)

  pub chunks_of-push :
      (sid : ℕ) (w : Worker Sample Level) (p : ℕ) (item : Item)
      → chunks_of sid (push w p item).q
        ≡ chunks_of sid w.q
          + chunks_of sid (record { priority = p; order = w.counter; item = item } ∷ [])
  unfolding push
  chunks_of-push sid w p item =
      ap length (keep-append (is_chunk_of sid) w.q _) ∙ length-append (keep (is_chunk_of sid) w.q) _

  pub chunks_of-push_other :
      (sid : ℕ) (w : Worker Sample Level) (p : ℕ) (item : Item)
      → asks_for sid item ≡ false
      → chunks_of sid w.q ≡ chunks_of sid (push w p item).q
  chunks_of-push_other sid w p item e = rw (chunks_of-push sid w p item, e) (omega arith)

  chunks_of-push_self :
      (sid : ℕ) (w : Worker Sample Level) (p : ℕ) (item : Item)
      → asks_for sid item ≡ true
      → chunks_of sid (push w p item).q ≡ chunks_of sid w.q + 1
  chunks_of-push_self sid w p item e = rw (chunks_of-push sid w p item, e) (omega arith)

  pushed :
      (w : Worker Sample Level) (p : ℕ) (item : Item)
      → Counted w.live (λ j. chunks_of j (push w p item).q)
      → Balanced (push w p item)
  unfolding push
  pushed w p item c = c

  -- A chunk that is announced is counted: the counts and the queue stay in step.
  pub on_chunk-Balanced :
      (w : Worker Sample Level) (session_id : ℕ) (kind : SourceKind) (meta : ChunkMeta)
      → Balanced w
      → Balanced (on_chunk w session_id kind meta)
  unfolding on_chunk
  on_chunk-Balanced w session_id kind meta b =
      elim (lookup session_id w.live)
          as (λ found.
            lookup session_id w.live ≡ found → Balanced (accept w session_id kind meta found)) [
              | none ↦ λ h. b
              | some live ↦ λ h.
                  let w' = record w {
                    live =
                        insert session_id (record live { outstanding = live.outstanding + 1 })
                          w.live;
                  } in
                  let asked = chunk session_id kind meta in
                  pushed w' 1 asked (
                    insert-Counted session_id (record live { outstanding = live.outstanding + 1 })
                      w.live (λ j. chunks_of j w.q) (λ j. chunks_of j (push w' 1 asked).q)
                      (λ j e. chunks_of-push_other j w' 1 asked e)
                      (ap (λ n. n + 1) (b session_id live h)
                        ∙ sym (chunks_of-push_self session_id w' 1 asked (same_id session_id)))
                      b)
            ]
        refl

  pub on_session_stopped-Balanced :
      (w : Worker Sample Level) (session_id : ℕ)
      → Balanced w
      → Balanced (on_session_stopped w session_id)
  unfolding on_session_stopped
  on_session_stopped-Balanced w session_id b =
      elim (lookup session_id w.live)
          as (λ found. lookup session_id w.live ≡ found → Balanced (stop w session_id found)) [
            | none ↦ λ h. b
            | some live ↦ λ h.
                let v = record live { stopping = true } in
                let w' = record w { live = insert session_id v w.live } in
                let asked = session_stopped session_id in
                pushed w' 1 asked (
                  insert-Counted session_id v w.live (λ j. chunks_of j w.q)
                    (λ j. chunks_of j (push w' 1 asked).q)
                    (λ j e. chunks_of-push_other j w' 1 asked refl)
                    (b session_id live h ∙ chunks_of-push_other session_id w' 1 asked refl) b)
          ]
        refl
