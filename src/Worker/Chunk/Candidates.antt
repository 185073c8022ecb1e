-- ===== src/Worker/Chunk/Candidates.antt =====
-- What the candidates of a window are.
use ambient_recorder.Base.{
  ℕ, ◌+◌, ◌≤◌, ◌≡◌, arith, Bool, true, false, ◌||◌, List, [], ◌∷◌, All, Bool-cases, inl, inr, ◌<◌,
  ◌*◌, ◌-◌, ◌⊎◌,
}
use ambient_recorder.Attribution.Segment.{TimedSegment}
use ambient_recorder.Worker.State.{RawSegment}
use ambient_recorder.Worker.Chunk.{candidates, placed_at, is_old, straddles, is_reread}

-- A candidate says something, ends after what was emitted, ends within the chunk unless the session
-- is stopping, and lies for the most part after what was emitted.
abbrev pub IsNew : ℕ → ℕ → Bool → TimedSegment → Type 0
IsNew emitted_until chunk_end stopping c =
    ¬ (c.text ≡ [])
    × (emitted_until + 16 < c.end_s)
    × ((c.end_s + 800 ≤ chunk_end) ⊎ (stopping ≡ true))
    × ((emitted_until ≤ c.start_s) ⊎ (2 * (emitted_until - c.start_s) < c.end_s - c.start_s))

IsNew-of :
    (emitted_until chunk_end : ℕ) (stopping : Bool) (c : TimedSegment)
    → (is_old emitted_until c || straddles chunk_end stopping c || is_reread emitted_until c)
      ≡ false
    → IsNew emitted_until chunk_end stopping c
IsNew-of emitted_until chunk_end stopping c h =
    (ground arith, ground arith, ground arith, ground arith)

pub candidates-IsNew :
    (window_start emitted_until chunk_end : ℕ) (stopping : Bool) (raw : List RawSegment)
    → All
        (IsNew emitted_until chunk_end stopping)
        (candidates window_start emitted_until chunk_end stopping raw)
unfolding candidates
candidates-IsNew w u e b [] = tt
candidates-IsNew w u e b (r ∷ rs) =
    let s = placed_at w r in
    let rest = candidates-IsNew w u e b rs in
    elim (Bool-cases (is_old u s || straddles e b s || is_reread u s)) [
      | inl h ↦ rw h rest
      | inr h ↦ rw h (IsNew-of u e b s h, rest)
    ]
