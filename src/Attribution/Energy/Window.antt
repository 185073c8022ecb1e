-- ===== src/Attribution/Energy/Window.antt =====
-- The rolling window of `EnergyBuffer`.
use ambient_recorder.Base.{
  ℕ, zero, suc, ◌+◌, ◌*◌, ◌/◌, ◌≤◌, ◌≡◌, refl, ap, ◌∙◌, true, Option, none, some, List, [], ◌∷◌,
  ◌++◌, arith, length, length-append, get_or_else, drop,
}
use ambient_recorder.Models.{SourceKind, mic, system, other_kind}
use ambient_recorder.Attribution.Energy.{
  Acoustics, Track, EnergyBuffer, track, res, gap_slots, fill_gap, trim, levels, add_to, add,
  rms_from, rms_db, covered_until, covers_start, get_origin,
}

module _ {Db : Type 0} where
  abbrev origin_of : Track Db → ℕ
  origin_of t = get_or_else 0 t.origin_s

  abbrev end_of : Track Db → ℕ
  end_of t = origin_of t + length t.slots * res

  length-fill_gap : (n : ℕ) (xs : List (Option Db)) → length (fill_gap n xs) ≡ length xs + n
  unfolding fill_gap
  length-fill_gap zero xs = omega arith
  length-fill_gap (suc n) xs =
      omega (arith, length-fill_gap n (xs ++ none ∷ []), length-append xs (none ∷ []))

  length-trim : (m o : ℕ) (xs : List (Option Db)) → length (trim m o xs).slots ≤ m
  unfolding trim
  length-trim m o [] = omega arith
  length-trim m o (x ∷ xs) = ground (arith, length-trim m (o + res) xs)

  -- Old slots go, and the end of the coverage stays where it is.
  trim-end : (m o : ℕ) (xs : List (Option Db)) → end_of (trim m o xs) ≡ o + length xs * res
  unfolding trim
  trim-end m o [] = refl
  trim-end m o (x ∷ xs) = ground (arith, trim-end m (o + res) xs)

  trim-origin :
      (m o : ℕ) (xs : List (Option Db)) → (trim m o xs).origin_s ≡ some (origin_of (trim m o xs))
  unfolding trim
  trim-origin m o [] = refl
  trim-origin m o (x ∷ xs) = ground (arith, trim-origin m (o + res) xs)

module _ (ac : Acoustics) where
  open ac use {Sample, Db}

  length-levels : (n : ℕ) (xs : List Sample) → length (levels ac n xs) ≡ n
  unfolding levels
  length-levels zero xs = refl
  length-levels (suc n) xs = omega (arith, length-levels n (drop res xs))

  -- The slots of a track stay within the window, whatever is added.
  pub length-add :
      (b : EnergyBuffer Db) (k : SourceKind) (start_s : ℕ) (samples : List Sample)
      → length (track (add ac b k start_s samples) k).slots ≤ b.max_slots
  unfolding add add_to
  length-add b mic s xs = length-trim _ _ _
  length-add b system s xs = length-trim _ _ _

  -- Adding to one track leaves the other alone.
  pub add-other :
      (b : EnergyBuffer Db) (k : SourceKind) (start_s : ℕ) (samples : List Sample)
      → track (add ac b k start_s samples) (other_kind k) ≡ track b (other_kind k)
  unfolding add
  add-other b mic s xs = refl
  add-other b system s xs = refl

  abbrev added : Track Db → ℕ → List Sample → ℕ
  added t s xs =
      let origin = get_origin t.origin_s s in
      origin
      + (length t.slots + gap_slots s (origin + length t.slots * res) + length xs / res) * res

  length-filled :
      (t : Track Db) (gap n : ℕ) (xs : List Sample)
      → length (fill_gap gap t.slots ++ levels ac n xs) ≡ length t.slots + gap + n
  length-filled t gap n xs = omega (
    arith,
    length-append (fill_gap gap t.slots) (levels ac n xs),
    length-fill_gap gap t.slots,
    length-levels n xs,
  )

  add_to-trim :
      (m : ℕ) (t : Track Db) (s : ℕ) (xs : List Sample)
      → let origin = get_origin t.origin_s s in
        let gap = gap_slots s (origin + length t.slots * res) in
        end_of (add_to ac m t s xs)
        ≡ origin + length (fill_gap gap t.slots ++ levels ac (length xs / res) xs) * res
  unfolding add_to
  add_to-trim m t s xs = trim-end m _ _

  add_to-end :
      (m : ℕ) (t : Track Db) (s : ℕ) (xs : List Sample) → end_of (add_to ac m t s xs) ≡ added t s xs
  add_to-end m t s xs =
      add_to-trim m t s xs ∙ ap (λ n. get_origin t.origin_s s + n * res) (length-filled t _ _ xs)

  add_to-origin :
      (m : ℕ) (t : Track Db) (s : ℕ) (xs : List Sample)
      → (add_to ac m t s xs).origin_s ≡ some (origin_of (add_to ac m t s xs))
  unfolding add_to
  add_to-origin m t s xs = trim-origin m _ _

  gap_slots_self : (s e : ℕ) → e ≡ s → gap_slots s e ≡ 0
  unfolding gap_slots
  gap_slots_self s e h = ground arith

  added-contiguous :
      (t : Track Db) (o s : ℕ) (xs : List Sample)
      → t.origin_s ≡ some o
      → o + length t.slots * res ≡ s
      → added t s xs ≡ s + length xs / res * res
  added-contiguous t o s xs h e =
      rw h (omega (arith, gap_slots_self s (o + length t.slots * res) e))

  -- A chunk that starts where the coverage of its track ends moves that end by the chunk's whole
  -- slots, also when the window drops old ones.
  pub covered_until-add :
      (b : EnergyBuffer Db) (k : SourceKind) (start_s : ℕ) (samples : List Sample)
      → covered_until b k ≡ some start_s
      → covered_until (add ac b k start_s samples) k ≡ some (start_s + length samples / res * res)
  unfolding add covered_until
  covered_until-add b mic s xs h = ground (
    arith,
    add_to-origin b.max_slots b.mic_track s xs,
    add_to-end b.max_slots b.mic_track s xs,
    added-contiguous b.mic_track (origin_of b.mic_track) s xs,
  )
  covered_until-add b system s xs h = ground (
    arith,
    add_to-origin b.max_slots b.system_track s xs,
    add_to-end b.max_slots b.system_track s xs,
    added-contiguous b.system_track (origin_of b.system_track) s xs,
  )

  -- A loudness is given only for a span that the window covers.
  pub rms_db-covered :
      (b : EnergyBuffer Db) (k : SourceKind) (start_s end_s : ℕ) {v : Db}
      → rms_db ac b k start_s end_s ≡ some v
      → (covers_start b k start_s ≡ true)
        × ((until : ℕ) × (covered_until b k ≡ some until) × (end_s ≤ until))
  unfolding rms_db rms_from covered_until covers_start
  rms_db-covered b k s e h = (ground arith, (end_of (track b k), ground arith, ground arith))
