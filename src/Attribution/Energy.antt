-- ===== src/Attribution/Energy.antt =====
-- `EnergyBuffer` of attribution.py: the loudness of each track in slots of 100 ms, over a rolling
-- window. Loudness itself is numpy's and `math`'s: the parameter `Acoustics`.
pub mod Window
use ambient_recorder.Base.{
  ℕ, zero, suc, ◌+◌, ◌-◌, ◌*◌, ◌/◌, ◌%◌, Bool, true, false, ◌&&◌, ◌||◌, not, Option, none, some,
  List, [], ◌∷◌, ◌++◌, map, ltb, leb, ◌==◌, if◌then◌else◌, length, take, drop,
}
use ambient_recorder.Models.{SourceKind, mic, system}

-- What the code computes with numpy and `math`: the dBFS of a block of samples, the mean of
-- loudnesses in the power domain, and `own_db - other_db > cfg.mic_louder_db`.
pub record Acoustics : Type 1 where
  pub Sample : Type 0
  pub Db : Type 0
  pub level : List Sample → Db
  pub mean : List Db → Db
  pub clearly_louder : Db → Db → Bool

-- `_RES_S`, and `per_slot`, in samples.
abbrev pub res : ℕ
res = 1600

pub record Track (Db : Type 0) : Type 0 where
  pub origin_s : Option ℕ
  pub slots : List (Option Db)

pub record EnergyBuffer (Db : Type 0) : Type 0 where
  pub max_slots : ℕ
  pub mic_track : Track Db
  pub system_track : Track Db

module _ {Db : Type 0} where
  abbrev pub track : EnergyBuffer Db → SourceKind → Track Db
  track b mic = b.mic_track
  track b system = b.system_track

  abbrev pub set_track : EnergyBuffer Db → SourceKind → Track Db → EnergyBuffer Db
  set_track b mic t = record b { mic_track = t }
  set_track b system t = record b { system_track = t }

  -- `EnergyBuffer(window_s)`; the default window is 300 s.
  unfoldable pub init : ℕ → EnergyBuffer Db
  init window_s = record {
    max_slots = window_s / res;
    mic_track = record { origin_s = none; slots = [] };
    system_track = record { origin_s = none; slots = [] };
  }

  -- `t.slots.append(None)`, as often as there are slots missing.
  unfoldable pub fill_gap : ℕ → List (Option Db) → List (Option Db)
  fill_gap zero slots = slots
  fill_gap (suc n) slots = fill_gap n (slots ++ none ∷ [])

  -- `while len(t.slots) > self._max_slots: popleft(); origin_s += _RES_S`
  unfoldable pub trim : ℕ → ℕ → List (Option Db) → Track Db
  trim limit origin [] = record { origin_s = some origin; slots = [] }
  trim limit origin (x ∷ xs) =
      if ltb limit (length (x ∷ xs))
      then trim limit (origin + res) xs
      else record { origin_s = some origin; slots = x ∷ xs }

-- `int(round(x / _RES_S))` of x ≥ 0: to the nearest, and to the even one from the middle.
unfoldable pub round_slots : ℕ → ℕ
round_slots x =
    let q = x / res in
    let r = x % res in if ltb r 800 then q else if ltb 800 r then q + 1 else q + q % 2

-- `max(0, gap)`
unfoldable pub gap_slots : ℕ → ℕ → ℕ
unfolding round_slots
gap_slots start_s expected = round_slots (start_s - expected)

abbrev pub get_origin : Option ℕ → ℕ → ℕ
get_origin none start_s = start_s
get_origin (some o) start_s = o

module _ (ac : Acoustics) where
  open ac use {Sample, Db, level, mean}

  -- The levels of the first `n` whole blocks.
  unfoldable pub levels : ℕ → List Sample → List (Option Db)
  levels zero samples = []
  levels (suc n) samples = some (level (take res samples)) ∷ levels n (drop res samples)

  unfoldable pub add_to : ℕ → Track Db → ℕ → List Sample → Track Db
  unfolding gap_slots fill_gap trim levels
  add_to limit t start_s samples =
      let n_slots = length samples / res in
      let origin = get_origin t.origin_s start_s in
      let expected = origin + length t.slots * res in
      let filled = fill_gap (gap_slots start_s expected) t.slots in
      trim limit origin (filled ++ levels n_slots samples)

  unfoldable pub add : EnergyBuffer Db → SourceKind → ℕ → List Sample → EnergyBuffer Db
  unfolding add_to
  add b k start_s samples = set_track b k (add_to b.max_slots (track b k) start_s samples)

  -- `None` if a value is `None`.
  unfoldable pub all_known : List (Option Db) → Option (List Db)
  all_known [] = some []
  all_known (none ∷ vs) = none
  all_known (some v ∷ vs) = elim (all_known vs) [ none ↦ none | some ws ↦ some (v ∷ ws) ]

  abbrev mean_of : Option (List Db) → Option Db
  mean_of none = none
  mean_of (some vs) = some (mean vs)

  -- A span that starts before the window has a negative `i0`.
  unfoldable pub rms_from : ℕ → List (Option Db) → ℕ → ℕ → Option Db
  unfolding all_known
  rms_from origin slots start_s end_s =
      let i0 = (start_s - origin) / res in
      let i1 = (end_s - origin + 1599) / res in
      if ltb start_s origin || ltb (length slots) i1 || leb i1 i0
      then none
      else mean_of (all_known (take (i1 - i0) (drop i0 slots)))

  unfoldable pub rms_db : EnergyBuffer Db → SourceKind → ℕ → ℕ → Option Db
  unfolding rms_from
  rms_db b k start_s end_s = elim ((track b k).origin_s) [
    | none ↦ none
    | some origin ↦ rms_from origin (track b k).slots start_s end_s
  ]

module _ {Db : Type 0} where
  unfoldable pub covered_until : EnergyBuffer Db → SourceKind → Option ℕ
  covered_until b k = elim ((track b k).origin_s) [
    | none ↦ none
    | some origin ↦ some (origin + length (track b k).slots * res)
  ]

  unfoldable pub covers_start : EnergyBuffer Db → SourceKind → ℕ → Bool
  covers_start b k start_s = elim ((track b k).origin_s) [
    | none ↦ false
    | some origin ↦ leb origin start_s
  ]
