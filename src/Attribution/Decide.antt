-- ===== src/Attribution/Decide.antt =====
-- `attribute` of attribution.py. Each candidate is emitted, deferred or dropped, and what is emitted
-- is sorted.
pub mod Account
pub mod Order
use ambient_recorder.Base.{
  ℕ, ◌+◌, Bool, true, false, ◌&&◌, ◌||◌, not, Option, none, some, List, [], ◌∷◌, ◌++◌, ltb,
  if◌then◌else◌, is_some,
}
use ambient_recorder.Base.Sort.{sort}
use ambient_recorder.Base.Text.{Text}
use ambient_recorder.Models.{SourceKind, mic, system, Speaker, other_kind, speaker_of}
use ambient_recorder.Attribution.Segment.{Ratio, TimedSegment, AttributedSegment, key_le}
use ambient_recorder.Attribution.Energy.{
  Acoustics, EnergyBuffer, rms_db, covered_until, covers_start,
}
use ambient_recorder.Attribution.Twin.{find_twin, trim_twin_edge}

-- `AttributionConfig`; `mic_louder_db` is part of `Acoustics.clearly_louder`.
pub record AttributionConfig : Type 0 where
  pub overlap_ratio : Ratio

-- What becomes of one candidate.
pub data Verdict : Type 0 where
  emit : Text → Verdict
  defer drop : Verdict

-- Python's truth of `str | None`.
abbrev pub truthy : Option Text → Bool
truthy none = false
truthy (some []) = false
truthy (some (c ∷ cs)) = true

abbrev later_than : Option ℕ → ℕ → Bool
later_than none t = false
later_than (some u) t = ltb t u

-- `other in tu and tu[other] < c.end_s - 0.5`
abbrev pub text_pending : Option ℕ → ℕ → Bool
text_pending none end_s = false
text_pending (some until) end_s = ltb (until + 8000) end_s

abbrev emit_remainder : Option Text → Verdict
emit_remainder none = drop
emit_remainder (some []) = drop
emit_remainder (some (c ∷ cs)) = emit (c ∷ cs)

-- Loudness is not known, and will not be: the text decides, on the mic's side only.
unfoldable pub judge_expired :
    AttributionConfig → SourceKind → List TimedSegment → TimedSegment → Verdict
judge_expired cfg mic others c =
    if truthy (find_twin c others cfg.overlap_ratio) then drop else emit c.text
judge_expired cfg system others c = emit c.text

unfoldable pub judge_twin : AttributionConfig → Bool → TimedSegment → Option Text → Verdict
judge_twin cfg own_louder c none = emit c.text
judge_twin cfg own_louder c (some twin_text) =
    if own_louder then emit_remainder (trim_twin_edge c.text twin_text cfg.overlap_ratio) else drop

-- Both loudnesses are known. The system's side always emits.
unfoldable pub judge_heard :
    AttributionConfig
    → (SourceKind → Option ℕ)
    → SourceKind
    → List TimedSegment
    → TimedSegment
    → Bool
    → Verdict
unfolding judge_twin
judge_heard cfg tu system others c own_louder = emit c.text
judge_heard cfg tu mic others c own_louder =
    if text_pending (tu system) c.end_s
    then defer
    else judge_twin cfg own_louder c (find_twin c others cfg.overlap_ratio)

module _ (ac : Acoustics) where
  open ac use {Db, clearly_louder}

  -- The window of one track has slid past the span.
  unfoldable pub slid_past : EnergyBuffer Db → TimedSegment → SourceKind → Bool
  slid_past energy c k =
      not (is_some (rms_db ac energy k c.start_s c.end_s))
      && later_than (covered_until energy k) (c.end_s + 3200)
      && not (covers_start energy k c.start_s)

  unfoldable pub expired : EnergyBuffer Db → TimedSegment → Bool
  unfolding slid_past
  expired energy c = slid_past energy c mic || slid_past energy c system

  unfoldable pub judge_from :
      EnergyBuffer Db
      → AttributionConfig
      → (SourceKind → Option ℕ)
      → SourceKind
      → List TimedSegment
      → TimedSegment
      → Option Db
      → Option Db
      → Verdict
  unfolding judge_heard judge_expired
  judge_from energy cfg tu own others c (some own_db) (some other_db) =
      judge_heard cfg tu own others c (clearly_louder own_db other_db)
  judge_from energy cfg tu own others c _ _ =
      if expired energy c then judge_expired cfg own others c else defer

  -- One round of the loop of `decide`.
  unfoldable pub judge :
      EnergyBuffer Db
      → AttributionConfig
      → (SourceKind → Option ℕ)
      → SourceKind
      → List TimedSegment
      → TimedSegment
      → Verdict
  unfolding judge_from
  judge energy cfg tu own others c =
      judge_from energy cfg tu own others c (rms_db ac energy own c.start_s c.end_s)
        (rms_db ac energy (other_kind own) c.start_s c.end_s)

-- `out` and `deferred`.
pub record Pass : Type 0 where
  pub out : List AttributedSegment
  pub deferred_mic : List TimedSegment
  pub deferred_system : List TimedSegment

abbrev pub deferred : Pass → SourceKind → List TimedSegment
deferred p mic = p.deferred_mic
deferred p system = p.deferred_system

abbrev append_deferred : SourceKind → TimedSegment → Pass → Pass
append_deferred mic c p = record p { deferred_mic = p.deferred_mic ++ c ∷ [] }
append_deferred system c p = record p { deferred_system = p.deferred_system ++ c ∷ [] }

abbrev pub attributed : Speaker → TimedSegment → Text → AttributedSegment
attributed s c t = record { source = s; start_s = c.start_s; end_s = c.end_s; text = t }

unfoldable pub settle : SourceKind → TimedSegment → Verdict → Pass → Pass
settle own c (emit t) p = record p { out = p.out ++ attributed (speaker_of own) c t ∷ [] }
settle own c defer p = append_deferred own c p
settle own c drop p = p

module _ (ac : Acoustics) where
  open ac use {Db}

  unfoldable pub decide :
      EnergyBuffer Db
      → AttributionConfig
      → (SourceKind → Option ℕ)
      → SourceKind
      → List TimedSegment
      → List TimedSegment
      → Pass
      → Pass
  unfolding settle judge
  decide energy cfg tu own others [] p = p
  decide energy cfg tu own others (c ∷ cs) p =
      decide energy cfg tu own others cs (settle own c (judge ac energy cfg tu own others c) p)

  unfoldable pub attribute :
      List TimedSegment
      → List TimedSegment
      → EnergyBuffer Db
      → AttributionConfig
      → (SourceKind → Option ℕ)
      → Pass
  unfolding decide sort
  attribute mic_segs system_segs energy cfg tu =
      let start : Pass = record { out = []; deferred_mic = []; deferred_system = [] } in
      let first = decide energy cfg tu mic system_segs mic_segs start in
      let last = decide energy cfg tu system mic_segs system_segs first in
      record last { out = sort key_le last.out }
