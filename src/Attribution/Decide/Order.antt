-- ===== src/Attribution/Decide/Order.antt =====
-- The order of what `attribute` emits.
use ambient_recorder.Base.{ℕ, ◌≡◌, refl, [], true, false, Option, List, arith}
use ambient_recorder.Base.Sort.{IsSorted, sort-IsSorted}
use ambient_recorder.Models.{SourceKind, mic, system, Speaker, me, them}
use ambient_recorder.Attribution.Segment.{TimedSegment, AttributedSegment, key_le, speaker_before}
use ambient_recorder.Attribution.Energy.{Acoustics, EnergyBuffer}
use ambient_recorder.Attribution.Decide.{AttributionConfig, Pass, decide, attribute}

speaker_total : (s t : Speaker) → speaker_before s t ≡ false → speaker_before t s ≡ true
speaker_total me t h = cc
speaker_total them me h = refl
speaker_total them them h = cc

speaker_trans :
    (s t u : Speaker)
    → speaker_before s t ≡ true
    → speaker_before t u ≡ true
    → speaker_before s u ≡ true
speaker_trans me t u h k = refl
speaker_trans them me u h k = cc
speaker_trans them them u h k = k

key_total : (a b : AttributedSegment) → key_le a b ≡ false → key_le b a ≡ true
key_total a b h = ground (arith, speaker_total a.source b.source)

key_trans : (a b c : AttributedSegment) → key_le a b ≡ true → key_le b c ≡ true → key_le a c ≡ true
key_trans a b c h k = ground (arith, speaker_trans a.source b.source c.source)

-- What is emitted is in the order of start times, and `me` before `them` at the same time.
pub attribute-IsSorted :
    (ac : Acoustics) (mic_segs system_segs : List TimedSegment) (energy : EnergyBuffer ac.Db)
    (cfg : AttributionConfig) (tu : SourceKind → Option ℕ)
    → IsSorted key_le (attribute ac mic_segs system_segs energy cfg tu).out
unfolding attribute
attribute-IsSorted ac ms ss energy cfg tu =
    let start : Pass = record { out = []; deferred_mic = []; deferred_system = [] } in
    let first = decide ac energy cfg tu mic ss ms start in
    sort-IsSorted key_le key_total key_trans (decide ac energy cfg tu system ms ss first).out
