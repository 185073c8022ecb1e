-- ===== src/Attribution/Examples.antt =====
-- A small meeting: two seconds of both tracks, one segment on each. Tests, and the theorems at this
-- input.
use mathlib.Core.List.{Perm}
use ambient_recorder.Base.{
  ℕ, ◌+◌, ◌≡◌, refl, Option, none, some, List, [], ◌∷◌, map, ltb, suc, zero,
}
use ambient_recorder.Base.Text.{codes}
use ambient_recorder.Models.{SourceKind, mic, system}
use ambient_recorder.Attribution.Segment.{TimedSegment}
use ambient_recorder.Attribution.Energy.{
  Acoustics, EnergyBuffer, init, add, rms_db, covered_until, covers_start,
}
use ambient_recorder.Attribution.Twin.{find_twin}
use ambient_recorder.Attribution.Decide.{AttributionConfig, attribute}
use ambient_recorder.Attribution.Decide.Account.{placed, attribute-system, attribute-mic}

abbrev loudest : List ℕ → ℕ
loudest [] = 0
loudest (x ∷ xs) = x

abbrev meter : Acoustics
meter = record {
  Sample = ℕ;
  Db = ℕ;
  level = loudest;
  mean = loudest;
  clearly_louder = λ own other. ltb (other + 3) own;
}

tone : ℕ → ℕ → List ℕ
tone level zero = []
tone level (suc n) = level ∷ tone level n

buffer : EnergyBuffer ℕ
unfolding add init tone
buffer = add meter (add meter (init 4800000) mic 0 (tone 40 3200)) system 0 (tone 60 3200)

abbrev cfg : AttributionConfig
cfg = record { overlap_ratio = record { num = 3; den = 5 } }

abbrev hello : TimedSegment
hello = record { start_s = 160; end_s = 1600; text = codes "Hello there" }

abbrev reply : TimedSegment
reply = record { start_s = 1600; end_s = 3000; text = codes "Good to see you" }

abbrev heard : SourceKind → Option ℕ
heard k = some 3200

reply_alone : find_twin reply (hello ∷ []) cfg.overlap_ratio ≡ none
unfolding find_twin
reply_alone = refl

hello_twin :
    find_twin (record hello { text = codes "hello, there!" }) (hello ∷ []) cfg.overlap_ratio
    ≡ some (codes "Hello there")
unfolding find_twin
hello_twin = refl

mic_level : rms_db meter buffer mic 160 1600 ≡ some 40
unfolding rms_db buffer
mic_level = refl

mic_covered : covered_until buffer mic ≡ some 3200
unfolding covered_until buffer
mic_covered = refl

-- The bleed of `hello` on the microphone is dropped, and the words that are only there are kept.
bleed_test :
    map (λ a. a.text) (attribute meter (hello ∷ reply ∷ []) (hello ∷ []) buffer cfg heard).out
    ≡ codes "Hello there" ∷ codes "Good to see you" ∷ []
unfolding attribute buffer rms_db find_twin covered_until covers_start
bleed_test = refl

attribute-system_example :
    Perm (placed system (attribute meter (reply ∷ []) (hello ∷ []) buffer cfg heard)) (hello ∷ [])
attribute-system_example = attribute-system meter buffer cfg heard (reply ∷ []) (hello ∷ [])

attribute-mic_example :
    Perm (placed mic (attribute meter (reply ∷ []) (hello ∷ []) buffer cfg heard)) (reply ∷ [])
attribute-mic_example =
    attribute-mic meter buffer cfg heard (reply ∷ []) (hello ∷ []) (reply_alone, tt)
