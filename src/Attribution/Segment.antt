-- ===== src/Attribution/Segment.antt =====
-- The records and the configuration of attribution.py. Times are counted in samples of the 16 kHz
-- audio: one second is 16000.
use ambient_recorder.Base.{ℕ, ◌*◌, Bool, true, false, ltb, leb, ◌==◌, ◌&&◌, ◌||◌}
use ambient_recorder.Base.Text.{Text}
use ambient_recorder.Models.{Speaker, me, them}

-- A fraction with a positive denominator.
pub record Ratio : Type 0 where
  pub num : ℕ
  pub den : ℕ

-- `r >= q` and `r < q` of fractions.
abbrev pub at_least : Ratio → Ratio → Bool
at_least r q = leb (q.num * r.den) (r.num * q.den)

abbrev pub less_than : Ratio → Ratio → Bool
less_than r q = ltb (r.num * q.den) (q.num * r.den)

pub record TimedSegment : Type 0 where
  pub start_s : ℕ
  pub end_s : ℕ
  pub text : Text

pub record AttributedSegment : Type 0 where
  pub source : Speaker
  pub start_s : ℕ
  pub end_s : ℕ
  pub text : Text

-- The key `(s.start_s, s.source.value)`; "me" comes before "them".
abbrev pub speaker_before : Speaker → Speaker → Bool
speaker_before me s = true
speaker_before them me = false
speaker_before them them = true

abbrev pub key_le : AttributedSegment → AttributedSegment → Bool
key_le a b = ltb a.start_s b.start_s || (a.start_s == b.start_s && speaker_before a.source b.source)
