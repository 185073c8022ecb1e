-- ===== src/Models.antt =====
-- The enumerations of src/ambient_recorder/models/session.py and transcript.py.
use mathlib.Core.Bool.{Bool, true, false}

pub data SourceKind : Type 0 where
  mic system : SourceKind

pub data Speaker : Type 0 where
  me them : Speaker

-- `SourceKind.SYSTEM if own == SourceKind.MIC else SourceKind.MIC`
abbrev pub other_kind : SourceKind → SourceKind
other_kind mic = system
other_kind system = mic

-- `Speaker.ME if own == SourceKind.MIC else Speaker.THEM`
abbrev pub speaker_of : SourceKind → Speaker
speaker_of mic = me
speaker_of system = them

abbrev pub is_me : Speaker → Bool
is_me me = true
is_me them = false

abbrev pub is_them : Speaker → Bool
is_them me = false
is_them them = true
