-- ===== src/Metadata/Rows.antt =====
-- The rows of storage/metadata.py, with the records of models/session.py that they hold.
use ambient_recorder.Base.{
  none, some, ◌∷◌, length, if◌then◌else◌, ℕ, Bool, true, false, ◌&&◌, Option, List, [], ltb, leb,
}
use ambient_recorder.Base.Text.{Text, strip}
use ambient_recorder.Models.{SourceKind, mic, system}

pub data SessionStatus : Type 0 where
  active completed interrupted : SessionStatus

pub data SourceStatus : Type 0 where
  active completed ended_device_lost : SourceStatus

pub data EventType : Type 0 where
  started stopped device_lost default_output_changed disk_low reconciled : EventType

pub record Session : Type 0 where
  pub id : ℕ
  pub title : Option Text
  pub status : SessionStatus
  pub started_at : ℕ
  pub ended_at : Option ℕ
  pub duration_s : Option ℕ
  pub size_bytes : ℕ
  pub dir_path : Text
  pub created_at : ℕ

pub record CaptureSource : Type 0 where
  pub session_id : ℕ
  pub kind : SourceKind
  pub device_id : Text
  pub device_label : Text
  pub native_rate_hz : ℕ
  pub persisted_format : Text
  pub status : SourceStatus
  pub ended_at : Option ℕ
  pub chunk_count : ℕ

pub record AudioChunk : Type 0 where
  pub session_id : ℕ
  pub source_kind : SourceKind
  pub seq : ℕ
  pub file_path : Text
  pub duration_s : ℕ
  pub size_bytes : ℕ
  pub written_at : ℕ

-- `detail` is the JSON text that is stored.
pub record SessionEvent : Type 0 where
  pub session_id : ℕ
  pub at : ℕ
  pub type_ : EventType
  pub detail : Text

-- The four tables, in the order of insertion.
pub record Meta : Type 0 where
  pub sessions : List Session
  pub capture_sources : List CaptureSource
  pub audio_chunks : List AudioChunk
  pub session_events : List SessionEvent

abbrev pub empty_meta : Meta
empty_meta = record { sessions = []; capture_sources = []; audio_chunks = []; session_events = [] }

abbrev pub is_active : SessionStatus → Bool
is_active SessionStatus.active = true
is_active _ = false

abbrev pub source_is_active : SourceStatus → Bool
source_is_active SourceStatus.active = true
source_is_active _ = false

abbrev pub same_kind : SourceKind → SourceKind → Bool
same_kind mic mic = true
same_kind system system = true
same_kind mic system = false
same_kind system mic = false

-- The validators of `AudioChunk`: more than no audio, at most ten seconds, more than a header.
unfoldable pub is_valid_chunk : AudioChunk → Bool
is_valid_chunk c = ltb 0 c.duration_s && leb c.duration_s 160000 && ltb 44 c.size_bytes

-- `title or None` of a text that is stripped.
abbrev or_none : Text → Option Text
or_none [] = none
or_none (c ∷ cs) = some (c ∷ cs)

-- The validator of a title: `none` is `ValueError`.
unfoldable pub strip_title : Option Text → Option (Option Text)
strip_title none = some none
strip_title (some v) =
    let title = strip v in if ltb 200 (length title) then none else some (or_none title)
