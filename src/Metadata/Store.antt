-- ===== src/Metadata/Store.antt =====
-- `SqliteMetadataStore`. Each operation runs under the store's lock, in one transaction.
pub mod Active
pub mod Accounts
use mathlib.Core.List.{map}
use ambient_recorder.Base.{
  ℕ, ◌+◌, Bool, true, false, not, ◌&&◌, ◌||◌, ◌==◌, Option, none, some, List, [], ◌∷◌, ◌++◌, keep,
  find, any, take, ltb, leb, if◌then◌else◌, take, update_where, is_some,
}
use ambient_recorder.Base.Sort.{sort}
use ambient_recorder.Base.Text.{Text}
use ambient_recorder.Models.{SourceKind, mic, system}
use ambient_recorder.Metadata.Rows.{
  SessionStatus, SourceStatus, Session, CaptureSource, AudioChunk, SessionEvent, Meta, is_active,
  source_is_active, same_kind,
}

-- `ActiveSessionExistsError` with the session, and `sqlite3.IntegrityError`.
pub data Error : Type 0 where
  active_session_exists : ℕ → Error
  integrity_error : Error

pub data Result {ℓ} (A : Type ℓ) : Type ℓ where
  ok : A → Result A
  err : Error → Result A

abbrev pub has_id : ℕ → Session → Bool
has_id i s = s.id == i

abbrev pub session_active : Session → Bool
session_active s = is_active s.status

abbrev pub source_of : ℕ → SourceKind → CaptureSource → Bool
source_of i k s = (s.session_id == i) && same_kind s.kind k

abbrev pub chunk_of : ℕ → SourceKind → AudioChunk → Bool
chunk_of i k c = (c.session_id == i) && same_kind c.source_kind k

-- The primary key of `audio_chunks`.
abbrev pub same_chunk : AudioChunk → AudioChunk → Bool
same_chunk c d = chunk_of c.session_id c.source_kind d && (d.seq == c.seq)

abbrev pub exists_session : ℕ → Meta → Bool
exists_session i m = any (has_id i) m.sessions

-- The index `one_active`, and the key of `sessions`.
unfoldable pub insert_session : Meta → Session → Result Meta
insert_session m s =
    if exists_session s.id m
    then err integrity_error
    else if session_active s && any session_active m.sessions
    then err integrity_error
    else ok (record m { sessions = m.sessions ++ s ∷ [] })

unfoldable pub insert_sources : Result Meta → List CaptureSource → Result Meta
insert_sources (err e) sources = err e
insert_sources (ok m) [] = ok m
insert_sources (ok m) (s ∷ sources) =
    let rest =
      insert_sources (ok (record m { capture_sources = m.capture_sources ++ s ∷ [] })) sources in
    if any (source_of s.session_id s.kind) m.capture_sources || not (exists_session s.session_id m)
    then err integrity_error
    else rest

abbrev active_error : Option Session → Error
active_error none = integrity_error
active_error (some s) = active_session_exists s.id

-- The rows of the session and of its tracks, or none of them. Which constraint a message names is
-- read off the tables: a taken identifier comes first.
unfoldable pub create_active_session : Meta → Session → List CaptureSource → Result Meta
unfolding insert_session insert_sources
create_active_session m s sources =
    if not (exists_session s.id m) && session_active s && any session_active m.sessions
    then err (active_error (find session_active m.sessions))
    else insert_sources (insert_session m s) sources

abbrev pub count_chunk : CaptureSource → CaptureSource
count_chunk s = record s { chunk_count = s.chunk_count + 1 }

abbrev pub grow : ℕ → Session → Session
grow n s = record s { size_bytes = s.size_bytes + n }

-- `INSERT OR IGNORE`: a row that is there already is left as it is, and counted once.
unfoldable pub record_chunk : Meta → AudioChunk → Result Meta
record_chunk m c =
    if any (same_chunk c) m.audio_chunks
    then ok m
    else if not (exists_session c.session_id m)
    then err integrity_error
    else ok (record m {
      audio_chunks = m.audio_chunks ++ c ∷ [];
      capture_sources =
          update_where (source_of c.session_id c.source_kind) count_chunk m.capture_sources;
      sessions = update_where (has_id c.session_id) (grow c.size_bytes) m.sessions;
    })

unfoldable pub end_source : Meta → ℕ → SourceKind → SourceStatus → ℕ → Meta
end_source m i kind status ended_at = record m {
  capture_sources =
      update_where (λ s. source_of i kind s && source_is_active s.status)
        (λ s. record s { status = status; ended_at = some ended_at }) m.capture_sources;
}

unfoldable pub append_event : Meta → SessionEvent → Result Meta
append_event m e =
    if exists_session e.session_id m
    then ok (record m { session_events = m.session_events ++ e ∷ [] })
    else err integrity_error

unfoldable pub finalize_session : Meta → ℕ → SessionStatus → ℕ → ℕ → Meta
finalize_session m i status ended_at duration_s = record m {
  sessions =
      update_where (λ s. has_id i s && session_active s)
        (λ s. record s { status = status; ended_at = some ended_at; duration_s = some duration_s })
        m.sessions;
}

-- `ORDER BY started_at DESC, id DESC`
abbrev pub newer : Session → Session → Bool
newer a b = ltb b.started_at a.started_at || (b.started_at == a.started_at && leb b.id a.id)

unfoldable pub list_sessions : Meta → List Session
unfolding sort
list_sessions m = sort newer m.sessions

pub record SessionDetail : Type 0 where
  pub session : Session
  pub sources : List CaptureSource
  pub events : List SessionEvent

abbrev kind_le : CaptureSource → CaptureSource → Bool
kind_le a b = same_kind a.kind mic || same_kind b.kind system

abbrev at_le : SessionEvent → SessionEvent → Bool
at_le a b = leb a.at b.at

abbrev detail_of : Meta → Option Session → Option SessionDetail
detail_of m none = none
detail_of m (some s) = some (record {
  session = s;
  sources = sort kind_le (keep (λ x. x.session_id == s.id) m.capture_sources);
  events = sort at_le (keep (λ e. e.session_id == s.id) m.session_events);
})

unfoldable pub get_session : Meta → ℕ → Option SessionDetail
unfolding sort
get_session m i = detail_of m (find (has_id i) m.sessions)

unfoldable pub active_sessions : Meta → List Session
active_sessions m = keep session_active m.sessions

-- `capture_sources cs JOIN sessions s ON s.id = cs.session_id`
abbrev with_session : CaptureSource → Option Session → List (Session × CaptureSource)
with_session source none = []
with_session source (some s) = (s, source) ∷ []

abbrev joined : Meta → List CaptureSource → List (Session × CaptureSource)
joined m [] = []
joined m (x ∷ xs) = with_session x (find (has_id x.session_id) m.sessions) ++ joined m xs

-- A dictionary by track: of two rows of one track the later one stays.
abbrev device_of : SourceKind → List (Session × CaptureSource) → Option Text
device_of k [] = none
device_of k ((s, x) ∷ rows) = elim (device_of k rows) [
  | none ↦ if same_kind x.kind k then some x.device_id else none
  | some device ↦ some device
]

unfoldable pub last_device_ids : Meta → SourceKind → Option Text
unfolding sort
last_device_ids m k =
    device_of k (take 2 (sort (λ a b. newer a.0 b.0) (joined m m.capture_sources)))
