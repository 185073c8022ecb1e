-- ===== src/Follow.antt =====
-- `transcript_stream` of src/ambient_recorder/api/ws.py: a client that follows a transcript from a
-- cursor. The handler subscribes, replays the stored segments, and then follows its queue.
pub mod Loop
pub mod Exact
pub mod Answer
mod Examples
use ambient_recorder.Base.{
  ℕ, suc, ◌+◌, Bool, true, false, not, ◌&&◌, Option, none, some, List, [], ◌∷◌, ◌++◌, leb,
  if◌then◌else◌,
}
use ambient_recorder.Transcripts.Rows.{
  Transcript, TranscriptSegment, TranscriptionJob, TranscriptState, Db,
}
use ambient_recorder.Transcripts.Store.{
  Result, ok, err, get_transcript, get_job, segments_after, current_transcript, pending_transcript,
}
use ambient_recorder.Metadata.Rows.{Meta}
use ambient_recorder.Metadata.Store.{SessionDetail, get_session}
use ambient_recorder.Stream.{Frame, StatusFrame, segment, status}

-- The handler's local state: the last number, the frames sent, and whether the socket is closed.
pub record Client : Type 0 where
  pub last_seq : Option ℕ
  pub sent : List Frame
  pub closed : Bool

-- `_TERMINAL`
abbrev pub is_terminal : TranscriptState → Bool
is_terminal TranscriptState.completed = true
is_terminal TranscriptState.failed = true
is_terminal TranscriptState.interrupted_live = true
is_terminal _ = false

abbrev pub send : Frame → Client → Client
send f c = record c { sent = c.sent ++ f ∷ [] }

-- `for seg in store.segments_after(...)`
unfoldable pub replay : List TranscriptSegment → Client → Client
replay [] c = c
replay (s ∷ ss) c = replay ss (record c { last_seq = some s.seq; sent = c.sent ++ segment s ∷ [] })

-- A status frame, and the end of the socket on a terminal state.
abbrev pub send_status : StatusFrame → Client → Client
send_status f c = record c { sent = c.sent ++ status f ∷ []; closed = is_terminal f.state }

-- `frame.segment.seq <= last_seq`
abbrev pub already : Option ℕ → ℕ → Bool
already none seq = false
already (some last) seq = leb seq last

-- What a round of the loop gets: a frame from the queue, the publisher's end of the stream with the
-- stored state, or a timeout with the stored state.
pub data Event : Type 0 where
  frame : Frame → Event
  ended : TranscriptState → Bool → Event
  timeout : StatusFrame → Event

unfoldable pub on_event : Event → Client → Client
on_event (frame (segment s)) c =
    if already c.last_seq s.seq
    then c
    else record c { last_seq = some s.seq; sent = c.sent ++ segment s ∷ [] }
on_event (frame (status f)) c = send_status f c
on_event (ended state final) c = record c {
  sent = c.sent ++ status (record { state = state; lag_s = some 0; final = final }) ∷ [];
  closed = true;
}
on_event (timeout f) c = send_status f c

-- `while True`, over what the loop is given: it returns when the socket is closed.
unfoldable pub follow : List Event → Client → Client
unfolding on_event
follow [] c = c
follow (e ∷ es) c = let next = follow es (on_event e c) in if c.closed then c else next

abbrev lag_of : Option TranscriptionJob → Option ℕ
lag_of none = none
lag_of (some j) = j.lag_s

abbrev pub status_of : TranscriptState → Option Transcript → Option TranscriptionJob → StatusFrame
status_of state none job = record { state = state; lag_s = lag_of job; final = false }
status_of state (some t) job = record { state = t.state; lag_s = lag_of job; final = t.final }

-- The handler behind its replay read; a read that raises ends it.
unfoldable pub stream_from :
    Transcript → Option ℕ → Db → List Event → Result (List TranscriptSegment) → Client
unfolding replay follow get_transcript get_job
stream_from t after current es (err e) = record { last_seq = after; sent = []; closed = true }
stream_from t after current es (ok segs) =
    let replayed = replay segs (record { last_seq = after; sent = []; closed = false }) in
    follow es (
      send_status (status_of t.state (get_transcript current t.id) (get_job current t.id)) replayed)

-- The handler after `accept` and `subscribe`: `stored` are the tables at the replay, `current` at
-- the status behind it, and `es` what the loop is given.
unfoldable pub transcript_stream : Transcript → Option ℕ → Db → Db → List Event → Client
unfolding stream_from segments_after
transcript_stream t after stored current es =
    stream_from t after current es (segments_after stored t.id after)

-- Before `accept`: the code with which the socket is closed, or the transcript that is followed.
pub data Connection : Type 0 where
  refused : ℕ → Connection
  accepted : Transcript → Connection

abbrev accept_or : Option Transcript → Connection
accept_or none = refused 4409
accept_or (some t) = accepted t

abbrev pending_if : Option Transcript → Option Transcript → Option Transcript
pending_if none pending = pending
pending_if (some t) pending = some t

abbrev connect_with : Option SessionDetail → Option Transcript → Connection
connect_with none t = refused 4404
connect_with (some d) t = accept_or t

unfoldable pub connect : Meta → Db → ℕ → Connection
unfolding get_session current_transcript pending_transcript
connect meta db session_id =
    connect_with (get_session meta session_id)
      (pending_if (current_transcript db session_id) (pending_transcript db session_id))
