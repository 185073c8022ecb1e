-- ===== src/Stream.antt =====
-- src/ambient_recorder/transcription/stream.py: the publishers' side of the live streams. A
-- subscription is an object that the registry and its reader share: it is kept here after the
-- registry forgot it.
pub mod Delivery
mod Examples
use ambient_recorder.Base.{
  ℕ, ◌+◌, Bool, true, false, not, ◌&&◌, Option, none, some, List, [], ◌∷◌, ◌++◌, map, ltb, ◌==◌,
  if◌then◌else◌, length, find,
}
use ambient_recorder.Transcripts.Rows.{TranscriptSegment, TranscriptState}

pub record StatusFrame : Type 0 where
  pub state : TranscriptState
  pub lag_s : Option ℕ
  pub final : Bool

pub data Frame : Type 0 where
  segment : TranscriptSegment → Frame
  status : StatusFrame → Frame

-- `_MAX_BUFFER`
abbrev pub max_buffer : ℕ
max_buffer = 2000

-- In the queue `none` is `_CLOSE`.
pub record Subscription : Type 0 where
  pub id : ℕ
  pub transcript_id : ℕ
  pub q : List (Option Frame)
  pub dropped : Bool
  pub registered : Bool

pub record SegmentStream : Type 0 where
  pub subs : List Subscription
  pub latest : List (ℕ × StatusFrame)

unfoldable pub subscribe : SegmentStream → ℕ → Subscription × SegmentStream
subscribe st tid =
    let sub : Subscription = record {
      id = length st.subs;
      transcript_id = tid;
      q = [];
      dropped = false;
      registered = true;
    } in
    (sub, record st { subs = st.subs ++ sub ∷ [] })

abbrev drop_out : ℕ → Subscription → Subscription
drop_out i s = if s.id == i then record s { registered = false } else s

unfoldable pub unsubscribe : SegmentStream → ℕ → SegmentStream
unsubscribe st i = record st { subs = map (drop_out i) st.subs }

unfoldable pub latest_status : SegmentStream → ℕ → Option StatusFrame
latest_status st tid = elim (find (λ p. p.0 == tid) st.latest) [ none ↦ none | some p ↦ some p.1 ]

-- `put_nowait`; `none` is `queue.Full`.
unfoldable pub put_nowait : Subscription → Option Frame → Option Subscription
put_nowait s f = if ltb (length s.q) max_buffer then some (record s { q = s.q ++ f ∷ [] }) else none

-- `_close_sub`: the mark is lost where the queue is full.
unfoldable pub close_sub : Subscription → Subscription
unfolding put_nowait
close_sub s = elim (put_nowait s none) [ none ↦ s | some s' ↦ s' ]

-- One round of the loop of `publish`.
unfoldable pub deliver : Frame → Subscription → Subscription
unfolding put_nowait close_sub
deliver f s = elim (put_nowait s (some f)) [
  | none ↦ close_sub (record s { dropped = true })
  | some s' ↦ s'
]

abbrev pub listens : ℕ → Subscription → Bool
listens tid s = s.registered && (s.transcript_id == tid)

abbrev note_status : ℕ → Frame → List (ℕ × StatusFrame) → List (ℕ × StatusFrame)
note_status tid (segment s) latest = latest
note_status tid (status f) latest = (tid, f) ∷ latest

unfoldable pub publish : SegmentStream → ℕ → Frame → SegmentStream
unfolding deliver
publish st tid f = record {
  subs = map (λ s. if listens tid s then deliver f s else s) st.subs;
  latest = note_status tid f st.latest;
}

-- `close`: the subscriptions of the transcript leave the registry, with a mark at their end.
unfoldable pub close : SegmentStream → ℕ → SegmentStream
unfolding close_sub
close st tid = record st {
  subs =
      map (λ s. if listens tid s then close_sub (record s { registered = false }) else s) st.subs;
}
