-- ===== src/Follow/Examples.antt =====
-- A client that joins a live transcript behind its first segment.
use ambient_recorder.Base.{ℕ, ◌+◌, ◌≡◌, refl, false, none, some, List, [], ◌∷◌, arith}
use ambient_recorder.Base.Text.{codes, strip}
use ambient_recorder.Models.{me}
use ambient_recorder.Transcripts.Rows.{
  Transcript, TranscriptSegment, TranscriptMode, TranscriptState, Db, validate,
}
use ambient_recorder.Transcripts.Store.{ok, segments_after, get_transcript}
use ambient_recorder.Transcripts.Store.Seqs.{IsNumbered}
use ambient_recorder.Stream.{segment}
use ambient_recorder.Follow.{refused, connect, Event, frame, timeout, transcript_stream}
use ambient_recorder.Follow.Loop.{segs}
use ambient_recorder.Follow.Exact.{transcript_stream-exact}

abbrev session : Transcript
session = record {
  id = 1;
  session_id = 7;
  mode = TranscriptMode.live;
  state = TranscriptState.live;
  final = false;
  engine = none;
  model = none;
  created_at = 0;
  finalised_at = none;
  failure_reason = none;
}

abbrev row : ℕ → TranscriptSegment
row n = record {
  transcript_id = 1;
  seq = n;
  source = me;
  start_s = n;
  end_s = n + 1;
  text = codes "ok";
}

abbrev early : Db
early = record { transcripts = session ∷ []; segments = row 0 ∷ row 1 ∷ []; jobs = [] }

abbrev later : Db
later = record early { segments = row 0 ∷ row 1 ∷ row 2 ∷ [] }

early-IsNumbered : IsNumbered early
early-IsNumbered i = ground arith

later-IsNumbered : IsNumbered later
later-IsNumbered i = ground arith

early_read : segments_after early 1 none ≡ ok (row 0 ∷ row 1 ∷ [])
unfolding segments_after validate strip
early_read = refl

later_read : segments_after later 1 none ≡ ok (row 0 ∷ row 1 ∷ row 2 ∷ [])
unfolding segments_after validate strip
later_read = refl

-- Segment 1 came between the subscription and the replay, so it stands in the queue too.
abbrev events : List Event
events =
    frame (segment (row 1))
    ∷ timeout (record { state = TranscriptState.live; lag_s = none; final = false })
    ∷ frame (segment (row 2))
    ∷ []

transcript_stream-exact_example :
    segments_after later 1 (some 0)
    ≡ ok (segs (transcript_stream session (some 0) early early events).sent)
transcript_stream-exact_example =
    transcript_stream-exact session (some 0) early early later events 2 1 early-IsNumbered
      later-IsNumbered later_read early_read (omega arith) refl (omega arith)
      (unfold get_transcript in refl) (tt, (refl, (tt, tt)))

-- A client of a session that is not there.
no_session :
    connect
      (record { sessions = []; capture_sources = []; audio_chunks = []; session_events = [] })
      early
      1
    ≡ refused 4404
unfolding connect
no_session = refl
