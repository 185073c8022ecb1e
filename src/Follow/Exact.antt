-- ===== src/Follow/Exact.antt =====
-- What a client that follows a transcript is sent.
use ambient_recorder.Base.{
  ℕ, ◌+◌, ◌-◌, ◌≤◌, ◌≡◌, refl, ap, ap₂, sym, ◌∙◌, subst, false, Option, none, List, [], ◌++◌, arith,
  All, drop, take, max, length, drop-drop, drop-take, length-drop, length-take,
}
use ambient_recorder.Transcripts.Rows.{Transcript, TranscriptSegment, Db}
use ambient_recorder.Transcripts.Store.{ok, segments_after, get_transcript, get_job}
use ambient_recorder.Transcripts.Store.Seqs.{Numbered, IsNumbered}
use ambient_recorder.Stream.{StatusFrame}
use ambient_recorder.Follow.{
  Client, Event, is_terminal, replay, follow, send_status, status_of, stream_from,
  transcript_stream,
}
use ambient_recorder.Follow.Loop.{
  segs, event_segs, Quiet, next_of, replay-segs, replay-next, event-status, follow-segs,
  Numbered-read, Numbered-drop, Numbered-take, read_after,
}

zero_plus : (n : ℕ) → 0 + n ≡ n
zero_plus n = omega arith

unfolded :
    (t : Transcript) (after : Option ℕ) (stored current : Db) (es : List Event)
    → transcript_stream t after stored current es
      ≡ stream_from t after current es (segments_after stored t.id after)
unfolding transcript_stream
unfolded t after stored current es = refl

module _ (t : Transcript) (after : Option ℕ) (stored current last : Db) (es : List Event) (r p : ℕ)
    {segments : List TranscriptSegment} (num : IsNumbered stored) (num_last : IsNumbered last)
    (full : segments_after last t.id none ≡ ok segments)
    (early : segments_after stored t.id none ≡ ok (take r segments))
    (stored_le : r ≤ length segments) (queued : event_segs es ≡ drop p segments)
    (subscribed : p ≤ r)
    (running : is_terminal
        (status_of t.state (get_transcript current t.id) (get_job current t.id)).state
      ≡ false)
    (quiet : All Quiet es) where
  abbrev a : ℕ
  a = next_of after

  abbrev replayed : List TranscriptSegment
  replayed = drop a (take r segments)

  abbrev status_frame : StatusFrame
  status_frame = status_of t.state (get_transcript current t.id) (get_job current t.id)

  abbrev fresh_client : Client
  fresh_client = record { last_seq = after; sent = []; closed = false }

  abbrev at_tail : Client
  at_tail = send_status status_frame (replay replayed fresh_client)

  numbered : Numbered 0 segments
  numbered = Numbered-read last t.id num_last full

  Numbered-replayed : Numbered a replayed
  Numbered-replayed =
      subst (λ k. Numbered k replayed) (zero_plus a)
        (Numbered-drop 0 a (take r segments) (Numbered-take 0 r segments numbered))

  Numbered-events : Numbered p (event_segs es)
  Numbered-events = rw queued (
      subst (λ k. Numbered k (drop p segments)) (zero_plus p) (Numbered-drop 0 p segments numbered))

  replay-run : stream_from t after current es (ok replayed) ≡ follow es at_tail
  unfolding stream_from
  replay-run = refl

  stream-run : transcript_stream t after stored current es ≡ follow es at_tail
  stream-run =
      unfolded t after stored current es
      ∙ ap (stream_from t after current es) (read_after stored t.id after num early)
      ∙ replay-run

  segs-tail : segs at_tail.sent ≡ replayed
  segs-tail =
      event-status status_frame (replay replayed fresh_client) ∙ replay-segs replayed fresh_client

  next-tail : next_of at_tail.last_seq ≡ max a r
  next-tail = omega (
    arith,
    replay-next a replayed fresh_client Numbered-replayed refl,
    length-drop a (take r segments),
    length-take r segments stored_le,
  )

  tail-segs : drop (next_of at_tail.last_seq - p) (event_segs es) ≡ drop (max a r) segments
  tail-segs =
      ap (drop (next_of at_tail.last_seq - p)) queued
      ∙ drop-drop p (next_of at_tail.last_seq - p) segments
      ∙ ap (λ n. drop n segments) (omega (arith, next-tail))

  -- Numbered tables; those of the replay have the first `r` segments of the last ones, the queue loses no
  -- frame and holds every segment from number `p` ≤ `r` on, the transcript is not over at the status, and
  -- no event ends the run. Then the client is sent exactly what a read from its cursor returns of the
  -- last tables, each segment once and in order.
  pub transcript_stream-exact :
      segments_after last t.id after ≡ ok (segs (transcript_stream t after stored current es).sent)
  transcript_stream-exact =
      read_after last t.id after num_last full
      ∙ ap ok (
          sym (drop-take a r (max a r) segments refl)
          ∙ ap₂ ◌++◌ (sym segs-tail) (sym tail-segs)
          ∙ sym (follow-segs es at_tail p running quiet Numbered-events (omega (arith, next-tail)))
          ∙ ap (λ (c : Client). segs c.sent) (sym stream-run))
