-- ===== src/Stream/Examples.antt =====
-- A subscription whose buffer is full.
use ambient_recorder.Base.{
  ℕ, zero, suc, ◌≡◌, refl, ap, true, false, Option, some, List, [], ◌∷◌, ◌++◌, arith, length, All,
}
use ambient_recorder.Transcripts.Rows.{TranscriptState}
use ambient_recorder.Stream.{Frame, status, Subscription, SegmentStream, close, deliver}
use ambient_recorder.Stream.Delivery.{Fits, close-Fits, deliver-gap, read, rest_of}

abbrev beat : ℕ → Frame
beat n = status (record { state = TranscriptState.live; lag_s = some n; final = false })

beats : ℕ → List (Option Frame)
beats zero = []
beats (suc n) = some (beat n) ∷ beats n

length-beats : (n : ℕ) → length (beats n) ≡ n
unfolding beats
length-beats zero = refl
length-beats (suc n) = ap suc (length-beats n)

abbrev slow : Subscription
slow = record { id = 0; transcript_id = 1; q = beats 2000; dropped = false; registered = true }

abbrev busy : SegmentStream
busy = record { subs = slow ∷ []; latest = [] }

slow-Fits : All Fits busy.subs
slow-Fits = (omega (arith, length-beats 2000), tt)

close-Fits_example : All Fits (close busy 1).subs
close-Fits_example = close-Fits busy 1 slow-Fits

deliver-gap_example :
    ((deliver (beat 1) slow).q ≡ slow.q)
    × ((deliver (beat 1) slow).registered ≡ true)
    × ((deliver (beat 2) (read (deliver (beat 1) slow))).q ≡ rest_of slow.q ++ some (beat 2) ∷ [])
deliver-gap_example = deliver-gap slow (beat 1) (beat 2) (length-beats 2000)
