-- ===== src/Stream/Delivery.antt =====
-- Who gets what is published.
use ambient_recorder.Base.{
  ℕ, ◌≤◌, ◌<◌, ◌≡◌, refl, ap, true, false, Option, none, some, List, [], ◌∷◌, ◌++◌, map, arith,
  if◌then◌else◌, length, length-append, All, Bool-cases, inl, inr,
}
use ambient_recorder.Stream.{
  Frame, Subscription, SegmentStream, max_buffer, publish, close, deliver, close_sub, put_nowait,
  listens,
}

abbrev pub Fits : Subscription → Type 0
Fits s = length s.q ≤ max_buffer

close_sub-Fits : (s : Subscription) → Fits s → Fits (close_sub s)
unfolding close_sub put_nowait
close_sub-Fits s h = ground (arith, length-append s.q (none ∷ []))

deliver-Fits : (f : Frame) (s : Subscription) → Fits s → Fits (deliver f s)
unfolding deliver put_nowait close_sub
deliver-Fits f s h = ground (arith, length-append s.q (some f ∷ []))

All-map :
    (f : Subscription → Subscription) (ss : List Subscription)
    → ((s : Subscription) → Fits s → Fits (f s))
    → All Fits ss
    → All Fits (map f ss)
All-map f [] h k = tt
All-map f (s ∷ ss) h k = (h s k.0, All-map f ss h k.1)

-- The buffers stay within their bound, whatever is published or closed.
pub publish-Fits :
    (st : SegmentStream) (tid : ℕ) (f : Frame) → All Fits st.subs → All Fits (publish st tid f).subs
unfolding publish
publish-Fits st tid f h =
    All-map (λ s. if listens tid s then deliver f s else s) st.subs
      (λ s k. elim (Bool-cases (listens tid s)) [
        | inl e ↦ rw e (deliver-Fits f s k)
        | inr e ↦ rw e k
      ])
      h

pub close-Fits : (st : SegmentStream) (tid : ℕ) → All Fits st.subs → All Fits (close st tid).subs
unfolding close
close-Fits st tid h =
    All-map (λ s. if listens tid s then close_sub (record s { registered = false }) else s) st.subs
      (λ s k. elim (Bool-cases (listens tid s)) [
        | inl e ↦ rw e (close_sub-Fits (record s { registered = false }) k)
        | inr e ↦ rw e k
      ])
      h

-- A reader takes the front of its queue.
abbrev pub rest_of : List (Option Frame) → List (Option Frame)
rest_of [] = []
rest_of (x ∷ xs) = xs

abbrev pub read : Subscription → Subscription
read s = record s { q = rest_of s.q }

deliver-full :
    (f : Frame) (s : Subscription)
    → length s.q ≡ max_buffer
    → deliver f s ≡ record s { dropped = true }
unfolding deliver put_nowait close_sub
deliver-full f s h = ground arith

pub deliver-room :
    (f : Frame) (s : Subscription)
    → length s.q < max_buffer
    → deliver f s ≡ record s { q = s.q ++ some f ∷ [] }
unfolding deliver put_nowait
deliver-room f s h = ground arith

length-rest_of :
    (xs : List (Option Frame)) → length xs ≡ max_buffer → length (rest_of xs) < max_buffer
length-rest_of [] h = omega arith
length-rest_of (x ∷ xs) h = omega arith

-- On a full queue a frame is lost, the mark that would end the stream is lost with it, and the
-- subscription stays registered: after one read the next frame follows the ones before the gap.
pub deliver-gap :
    (s : Subscription) (lost next : Frame)
    → length s.q ≡ max_buffer
    → ((deliver lost s).q ≡ s.q)
      × ((deliver lost s).registered ≡ s.registered)
      × ((deliver next (read (deliver lost s))).q ≡ rest_of s.q ++ some next ∷ [])
deliver-gap s lost next h = rw (deliver-full lost s h) (
  refl,
  refl,
  ap (λ x. x.q)
      (deliver-room next (record s { q = rest_of s.q; dropped = true }) (length-rest_of s.q h)),
)
