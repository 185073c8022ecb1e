-- ===== src/Follow/Answer.antt =====
-- `answer_stream` of api/ws.py: a client that follows the answer to a question. The handler reads the
-- conversation, subscribes, sends what was streamed before, and then follows its queue.
pub mod Heard
mod Examples
use ambient_recorder.Base.{
  ℕ, Bool, true, false, not, Option, none, some, List, [], ◌∷◌, ◌++◌, find, if◌then◌else◌,
}
use ambient_recorder.Base.Text.{Text}
use ambient_recorder.Assistant.Rows.{TurnState, ConversationTurn}
use ambient_recorder.Assistant.Store.Reads.{ConversationDetail}
use ambient_recorder.Assistant.Worker.State.{AnswerFrame, token, turn_status}

-- What was sent, and the code with which the socket was closed.
pub record Listener : Type 0 where
  pub sent : List AnswerFrame
  pub code : Option ℕ

-- `_TURN_TERMINAL`
abbrev pub is_over : TurnState → Bool
is_over TurnState.streaming = false
is_over _ = true

-- What a round gets: a frame, the publisher's end with the stored turn, or a timeout with the stored turn.
pub data Pull : Type 0 where
  frame : AnswerFrame → Pull
  ended timeout : Option ConversationTurn → Pull

abbrev pub send : AnswerFrame → Listener → Listener
send f c = record c { sent = c.sent ++ f ∷ [] }

abbrev pub close : Listener → Listener
close c = record c { code = some 1000 }

abbrev pub status_of : ConversationTurn → AnswerFrame
status_of t = turn_status t.seq t.state (some t.citations) t.watermark

abbrev pub close_if : Bool → Listener → Listener
close_if b c = if b then close c else c

unfoldable pub on_pull : Pull → Listener → Listener
on_pull (frame (token seq text)) c = send (token seq text) c
on_pull (frame (turn_status seq state cits mark)) c =
    close_if (is_over state) (send (turn_status seq state cits mark) c)
on_pull (ended none) c = close c
on_pull (ended (some t)) c = close (send (status_of t) c)
on_pull (timeout none) c = c
on_pull (timeout (some t)) c = if is_over t.state then close (send (status_of t) c) else c

abbrev pub is_closed : Listener → Bool
is_closed c = elim c.code [ none ↦ false | some n ↦ true ]

-- `while True`, over what the loop is given.
unfoldable pub follow : List Pull → Listener → Listener
unfolding on_pull
follow [] c = c
follow (p ∷ ps) c = let next = follow ps (on_pull p c) in if is_closed c then c else next

abbrev pub prefix : ℕ → Text → List AnswerFrame
prefix seq [] = []
prefix seq (c ∷ answer) = token seq (c ∷ answer) ∷ []

abbrev last : ConversationTurn → List ConversationTurn → ConversationTurn
last t [] = t
last t (u ∷ us) = last u us

-- No turn streams: the status of the last one, where there is one.
abbrev settled : List ConversationTurn → Listener
settled [] = record { sent = []; code = some 1000 }
settled (t ∷ ts) = record { sent = status_of (last t ts) ∷ []; code = some 1000 }

abbrev pub is_inflight : ConversationTurn → Bool
is_inflight t = not (is_over t.state)

abbrev pub listen : List ConversationTurn → List Pull → Option ConversationTurn → Listener
listen turns ps none = settled turns
listen turns ps (some t) = follow ps (record { sent = prefix t.seq t.answer; code = none })

-- The conversation as it was read before the subscription, and what the loop is given.
unfoldable pub answer_stream : Option ConversationDetail → List Pull → Listener
unfolding follow
answer_stream none ps = record { sent = []; code = some 4404 }
answer_stream (some conv) ps = listen conv.turns ps (find is_inflight conv.turns)
