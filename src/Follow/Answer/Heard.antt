-- ===== src/Follow/Answer/Heard.antt =====
-- What a client that follows an answer hears, beside what is stored of it.
use mathlib.Core.List.{append_assoc, append-nil}
use ambient_recorder.Base.{
  ℕ, ◌≡◌, refl, sym, ap, ◌∙◌, arith, Bool, true, false, not, ◌&&◌, Option, none, some, List, [],
  ◌∷◌, ◌++◌, find, Bool-cases, inl, inr,
}
use ambient_recorder.Base.Text.{Text}
use ambient_recorder.Assistant.Grounding.{Citation}
use ambient_recorder.Assistant.Rows.{TurnState, Watermark, ConversationTurn}
use ambient_recorder.Assistant.Store.Reads.{ConversationDetail}
use ambient_recorder.Assistant.Worker.State.{AnswerFrame, token, turn_status}
use ambient_recorder.Assistant.Worker.Ask.{raw_text}
use ambient_recorder.Assistant.Worker.Told.{tokens}
use ambient_recorder.Follow.Answer.{
  Listener, is_over, Pull, frame, ended, timeout, on_pull, follow, prefix, is_inflight,
  answer_stream,
}

-- The text of the tokens of a list of frames.
abbrev pub heard : List AnswerFrame → Text
heard [] = []
heard (token seq text ∷ fs) = text ++ heard fs
heard (turn_status seq state cits mark ∷ fs) = heard fs

abbrev pub frames_told : List (ℕ × Option AnswerFrame) → List AnswerFrame
frames_told [] = []
frames_told ((cid, none) ∷ fs) = frames_told fs
frames_told ((cid, some f) ∷ fs) = f ∷ frames_told fs

-- The frames of what the loop is given.
abbrev pub frames : List Pull → List AnswerFrame
frames [] = []
frames (frame f ∷ ps) = f ∷ frames ps
frames (ended t ∷ ps) = frames ps
frames (timeout t ∷ ps) = frames ps

-- While an answer streams: tokens, and timeouts at which the turn still streams.
abbrev pub is_quiet : Pull → Bool
is_quiet (frame (token seq text)) = true
is_quiet (frame (turn_status seq state cits mark)) = false
is_quiet (ended t) = false
is_quiet (timeout none) = true
is_quiet (timeout (some t)) = not (is_over t.state)

abbrev pub are_quiet : List Pull → Bool
are_quiet [] = true
are_quiet (p ∷ ps) = is_quiet p && are_quiet ps

abbrev sending : List AnswerFrame → Listener
sending fs = record { sent = fs; code = none }

heard-append : (fs gs : List AnswerFrame) → heard (fs ++ gs) ≡ heard fs ++ heard gs
heard-append [] gs = refl
heard-append (token seq text ∷ fs) gs =
    ap (λ t. text ++ t) (heard-append fs gs) ∙ sym (append_assoc text (heard fs) (heard gs))
heard-append (turn_status seq state cits mark ∷ fs) gs = heard-append fs gs

heard-prefix : (seq : ℕ) (answer : Text) → heard (prefix seq answer) ≡ answer
heard-prefix seq [] = refl
heard-prefix seq (c ∷ answer) = append-nil (c ∷ answer)

heard-tokens :
    (cid seq : ℕ) (cs : List Text) → heard (frames_told (tokens cid seq cs)) ≡ raw_text cs
heard-tokens cid seq [] = refl
heard-tokens cid seq ([] ∷ cs) = heard-tokens cid seq cs
heard-tokens cid seq ((c ∷ chunk) ∷ cs) = ap (λ t. (c ∷ chunk) ++ t) (heard-tokens cid seq cs)

-- Where an answer streams, the loop sends the frames that it gets.
follow-quiet :
    (ps qs : List Pull) (fs : List AnswerFrame)
    → are_quiet ps ≡ true
    → follow (ps ++ qs) (sending fs) ≡ follow qs (sending (fs ++ frames ps))
unfolding follow on_pull
follow-quiet [] qs fs h = ap (λ gs. follow qs (sending gs)) (sym (append-nil fs))
follow-quiet (frame (token seq text) ∷ ps) qs fs h =
    follow-quiet ps qs (fs ++ token seq text ∷ []) h
    ∙ ap (λ gs. follow qs (sending gs)) (append_assoc fs (token seq text ∷ []) (frames ps))
follow-quiet (frame (turn_status seq state cits mark) ∷ ps) qs fs h = cc
follow-quiet (ended t ∷ ps) qs fs h = cc
follow-quiet (timeout none ∷ ps) qs fs h = follow-quiet ps qs fs h
follow-quiet (timeout (some t) ∷ ps) qs fs h = elim (Bool-cases (is_over t.state)) [
  | inl e ↦ let x : false ≡ true = ground (arith, h, e) in cc x
  | inr e ↦ rw e (follow-quiet ps qs fs (ground (arith, h, e)))
]

-- A status that ends the turn is sent, and ends the loop.
follow-over :
    (seq : ℕ) (state : TurnState) (cits : Option (List Citation)) (mark : Option Watermark)
    (qs : List Pull) (fs : List AnswerFrame)
    → is_over state ≡ true
    → follow (frame (turn_status seq state cits mark) ∷ qs) (sending fs)
      ≡ record { sent = fs ++ turn_status seq state cits mark ∷ []; code = some 1000 }
unfolding follow on_pull
follow-over seq state cits mark [] fs h = rw h refl
follow-over seq state cits mark (q ∷ qs) fs h = rw h refl

-- A client finds the turn streaming, and is then given the tokens of chunks, with timeouts at which the
-- turn still streams between them, and the status that ends it. Then it is sent what was streamed
-- before, each of these tokens and the status, in order, and nothing more, and the socket is closed; the
-- text that it is sent is what the turn held and the chunks behind it.
pub answer_stream-Heard :
    (conv : ConversationDetail) (turn : ConversationTurn) (cid : ℕ) (cs : List Text)
    (ps rest : List Pull) (state : TurnState) (cits : Option (List Citation))
    (mark : Option Watermark)
    → find is_inflight conv.turns ≡ some turn
    → are_quiet ps ≡ true
    → frames ps ≡ frames_told (tokens cid turn.seq cs)
    → is_over state ≡ true
    → let over = turn_status turn.seq state cits mark in
      let c = answer_stream (some conv) (ps ++ frame over ∷ rest) in
      (c.sent ≡ (prefix turn.seq turn.answer ++ frames_told (tokens cid turn.seq cs)) ++ over ∷ [])
      × (heard c.sent ≡ turn.answer ++ raw_text cs)
      × (c.code ≡ some 1000)
unfolding answer_stream
answer_stream-Heard conv turn cid cs ps rest state cits mark streams quiet given over =
    let start = prefix turn.seq turn.answer in
    let told = frames_told (tokens cid turn.seq cs) in
    let run =
      follow-quiet ps (frame (turn_status turn.seq state cits mark) ∷ rest) start quiet
      ∙ follow-over turn.seq state cits mark rest (start ++ frames ps) over in
    rw (streams, run, given)
      (
        refl,
        heard-append (start ++ told) _
            ∙ append-nil (heard (start ++ told))
            ∙ heard-append start told
            ∙ ap (λ t. t ++ heard told) (heard-prefix turn.seq turn.answer)
            ∙ ap (λ t. turn.answer ++ t) (heard-tokens cid turn.seq cs),
        refl,
      )
