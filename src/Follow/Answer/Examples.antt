-- ===== src/Follow/Answer/Examples.antt =====
-- A client that follows the answer to a question. Tests, and the theorem at this answer.
use ambient_recorder.Base.{◌≡◌, refl, false, none, some, List, [], ◌∷◌, ◌++◌}
use ambient_recorder.Base.Text.{Text, codes}
use ambient_recorder.Assistant.Rows.{TurnState, final, ConversationTurn}
use ambient_recorder.Assistant.Store.Reads.{ConversationDetail}
use ambient_recorder.Assistant.Worker.State.{AnswerFrame, token, turn_status}
use ambient_recorder.Assistant.Worker.Ask.{raw_text}
use ambient_recorder.Assistant.Worker.Told.{tokens}
use ambient_recorder.Follow.Answer.{Pull, frame, ended, timeout, prefix, answer_stream}
use ambient_recorder.Follow.Answer.Heard.{heard, frames_told, answer_stream-Heard}

abbrev streaming : ConversationTurn
streaming = record {
  id = 7;
  conversation_id = 4;
  seq = 1;
  question = codes "When?";
  answer = codes "On Mon";
  citations = [];
  watermark = none;
  state = TurnState.streaming;
  asked_at = 50;
  completed_at = none;
}

abbrev earlier : ConversationTurn
earlier = record streaming { id = 6; seq = 0; answer = codes "Yes."; state = TurnState.declined }

abbrev conversation : List ConversationTurn → ConversationDetail
conversation turns = record {
  row = record { id = 4; created_at = 40; born_live = false };
  session_ids = 9 ∷ [];
  turns = turns;
}

abbrev over : AnswerFrame
over = turn_status 1 TurnState.completed (some []) (some final)

abbrev pulls : List Pull
pulls = frame (token 1 (codes "day")) ∷ timeout (some streaming) ∷ frame (token 1 (codes ".")) ∷ []

answer_stream-Heard_example :
    let chunks : List Text = codes "day" ∷ [] ∷ codes "." ∷ [] in
    let c =
      answer_stream
        (some (conversation (earlier ∷ streaming ∷ [])))
        (pulls ++ frame over ∷ ended none ∷ []) in
    (c.sent ≡ (prefix 1 (codes "On Mon") ++ frames_told (tokens 4 1 chunks)) ++ over ∷ [])
    × (heard c.sent ≡ codes "On Mon" ++ raw_text chunks)
    × (c.code ≡ some 1000)
answer_stream-Heard_example =
    answer_stream-Heard (conversation (earlier ∷ streaming ∷ [])) streaming 4
      (codes "day" ∷ [] ∷ codes "." ∷ []) pulls (ended none ∷ []) TurnState.completed (some [])
      (some final) refl refl refl refl

-- A conversation in which nothing streams: the status of its last turn.
nothing_streams :
    (answer_stream (some (conversation (earlier ∷ []))) []).sent
    ≡ turn_status 0 TurnState.declined (some []) none ∷ []
unfolding answer_stream
nothing_streams = refl

no_conversation : (answer_stream none []).code ≡ some 4404
unfolding answer_stream
no_conversation = refl

-- A turn whose end was told before the client subscribed: the next timeout finds it.
found_at_timeout :
    (answer_stream
      (some (conversation (streaming ∷ [])))
      (timeout (some (record streaming { state = TurnState.completed })) ∷ [])).code
    ≡ some 1000
unfolding answer_stream
found_at_timeout = refl
