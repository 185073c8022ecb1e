-- ===== src/Assistant/Worker/Ask.antt =====
-- `_run_ask`: a question is answered from the transcript.
use ambient_recorder.Base.{
  ℕ, ◌/◌, Bool, true, false, not, ◌==◌, Option, none, some, List, [], ◌∷◌, ◌++◌, map, ltb,
  if◌then◌else◌, keep, is_some, get_or_else,
}
use ambient_recorder.Base.Text.{Text, codes}
use ambient_recorder.Transcripts.Rows.{Transcript, TranscriptSegment, TranscriptionJob, Db}
use ambient_recorder.Transcripts.Store.{
  Result, ok, err, current_transcript, pending_transcript, segments_after, get_job,
}
use ambient_recorder.Retrieval.{Excerpt, select_excerpts}
use ambient_recorder.Assistant.Markers.{show}
use ambient_recorder.Assistant.Grounding.{
  Citation, Verdict, grounded, declined, ungrounded, validate_citations,
}
use ambient_recorder.Assistant.Prompts.{qa_prompt, qa_system}
use ambient_recorder.Assistant.Rows.{
  TurnState, TaskState, Watermark, final, live, ConversationTurn, AssistantTask, Tables,
}
use ambient_recorder.Assistant.Store.{
  append_answer_text, finish_turn, set_turn_answer, to_state, to_ended, to_reason, update_task,
}
use ambient_recorder.Assistant.Store.Reads.{ConversationDetail, get_conversation, get_turn}
use ambient_recorder.Assistant.Worker.State.{
  AnswerFrame, token, turn_status, AssistantWorker, End, done, engine_error, crashed, Machine,
  Outcome, finished, raised, same_session, start_task,
}

abbrev pub tell : ℕ → Option AnswerFrame → AssistantWorker → AssistantWorker
tell cid f w = record w { told = w.told ++ (cid, f) ∷ [] }

abbrev pub tell_failed : Option (ℕ × ℕ) → AssistantWorker → AssistantWorker
tell_failed none w = w
tell_failed (some (cid, seq)) w =
    tell cid none (tell cid (some (turn_status seq TurnState.failed none none)) w)

-- `_fail_turn`, with the conversation and the turn's number where its listeners are told.
unfoldable pub fail_turn : ℕ → ℕ → Text → Option (ℕ × ℕ) → ℕ → AssistantWorker → AssistantWorker
unfolding finish_turn update_task
fail_turn task_id turn_id reason listeners now w = tell_failed listeners (record w {
  store =
      update_task (finish_turn w.store turn_id TurnState.failed [] none now) task_id
        (to_state TaskState.failed ∷ to_ended (some now) ∷ to_reason (some reason) ∷ []);
})

-- The chunks of an answer, stored and told as they come.
unfoldable pub stream_chunks : ℕ → ℕ → ℕ → List Text → AssistantWorker → AssistantWorker
unfolding append_answer_text
stream_chunks turn_id cid seq [] w = w
stream_chunks turn_id cid seq ([] ∷ cs) w = stream_chunks turn_id cid seq cs w
stream_chunks turn_id cid seq ((c ∷ chunk) ∷ cs) w = stream_chunks turn_id cid seq cs (
    tell cid (some (token seq (c ∷ chunk)))
      (record w { store = append_answer_text w.store turn_id (c ∷ chunk) }))

abbrev pub state_of : Verdict → TurnState
state_of grounded = TurnState.completed
state_of declined = TurnState.declined
state_of ungrounded = TurnState.ungrounded

abbrev pub raw_text : List Text → Text
raw_text [] = []
raw_text (c ∷ cs) = c ++ raw_text cs

-- The answer is complete: it is checked, stored, and its end is told.
unfoldable pub conclude :
    ℕ
    → ConversationTurn
    → ℕ
    → Watermark
    → Text × List Citation × Verdict
    → ℕ
    → AssistantWorker
    → AssistantWorker
unfolding set_turn_answer finish_turn update_task
conclude task_id turn cid watermark (cleaned, cits, verdict) now w =
    let state = state_of verdict in
    let db =
      finish_turn (set_turn_answer w.store turn.id cleaned) turn.id state cits (some watermark)
        now in
    tell cid none (
      tell cid (some (turn_status turn.seq state (some cits) (some watermark))) (record w {
        store = update_task db task_id (to_state TaskState.completed ∷ to_ended (some now) ∷ []);
      }))

abbrev pub last_seq : List TranscriptSegment → Option ℕ → Option ℕ
last_seq [] top = top
last_seq (s ∷ ss) none = last_seq ss (some s.seq)
last_seq (s ∷ ss) (some n) = last_seq ss (some (if ltb n s.seq then s.seq else n))

abbrev pub other_turns : ConversationTurn → List ConversationTurn → List ConversationTurn
other_turns turn ts = keep (λ t. not (t.id == turn.id)) ts

abbrev pub is_completed : TurnState → Bool
is_completed TurnState.completed = true
is_completed _ = false

abbrev pub pairs : List ConversationTurn → List (Text × Text)
pairs ts = map (λ t. (t.question, t.answer)) (keep (λ t. is_completed t.state) ts)

abbrev pub lag_of : Option TranscriptionJob → ℕ
lag_of none = 0
lag_of (some job) = get_or_else 0 job.lag_s

abbrev pub lag_note : ℕ → Text
lag_note lag =
    if ltb 80000 lag
    then codes "\n(Note: transcription is ~"
      ++ show (lag / 16000)
      ++ codes "s behind; the very latest moments may be missing — say so if relevant.)"
    else []

-- What the model is asked, and the excerpts that it may cite.
unfoldable pub question_for :
    Machine
    → ConversationTurn
    → List ConversationTurn
    → ℕ
    → ℕ
    → List TranscriptSegment
    → Text × List Excerpt
unfolding select_excerpts qa_prompt get_job show
question_for m turn turns session_id transcript_id segments =
    let is_live = same_session m.active_session session_id in
    let others = other_turns turn turns in
    let excerpts =
      select_excerpts turn.question (map (λ t. t.question) others) segments session_id
        m.budget_tokens is_live in
    let prompt = qa_prompt excerpts (pairs others) turn.question in
    (
      if is_live then prompt ++ lag_note (lag_of (get_job m.transcripts transcript_id)) else prompt,
      excerpts,
    )

abbrev pub reply_ended :
    Machine
    → ℕ
    → ConversationTurn
    → ℕ
    → Watermark
    → List Excerpt
    → List Text
    → End
    → AssistantWorker
    → AssistantWorker × Outcome
reply_ended m i turn cid mark excerpts chunks crashed w = (w, raised)
reply_ended m i turn cid mark excerpts chunks (engine_error e) w =
    (fail_turn i turn.id (codes "engine_error: " ++ e) (some (cid, turn.seq)) m.now w, finished)
reply_ended m i turn cid mark excerpts chunks done w =
    (conclude i turn cid mark (validate_citations (raw_text chunks) excerpts) m.now w, finished)

abbrev pub reply :
    Machine
    → ℕ
    → ConversationTurn
    → ℕ
    → Watermark
    → List Excerpt
    → List Text × End
    → AssistantWorker
    → AssistantWorker × Outcome
reply m i turn cid mark excerpts (chunks, end) w =
    reply_ended m i turn cid mark excerpts chunks end (stream_chunks turn.id cid turn.seq chunks w)

-- `_get_engine`
abbrev pub get_engine : Machine → AssistantWorker → Option (Text × Text) × AssistantWorker
get_engine m w =
    if w.loaded then (none, w) else (m.load_error, record w { loaded = not (is_some m.load_error) })

abbrev pub with_engine :
    Machine
    → ℕ
    → ConversationTurn
    → ℕ
    → Watermark
    → Text × List Excerpt
    → Option (Text × Text) × AssistantWorker
    → AssistantWorker × Outcome
with_engine m i turn cid mark (prompt, excerpts) (some (name, e), w) =
    (fail_turn i turn.id (codes "engine_error: " ++ e) (some (cid, turn.seq)) m.now w, finished)
with_engine m i turn cid mark (prompt, excerpts) (none, w) =
    reply m i turn cid mark excerpts (m.answer prompt qa_system) w

abbrev pub with_segments :
    Machine
    → ℕ
    → ConversationTurn
    → ConversationDetail
    → ℕ
    → ℕ
    → Result (List TranscriptSegment)
    → AssistantWorker
    → AssistantWorker × Outcome
with_segments m i turn conv sid tid (err e) w = (w, raised)
with_segments m i turn conv sid tid (ok segments) w =
    let mark = if same_session m.active_session sid then live (last_seq segments none) else final in
    with_engine m i turn conv.row.id mark (question_for m turn conv.turns sid tid segments)
      (get_engine m w)

abbrev pub with_transcript :
    Machine
    → ℕ
    → ConversationTurn
    → ConversationDetail
    → ℕ
    → Option Transcript
    → AssistantWorker
    → AssistantWorker × Outcome
with_transcript m i turn conv sid none w = (
  fail_turn i turn.id (codes "no transcript exists for the scoped session") none m.now w,
  finished,
)
with_transcript m i turn conv sid (some t) w =
    with_segments m i turn conv sid t.id (segments_after m.transcripts t.id none) w

abbrev pub transcript_of : Db → ℕ → Option Transcript
transcript_of db sid = elim (current_transcript db sid) [
  | none ↦ pending_transcript db sid
  | some t ↦ some t
]

abbrev pub with_scope :
    Machine
    → ℕ
    → ConversationTurn
    → ConversationDetail
    → List ℕ
    → AssistantWorker
    → AssistantWorker × Outcome
with_scope m i turn conv [] w = (w, raised)
with_scope m i turn conv (sid ∷ sids) w =
    with_transcript m i turn conv sid (transcript_of m.transcripts sid) w

abbrev pub with_conversation :
    Machine
    → ℕ
    → ConversationTurn
    → Option ConversationDetail
    → AssistantWorker
    → AssistantWorker × Outcome
with_conversation m i turn none w = (w, raised)
with_conversation m i turn (some conv) w = with_scope m i turn conv conv.session_ids w

abbrev pub with_turn :
    Machine → ℕ → Option ConversationTurn → AssistantWorker → AssistantWorker × Outcome
with_turn m i none w = (w, raised)
with_turn m i (some turn) w =
    with_conversation m i turn (get_conversation w.store turn.conversation_id) w

abbrev pub ask_started :
    Machine → ℕ → AssistantWorker → Option (AssistantTask × Tables) → AssistantWorker × Outcome
ask_started m i w none = (w, finished)
ask_started m i w (some (t, db)) = with_turn m i (get_turn db t.ref_id) (record w { store = db })

unfoldable pub run_ask : Machine → ℕ → AssistantWorker → AssistantWorker × Outcome
unfolding start_task fail_turn stream_chunks conclude question_for get_turn get_conversation
    current_transcript pending_transcript segments_after validate_citations
run_ask m i w = ask_started m i w (start_task i m.now w.store)
