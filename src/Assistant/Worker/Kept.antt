-- ===== src/Assistant/Worker/Kept.antt =====
-- What the steps of the thread keep: a predicate that no write of theirs breaks.
use ambient_recorder.Base.{
  ℕ, ◌≡◌, refl, Bool, true, false, Option, none, some, List, [], ◌∷◌, Bool-cases, inl, inr,
}
use ambient_recorder.Base.Text.{Text}
use ambient_recorder.Transcripts.Rows.{Transcript, TranscriptSegment}
use ambient_recorder.Transcripts.Store.{Result, ok, err, segments_after}
use ambient_recorder.Retrieval.{Excerpt}
use ambient_recorder.Assistant.Grounding.{Citation, Verdict, validate_citations}
use ambient_recorder.Assistant.Prompts.{qa_system}
use ambient_recorder.Assistant.Summary.{SummaryContent}
use ambient_recorder.Assistant.Rows.{TaskKind, Watermark, SummaryRow, ConversationTurn}
use ambient_recorder.Assistant.Store.Reads.{
  ConversationDetail, get_conversation, get_turn, get_summary,
}
use ambient_recorder.Assistant.Worker.State.{
  AssistantWorker, Item, ItemKind, shutdown, warm, of_kind, End, done, engine_error, crashed,
  Machine, start_task,
}
use ambient_recorder.Assistant.Worker.Ask.{
  fail_turn, stream_chunks, conclude, question_for, reply_ended, get_engine, with_engine,
  with_segments, with_transcript, transcript_of, with_scope, with_conversation, with_turn,
  ask_started, run_ask,
}
use ambient_recorder.Assistant.Worker.Loop.{
  summary_failed, why, summarized, summarize_with, with_summary, summary_started, run_summary,
  warm_up, handle,
}
use ambient_recorder.Assistant.Rows.{AssistantTask, TaskState, Tables}
use ambient_recorder.Assistant.Store.{
  TaskField, set_fields, update_task, to_state, to_ended, to_reason, finish_turn, set_turn_answer,
  append_answer_text, complete_summary, fail_summary,
}
use ambient_recorder.Assistant.Store.Reads.{is_queued}
use ambient_recorder.Assistant.Worker.State.{AnswerFrame}

-- The writes of the thread: what it tells, loads and notes, turns, summaries, and a task that it leaves in
-- a state other than queued.
pub record IsStable (P : AssistantWorker → Type 0) : Type 0 where
  pub tells :
      (w : AssistantWorker) (fs : List (ℕ × Option AnswerFrame)) → P w → P (record w { told = fs })
  pub loads : (w : AssistantWorker) (b : Bool) → P w → P (record w { loaded = b })
  pub notes : (w : AssistantWorker) (now : ℕ) → P w → P (record w { last_activity = now })
  pub writes_turns :
      (w : AssistantWorker) (ts : List ConversationTurn)
      → P w
      → P (record w { store = record w.store { turns = ts } })
  pub writes_summaries :
      (w : AssistantWorker) (ss : List SummaryRow)
      → P w
      → P (record w { store = record w.store { summaries = ss } })
  pub writes_task :
      (w : AssistantWorker) (i : ℕ) (fields : List TaskField)
      → ((t : AssistantTask) → is_queued (set_fields fields t).state ≡ false)
      → P w
      → P (record w { store = update_task w.store i fields })

-- The worker with the tables in which a task was started, where it was.
abbrev pub started_in : AssistantWorker → Option (AssistantTask × Tables) → AssistantWorker
started_in w none = w
started_in w (some (t, db)) = record w { store = db }

abbrev pub starting : Machine → Item → ItemKind → AssistantWorker → AssistantWorker
starting m x (of_kind k) w = started_in w (start_task x.task_id m.now w.store)
starting m x _ w = w

module _ (P : AssistantWorker → Type 0) (p : IsStable P) where
  stream_chunks_keeps :
      (turn_id cid seq : ℕ) (cs : List Text) (w : AssistantWorker)
      → P w
      → P (stream_chunks turn_id cid seq cs w)
  unfolding stream_chunks append_answer_text
  stream_chunks_keeps turn_id cid seq [] w h = h
  stream_chunks_keeps turn_id cid seq ([] ∷ cs) w h = stream_chunks_keeps turn_id cid seq cs w h
  stream_chunks_keeps turn_id cid seq ((c ∷ chunk) ∷ cs) w h =
      stream_chunks_keeps turn_id cid seq cs _ (p.tells _ _ (p.writes_turns w _ h))

  -- A turn and a task are written, and something is told.
  settled_keeps :
      (i : ℕ) (fields : List TaskField) (ts : List ConversationTurn)
      (fs : List (ℕ × Option AnswerFrame)) (w : AssistantWorker)
      → ((t : AssistantTask) → is_queued (set_fields fields t).state ≡ false)
      → P w
      → P (record w { store = update_task (record w.store { turns = ts }) i fields; told = fs })
  settled_keeps i fields ts fs w closes h =
      let w' = record w { store = record w.store { turns = ts } } in
      p.tells (record w' { store = update_task w'.store i fields }) fs
        (p.writes_task w' i fields closes (p.writes_turns w ts h))

  fail_turn_keeps :
      (i turn_id : ℕ) (reason : Text) (o : Option (ℕ × ℕ)) (now : ℕ) (w : AssistantWorker)
      → P w
      → P (fail_turn i turn_id reason o now w)
  unfolding fail_turn finish_turn
  fail_turn_keeps i turn_id reason none now w h =
      settled_keeps i
        (to_state TaskState.failed ∷ to_ended (some now) ∷ to_reason (some reason) ∷ []) _ w.told w
        (λ t. refl) h
  fail_turn_keeps i turn_id reason (some (cid, seq)) now w h =
      settled_keeps i
        (to_state TaskState.failed ∷ to_ended (some now) ∷ to_reason (some reason) ∷ []) _ _ w
        (λ t. refl) h

  conclude_keeps :
      (i : ℕ) (turn : ConversationTurn) (cid : ℕ) (mark : Watermark)
      (a : Text × List Citation × Verdict) (now : ℕ) (w : AssistantWorker)
      → P w
      → P (conclude i turn cid mark a now w)
  unfolding conclude finish_turn set_turn_answer
  conclude_keeps i turn cid mark (cleaned, cits, v) now w h =
      settled_keeps i (to_state TaskState.completed ∷ to_ended (some now) ∷ []) _ _ w (λ t. refl) h

  get_engine_keeps : (m : Machine) (w : AssistantWorker) → P w → P (get_engine m w).1
  get_engine_keeps m w h = elim (Bool-cases w.loaded) [
    | inl e ↦ rw e (p.loads w true h)
    | inr e ↦ rw e (p.loads w _ h)
  ]

  reply_ended_keeps :
      (m : Machine) (i : ℕ) (turn : ConversationTurn) (cid : ℕ) (mark : Watermark)
      (excerpts : List Excerpt) (chunks : List Text) (e : End) (w : AssistantWorker)
      → P w
      → P (reply_ended m i turn cid mark excerpts chunks e w).0
  reply_ended_keeps m i turn cid mark excerpts chunks crashed w h = h
  reply_ended_keeps m i turn cid mark excerpts chunks (engine_error x) w h =
      fail_turn_keeps i turn.id _ _ m.now w h
  reply_ended_keeps m i turn cid mark excerpts chunks done w h =
      conclude_keeps i turn cid mark (validate_citations _ excerpts) m.now w h

  with_engine_keeps :
      (m : Machine) (i : ℕ) (turn : ConversationTurn) (cid : ℕ) (mark : Watermark)
      (q : Text × List Excerpt) (e : Option (Text × Text) × AssistantWorker)
      → P e.1
      → P (with_engine m i turn cid mark q e).0
  with_engine_keeps m i turn cid mark (prompt, excerpts) (some (name, e), w) h =
      fail_turn_keeps i turn.id _ _ m.now w h
  with_engine_keeps m i turn cid mark (prompt, excerpts) (none, w) h =
      let chunks = (m.answer prompt qa_system).0 in
      reply_ended_keeps m i turn cid mark excerpts chunks (m.answer prompt qa_system).1 _
        (stream_chunks_keeps turn.id cid turn.seq chunks w h)

  with_segments_keeps :
      (m : Machine) (i : ℕ) (turn : ConversationTurn) (conv : ConversationDetail) (sid tid : ℕ)
      (segments : Result (List TranscriptSegment)) (w : AssistantWorker)
      → P w
      → P (with_segments m i turn conv sid tid segments w).0
  with_segments_keeps m i turn conv sid tid (err e) w h = h
  with_segments_keeps m i turn conv sid tid (ok segments) w h =
      with_engine_keeps m i turn conv.row.id _ (question_for m turn conv.turns sid tid segments)
        (get_engine m w) (get_engine_keeps m w h)

  with_transcript_keeps :
      (m : Machine) (i : ℕ) (turn : ConversationTurn) (conv : ConversationDetail) (sid : ℕ)
      (o : Option Transcript) (w : AssistantWorker)
      → P w
      → P (with_transcript m i turn conv sid o w).0
  with_transcript_keeps m i turn conv sid none w h = fail_turn_keeps i turn.id _ none m.now w h
  with_transcript_keeps m i turn conv sid (some t) w h =
      with_segments_keeps m i turn conv sid t.id (segments_after m.transcripts t.id none) w h

  with_scope_keeps :
      (m : Machine) (i : ℕ) (turn : ConversationTurn) (conv : ConversationDetail) (sids : List ℕ)
      (w : AssistantWorker)
      → P w
      → P (with_scope m i turn conv sids w).0
  with_scope_keeps m i turn conv [] w h = h
  with_scope_keeps m i turn conv (sid ∷ sids) w h =
      with_transcript_keeps m i turn conv sid (transcript_of m.transcripts sid) w h

  with_turn_keeps :
      (m : Machine) (i : ℕ) (o : Option ConversationTurn) (w : AssistantWorker)
      → P w
      → P (with_turn m i o w).0
  with_turn_keeps m i none w h = h
  with_turn_keeps m i (some turn) w h =
      elim (get_conversation w.store turn.conversation_id)
        as (λ c. P (with_conversation m i turn c w).0) [
          | none ↦ h
          | some conv ↦ with_scope_keeps m i turn conv conv.session_ids w h
        ]

  -- What holds of the worker when the task is started holds at the end of the step.
  run_ask_keeps :
      (m : Machine) (i : ℕ) (w : AssistantWorker)
      → P (started_in w (start_task i m.now w.store))
      → P (run_ask m i w).0
  unfolding run_ask
  run_ask_keeps m i w h =
      elim (start_task i m.now w.store) as (λ o. P (started_in w o) → P (ask_started m i w o).0) [
        | none ↦ λ h. h
        | some (t, db) ↦ λ h. with_turn_keeps m i (get_turn db t.ref_id) (record w { store = db }) h
      ]
        h

  summary_failed_keeps :
      (i summary_id : ℕ) (e : Option (Text × Text)) (now : ℕ) (w : AssistantWorker)
      → P w
      → P (summary_failed i summary_id e now w).0
  unfolding fail_summary
  summary_failed_keeps i summary_id none now w h = h
  summary_failed_keeps i summary_id (some (name, reason)) now w h =
      p.writes_task _ i
        (to_state TaskState.failed ∷ to_ended (some now) ∷ to_reason (some reason) ∷ []) (λ t. refl)
        (p.writes_summaries w _ h)

  summarized_keeps :
      (m : Machine) (i summary_id : ℕ) (e : Option (Text × Text)) (r : Option (SummaryContent × ℕ))
      (w : AssistantWorker)
      → P w
      → P (summarized m i summary_id e r w).0
  unfolding complete_summary
  summarized_keeps m i summary_id e none w h = summary_failed_keeps i summary_id (why m e) m.now w h
  summarized_keeps m i summary_id e (some (content, calls)) w h =
      p.writes_task _ i (to_state TaskState.completed ∷ to_ended (some m.now) ∷ []) (λ t. refl)
        (p.writes_summaries w _ h)

  summarize_with_keeps :
      (m : Machine) (i : ℕ) (s : SummaryRow) (r : Result (List TranscriptSegment))
      (w : AssistantWorker)
      → P w
      → P (summarize_with m i s r w).0
  summarize_with_keeps m i s (err x) w h = h
  summarize_with_keeps m i s (ok segments) w h =
      let (e, loaded) = get_engine m w in
      summarized_keeps m i s.id e _ loaded (get_engine_keeps m w h)

  with_summary_keeps :
      (m : Machine) (i : ℕ) (o : Option SummaryRow) (w : AssistantWorker)
      → P w
      → P (with_summary m i o w).0
  with_summary_keeps m i none w h = h
  with_summary_keeps m i (some s) w h =
      summarize_with_keeps m i s (segments_after m.transcripts s.transcript_id none) w h

  run_summary_keeps :
      (m : Machine) (i : ℕ) (w : AssistantWorker)
      → P (started_in w (start_task i m.now w.store))
      → P (run_summary m i w).0
  unfolding run_summary
  run_summary_keeps m i w h =
      elim (start_task i m.now w.store)
          as (λ o. P (started_in w o) → P (summary_started m i w o).0) [
            | none ↦ λ h. h
            | some (t, db) ↦
                λ h. with_summary_keeps m i (get_summary db t.ref_id) (record w { store = db }) h
          ]
        h

  warm_up_keeps : (m : Machine) (w : AssistantWorker) → P w → P (warm_up m w).0
  warm_up_keeps m w h = elim (Bool-cases m.ready) [
    | inl e ↦ rw e (get_engine_keeps m w h)
    | inr e ↦ rw e h
  ]

  -- The worker in which the item starts its task, where it has one.
  pub handle_keeps :
      (m : Machine) (x : Item) (kind : ItemKind) (w : AssistantWorker)
      → P (starting m x kind w)
      → P (handle m x kind w).0
  handle_keeps m x shutdown w h = h
  handle_keeps m x warm w h = warm_up_keeps m w h
  handle_keeps m x (of_kind TaskKind.summary) w h = run_summary_keeps m x.task_id w h
  handle_keeps m x (of_kind TaskKind.ask) w h = run_ask_keeps m x.task_id w h
