-- ===== src/Assistant/Worker/Settled.antt =====
-- What `_run_ask` leaves of the task, the turn and its listeners.
use ambient_recorder.Base.{
  ℕ, ◌≡◌, refl, ap, ◌∙◌, arith, true, false, not, Option, none, some, List, [], ◌∷◌, keep,
  Bool-cases, inl, inr,
}
use ambient_recorder.Base.Text.{Text}
use ambient_recorder.Transcripts.Rows.{Transcript, TranscriptSegment}
use ambient_recorder.Transcripts.Store.{Result, ok, err, segments_after}
use ambient_recorder.Retrieval.{Excerpt}
use ambient_recorder.Assistant.Grounding.{
  Citation, Verdict, grounded, declined, ungrounded, validate_citations,
}
use ambient_recorder.Assistant.Prompts.{qa_system}
use ambient_recorder.Assistant.Rows.{TaskState, Watermark, ConversationTurn, AssistantTask, Tables}
use ambient_recorder.Assistant.Store.{
  task_has, turn_has, finish_turn, set_turn_answer, to_state, to_started, to_ended, to_reason,
  set_fields, update_task,
}
use ambient_recorder.Assistant.Store.Reads.{ConversationDetail, get_conversation, get_turn}
use ambient_recorder.Assistant.Worker.State.{
  AssistantWorker, End, done, engine_error, crashed, Machine, Outcome, finished, start_task,
}
use ambient_recorder.Assistant.Worker.Ask.{
  fail_turn, state_of, raw_text, conclude, reply_ended, get_engine, with_engine, with_segments,
  with_transcript, transcript_of, run_ask,
}
use ambient_recorder.Assistant.Worker.Rows.{
  kept_others, is_streaming, other_tasks, crashes, is_ok, IsSettled, none_open_by, ended_by, IsKept,
  stream_chunks-IsKept,
}

fail_turn-IsSettled_untold :
    (i turn_id : ℕ) (reason : Text) (now : ℕ) (w : AssistantWorker)
    → IsSettled i turn_id w (fail_turn i turn_id reason none now w, finished)
unfolding fail_turn finish_turn update_task
fail_turn-IsSettled_untold i turn_id reason now w = record {
  ends = refl;
  closed =
      none_open_by i
        (to_state TaskState.failed ∷ to_ended (some now) ∷ to_reason (some reason) ∷ [])
        w.store.tasks (λ t. refl);
  ended = ended_by turn_id _ w.store.turns (λ t. refl);
  same_tasks = kept_others (task_has i) _ w.store.tasks (λ t. refl);
  same_turns = kept_others (turn_has turn_id) _ w.store.turns (λ t. refl);
}

fail_turn-IsSettled :
    (i turn_id : ℕ) (reason : Text) (o : Option (ℕ × ℕ)) (now : ℕ) (w : AssistantWorker)
    → IsSettled i turn_id w (fail_turn i turn_id reason o now w, finished)
unfolding fail_turn finish_turn update_task
fail_turn-IsSettled i turn_id reason none now w = fail_turn-IsSettled_untold i turn_id reason now w
fail_turn-IsSettled i turn_id reason (some (cid, seq)) now w =
    let f = fail_turn-IsSettled_untold i turn_id reason now w in
    record {
      ends = refl;
      closed = f.closed;
      ended = f.ended;
      same_tasks = f.same_tasks;
      same_turns = f.same_turns;
    }

state_of-over : (v : Verdict) → is_streaming (state_of v) ≡ false
state_of-over grounded = refl
state_of-over declined = refl
state_of-over ungrounded = refl

conclude-IsSettled :
    (i : ℕ) (turn : ConversationTurn) (cid : ℕ) (mark : Watermark)
    (a : Text × List Citation × Verdict) (now : ℕ) (w : AssistantWorker)
    → IsSettled i turn.id w (conclude i turn cid mark a now w, finished)
unfolding conclude set_turn_answer finish_turn update_task
conclude-IsSettled i turn cid mark (cleaned, cits, v) now w = record {
  ends = refl;
  closed =
      none_open_by i (to_state TaskState.completed ∷ to_ended (some now) ∷ []) w.store.tasks
        (λ t. refl);
  ended = ended_by turn.id _ _ (λ t. state_of-over v);
  same_tasks = kept_others (task_has i) _ w.store.tasks (λ t. refl);
  same_turns =
      kept_others (turn_has turn.id) _ _ (λ t. refl)
      ∙ kept_others (turn_has turn.id) _ w.store.turns (λ t. refl);
}

-- What comes before the end of a step changes only the turn.
IsSettled-after :
    {i turn_id : ℕ} {w w' : AssistantWorker} {r : AssistantWorker × Outcome}
    → IsKept turn_id w w'
    → IsSettled i turn_id w' r
    → IsSettled i turn_id w r
IsSettled-after {i} k s = record {
  ends = s.ends;
  closed = s.closed;
  ended = s.ended;
  same_tasks = s.same_tasks ∙ ap (λ ts. keep (λ t. not (task_has i t)) ts) k.tasks;
  same_turns = s.same_turns ∙ k.turns;
}

reply_ended-IsSettled :
    (m : Machine) (i : ℕ) (turn : ConversationTurn) (cid : ℕ) (mark : Watermark)
    (excerpts : List Excerpt) (chunks : List Text) (e : End) (w : AssistantWorker)
    → crashes e ≡ false
    → IsSettled i turn.id w (reply_ended m i turn cid mark excerpts chunks e w)
reply_ended-IsSettled m i turn cid mark excerpts chunks crashed w h = cc
reply_ended-IsSettled m i turn cid mark excerpts chunks (engine_error x) w h =
    fail_turn-IsSettled i turn.id _ _ m.now w
reply_ended-IsSettled m i turn cid mark excerpts chunks done w h =
    conclude-IsSettled i turn cid mark (validate_citations (raw_text chunks) excerpts) m.now w

get_engine-store : (m : Machine) (w : AssistantWorker) → (get_engine m w).1.store ≡ w.store
get_engine-store m w = elim (Bool-cases w.loaded) [ inl e ↦ rw e refl | inr e ↦ rw e refl ]

with_engine-IsSettled :
    (m : Machine) (i : ℕ) (turn : ConversationTurn) (cid : ℕ) (mark : Watermark)
    (q : Text × List Excerpt) (e : Option (Text × Text) × AssistantWorker)
    → ((prompt : Text) → crashes (m.answer prompt qa_system).1 ≡ false)
    → IsSettled i turn.id e.1 (with_engine m i turn cid mark q e)
with_engine-IsSettled m i turn cid mark (prompt, excerpts) (some (name, e), w) steady =
    fail_turn-IsSettled i turn.id _ _ m.now w
with_engine-IsSettled m i turn cid mark (prompt, excerpts) (none, w) steady =
    IsSettled-after (stream_chunks-IsKept turn.id cid turn.seq (m.answer prompt qa_system).0 w) (
      reply_ended-IsSettled m i turn cid mark excerpts (m.answer prompt qa_system).0
        (m.answer prompt qa_system).1 _ (steady prompt))

with_segments-IsSettled :
    (m : Machine) (i : ℕ) (turn : ConversationTurn) (conv : ConversationDetail) (sid tid : ℕ)
    (segments : Result (List TranscriptSegment)) (w : AssistantWorker)
    → ((prompt : Text) → crashes (m.answer prompt qa_system).1 ≡ false)
    → is_ok segments ≡ true
    → IsSettled i turn.id w (with_segments m i turn conv sid tid segments w)
with_segments-IsSettled m i turn conv sid tid (err e) w steady readable = cc
with_segments-IsSettled m i turn conv sid tid (ok segments) w steady readable =
    IsSettled-after
      (record {
        tasks = ap (λ (s : Tables). s.tasks) (get_engine-store m w);
        turns =
            ap (λ (s : Tables). keep (λ t. not (turn_has turn.id t)) s.turns)
              (get_engine-store m w);
      })
      (with_engine-IsSettled m i turn conv.row.id _ _ (get_engine m w) steady)

with_transcript-IsSettled :
    (m : Machine) (i : ℕ) (turn : ConversationTurn) (conv : ConversationDetail) (sid : ℕ)
    (o : Option Transcript) (w : AssistantWorker)
    → ((prompt : Text) → crashes (m.answer prompt qa_system).1 ≡ false)
    → ((t : Transcript) → o ≡ some t → is_ok (segments_after m.transcripts t.id none) ≡ true)
    → IsSettled i turn.id w (with_transcript m i turn conv sid o w)
with_transcript-IsSettled m i turn conv sid none w steady readable =
    fail_turn-IsSettled i turn.id _ none m.now w
with_transcript-IsSettled m i turn conv sid (some t) w steady readable =
    with_segments-IsSettled m i turn conv sid t.id (segments_after m.transcripts t.id none) w steady
      (readable t refl)

-- A task that was started: it was queued, and it and nothing else was changed.
start_task-IsKept :
    (i now turn_id : ℕ) (w : AssistantWorker) (t : AssistantTask) (db : Tables)
    → start_task i now w.store ≡ some (t, db)
    → (db.turns ≡ w.store.turns) × (other_tasks i (record w { store = db }) ≡ other_tasks i w)
unfolding start_task update_task
start_task-IsKept i now turn_id w t db h =
    let f = λ (x : AssistantTask).
      set_fields (to_state TaskState.running ∷ to_started (some now) ∷ []) x in
    let e : db ≡ update_task w.store i (to_state TaskState.running ∷ to_started (some now) ∷ []) =
      ground (arith, h) in
    (
      ap (λ (s : Tables). s.turns) e,
      ap (λ (s : Tables). keep (λ x. not (task_has i x)) s.tasks) e
          ∙ kept_others (task_has i) f w.store.tasks (λ x. refl),
    )

-- A queued task that is run, whose turn, conversation, scope and segments can be read, with an engine
-- that raises nothing but its own errors, ends: the task is closed, the turn does not stream any more,
-- and no other task and no other turn has changed.
pub run_ask-IsSettled :
    (m : Machine) (i sid : ℕ) (sids : List ℕ) (w : AssistantWorker) (t : AssistantTask)
    (db : Tables) (turn : ConversationTurn) (conv : ConversationDetail)
    → start_task i m.now w.store ≡ some (t, db)
    → get_turn db t.ref_id ≡ some turn
    → get_conversation db turn.conversation_id ≡ some conv
    → conv.session_ids ≡ sid ∷ sids
    → ((prompt : Text) → crashes (m.answer prompt qa_system).1 ≡ false)
    → ((tr : Transcript)
        → transcript_of m.transcripts sid ≡ some tr
        → is_ok (segments_after m.transcripts tr.id none) ≡ true)
    → IsSettled i turn.id w (run_ask m i w)
unfolding run_ask
run_ask-IsSettled m i sid sids w t db turn conv started found scope ids steady readable =
    rw (started, found, scope, ids)
      (let k = start_task-IsKept i m.now turn.id w t db started in
        let s =
          with_transcript-IsSettled m i turn conv sid (transcript_of m.transcripts sid)
            (record w { store = db }) steady readable in
        record {
          ends = s.ends;
          closed = s.closed;
          ended = s.ended;
          same_tasks = s.same_tasks ∙ k.1;
          same_turns = s.same_turns ∙ ap (λ ts. keep (λ x. not (turn_has turn.id x)) ts) k.0;
        })
