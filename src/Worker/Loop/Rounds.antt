-- ===== src/Worker/Loop/Rounds.antt =====
-- `_run`, round by round.
use ambient_recorder.Base.{
  ℕ, ◌+◌, ◌≡◌, refl, ap, ◌∙◌, arith, true, false, Option, none, some, List, [], ◌∷◌, Bool-cases,
  inl, inr, if◌then◌else◌,
}
use ambient_recorder.Base.Sort.{sort}
use ambient_recorder.Base.Text.{Text}
use ambient_recorder.Models.{SourceKind}
use ambient_recorder.Attribution.Decide.{AttributionConfig}
use ambient_recorder.Transcripts.Rows.{TranscriptionJob, TranscriptMode}
use ambient_recorder.Transcripts.Store.{get_job, update_job, to_progress}
use ambient_recorder.Worker.State.{
  Speech, Settings, ChunkMeta, Item, chunk, session_stopped, on_demand_step, shutdown, Queued,
  lookup, insert,
}
use ambient_recorder.Worker.Chunk.{Outcome, done, engine_failed, raised}
use ambient_recorder.Worker.Chunk.Transcribe.{transcribe_chunk}
use ambient_recorder.Worker.Live.{push}
use ambient_recorder.Worker.Live.Steps.{W, flush_pending, get_engine}
use ambient_recorder.Worker.Live.Balance.{
  same_id, Counted, Balanced, chunks_of, chunks_of-push_other,
}
use ambient_recorder.Worker.OnDemand.Job.{
  P, is_over, nth, earlier, finish_after, finish_on_demand, step_after, step_chunk, step_on,
  with_state, step_job, step_on_demand,
}
use ambient_recorder.Worker.Loop.{least, pop, handle, take_next, run_once}
use ambient_recorder.Worker.Loop.Balance.{
  chunks_of-least, finalise_live-Balanced, process_live_chunk-Balanced,
}

module _ (sp : Speech) (cfg : AttributionConfig) (settings : Settings) where
  module _ (session_id tid now : ℕ) (error : Text) where
    finish_after-Balanced :
        (o : Outcome) (w : W sp cfg) (p : P sp cfg settings)
        → Balanced w
        → Balanced (finish_after sp cfg settings o w tid now p)
    unfolding finish_after
    finish_after-Balanced done w p b = b
    finish_after-Balanced engine_failed w p b = b
    finish_after-Balanced raised w p b = b

    finish_on_demand-Balanced :
        (w : W sp cfg) (p : P sp cfg settings)
        → Balanced w
        → Balanced (finish_on_demand sp cfg settings w tid now p)
    unfolding finish_on_demand
    finish_on_demand-Balanced w p b =
        let st = flush_pending cfg false w.db w.stream p.session in
        finish_after-Balanced st.outcome (record w { db = st.db; stream = st.stream })
          (record p { session = st.session }) b

    pushed : (w : W sp cfg) → Balanced w → Balanced (push w 2 (on_demand_step session_id tid))
    pushed w b sid live =
        unfold push in
        λ h. b sid live h ∙ (chunks_of-push_other sid w 2 (on_demand_step session_id tid) refl)

    step_after-Balanced :
        (o : Outcome) (w : W sp cfg) (p : P sp cfg settings)
        → Balanced w
        → Balanced (step_after sp cfg settings o w session_id tid now error p)
    unfolding step_after
    step_after-Balanced done w p b =
        pushed
          (record w {
            on_demand = insert tid (record p { next = p.next + 1 }) w.on_demand;
            db = update_job w.db tid (to_progress (p.next + 1) ∷ []);
          })
          b
    step_after-Balanced engine_failed w p b = b
    step_after-Balanced raised w p b = b

    step_chunk-Balanced :
        (w : W sp cfg) (p : P sp cfg settings) (next : Option (SourceKind × ChunkMeta))
        → Balanced w
        → Balanced (step_chunk sp cfg settings w session_id tid now error p next)
    unfolding step_chunk
    step_chunk-Balanced w p none b =
        finish_on_demand-Balanced w (record p { session = record p.session { stopping = true } }) b
    step_chunk-Balanced w p (some (kind, meta)) b =
        let engine = get_engine sp cfg w.engine in
        let st =
          transcribe_chunk sp cfg engine w.db w.stream p.session kind meta
            settings.on_demand_beam_size TranscriptMode.on_demand in
        step_after-Balanced st.outcome
          (record w { db = st.db; stream = st.stream; engine = engine })
          (record p { session = st.session }) b

    step_on-Balanced :
        (w : W sp cfg) (p : Option (P sp cfg settings))
        → Balanced w
        → Balanced (step_on sp cfg settings w session_id tid now error p)
    step_on-Balanced w none b = b
    step_on-Balanced w (some p) b = step_chunk-Balanced w p (nth p.next (sort earlier p.inv)) b

    with_state-Balanced :
        (w : W sp cfg) (p : Option (P sp cfg settings))
        → Balanced w
        → Balanced (with_state sp cfg settings w session_id tid now p)
    with_state-Balanced w none b = b
    with_state-Balanced w (some p) b = b

    step_job-Balanced :
        (w : W sp cfg) (job : Option TranscriptionJob)
        → Balanced w
        → Balanced (step_job sp cfg settings w session_id tid now error job)
    step_job-Balanced w none b = b
    step_job-Balanced w (some job) b = elim (Bool-cases (is_over job.state)) [
      | inl e ↦ rw e b
      | inr e ↦
          let w' = with_state sp cfg settings w session_id tid now (lookup tid w.on_demand) in
          rw e (
            step_on-Balanced w' (lookup tid w'.on_demand)
              (with_state-Balanced w (lookup tid w.on_demand) b))
    ]

    step_on_demand-Balanced :
        (w : W sp cfg)
        → Balanced w
        → Balanced (step_on_demand sp cfg settings w session_id tid now error)
    unfolding step_on_demand
    step_on_demand-Balanced w b = step_job-Balanced w (get_job w.db tid) b

  module _ (now : ℕ) (error : Text) where
    handle-Balanced :
        (w : W sp cfg) (priority order : ℕ) (item : Item)
        → Counted w.live
            (λ j. chunks_of j (record { priority = priority; order = order; item = item } ∷ w.q))
        → Balanced (handle sp cfg settings w item now error)
    unfolding handle
    handle-Balanced w priority order (chunk sid kind meta) c =
        process_live_chunk-Balanced sp cfg sid now error w kind meta _ (λ j e. rw e refl)
          (rw (same_id sid) (omega arith)) c
    handle-Balanced w priority order (session_stopped sid) c =
        finalise_live-Balanced cfg sid now w c
    handle-Balanced w priority order (on_demand_step sid tid) c =
        step_on_demand-Balanced sid tid now error w c
    handle-Balanced w priority order shutdown c = c

    take_next-Balanced :
        (w : W sp cfg) (q : List Queued)
        → w.q ≡ q
        → Balanced w
        → Balanced (take_next sp cfg settings w now error (pop q))
    take_next-Balanced w [] h b = b
    take_next-Balanced w (x ∷ xs) h b =
        let r = least x xs in
        handle-Balanced (record w { q = r.1 }) r.0.priority r.0.order r.0.item
          (λ sid live e. b sid live e ∙ ap (chunks_of sid) h ∙ chunks_of-least sid x xs)

    -- A round of the thread, whatever it takes from the queue and however that ends, keeps the count
    -- of every live session at the number of its chunks in the queue.
    pub run_once-Balanced :
        (w : W sp cfg) → Balanced w → Balanced (run_once sp cfg settings w now error)
    unfolding run_once
    run_once-Balanced w b =
        elim w.stopped
          as (λ s. Balanced (if s then w else take_next sp cfg settings w now error (pop w.q))) [
            | true ↦ b
            | false ↦ take_next-Balanced w w.q refl b
          ]
