-- ===== src/Worker/OnDemand/Progress.antt =====
-- Each step of an on-demand job takes the next chunk, and the step after the last one completes it.
use ambient_recorder.Base.{
  ℕ, suc, zero, ◌+◌, ◌≤◌, ◌≡◌, refl, ap, ◌∙◌, arith, Bool, true, false, Option, none, some, List,
  [], ◌∷◌, ◌++◌, length, map_option,
}
use ambient_recorder.Base.Sort.{sort, insert}
use ambient_recorder.Base.Text.{Text}
use ambient_recorder.Models.{SourceKind}
use ambient_recorder.Attribution.Decide.{AttributionConfig}
use ambient_recorder.Transcripts.Rows.{
  TranscriptionJob, TranscriptMode, TranscriptState, JobState, Db,
}
use ambient_recorder.Transcripts.Store.{
  get_job, set_state, set_fields, set_engine, to_state, to_ended,
}
use ambient_recorder.Worker.State.{
  Speech, Settings, ChunkMeta, on_demand_step, lookup, lookup-insert, insert as put,
}
use ambient_recorder.Worker.Chunk.{done, Step}
use ambient_recorder.Worker.Chunk.Transcribe.{transcribe_chunk}
use ambient_recorder.Worker.Live.{push}
use ambient_recorder.Worker.Live.Steps.{W, flush_pending, get_engine}
use ambient_recorder.Worker.Live.Flushed.{flush_pending_keeps}
use ambient_recorder.Worker.Live.Finalise.{
  forgotten, SameTables, append-SameTables, get_job-same, get_job-update_job, get_job-set_state,
}
use ambient_recorder.Worker.OnDemand.Job.{
  P, is_over, nth, earlier, finish_after, finish_on_demand, step_after, step_chunk, step_on_demand,
  set_descriptor,
}

length-insert {ℓ} :
    {A : Type ℓ}
    → (le : A → A → Bool) (x : A) (xs : List A) → length (insert le x xs) ≡ suc (length xs)
unfolding insert
length-insert le x [] = refl
length-insert le x (y ∷ ys) = ground (arith, length-insert le x ys)

length-sort {ℓ} : {A : Type ℓ} → (le : A → A → Bool) (xs : List A) → length (sort le xs) ≡ length xs
unfolding sort
length-sort le [] = refl
length-sort le (x ∷ xs) = omega (arith, length-insert le x (sort le xs), length-sort le xs)

nth-none {ℓ} : {A : Type ℓ} → (n : ℕ) (xs : List A) → length xs ≤ n → nth n xs ≡ none
nth-none zero [] h = refl
nth-none (suc n) [] h = refl
nth-none zero (x ∷ xs) h = absurd (omega arith)
nth-none (suc n) (x ∷ xs) h = nth-none n xs (omega (arith, h))

found_again : {V : Type 0} → (k : ℕ) (v : V) (m : List (ℕ × V)) → lookup k (put k v m) ≡ some v
found_again k v m = ground (arith, lookup-insert k k v m)

module _ (sp : Speech) (cfg : AttributionConfig) (settings : Settings) (w : W sp cfg)
    (session_id tid now : ℕ) (error : Text) where
  step_under_way :
      (job : TranscriptionJob) (p : P sp cfg settings)
      → get_job w.db tid ≡ some job
      → is_over job.state ≡ false
      → lookup tid w.on_demand ≡ some p
      → step_on_demand sp cfg settings w session_id tid now error
        ≡ step_chunk sp cfg settings w session_id tid now error p (nth p.next (sort earlier p.inv))
  unfolding step_on_demand
  step_under_way job p j o l = rw (j, o, l) (rw l refl)

  -- With a chunk left, a step that does not raise keeps the job under way at the next chunk, and puts
  -- it back on the queue behind live work.
  pub step_on_demand-advances :
      (job : TranscriptionJob) (p : P sp cfg settings) (kind : SourceKind) (meta : ChunkMeta)
      → get_job w.db tid ≡ some job
      → is_over job.state ≡ false
      → lookup tid w.on_demand ≡ some p
      → nth p.next (sort earlier p.inv) ≡ some (kind, meta)
      → (transcribe_chunk sp cfg
          (get_engine sp cfg w.engine)
          w.db
          w.stream
          p.session
          kind
          meta
          settings.on_demand_beam_size
          TranscriptMode.on_demand).outcome
        ≡ done
      → (lookup tid (step_on_demand sp cfg settings w session_id tid now error).on_demand
          ≡ some (record p {
            session =
                (transcribe_chunk sp cfg
                  (get_engine sp cfg w.engine)
                  w.db
                  w.stream
                  p.session
                  kind
                  meta
                  settings.on_demand_beam_size
                  TranscriptMode.on_demand).session;
            next = p.next + 1;
          }))
        × ((step_on_demand sp cfg settings w session_id tid now error).q
            ≡ w.q
              ++ (record { priority = 2; order = w.counter; item = on_demand_step session_id tid })
                ∷ [])
  unfolding step_chunk step_after push
  step_on_demand-advances job p kind meta j o l n d =
      rw (step_under_way job p j o l, n, d) (found_again tid _ w.on_demand, refl)

  -- The session of the job once its chunks are all taken.
  abbrev pub flushed_by : P sp cfg settings → Step sp.acoustics.Sample sp.acoustics.Db
  flushed_by p = flush_pending cfg false w.db w.stream (record p.session { stopping = true })

  same-set_descriptor :
      (db : Db) (engine : Option Text)
      → get_job (set_descriptor sp cfg settings db tid engine) tid ≡ get_job db tid
  same-set_descriptor db none = refl
  same-set_descriptor db (some []) = refl
  same-set_descriptor db (some (c ∷ cs)) = unfold get_job set_engine in refl

  -- With no chunk left, a step whose flush does not raise completes the job, which is no longer under
  -- way.
  pub step_on_demand-completes :
      (job : TranscriptionJob) (p : P sp cfg settings)
      → get_job w.db tid ≡ some job
      → is_over job.state ≡ false
      → lookup tid w.on_demand ≡ some p
      → length p.inv ≤ p.next
      → (flushed_by p).outcome ≡ done
      → (lookup tid (step_on_demand sp cfg settings w session_id tid now error).on_demand ≡ none)
        × (get_job (step_on_demand sp cfg settings w session_id tid now error).db tid
            ≡ some (set_fields (to_state JobState.completed ∷ to_ended now ∷ []) job))
  unfolding step_chunk finish_on_demand finish_after
  step_on_demand-completes job p j o l n d =
      let st = flushed_by p in
      let last =
        nth-none p.next (sort earlier p.inv) (omega (arith, length-sort earlier p.inv, n)) in
      let same =
        flush_pending_keeps cfg w.db w.stream (record p.session { stopping = true })
          (SameTables w.db) (append-SameTables w.db) false (refl, refl) in
      let fs = to_state JobState.completed ∷ to_ended now ∷ [] in
      let db1 = set_descriptor sp cfg settings st.db tid w.engine in
      let db2 = set_state db1 tid TranscriptState.completed true none (some now) in
      rw (step_under_way job p j o l, last, d)
        (
          forgotten tid w.on_demand,
          get_job-update_job db2 tid fs
              ∙ ap (map_option (set_fields fs)) (
                  get_job-set_state db1 tid tid TranscriptState.completed true none (some now)
                  ∙ same-set_descriptor st.db w.engine
                  ∙ get_job-same w.db st.db tid same
                  ∙ j),
        )
