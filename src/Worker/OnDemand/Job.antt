-- ===== src/Worker/OnDemand/Job.antt =====
-- `_on_demand_step` and `_finish_on_demand`.
use mathlib.Core.List.{map}
use ambient_recorder.Base.{
  ℕ, ◌+◌, Bool, true, false, not, ◌&&◌, ◌||◌, ◌==◌, Option, none, some, List, [], ◌∷◌, ◌++◌, ltb,
  if◌then◌else◌, length, drop,
}
use ambient_recorder.Base.Sort.{sort}
use ambient_recorder.Base.Text.{Text, codes}
use ambient_recorder.Models.{SourceKind, mic, system}
use ambient_recorder.Attribution.Decide.{AttributionConfig}
use ambient_recorder.Transcripts.Rows.{
  TranscriptionJob, TranscriptMode, TranscriptState, JobState, Db,
}
use ambient_recorder.Transcripts.Store.{
  get_job, update_job, set_state, set_engine, to_state, to_ended, to_reason, to_started, to_total,
  to_progress,
}
use ambient_recorder.Worker.State.{
  Speech, Settings, ChunkMeta, on_demand_step, Progress, lookup, insert, remove,
}
use ambient_recorder.Worker.Chunk.{Outcome, done, engine_failed, raised}
use ambient_recorder.Worker.Chunk.Transcribe.{transcribe_chunk}
use ambient_recorder.Worker.Live.{push, new_session}
use ambient_recorder.Worker.Live.Steps.{flush_pending, get_engine, W}

-- `job.state in (COMPLETED, FAILED)`
abbrev pub is_over : JobState → Bool
is_over JobState.completed = true
is_over JobState.failed = true
is_over _ = false

abbrev is_mic : SourceKind → Bool
is_mic mic = true
is_mic system = false

-- `key=lambda x: (x[0], x[1].value)`
abbrev pub earlier : SourceKind × ChunkMeta → SourceKind × ChunkMeta → Bool
earlier (k, a) (j, b) = ltb a.seq b.seq || (a.seq == b.seq && (is_mic k || (not (is_mic j))))

abbrev pub nth {ℓ} : {A : Type ℓ} → ℕ → List A → Option A
nth i xs = elim (drop i xs) [ [] ↦ none | x ∷ ys ↦ some x ]

-- `engine.split(" ")[0]`
abbrev pub before_space : Text → Text
before_space [] = []
before_space (c ∷ cs) = if c == 32 then [] else c ∷ before_space cs

module _ (sp : Speech) (cfg : AttributionConfig) (settings : Settings) where
  abbrev pub P : Type 0
  P = Progress sp.acoustics.Sample sp.acoustics.Db

  unfoldable pub inventories : ℕ → List (SourceKind × ChunkMeta)
  inventories session_id =
      map (λ c. (mic, c)) (sp.inventory session_id mic)
      ++ map (λ c. (system, c)) (sp.inventory session_id system)

  -- The first step of a job lists its chunks.
  abbrev pub begin : W sp cfg → ℕ → ℕ → ℕ → W sp cfg
  begin w session_id tid now =
      let inv = inventories session_id in
      record w {
        on_demand =
            insert tid (record { session = new_session tid; inv = inv; next = 0 }) w.on_demand;
        db = update_job w.db tid (
            to_state JobState.running
            ∷ to_started (some now)
            ∷ to_total (length inv)
            ∷ to_progress 0
            ∷ []);
      }

  abbrev pub set_descriptor : Db → ℕ → Option Text → Db
  set_descriptor db tid none = db
  set_descriptor db tid (some []) = db
  set_descriptor db tid (some (c ∷ cs)) = set_engine db tid (before_space (c ∷ cs)) (c ∷ cs)

  -- How `_finish_on_demand` goes on after the flush; when that has raised, the state stays.
  unfoldable pub finish_after : Outcome → W sp cfg → ℕ → ℕ → P → W sp cfg
  unfolding set_engine set_state update_job remove insert
  finish_after done w tid now p =
      let db = set_descriptor w.db tid w.engine in
      let db = set_state db tid TranscriptState.completed true none (some now) in
      record w {
        db = update_job db tid (to_state JobState.completed ∷ to_ended now ∷ []);
        on_demand = remove tid w.on_demand;
      }
  finish_after engine_failed w tid now p = record w { on_demand = insert tid p w.on_demand }
  finish_after raised w tid now p = record w { on_demand = insert tid p w.on_demand }

  unfoldable pub finish_on_demand : W sp cfg → ℕ → ℕ → P → W sp cfg
  unfolding flush_pending finish_after
  finish_on_demand w tid now p =
      let st = flush_pending cfg false w.db w.stream p.session in
      finish_after st.outcome (record w { db = st.db; stream = st.stream }) tid now
        (record p { session = st.session })

  -- How the step goes on after its chunk.
  unfoldable pub step_after : Outcome → W sp cfg → ℕ → ℕ → ℕ → Text → P → W sp cfg
  unfolding set_state update_job remove insert push
  step_after done w session_id tid now error p =
      push
        (record w {
          on_demand = insert tid (record p { next = p.next + 1 }) w.on_demand;
          db = update_job w.db tid (to_progress (p.next + 1) ∷ []);
        })
        2 (on_demand_step session_id tid)
  step_after engine_failed w session_id tid now error p =
      let reason = codes "engine_error: " ++ error in
      let db = set_state w.db tid TranscriptState.failed false (some reason) none in
      record w {
        db = update_job db tid (to_state JobState.failed ∷ to_ended now ∷ to_reason reason ∷ []);
        on_demand = remove tid w.on_demand;
      }
  step_after raised w session_id tid now error p = record w { on_demand = insert tid p w.on_demand }

  unfoldable pub step_chunk :
      W sp cfg → ℕ → ℕ → ℕ → Text → P → Option (SourceKind × ChunkMeta) → W sp cfg
  unfolding finish_on_demand transcribe_chunk step_after
  step_chunk w session_id tid now error p none =
      finish_on_demand w tid now (record p { session = record p.session { stopping = true } })
  step_chunk w session_id tid now error p (some (kind, meta)) =
      let engine = get_engine sp cfg w.engine in
      let st =
        transcribe_chunk sp cfg engine w.db w.stream p.session kind meta
          settings.on_demand_beam_size TranscriptMode.on_demand in
      step_after st.outcome (record w { db = st.db; stream = st.stream; engine = engine })
        session_id tid now error (record p { session = st.session })

  abbrev pub step_on : W sp cfg → ℕ → ℕ → ℕ → Text → Option P → W sp cfg
  step_on w session_id tid now error none = w
  step_on w session_id tid now error (some p) =
      step_chunk w session_id tid now error p (nth p.next (sort earlier p.inv))

  abbrev pub with_state : W sp cfg → ℕ → ℕ → ℕ → Option P → W sp cfg
  with_state w session_id tid now none = begin w session_id tid now
  with_state w session_id tid now (some p) = w

  abbrev pub step_job : W sp cfg → ℕ → ℕ → ℕ → Text → Option TranscriptionJob → W sp cfg
  step_job w session_id tid now error none = w
  step_job w session_id tid now error (some job) =
      if is_over job.state
      then w
      else (let w' = with_state w session_id tid now (lookup tid w.on_demand) in
          step_on w' session_id tid now error (lookup tid w'.on_demand))

  -- `error` is the text of the exception, should the engine raise one.
  unfoldable pub step_on_demand : W sp cfg → ℕ → ℕ → ℕ → Text → W sp cfg
  unfolding inventories insert update_job lookup sort step_chunk get_job
  step_on_demand w session_id tid now error = step_job w session_id tid now error (get_job w.db tid)
