-- ===== src/Worker/Loop/Balance.antt =====
-- Every round of the thread keeps the counts of outstanding chunks in step with the queue.
use ambient_recorder.Base.{
  ℕ, ◌+◌, ◌-◌, ◌≡◌, refl, sym, arith, true, false, not, ◌&&◌, Option, none, some, List, [], ◌∷◌,
  ◌++◌, ◌==◌, ltb, Bool-cases, inl, inr,
}
use ambient_recorder.Base.Text.{Text, codes}
use ambient_recorder.Models.{SourceKind}
use ambient_recorder.Attribution.Decide.{AttributionConfig}
use ambient_recorder.Worker.State.{
  Speech, ChunkMeta, LiveSession, Worker, Queued, lookup, insert, remove,
}
use ambient_recorder.Worker.Chunk.{Outcome, done, engine_failed, raised}
use ambient_recorder.Transcripts.Rows.{TranscriptMode}
use ambient_recorder.Worker.Chunk.Transcribe.{transcribe_chunk}
use ambient_recorder.Worker.Chunk.Consumed.{transcribe_chunk-SameSession}
use ambient_recorder.Worker.Live.Steps.{
  W, S, await_backlog, complete, end_live, finalise_found, finalise_live, fail_live, report,
  after_chunk, process_found, process_live_chunk, get_engine, flush_pending,
}
use ambient_recorder.Worker.Live.Balance.{
  Counted, Balanced, chunks_of, insert-Counted, remove-Counted, absent-Counted,
}
use ambient_recorder.Worker.Loop.{least}

pub chunks_of-least :
    (sid : ℕ) (x : Queued) (xs : List Queued)
    → chunks_of sid (x ∷ xs) ≡ chunks_of sid ((least x xs).0 ∷ (least x xs).1)
unfolding least
chunks_of-least sid x [] = refl
chunks_of-least sid x (y ∷ ys) = ground (arith, chunks_of-least sid x ys, chunks_of-least sid y ys)

module _ {Sample Level : Type 0} (cfg : AttributionConfig) (session_id now : ℕ) where
  complete-Balanced :
      (o : Outcome) (tid : ℕ) (w : Worker Sample Level)
      → Balanced w
      → Balanced (complete cfg tid now o w)
  unfolding complete
  complete-Balanced done tid w b = b
  complete-Balanced engine_failed tid w b = b
  complete-Balanced raised tid w b = b

  await_backlog-Balanced :
      (w : Worker Sample Level) (live : LiveSession Sample Level)
      → Balanced w
      → Balanced (await_backlog cfg w live)
  unfolding await_backlog
  await_backlog-Balanced w live b = b

  end_live-Balanced :
      (w : Worker Sample Level) (live : LiveSession Sample Level)
      → Balanced w
      → Balanced (end_live cfg w session_id now live)
  unfolding end_live
  end_live-Balanced w live b =
      let st = flush_pending cfg true w.db w.stream live in
      complete-Balanced st.outcome live.transcript_id
        (record w { db = st.db; stream = st.stream; live = remove session_id w.live })
        (remove-Counted session_id w.live (λ j. chunks_of j w.q) (λ j. chunks_of j w.q)
          (λ j e. refl) b)

  finalise_found-Balanced :
      (w : Worker Sample Level) (found : Option (LiveSession Sample Level))
      → Balanced w
      → Balanced (finalise_found cfg w session_id now found)
  finalise_found-Balanced w none b = b
  finalise_found-Balanced w (some live) b = elim (Bool-cases (ltb 0 live.outstanding)) [
    | inl e ↦ rw e (await_backlog-Balanced w live b)
    | inr e ↦ rw e (end_live-Balanced w live b)
  ]

  pub finalise_live-Balanced :
      (w : Worker Sample Level) → Balanced w → Balanced (finalise_live cfg w session_id now)
  unfolding finalise_live
  finalise_live-Balanced w b = finalise_found-Balanced w (lookup session_id w.live) b

  fail_live-Balanced :
      (w : Worker Sample Level) (live : LiveSession Sample Level) (reason : Text) (n : ℕ → ℕ)
      → ((j : ℕ) → (session_id == j) ≡ false → n j ≡ chunks_of j w.q)
      → Counted w.live n
      → Balanced (fail_live cfg w live session_id reason now)
  unfolding fail_live
  fail_live-Balanced w live reason n same c =
      remove-Counted session_id w.live n (λ j. chunks_of j w.q) same c

module _ (sp : Speech) (cfg : AttributionConfig) (session_id now : ℕ) (error : Text) where
  abbrev put_back : W sp cfg → S sp cfg → W sp cfg
  put_back w v = record w { live = insert session_id v w.live }

  report-Balanced :
      (w : W sp cfg) (v : S sp cfg)
      → Balanced (put_back w v)
      → Balanced (report sp cfg w session_id now v)
  unfolding report
  report-Balanced w v b = elim (Bool-cases (v.stopping && not (ltb 0 v.outstanding))) [
    | inl e ↦ rw e (finalise_live-Balanced cfg session_id now _ b)
    | inr e ↦ rw e b
  ]

  after_chunk-Balanced :
      (o : Outcome) (w : W sp cfg) (v : S sp cfg) (n : ℕ → ℕ)
      → ((j : ℕ) → (session_id == j) ≡ false → n j ≡ chunks_of j w.q)
      → v.outstanding ≡ chunks_of session_id w.q
      → Counted w.live n
      → Balanced (after_chunk sp cfg o w session_id now error v)
  unfolding after_chunk
  after_chunk-Balanced engine_failed w v n same out c =
      fail_live-Balanced cfg session_id now w v (codes "engine_error: " ++ error) n same c
  after_chunk-Balanced raised w v n same out c =
      insert-Counted session_id v w.live n (λ j. chunks_of j w.q) same out c
  after_chunk-Balanced done w v n same out c =
      report-Balanced w v (insert-Counted session_id v w.live n (λ j. chunks_of j w.q) same out c)

  process_found-Balanced :
      (w : W sp cfg) (kind : SourceKind) (meta : ChunkMeta) (n : ℕ → ℕ) (found : Option (S sp cfg))
      → found ≡ lookup session_id w.live
      → ((j : ℕ) → (session_id == j) ≡ false → n j ≡ chunks_of j w.q)
      → n session_id ≡ chunks_of session_id w.q + 1
      → Counted w.live n
      → Balanced (process_found sp cfg w session_id kind meta now error found)
  process_found-Balanced w kind meta n none h same out c =
      absent-Counted session_id w.live n (λ j. chunks_of j w.q) same (sym h) c
  process_found-Balanced w kind meta n (some live) h same out c =
      let engine = get_engine sp cfg w.engine in
      let st = transcribe_chunk sp cfg engine w.db w.stream live kind meta 1 TranscriptMode.live in
      let kept =
        transcribe_chunk-SameSession sp cfg w.db w.stream live kind meta 1 TranscriptMode.live
          engine in
      after_chunk-Balanced st.outcome (record w { db = st.db; stream = st.stream; engine = engine })
        (record st.session { outstanding = st.session.outstanding - 1 }) n same
        (omega (arith, kept.2, c session_id live (sym h), out)) c

  -- A chunk that was taken from the queue is no longer counted, however it went.
  pub process_live_chunk-Balanced :
      (w : W sp cfg) (kind : SourceKind) (meta : ChunkMeta) (n : ℕ → ℕ)
      → ((j : ℕ) → (session_id == j) ≡ false → n j ≡ chunks_of j w.q)
      → n session_id ≡ chunks_of session_id w.q + 1
      → Counted w.live n
      → Balanced (process_live_chunk sp cfg w session_id kind meta now error)
  unfolding process_live_chunk
  process_live_chunk-Balanced w kind meta n same out c =
      process_found-Balanced w kind meta n (lookup session_id w.live) refl same out c
