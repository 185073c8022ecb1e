-- ===== src/Assistant/Worker/Told.antt =====
-- What the listeners of an answer are told, beside what is stored of it.
use mathlib.Core.List.{map, append_assoc, append-nil}
use ambient_recorder.Base.{
  ℕ, ◌≡◌, refl, sym, ap, ap₂, ◌∙◌, Bool, not, Option, none, some, List, [], ◌∷◌, ◌++◌, keep,
  update_where, Bool-cases, inl, inr,
}
use ambient_recorder.Base.Text.{Text}
use ambient_recorder.Attribution.Twin.{is_empty}
use ambient_recorder.Retrieval.{Excerpt}
use ambient_recorder.Assistant.Grounding.{validate_citations}
use ambient_recorder.Assistant.Rows.{TurnState, Watermark, ConversationTurn}
use ambient_recorder.Assistant.Store.{
  turn_has, append_answer_text, finish_turn, set_turn_answer, update_task,
}
use ambient_recorder.Assistant.Worker.State.{
  AnswerFrame, token, turn_status, AssistantWorker, End, done, engine_error, crashed, Machine,
}
use ambient_recorder.Assistant.Worker.Ask.{
  fail_turn, stream_chunks, state_of, raw_text, conclude, reply,
}

-- A token for each chunk that holds a text, and what follows the last one.
abbrev pub tokens : ℕ → ℕ → List Text → List (ℕ × Option AnswerFrame)
tokens cid seq cs = map (λ c. (cid, some (token seq c))) (keep (λ c. not (is_empty c)) cs)

abbrev pub closing :
    ℕ → ℕ → Watermark → List Excerpt → List Text → End → List (ℕ × Option AnswerFrame)
closing cid seq mark excerpts chunks crashed = []
closing cid seq mark excerpts chunks (engine_error e) =
    (cid, some (turn_status seq TurnState.failed none none)) ∷ (cid, none) ∷ []
closing cid seq mark excerpts chunks done =
    let a = validate_citations (raw_text chunks) excerpts in
    (cid, some (turn_status seq (state_of a.2) (some a.1) (some mark))) ∷ (cid, none) ∷ []

-- The turn, by how the reply ends.
abbrev pub answered :
    ℕ → Watermark → List Excerpt → List Text → End → ConversationTurn → ConversationTurn
answered now mark excerpts chunks crashed t = record t { answer = t.answer ++ raw_text chunks }
answered now mark excerpts chunks (engine_error e) t = record t {
  answer = t.answer ++ raw_text chunks;
  state = TurnState.failed;
  citations = [];
  watermark = none;
  completed_at = some now;
}
answered now mark excerpts chunks done t =
    let a = validate_citations (raw_text chunks) excerpts in
    record t {
      answer = a.0;
      state = state_of a.2;
      citations = a.1;
      watermark = some mark;
      completed_at = some now;
    }

update_where-update_where :
    (p : ConversationTurn → Bool) (g f h : ConversationTurn → ConversationTurn)
    (ts : List ConversationTurn)
    → ((t : ConversationTurn) → p (f t) ≡ p t)
    → ((t : ConversationTurn) → g (f t) ≡ h t)
    → update_where p g (update_where p f ts) ≡ update_where p h ts
update_where-update_where p g f h [] same both = refl
update_where-update_where p g f h (t ∷ ts) same both = elim (Bool-cases (p t)) [
  | inl e ↦
      rw (e, same t, e)
        (ap₂ (λ x xs. x ∷ xs) (both t) (update_where-update_where p g f h ts same both))
  | inr e ↦ rw (e, e) (ap (λ xs. t ∷ xs) (update_where-update_where p g f h ts same both))
]

update_where-same :
    (p : ConversationTurn → Bool) (f : ConversationTurn → ConversationTurn)
    (ts : List ConversationTurn)
    → ((t : ConversationTurn) → f t ≡ t)
    → update_where p f ts ≡ ts
update_where-same p f [] same = refl
update_where-same p f (t ∷ ts) same = elim (Bool-cases (p t)) [
  | inl e ↦ rw e (ap₂ (λ x xs. x ∷ xs) (same t) (update_where-same p f ts same))
  | inr e ↦ rw e (ap (λ xs. t ∷ xs) (update_where-same p f ts same))
]

stream_chunks-turns :
    (turn_id cid seq : ℕ) (cs : List Text) (w : AssistantWorker)
    → (stream_chunks turn_id cid seq cs w).store.turns
      ≡ update_where
          (turn_has turn_id)
          (λ t. record t { answer = t.answer ++ raw_text cs })
          w.store.turns
unfolding stream_chunks append_answer_text
stream_chunks-turns turn_id cid seq [] w = sym (
    update_where-same (turn_has turn_id) _ w.store.turns
      (λ t. ap (λ (a : Text). record t { answer = a }) (append-nil t.answer)))
stream_chunks-turns turn_id cid seq ([] ∷ cs) w = stream_chunks-turns turn_id cid seq cs w
stream_chunks-turns turn_id cid seq ((c ∷ chunk) ∷ cs) w =
    stream_chunks-turns turn_id cid seq cs _
    ∙ update_where-update_where (turn_has turn_id) _ _ _ w.store.turns (λ t. refl)
        (λ t.
          ap (λ (a : Text). record t { answer = a })
            (append_assoc t.answer (c ∷ chunk) (raw_text cs)))

stream_chunks-told :
    (turn_id cid seq : ℕ) (cs : List Text) (w : AssistantWorker)
    → (stream_chunks turn_id cid seq cs w).told ≡ w.told ++ tokens cid seq cs
unfolding stream_chunks append_answer_text
stream_chunks-told turn_id cid seq [] w = sym (append-nil w.told)
stream_chunks-told turn_id cid seq ([] ∷ cs) w = stream_chunks-told turn_id cid seq cs w
stream_chunks-told turn_id cid seq ((c ∷ chunk) ∷ cs) w =
    stream_chunks-told turn_id cid seq cs _
    ∙ append_assoc w.told ((cid, some (token seq (c ∷ chunk))) ∷ []) (tokens cid seq cs)

told_last :
    {A : Type 0}
    → (old ts : List A) (a b : A) (now : List A) → now ≡ old ++ ts
    → (now ++ a ∷ []) ++ b ∷ [] ≡ old ++ (ts ++ a ∷ b ∷ [])
told_last old ts a b now e =
    append_assoc now (a ∷ []) (b ∷ [])
    ∙ ap (λ xs. xs ++ a ∷ b ∷ []) e
    ∙ append_assoc old ts (a ∷ b ∷ [])

-- The listeners are told each chunk that holds a text, in order, and, unless the reply ends by an
-- exception that is not the engine's, how the turn ended and that nothing follows; the turn, and no other,
-- then has what they were told: the checked answer with its state, its citations and its watermark, or
-- the chunks in a row, failed where the engine failed, and with its old state after another exception.
pub reply-Told :
    (m : Machine) (i : ℕ) (turn : ConversationTurn) (cid : ℕ) (mark : Watermark)
    (excerpts : List Excerpt) (chunks : List Text) (e : End) (w : AssistantWorker)
    → let w' = (reply m i turn cid mark excerpts (chunks, e) w).0 in
      (w'.told
        ≡ w.told ++ (tokens cid turn.seq chunks ++ closing cid turn.seq mark excerpts chunks e))
      × (w'.store.turns
          ≡ update_where (turn_has turn.id) (answered m.now mark excerpts chunks e) w.store.turns)
unfolding fail_turn conclude finish_turn set_turn_answer update_task
reply-Told m i turn cid mark excerpts chunks crashed w = (
  stream_chunks-told turn.id cid turn.seq chunks w
      ∙ ap (λ fs. w.told ++ fs) (sym (append-nil (tokens cid turn.seq chunks))),
  stream_chunks-turns turn.id cid turn.seq chunks w,
)
reply-Told m i turn cid mark excerpts chunks (engine_error x) w =
    let e = stream_chunks-turns turn.id cid turn.seq chunks w in
    (
      told_last w.told (tokens cid turn.seq chunks) _ _ _
          (stream_chunks-told turn.id cid turn.seq chunks w),
      ap (update_where (turn_has turn.id) _) e
          ∙ update_where-update_where (turn_has turn.id) _ _
              (answered m.now mark excerpts chunks (engine_error x)) w.store.turns (λ t. refl)
              (λ t. refl),
    )
reply-Told m i turn cid mark excerpts chunks done w =
    let e = stream_chunks-turns turn.id cid turn.seq chunks w in
    (
      told_last w.told (tokens cid turn.seq chunks) _ _ _
          (stream_chunks-told turn.id cid turn.seq chunks w),
      update_where-update_where (turn_has turn.id) _ _ _
            (stream_chunks turn.id cid turn.seq chunks w).store.turns (λ t. refl) (λ t. refl)
          ∙ ap (update_where (turn_has turn.id) _) e
          ∙ update_where-update_where (turn_has turn.id) _ _
              (answered m.now mark excerpts chunks done) w.store.turns (λ t. refl) (λ t. refl),
    )
