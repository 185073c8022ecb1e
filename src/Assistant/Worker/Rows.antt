-- ===== src/Assistant/Worker/Rows.antt =====
-- What an update of a task or a turn leaves of the rows.
use ambient_recorder.Base.{
  ℕ, ◌≡◌, refl, ap, ◌∙◌, arith, Bool, true, false, not, ◌&&◌, List, [], ◌∷◌, keep, All,
  update_where, Bool-cases, inl, inr,
}
use ambient_recorder.Base.Text.{Text}
use ambient_recorder.Transcripts.Store.{Result, ok, err}
use ambient_recorder.Assistant.Rows.{TurnState, ConversationTurn, AssistantTask}
use ambient_recorder.Assistant.Store.{task_has, turn_has, append_answer_text, TaskField, set_fields}
use ambient_recorder.Assistant.Store.Reads.{is_open}
use ambient_recorder.Assistant.Worker.State.{AssistantWorker, End, crashed, Outcome, finished}
use ambient_recorder.Assistant.Worker.Ask.{stream_chunks}

-- After an update of the rows that a test picks.
pub All-updated :
    {A : Type 0}
    → (P : A → Type 0) (test : A → Bool) (f : A → A) (xs : List A)
    → ((x : A) → test x ≡ true → P (f x))
    → ((x : A) → test x ≡ false → P x)
    → All P (update_where test f xs)
All-updated P test f [] hit miss = tt
All-updated P test f (x ∷ xs) hit miss = elim (Bool-cases (test x)) [
  | inl e ↦ rw e (hit x e, All-updated P test f xs hit miss)
  | inr e ↦ rw e (miss x e, All-updated P test f xs hit miss)
]

pub kept_others :
    {A : Type 0}
    → (test : A → Bool) (f : A → A) (xs : List A) → ((x : A) → test (f x) ≡ test x)
    → keep (λ x. not (test x)) (update_where test f xs) ≡ keep (λ x. not (test x)) xs
kept_others test f [] same = refl
kept_others test f (x ∷ xs) same = elim (Bool-cases (test x)) [
  | inl e ↦ rw (e, same x, e) (kept_others test f xs same)
  | inr e ↦ rw (e, e) (ap (λ ys. x ∷ ys) (kept_others test f xs same))
]

abbrev pub is_streaming : TurnState → Bool
is_streaming TurnState.streaming = true
is_streaming _ = false

-- The task with the number i is not open; the turn is not streaming.
abbrev pub IsClosed : ℕ → AssistantTask → Type 0
IsClosed i t = (task_has i t && is_open t.state) ≡ false

abbrev pub HasEnded : ℕ → ConversationTurn → Type 0
HasEnded i t = (turn_has i t && is_streaming t.state) ≡ false

abbrev pub other_tasks : ℕ → AssistantWorker → List AssistantTask
other_tasks i w = keep (λ t. not (task_has i t)) w.store.tasks

abbrev pub turns_besides : ℕ → AssistantWorker → List ConversationTurn
turns_besides i w = keep (λ t. not (turn_has i t)) w.store.turns

abbrev pub crashes : End → Bool
crashes crashed = true
crashes _ = false

abbrev pub is_ok : {A : Type 0} → Result A → Bool
is_ok (ok a) = true
is_ok (err e) = false

pub record IsSettled (i turn_id : ℕ) (w : AssistantWorker) (r : AssistantWorker × Outcome)
    : Type 0 where
  pub ends : r.1 ≡ finished
  pub closed : All (IsClosed i) r.0.store.tasks
  pub ended : All (HasEnded turn_id) r.0.store.turns
  pub same_tasks : other_tasks i r.0 ≡ other_tasks i w
  pub same_turns : turns_besides turn_id r.0 ≡ turns_besides turn_id w

pub none_open_by :
    (i : ℕ) (fields : List TaskField) (ts : List AssistantTask)
    → ((t : AssistantTask) → is_open (set_fields fields t).state ≡ false)
    → All (IsClosed i) (update_where (task_has i) (set_fields fields) ts)
none_open_by i fields ts shut =
    All-updated (IsClosed i) (task_has i) (set_fields fields) ts (λ t e. ground (arith, shut t))
      (λ t e. ground (arith, e))

pub ended_by :
    (i : ℕ) (f : ConversationTurn → ConversationTurn) (ts : List ConversationTurn)
    → ((t : ConversationTurn) → is_streaming (f t).state ≡ false)
    → All (HasEnded i) (update_where (turn_has i) f ts)
ended_by i f ts shut =
    All-updated (HasEnded i) (turn_has i) f ts (λ t e. ground (arith, shut t))
      (λ t e. ground (arith, e))

-- A chunk changes only the answer of its turn.
pub record IsKept (turn_id : ℕ) (w w' : AssistantWorker) : Type 0 where
  pub tasks : w'.store.tasks ≡ w.store.tasks
  pub turns : turns_besides turn_id w' ≡ turns_besides turn_id w

pub stream_chunks-IsKept :
    (turn_id cid seq : ℕ) (cs : List Text) (w : AssistantWorker)
    → IsKept turn_id w (stream_chunks turn_id cid seq cs w)
unfolding stream_chunks append_answer_text
stream_chunks-IsKept turn_id cid seq [] w = record { tasks = refl; turns = refl }
stream_chunks-IsKept turn_id cid seq ([] ∷ cs) w = stream_chunks-IsKept turn_id cid seq cs w
stream_chunks-IsKept turn_id cid seq ((c ∷ chunk) ∷ cs) w =
    let rest = stream_chunks-IsKept turn_id cid seq cs _ in
    record {
      tasks = rest.tasks;
      turns = rest.turns ∙ kept_others (turn_has turn_id) _ w.store.turns (λ t. refl);
    }
