-- ===== src/Assistant/Store/Reconcile.antt =====
-- What a restart leaves of the assistant's tasks and turns.
use mathlib.Core.List.{map, Memᴰ}
use ambient_recorder.Base.{
  ℕ, ◌≡◌, refl, sym, subst, ap, ap₂, ◌∙◌, arith, Bool, true, false, not, ◌&&◌, ◌==◌, none, List, [],
  ◌∷◌, keep, any, All, All-keep, All-update_where, All-map_of, update_where, Bool-cases, inl, inr,
  if◌then◌else◌,
}
use ambient_recorder.Base.Text.{Text}
use ambient_recorder.Assistant.Grounding.Cited.{All-itself}
use ambient_recorder.Assistant.Rows.{TaskState, TaskKind, ConversationTurn, AssistantTask, Tables}
use ambient_recorder.Assistant.Store.{
  to_state, to_started, task_has, turn_has, set_fields, update_task, finish_turn,
}
use ambient_recorder.Assistant.Store.Recover.{
  interrupt_fields, is_running, Counts, recover_as, recover_each, reconcile_assistant,
}
use ambient_recorder.Assistant.Store.Reads.{is_open, open_tasks}

-- A task of the table is not running, or a running task of the list has its identifier.
abbrev Awaits : List AssistantTask → AssistantTask → Type 0
Awaits ts x =
    (is_running x.state && not (any (λ t. (t.id == x.id) && is_running t.state) ts)) ≡ false

abbrev pub NotRunning : AssistantTask → Type 0
NotRunning x = is_running x.state ≡ false

recover_as-Awaits :
    (now : ℕ) (t : AssistantTask) (k : TaskKind) (ts : List AssistantTask) (db : Tables)
    (c : Counts)
    → All (Awaits (t ∷ ts)) db.tasks
    → All (Awaits ts) (recover_as now t k (db, c)).0.tasks
unfolding update_task finish_turn
recover_as-Awaits now t TaskKind.summary ts db c h =
    All-update_where (Awaits (t ∷ ts)) (Awaits ts) (task_has t.id)
      (set_fields (to_state TaskState.queued ∷ to_started none ∷ [])) db.tasks (λ x p a. refl)
      (λ x p a. ground (arith, p, a)) h
recover_as-Awaits now t TaskKind.ask ts db c h =
    All-update_where (Awaits (t ∷ ts)) (Awaits ts) (task_has t.id)
      (set_fields (interrupt_fields now)) db.tasks (λ x p a. refl) (λ x p a. ground (arith, p, a)) h

one-Awaits :
    (running : Bool) (now : ℕ) (t : AssistantTask) (ts : List AssistantTask) (s : Tables × Counts)
    → is_running t.state ≡ running
    → All (Awaits (t ∷ ts)) s.0.tasks
    → All (Awaits ts) (if running then recover_as now t t.kind s else s).0.tasks
one-Awaits true now t ts s e h = recover_as-Awaits now t t.kind ts s.0 s.1 h
one-Awaits false now t ts s e h = All-map_of s.0.tasks (λ x a. ground (arith, e, a)) h

recover_each-Awaits :
    (now : ℕ) (ts : List AssistantTask) (s : Tables × Counts)
    → All (Awaits ts) s.0.tasks
    → All (Awaits []) (recover_each now ts s).0.tasks
unfolding recover_each
recover_each-Awaits now [] s h = h
recover_each-Awaits now (t ∷ ts) s h =
    recover_each-Awaits now ts _ (one-Awaits (is_running t.state) now t ts s refl h)

listed :
    (x : AssistantTask) (xs : List AssistantTask)
    → Memᴰ x xs
    → Awaits (keep (λ t. is_open t.state) xs) x
listed x [] m = elim m [ ]
listed x (y ∷ xs) (Memᴰ.head e) =
    subst (Awaits (keep (λ t. is_open t.state) (y ∷ xs))) (sym e) (ground arith)
listed x (y ∷ xs) (Memᴰ.tail m) = ground (arith, listed x xs m)

-- After a restart no task is running.
reconcile-NotRunning : (db : Tables) (now : ℕ) → All NotRunning (reconcile_assistant db now).0.tasks
unfolding reconcile_assistant open_tasks
reconcile-NotRunning db now =
    All-map_of _ (λ x a. ground (arith, a))
      (recover_each-Awaits now (keep (λ t. is_open t.state) db.tasks) _ (
        All-map_of db.tasks (λ x m. listed x db.tasks m) (All-itself db.tasks db.tasks (λ x m. m))))

-- What is left of a turn: its question and the answer that was streamed.
abbrev pub said : ConversationTurn → ℕ × Text × Text
said t = (t.id, t.question, t.answer)

said-finish :
    (i : ℕ) (f : ConversationTurn → ConversationTurn) (ts : List ConversationTurn)
    → ((t : ConversationTurn) → said (f t) ≡ said t)
    → map said (update_where (turn_has i) f ts) ≡ map said ts
said-finish i f [] h = refl
said-finish i f (t ∷ ts) h = elim (Bool-cases (turn_has i t)) [
  | inl e ↦ rw e (ap₂ (λ x xs. x ∷ xs) (h t) (said-finish i f ts h))
  | inr e ↦ rw e (ap (λ xs. said t ∷ xs) (said-finish i f ts h))
]

recover_as-said :
    (now : ℕ) (t : AssistantTask) (k : TaskKind) (s : Tables × Counts)
    → map said (recover_as now t k s).0.turns ≡ map said s.0.turns
unfolding update_task finish_turn
recover_as-said now t TaskKind.summary s = refl
recover_as-said now t TaskKind.ask s = said-finish t.ref_id _ s.0.turns (λ x. refl)

one-said :
    (running : Bool) (now : ℕ) (t : AssistantTask) (s : Tables × Counts)
    → map said (if running then recover_as now t t.kind s else s).0.turns ≡ map said s.0.turns
one-said true now t s = recover_as-said now t t.kind s
one-said false now t s = refl

recover_each-said :
    (now : ℕ) (ts : List AssistantTask) (s : Tables × Counts)
    → map said (recover_each now ts s).0.turns ≡ map said s.0.turns
unfolding recover_each
recover_each-said now [] s = refl
recover_each-said now (t ∷ ts) s =
    recover_each-said now ts _ ∙ one-said (is_running t.state) now t s

-- Where nothing runs, nothing is recovered.
recover_each-idle :
    (now : ℕ) (ts : List AssistantTask) (s : Tables × Counts)
    → All NotRunning ts
    → recover_each now ts s ≡ s
unfolding recover_each
recover_each-idle now [] s h = refl
recover_each-idle now (t ∷ ts) s h = rw h.0 (recover_each-idle now ts s h.1)

-- After a restart no task is running, and every turn keeps its question and what was streamed of its
-- answer; another restart then changes nothing, and counts nothing.
pub reconcile_assistant-NotRunning :
    (db : Tables) (now later : ℕ)
    → let db' = (reconcile_assistant db now).0 in
      All NotRunning db'.tasks
      × (map said db'.turns ≡ map said db.turns)
      × (reconcile_assistant db' later ≡ (db', record { requeued = 0; interrupted = 0 }))
unfolding reconcile_assistant open_tasks
reconcile_assistant-NotRunning db now later =
    let db' = (reconcile_assistant db now).0 in
    let settled = reconcile-NotRunning db now in
    (
      settled,
      recover_each-said now (keep (λ t. is_open t.state) db.tasks) _,
      recover_each-idle later (keep (λ t. is_open t.state) db'.tasks) _
          (All-keep NotRunning (λ t. is_open t.state) db'.tasks settled),
    )
