-- ===== src/Assistant/Worker/Sound/Requested.antt =====
-- What clients and the capture engine do keeps the invariant.
use ambient_recorder.Base.{
  ℕ, ◌+◌, ◌≡◌, refl, sym, ◌∙◌, arith, Bool, true, false, not, ◌||◌, Option, none, some, List, [],
  ◌∷◌, ◌++◌, All, All-map_of, All-append, if◌then◌else◌, any, ltb, ◌-◌,
}
use ambient_recorder.Base.Text.{Text}
use ambient_recorder.Base.Keys.{is_taken, are_keyed-append}
use ambient_recorder.Assistant.Rows.{
  AssistantTask, TaskKind, Tables, Conversation, ConversationTurn, question_bounds,
}
use ambient_recorder.Assistant.Store.{
  task_has, summary_has, turn_has, insert_task, create_summary, create_turn, with_turn,
}
use ambient_recorder.Assistant.Worker.State.{
  AssistantWorker, Item, ItemKind, shutdown, warm, of_kind, push, prewarm, shut_down, SessionNotice,
  on_session_event, idle_watch, same_session, queue_summary, request_summary, queue_ask,
  ask_session, request_ask,
}
use ambient_recorder.Assistant.Worker.Sound.{is_of, IsServed, IsCounted, IsSound}
use ambient_recorder.Assistant.Worker.Sound.Items.{serves-append, orders-append}

IsCounted-more : (n : ℕ) (q : List Item) → All (IsCounted n) q → All (IsCounted (n + 1)) q
IsCounted-more n q h = All-map_of q (λ x p. ground (arith, p)) h

-- An item that is pushed, with or without its task.
module _ (w : AssistantWorker) (priority : ℕ) (kind : ItemKind) (i : ℕ) (s : IsSound w) where
  abbrev item : Item
  item = record { priority = priority; order = w.counter; task_id = i; kind = kind }

  still-IsServed :
      (ts : List AssistantTask) → All (IsServed w.q) ts → All (IsServed (w.q ++ item ∷ [])) ts
  still-IsServed ts h = All-map_of ts (λ t p. ground (arith, p, serves-append t w.q item)) h

  items-IsCounted : All (IsCounted (w.counter + 1)) (w.q ++ item ∷ [])
  items-IsCounted =
      All-append (IsCounted (w.counter + 1)) w.q (item ∷ [])
        (IsCounted-more w.counter w.q s.counted) (ground arith, tt)

  push-IsSound : IsSound (push priority kind i w)
  unfolding push
  push-IsSound = record {
    keyed = s.keyed;
    ordered = orders-append w.q item s.ordered s.counted;
    counted = items-IsCounted;
    served = still-IsServed w.store.tasks s.served;
  }

any-is_taken :
    (i : ℕ) (ts : List AssistantTask)
    → any (task_has i) ts ≡ is_taken (λ (t : AssistantTask). t.id) i ts
any-is_taken i [] = refl
any-is_taken i (t ∷ ts) = ground (arith, any-is_taken i ts)

added-IsSound :
    (w : AssistantWorker) (priority : ℕ) (k : TaskKind) (task : AssistantTask) (db : Tables)
    → IsSound w
    → db.tasks ≡ w.store.tasks
    → any (task_has task.id) w.store.tasks ≡ false
    → is_of (of_kind k) task.kind ≡ true
    → IsSound (
        push priority
          (of_kind k)
          task.id
          (record w { store = record db { tasks = db.tasks ++ task ∷ [] } }))
unfolding push
added-IsSound w priority k task db s e free of_it = rw e (record {
  keyed =
      are_keyed-append (λ (t : AssistantTask). t.id) w.store.tasks task s.keyed
        (sym (any-is_taken task.id w.store.tasks) ∙ free);
  ordered = orders-append w.q (item w priority (of_kind k) task.id s) s.ordered s.counted;
  counted = items-IsCounted w priority (of_kind k) task.id s;
  served =
      All-append _ w.store.tasks (task ∷ [])
        (still-IsServed w priority (of_kind k) task.id s w.store.tasks s.served)
        (ground (arith, of_it, serves-append task w.q (item w priority (of_kind k) task.id s)), tt);
})

summary_unless :
    (b : Bool) (i : ℕ) (w : AssistantWorker) (o : Option Tables)
    → IsSound w
    → (b ≡ false → IsSound (queue_summary i w o).0)
    → IsSound (queue_summary i w (if b then none else o)).0
summary_unless true i w o s h = s
summary_unless false i w o s h = h refl

pub request_summary-IsSound :
    (i task_id session_id transcript_id now : ℕ) (w : AssistantWorker)
    → IsSound w
    → IsSound (request_summary i task_id session_id transcript_id now w).0
unfolding request_summary create_summary insert_task
request_summary-IsSound i task_id session_id transcript_id now w s =
    summary_unless (any (summary_has i) w.store.summaries) task_id w _ s (λ e.
      summary_unless (any (task_has task_id) w.store.tasks) task_id w _ s
        (λ free. added-IsSound w 4 TaskKind.summary _ _ s refl free refl))

ask_unless :
    (b : Bool) (priority i : ℕ) (w : AssistantWorker) (o : Option (ConversationTurn × Tables))
    → IsSound w
    → (b ≡ false → IsSound (queue_ask priority i w o).0)
    → IsSound (queue_ask priority i w (if b then none else o)).0
ask_unless true priority i w o s h = s
ask_unless false priority i w o s h = h refl

turn_unless :
    (b : Bool) (priority i : ℕ) (w : AssistantWorker) (t : ConversationTurn) (o : Option Tables)
    → IsSound w
    → (b ≡ false → IsSound (queue_ask priority i w (with_turn t o)).0)
    → IsSound (queue_ask priority i w (with_turn t (if b then none else o))).0
turn_unless true priority i w t o s h = s
turn_unless false priority i w t o s h = h refl

ask_session-IsSound :
    (i task_id : ℕ) (c : Conversation) (active : Option ℕ) (now : ℕ) (w : AssistantWorker)
    (question : Option Text) (sids : List ℕ)
    → IsSound w
    → IsSound (ask_session i task_id c active now w question sids).0
unfolding create_turn insert_task
ask_session-IsSound i task_id c active now w none sids s = s
ask_session-IsSound i task_id c active now w (some question) [] s = s
ask_session-IsSound i task_id c active now w (some question) (sid ∷ sids) s =
    let priority = if same_session active sid then 2 else 3 in
    ask_unless (any (turn_has i) w.store.turns) priority task_id w _ s (λ e.
      turn_unless (any (task_has task_id) w.store.tasks) priority task_id w _ _ s
        (λ free. added-IsSound w priority TaskKind.ask _ _ s refl free refl))

pub request_ask-IsSound :
    (i task_id : ℕ) (c : Conversation) (question : Text) (active : Option ℕ) (now : ℕ)
    (w : AssistantWorker)
    → IsSound w
    → IsSound (request_ask i task_id c question active now w).0
unfolding request_ask
request_ask-IsSound i task_id c question active now w s =
    ask_session-IsSound i task_id c active now w (question_bounds question) c.session_ids s

-- Where the queue, the counter and the tasks are the same.
pub same-IsSound :
    (w w' : AssistantWorker)
    → w'.q ≡ w.q
    → w'.counter ≡ w.counter
    → w'.store.tasks ≡ w.store.tasks
    → IsSound w
    → IsSound w'
same-IsSound w w' e f g s = record {
  keyed = rw g s.keyed;
  ordered = rw e s.ordered;
  counted = rw (e, f) s.counted;
  served = rw (e, g) s.served;
}

pub prewarm-IsSound : (w : AssistantWorker) → IsSound w → IsSound (prewarm w)
unfolding prewarm
prewarm-IsSound w s = push-IsSound w 1 warm 0 s

pub shut_down-IsSound : (w : AssistantWorker) → IsSound w → IsSound (shut_down w)
unfolding shut_down
shut_down-IsSound w s = push-IsSound w 0 shutdown 0 s

pub on_session_event-IsSound :
    (n : SessionNotice) (now : ℕ) (w : AssistantWorker)
    → IsSound w
    → IsSound (on_session_event n now w)
unfolding on_session_event
on_session_event-IsSound SessionNotice.started now w s =
    prewarm-IsSound (record w { session_active = true; last_activity = now })
      (same-IsSound w (record w { session_active = true; last_activity = now }) refl refl refl s)
on_session_event-IsSound SessionNotice.stopped now w s =
    same-IsSound w (record w { session_active = false; last_activity = now }) refl refl refl s
on_session_event-IsSound SessionNotice.finalized now w s =
    same-IsSound w (record w { session_active = false; last_activity = now }) refl refl refl s

pub idle_watch-IsSound :
    (idle now : ℕ) (w : AssistantWorker) → IsSound w → IsSound (idle_watch idle now w)
unfolding idle_watch
idle_watch-IsSound idle now w s =
    unless (w.session_active || not w.loaded || ltb (now - w.last_activity) idle)
  where
    unless : (b : Bool) → IsSound (if b then w else record w { loaded = false })
    unless true = s
    unless false = same-IsSound w (record w { loaded = false }) refl refl refl s
