-- ===== src/Assistant/Store/Recover.antt =====
-- `reconcile_assistant`, which a restart runs.
use ambient_recorder.Base.{ℕ, ◌+◌, Bool, true, false, none, some, List, [], ◌∷◌, if◌then◌else◌}
use ambient_recorder.Base.Text.{Text, codes}
use ambient_recorder.Assistant.Rows.{TurnState, TaskState, TaskKind, AssistantTask, Tables}
use ambient_recorder.Assistant.Store.{
  finish_turn, TaskField, update_task, to_state, to_started, to_ended, to_reason,
}
use ambient_recorder.Assistant.Store.Reads.{open_tasks}

-- `reconcile_assistant`: the counts of what was requeued and what was interrupted.
pub record Counts : Type 0 where
  pub requeued : ℕ
  pub interrupted : ℕ

abbrev pub restarted : Text
restarted = codes "recorder restarted during answer"

abbrev pub interrupt_fields : ℕ → List TaskField
interrupt_fields now =
    to_state TaskState.failed ∷ to_ended (some now) ∷ to_reason (some restarted) ∷ []

abbrev pub recover_as : ℕ → AssistantTask → TaskKind → Tables × Counts → Tables × Counts
recover_as now t TaskKind.summary (db, c) = (
  update_task db t.id (to_state TaskState.queued ∷ to_started none ∷ []),
  record c { requeued = c.requeued + 1 },
)
recover_as now t TaskKind.ask (db, c) = (
  finish_turn (update_task db t.id (interrupt_fields now)) t.ref_id TurnState.interrupted [] none
      now,
  record c { interrupted = c.interrupted + 1 },
)

abbrev pub is_running : TaskState → Bool
is_running TaskState.running = true
is_running _ = false

unfoldable pub recover_each : ℕ → List AssistantTask → Tables × Counts → Tables × Counts
unfolding update_task finish_turn
recover_each now [] s = s
recover_each now (t ∷ ts) s =
    recover_each now ts (if is_running t.state then recover_as now t t.kind s else s)

unfoldable pub reconcile_assistant : Tables → ℕ → Tables × Counts
unfolding recover_each open_tasks
reconcile_assistant db now =
    recover_each now (open_tasks db) (db, record { requeued = 0; interrupted = 0 })
