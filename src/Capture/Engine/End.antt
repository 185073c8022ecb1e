-- ===== src/Capture/Engine/End.antt =====
-- How a session ends: it is stopped, its devices are lost, or the disk is full. `none` is a call that
-- never returns, with the lock held.
use ambient_recorder.Base.{
  ℕ, Bool, true, false, Option, none, some, List, [], ◌∷◌, ◌==◌, if◌then◌else◌, max,
}
use ambient_recorder.Base.Text.{Text}
use ambient_recorder.Models.{SourceKind, mic, system}
use ambient_recorder.Metadata.Rows.{SessionStatus, SourceStatus, EventType, SessionEvent, Meta}
use ambient_recorder.Metadata.Store.{
  Result, ok, err, SessionDetail, append_event, end_source, finalize_session, get_session,
}
use ambient_recorder.Capture.Writer.{Device}
use ambient_recorder.Capture.Engine.State.{
  Detail, lost, low, nothing, session_stopped, session_finalized, EngineError, storage,
  session_not_found, session_not_active, Answer, answered, refused, World, close, notify, end_async,
  ActiveState, Engine, lane, set_lane, all_ended, join, ◌>>=◌,
}
use ambient_recorder.Capture.Engine.Start.{event, on_frames, write}

module _ (device : ℕ → SourceKind → Device) (dumps : Detail → Text) where
  -- The stream is closed, the lane is told to end, and its thread works off what waits.
  unfoldable pub end_lane :
      SourceKind → ℕ → ActiveState device → World → Option (ActiveState device × World)
  unfolding end_async join
  end_lane k now st w = do
    l ← end_async (lane device k st)
    some (join device k now (set_lane device k st l) (close st.session.id k w))

  -- The row of a lane that had ended before is left alone.
  abbrev pub complete : Bool → ℕ → SourceKind → ℕ → World → World
  complete true i k now w = w
  complete false i k now w = record w {
    tables = end_source w.tables i k SourceStatus.completed now;
  }

  -- One round of `_end_all_sources`
  unfoldable pub end_source_of :
      SourceKind → ℕ → ActiveState device × World → Option (ActiveState device × World)
  unfolding end_lane end_source
  end_source_of k now (st, w) = do
    (st', w') ← end_lane k now st w
    some (st', complete (lane device k st).worker.ended st.session.id k now w')

  -- What the threads of a lane do while the engine waits for another one: its stream gives frames
  -- (`some`), or its writer takes an entry of the queue (`none`).
  unfoldable pub work_meanwhile :
      SourceKind
      → ℕ
      → List (Option (ℕ × List ℕ))
      → ActiveState device × World
      → ActiveState device × World
  unfolding on_frames write
  work_meanwhile k now [] s = s
  work_meanwhile k now (some (at, raw) ∷ es) (st, w) =
      work_meanwhile k now es (on_frames device dumps k at raw st w)
  work_meanwhile k now (none ∷ es) (st, w) = work_meanwhile k now es (write device dumps k now st w)

  -- The lane of the system goes on while that of the microphone is joined.
  abbrev pub end_other : ℕ → ActiveState device × World → Option (ActiveState device × World)
  end_other now s =
      end_source_of system now
        (work_meanwhile system now (device s.0.session.id system).meanwhile s)

  unfoldable pub end_all_sources :
      ℕ → ActiveState device × World → Option (ActiveState device × World)
  unfolding end_source_of work_meanwhile
  end_all_sources now s = end_source_of mic now s >>= end_other now

  abbrev pub longest : ActiveState device → ℕ
  longest st = max st.mic_lane.worker.duration_s st.system_lane.worker.duration_s

  -- The session is over; where the event cannot be added, it stays the active one.
  abbrev pub leave : ActiveState device → World → Result Meta → Engine device × Option EngineError
  leave st w (err x) = (record { active = some st; world = w }, some (storage x))
  leave st w (ok m) = (
    record {
      active = none;
      world = notify (session_finalized st.session.id) (record w { tables = m });
    },
    none,
  )

  abbrev pub add_event : Option SessionEvent → Meta → Result Meta
  add_event none m = ok m
  add_event (some e) m = append_event m e

  unfoldable pub finalize :
      ℕ → Option SessionEvent → ActiveState device × World → Engine device × Option EngineError
  unfolding finalize_session append_event
  finalize now e (st, w) =
      let m = finalize_session w.tables st.session.id SessionStatus.completed now (longest st) in
      leave st (record w { tables = m }) (add_event e m)

  abbrev pub inactive : ℕ → Option SessionDetail → EngineError
  inactive i none = session_not_found i
  inactive i (some detail) = session_not_active i

  abbrev pub check_active :
      ℕ → Option (ActiveState device) → Option SessionDetail → Option EngineError
  check_active i none detail = some (inactive i detail)
  check_active i (some st) detail = if st.session.id == i then none else some (inactive i detail)

  -- `_require_active`
  unfoldable pub require_active : ℕ → Engine device → Option EngineError
  unfolding get_session
  require_active i e = check_active i e.active (get_session e.world.tables i)

  abbrev pub stopped_answer : ℕ → Engine device × Option EngineError → Engine device × Answer
  stopped_answer i (e, some x) = (e, refused x)
  stopped_answer i (e, none) = (e, answered (get_session e.world.tables i))

  abbrev pub stop_with :
      ℕ → ℕ → World → Option (ActiveState device) → Option (Engine device × Answer)
  stop_with i now w none =
      some (record { active = none; world = w }, refused (session_not_active i))
  stop_with i now w (some st) = do
    s ← end_all_sources now (st, notify (session_stopped i) w)
    some (stopped_answer i (finalize now (some (event i now EventType.stopped (dumps nothing))) s))

  abbrev pub stop_checked :
      ℕ → ℕ → Engine device → Option EngineError → Option (Engine device × Answer)
  stop_checked i now e (some x) = some (e, refused x)
  stop_checked i now e none = stop_with i now e.world e.active

  unfoldable pub stop_session : ℕ → ℕ → Engine device → Option (Engine device × Answer)
  unfolding require_active end_all_sources finalize
  stop_session i now e = stop_checked i now e (require_active i e)

  -- With both devices lost the session is over.
  abbrev pub lost_last : ℕ → ActiveState device → World → Engine device × Option EngineError
  lost_last now st w =
      if all_ended device st
      then finalize now none (st, w)
      else (record { active = some st; world = w }, none)

  abbrev pub lost_event :
      ℕ → ActiveState device → World → Result Meta → Engine device × Option EngineError
  lost_event now st w (err x) = (record { active = some st; world = w }, some (storage x))
  lost_event now st w (ok m) = lost_last now st (record w { tables = m })

  abbrev pub lose : SourceKind → ℕ → ActiveState device × World → Engine device × Option EngineError
  lose k now (st, w) =
      let i = st.session.id in
      let m = end_source w.tables i k SourceStatus.ended_device_lost now in
      let l = lane device k st in
      lost_event now st (record w { tables = m })
        (append_event m
          (event i now EventType.device_lost (dumps (lost k l.device_id l.worker.seq))))

  abbrev pub lose_when :
      SourceKind
      → ℕ
      → World
      → Option (ActiveState device)
      → Option (Engine device × Option EngineError)
  lose_when k now w none = some (record { active = none; world = w }, none)
  lose_when k now w (some st) =
      if (lane device k st).worker.ended
      then some (record { active = some st; world = w }, none)
      else end_lane k now st w >>= λ s. some (lose k now s)

  unfoldable pub handle_device_lost :
      SourceKind → ℕ → Engine device → Option (Engine device × Option EngineError)
  unfolding end_lane end_source append_event finalize
  handle_device_lost k now e = lose_when k now e.world e.active

  abbrev pub full_event :
      ℕ → ActiveState device → World → Result Meta → Option (Engine device × Option EngineError)
  full_event now st w (err x) = some (record { active = some st; world = w }, some (storage x))
  full_event now st w (ok m) =
      end_all_sources now (st, record w { tables = m }) >>= λ s. some (finalize now none s)

  abbrev pub full_when :
      SourceKind
      → ℕ
      → World
      → Option (ActiveState device)
      → Option (Engine device × Option EngineError)
  full_when k now w none = some (record { active = none; world = w }, none)
  full_when k now w (some st) =
      full_event now st w
        (append_event w.tables (event st.session.id now EventType.disk_low (dumps (low k))))

  -- The thread that `_on_disk_full` has started.
  unfoldable pub finalise :
      SourceKind → ℕ → Engine device → Option (Engine device × Option EngineError)
  unfolding append_event end_all_sources finalize
  finalise k now e = full_when k now e.world e.active
