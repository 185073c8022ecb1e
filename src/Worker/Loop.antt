-- ===== src/Worker/Loop.antt =====
-- The thread: the queue, and `_run`, which takes the entries one by one.
pub mod Queue
pub mod Balance
pub mod Rounds
use ambient_recorder.Base.{
  ℕ, ◌+◌, Bool, true, false, ◌&&◌, ◌||◌, ◌==◌, Option, none, some, List, [], ◌∷◌, ltb, leb,
  if◌then◌else◌,
}
use ambient_recorder.Base.Text.{Text}
use ambient_recorder.Attribution.Decide.{AttributionConfig}
use ambient_recorder.Worker.State.{
  Speech, Settings, Item, chunk, session_stopped, on_demand_step, shutdown, Queued, Worker,
}
use ambient_recorder.Worker.Live.{push}
use ambient_recorder.Worker.Live.Steps.{finalise_live, process_live_chunk, W}
use ambient_recorder.Worker.OnDemand.Job.{step_on_demand}

-- The order of `_Item`: by priority, then by place.
abbrev pub before : Queued → Queued → Bool
before a b = ltb a.priority b.priority || (a.priority == b.priority && ltb a.order b.order)

-- `heappop`: the least entry, and the others.
unfoldable pub least : Queued → List Queued → Queued × List Queued
least x [] = (x, [])
least x (y ∷ ys) =
    if before y x
    then (let r = least y ys in (r.0, x ∷ r.1))
    else (let r = least x ys in (r.0, y ∷ r.1))

abbrev pub pop : List Queued → Option (Queued × List Queued)
pop [] = none
pop (x ∷ xs) = some (least x xs)

module _ {Sample Level : Type 0} where
  -- `shutdown`, as far as the queue goes; the entry's priority of -1 is 0 here.
  unfoldable pub ask_shutdown : Worker Sample Level → Worker Sample Level
  unfolding push
  ask_shutdown w = push w 0 shutdown

module _ (sp : Speech) (cfg : AttributionConfig) (settings : Settings) where
  -- One round of the loop; `now` and `error` are the time and the text of an exception.
  unfoldable pub handle : W sp cfg → Item → ℕ → Text → W sp cfg
  unfolding process_live_chunk finalise_live step_on_demand
  handle w (chunk session_id kind meta) now error =
      process_live_chunk sp cfg w session_id kind meta now error
  handle w (session_stopped session_id) now error = finalise_live cfg w session_id now
  handle w (on_demand_step session_id tid) now error =
      step_on_demand sp cfg settings w session_id tid now error
  handle w shutdown now error = record w { stopped = true }

  abbrev pub take_next : W sp cfg → ℕ → Text → Option (Queued × List Queued) → W sp cfg
  take_next w now error none = w
  take_next w now error (some (x, rest)) = handle (record w { q = rest }) x.item now error

  -- With nothing queued the thread waits; after a shutdown it has returned.
  unfoldable pub run_once : W sp cfg → ℕ → Text → W sp cfg
  unfolding handle least
  run_once w now error = if w.stopped then w else take_next w now error (pop w.q)
