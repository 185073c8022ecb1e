-- ===== src/Capture/Engine/Reached.antt =====
-- Whatever has happened, each call of the engine returns, while the chunk store is reliable.
use ambient_recorder.Base.{ℕ, ◌≡◌, refl, sym, subst, ap, ◌∙◌, Option, none, some, [], ◌∷◌, ◌++◌}
use ambient_recorder.Base.Text.{Text}
use ambient_recorder.Models.{SourceKind}
use ambient_recorder.Metadata.Rows.{Meta, strip_title}
use ambient_recorder.Metadata.Store.{Result, ok, err}
use ambient_recorder.Metadata.Reconcile.Actives.{actives}
use ambient_recorder.Capture.Writer.{Device}
use ambient_recorder.Capture.Engine.State.{Detail, EngineError, Answer, World, ActiveState, Engine}
use ambient_recorder.Capture.Engine.Start.{
  Request, kinds, open_streams, new_state, announce, publish, open_session, begin, start_when,
  start_session, preflight,
}
use ambient_recorder.Capture.Engine.End.{stop_session, handle_device_lost, finalise}
use ambient_recorder.Capture.Engine.Alive.{IsReliable}
use ambient_recorder.Capture.Engine.Lanes.{some_inj}
use ambient_recorder.Capture.Engine.Lively.{AreLively, on_frames-Lively, write-Lively}
use ambient_recorder.Capture.Engine.Machine.{
  session_of, Step, start_called, stop_called, device_gone, frames_came, lane_wrote, disk_was_full,
  Reach, booted, next,
}
use ambient_recorder.Capture.Engine.Started.{listed, IsSynced}
use ambient_recorder.Capture.Engine.Refined.{Reach-Moves}
use ambient_recorder.Capture.Engine.Returns.{
  HasLively, Replies, stop_session-Replies, handle_device_lost-Replies, finalise-Replies,
}

module _ (device : ℕ → SourceKind → Device) (dumps : Detail → Text)
    (reliable : (i : ℕ) (k : SourceKind) → IsReliable (device i k)) where
  abbrev Held : Engine device × Answer → Type 0
  Held r = HasLively device dumps reliable r.0.active

  announce-Lively :
      (q : Request) (title : Option Text) (w : World) (m : Meta) (r : Result Meta)
      → Held (announce device dumps q (some (new_state device dumps q title m)) w r)
  unfolding announce
  announce-Lively q title w m (err x) = ((refl, tt, tt), (refl, tt, tt))
  announce-Lively q title w m (ok m') = ((refl, tt, tt), (refl, tt, tt))

  publish-Lively :
      (q : Request) (title : Option Text) (w : World) (r : Result Meta)
      → Held (publish device dumps q title w r)
  unfolding publish
  publish-Lively q title w (err x) = tt
  publish-Lively q title w (ok m) = announce-Lively q title _ m _

  open_session-Lively :
      (q : Request) (title : Option Text) (w : World) (x : Option EngineError)
      → Held (open_session device dumps q title (w, x))
  unfolding open_session
  open_session-Lively q title w (some x) = tt
  open_session-Lively q title w none = publish-Lively q title w _

  begin-Lively :
      (q : Request) (w : World) (x : Option EngineError) (title : Option (Option Text))
      → Held (begin device dumps q w x title)
  unfolding begin
  begin-Lively q w (some x) title = tt
  begin-Lively q w none none = tt
  begin-Lively q w none (some title) =
      let (w', x) = open_streams kinds q w in open_session-Lively q title w' x

  start_when-Lively :
      (q : Request) (active : Option (ActiveState device)) (w : World)
      → HasLively device dumps reliable active
      → Held (start_when device dumps q active w)
  unfolding start_when
  start_when-Lively q none w h = begin-Lively q w (preflight q) (strip_title q.title)
  start_when-Lively q (some st) w h = h

  start_session-Lively :
      (q : Request) (e : Engine device)
      → HasLively device dumps reliable e.active
      → Held (start_session device dumps q e)
  unfolding start_session
  start_session-Lively q e h = start_when-Lively q e.active e.world h

  replied :
      {A : Type 0} (r : Option (Engine device × A)) (e : Engine device) (a : A)
      → Replies device dumps reliable r
      → r ≡ some (e, a)
      → HasLively device dumps reliable e.active
  replied r e a (e', a', q, h) p =
      subst (λ z. HasLively device dumps reliable z.0.active) (some_inj (sym q ∙ p)) h

  session_lively :
      (e : Engine device) (st : ActiveState device)
      → e.active ≡ some st
      → HasLively device dumps reliable e.active
      → IsSynced device dumps e
      → AreLively device dumps reliable st × (actives e.world.tables ≡ st.session.id ∷ [])
  session_lively e st n h a = (
    subst (HasLively device dumps reliable) n h,
    a ∙ ap (λ z. listed (session_of device dumps z)) n,
  )

  Step-Lively :
      (e e' : Engine device)
      → HasLively device dumps reliable e.active
      → IsSynced device dumps e
      → Step device dumps e e'
      → HasLively device dumps reliable e'.active
  Step-Lively e e' h a (start_called q p) =
      subst (λ z. HasLively device dumps reliable z.active) (sym p) (start_session-Lively q e h)
  Step-Lively e e' h a (stop_called i now ans p) =
      replied _ e' ans (stop_session-Replies device dumps reliable i now e h a) p
  Step-Lively e e' h a (device_gone k now x p) =
      replied _ e' x (handle_device_lost-Replies device dumps reliable k now e h a) p
  Step-Lively e e' h a (frames_came k now raw st n p) =
      let (l, own) = session_lively e st n h a in
      subst (λ z. HasLively device dumps reliable z.active) (sym p)
        (on_frames-Lively device dumps reliable k now raw st e.world l)
  Step-Lively e e' h a (lane_wrote k now st n p) =
      let (l, own) = session_lively e st n h a in
      subst (λ z. HasLively device dumps reliable z.active) (sym p)
        (write-Lively device dumps reliable k now st e.world l own)
  Step-Lively e e' h a (disk_was_full before after k now x f p) =
      replied _ e' x
        (finalise-Replies device dumps reliable k now
          (record e { world = record e.world { finalisers = before ++ after } }) h a)
        p

  Reach-Lively :
      (e e' : Engine device)
      → HasLively device dumps reliable e.active
      → IsSynced device dumps e
      → Reach device dumps e e'
      → HasLively device dumps reliable e'.active
  Reach-Lively e e' h a booted = h
  Reach-Lively e e' h a (next {e' = u} r st) =
      Step-Lively u e' (Reach-Lively e u h a r) (Reach-Moves device dumps e u a r).0 st

  -- The engine starts idle, with no session active in the store. While the chunk store stores what it
  -- is given or says that the disk is full, and no writer thread dies of the entry that it has in hand
  -- while the engine waits for a place in its full queue, then after any calls, frames and failures
  -- `stop_session`, `handle_device_lost` and the thread that a full disk starts all return.
  pub Reach-Replies :
      (e e' : Engine device)
      → e.active ≡ none
      → actives e.world.tables ≡ []
      → Reach device dumps e e'
      → (i now : ℕ) (k : SourceKind)
      → ((r : Engine device × Answer) × (stop_session device dumps i now e' ≡ some r))
        × ((r : Engine device × Option EngineError) × (handle_device_lost device dumps k now e'
              ≡ some r))
        × ((r : Engine device × Option EngineError) × (finalise device dumps k now e' ≡ some r))
  Reach-Replies e e' n a r i now k =
      let h = subst (HasLively device dumps reliable) (sym n) tt in
      let synced : IsSynced device dumps e =
        a ∙ ap (λ z. listed (session_of device dumps z)) (sym n) in
      let live = Reach-Lively e e' h synced r in
      let good = (Reach-Moves device dumps e e' synced r).0 in
      let stop = stop_session-Replies device dumps reliable i now e' live good in
      let gone = handle_device_lost-Replies device dumps reliable k now e' live good in
      let full = finalise-Replies device dumps reliable k now e' live good in
      (((stop.0, stop.1), stop.2), ((gone.0, gone.1), gone.2), ((full.0, full.1), full.2))
