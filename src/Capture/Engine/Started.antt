-- ===== src/Capture/Engine/Started.antt =====
-- Starting a session, in the terms of the recorder of Machine.
use ambient_recorder.Base.{
  ℕ, ◌≡◌, refl, subst, ap, ◌∙◌, Bool, true, false, Option, none, some, List, [], ◌∷◌, ◌++◌,
}
use ambient_recorder.Base.Text.{Text}
use ambient_recorder.Models.{SourceKind}
use ambient_recorder.Metadata.Rows.{EventType, Meta, strip_title}
use ambient_recorder.Metadata.Store.{Result, ok, err, create_active_session, append_event}
use ambient_recorder.Metadata.Reconcile.Actives.{actives}
use ambient_recorder.Capture.Writer.{Device}
use ambient_recorder.Capture.Engine.State.{Detail, titled, EngineError, World, ActiveState, Engine}
use ambient_recorder.Capture.Engine.Start.{
  DeviceInfo, Request, opened, kinds, event, sources, open_streams, new_session, new_state,
  announce, publish, open_session, begin, start_when, start_session, preflight,
}
use ambient_recorder.Capture.Engine.Actives.{
  actives-exists, append_event-added, create_active_session-actives,
}
use ambient_recorder.Capture.Engine.Machine.{Move, stays, starts, view, session_of}

abbrev pub listed : Option ℕ → List ℕ
listed none = []
listed (some i) = i ∷ []

abbrev Told : World → World × Option EngineError → Type 0
Told w r = (r.0.tables ≡ w.tables) × (r.0.notices ≡ w.notices)

opened-Told :
    (d : Option DeviceInfo) (can_open : Bool) (i : ℕ) (k : SourceKind) (w : World)
    → (rest : World × Option EngineError) → Told w rest
    → Told w (opened d can_open i k w rest)
opened-Told none can_open i k w rest h = (refl, refl)
opened-Told (some d) true i k w rest h = h
opened-Told (some d) false i k w rest h = (refl, refl)

-- What opening the streams leaves as it is.
open_streams-Told : (ks : List SourceKind) (q : Request) (w : World) → Told w (open_streams ks q w)
unfolding open_streams
open_streams-Told [] q w = (refl, refl)
open_streams-Told (k ∷ ks) q w =
    let rest =
      open_streams-Told ks q (record w { open_streams = w.open_streams ++ (q.id, k) ∷ [] }) in
    opened-Told (q.devices k) (q.opens k) q.id k w _ rest

module _ (device : ℕ → SourceKind → Device) (dumps : Detail → Text) where
  -- The store has the session of the engine as its only active one, and none where it has none.
  abbrev pub IsSynced : Engine device → Type 0
  IsSynced e = actives e.world.tables ≡ listed (session_of device dumps e.active)

  abbrev pub Follows : Engine device → Engine device → Type 0
  Follows e e' = IsSynced e' × Move (view device dumps e) (view device dumps e')

  abbrev idle : World → Engine device
  idle w = record { active = none; world = w }

  announce-Follows :
      (q : Request) (title : Option Text) (w : World) (m : Meta)
      → actives m ≡ q.id ∷ []
      → Follows
          (idle w)
          (announce device dumps q
            (some (new_state device dumps q title m))
            (record w { tables = m })
            (append_event m (event q.id q.now EventType.started (dumps (titled q.title))))).0
  announce-Follows q title w m a =
      let e = event q.id q.now EventType.started (dumps (titled q.title)) in
      rw (append_event-added m e (actives-exists m q.id a))
        (unfold announce in (a, starts q.id refl refl))

  publish-Follows :
      (q : Request) (title : Option Text) (w : World) (r : Result Meta)
      → create_active_session w.tables (new_session q title) (sources q) ≡ r
      → actives w.tables ≡ []
      → Follows (idle w) (publish device dumps q title w r).0
  unfolding publish
  publish-Follows q title w (err x) h a = (a, stays refl)
  publish-Follows q title w (ok m) h a =
      announce-Follows q title w m
        (create_active_session-actives w.tables m (new_session q title) (sources q) refl a h)

  open_session-Follows :
      (q : Request) (title : Option Text) (w w' : World) (x : Option EngineError)
      → w'.tables ≡ w.tables
      → w'.notices ≡ w.notices
      → actives w.tables ≡ []
      → Follows (idle w) (open_session device dumps q title (w', x)).0
  unfolding open_session
  open_session-Follows q title w w' (some x) t n a =
      (ap actives t ∙ a, stays (ap (λ z. record { recording = none; told = z }) n))
  open_session-Follows q title w w' none t n a =
      let r = create_active_session w'.tables (new_session q title) (sources q) in
      let e = (publish device dumps q title w' r).0 in
      subst (λ z. IsSynced e × Move (record { recording = none; told = z }) (view device dumps e)) n
        (publish-Follows q title w' r refl (ap actives t ∙ a))

  begin-Follows :
      (q : Request) (w : World) (x : Option EngineError) (title : Option (Option Text))
      → actives w.tables ≡ []
      → Follows (idle w) (begin device dumps q w x title).0
  unfolding begin
  begin-Follows q w (some x) title a = (a, stays refl)
  begin-Follows q w none none a = (a, stays refl)
  begin-Follows q w none (some title) a =
      let (w', x) = open_streams kinds q w in
      let told = open_streams-Told kinds q w in open_session-Follows q title w w' x told.0 told.1 a

  start_when-Follows :
      (q : Request) (active : Option (ActiveState device)) (w : World)
      → IsSynced (record { active = active; world = w })
      → Follows (record { active = active; world = w }) (start_when device dumps q active w).0
  unfolding start_when
  start_when-Follows q none w a = begin-Follows q w (preflight q) (strip_title q.title) a
  start_when-Follows q (some st) w a = (a, stays refl)

  pub start_session-Follows :
      (q : Request) (e : Engine device) → IsSynced e → Follows e (start_session device dumps q e).0
  unfolding start_session
  start_session-Follows q e a = start_when-Follows q e.active e.world a
