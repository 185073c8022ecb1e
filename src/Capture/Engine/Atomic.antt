-- ===== src/Capture/Engine/Atomic.antt =====
-- A start that is refused changes nothing.
use mathlib.Core.List.{append-nil, append_assoc}
use ambient_recorder.Base.{
  ℕ, ◌≡◌, refl, sym, ap, ◌∙◌, arith, Bool, true, false, not, Option, none, some, List, [], ◌∷◌,
  ◌++◌, keep, keep-append, All, is_some, ◌==◌, inl, inr, ◌⊎◌,
}
use ambient_recorder.Base.Text.{Text}
use ambient_recorder.Models.{SourceKind}
use ambient_recorder.Metadata.Rows.{EventType, Meta, strip_title}
use ambient_recorder.Metadata.Store.{Result, ok, err, append_event, create_active_session}
use ambient_recorder.Metadata.Reconcile.Actives.{actives}
use ambient_recorder.Capture.Writer.{Device}
use ambient_recorder.Capture.Engine.State.{
  Detail, titled, EngineError, device_missing, Answer, refused, World, ActiveState, Engine,
}
use ambient_recorder.Capture.Engine.Start.{
  DeviceInfo, Request, kinds, event, sources, close_opened, opened, open_streams, new_session,
  new_state, announce, publish, open_session, begin, start_when, start_session, preflight,
}
use ambient_recorder.Capture.Engine.Actives.{
  actives-exists, append_event-added, create_active_session-actives,
}
use ambient_recorder.Capture.Engine.Machine.{session_of}
use ambient_recorder.Capture.Engine.Started.{listed, IsSynced}

-- No stream of the session is open.
abbrev pub NoStream : ℕ → World → Type 0
NoStream i w = All (λ s. (s.0 == i) ≡ false) w.open_streams

others :
    (i : ℕ) (xs : List (ℕ × SourceKind))
    → All (λ s. (s.0 == i) ≡ false) xs
    → keep (λ s. not (s.0 == i)) xs ≡ xs
others i [] h = refl
others i (x ∷ xs) h = ground (arith, others i xs h.1)

-- `w'` is `w` but for streams of the session, which `close_opened` closes.
abbrev Opened : ℕ → World → World → Type 0
Opened i w w' =
    (xs : List (ℕ × SourceKind)) × (w' ≡ record w { open_streams = w.open_streams ++ xs })
    × (keep (λ s. not (s.0 == i)) xs ≡ [])

closed_again : (i : ℕ) (w w' : World) → NoStream i w → Opened i w w' → close_opened i w' ≡ w
closed_again i w w' n (xs, e, k) =
    ap (close_opened i) e
    ∙ ap (λ z. record w { open_streams = z })
        (keep-append (λ s. not (s.0 == i)) w.open_streams xs
          ∙ ap (λ z. keep (λ s. not (s.0 == i)) w.open_streams ++ z) k
          ∙ append-nil (keep (λ s. not (s.0 == i)) w.open_streams)
          ∙ others i w.open_streams n)

-- The streams are open, or none of them is, with an error.
abbrev Outcome : ℕ → World → World × Option EngineError → Type 0
Outcome i w r = ((r.1 ≡ none) × Opened i w r.0) ⊎ ((x : EngineError) × (r ≡ (w, some x)))

opened-Outcome :
    (d : Option DeviceInfo) (can_open : Bool) (i : ℕ) (k : SourceKind) (w w' : World)
    → (rest : World × Option EngineError) → is_some d ≡ true
    → NoStream i w
    → Opened i w w'
    → Outcome i w rest
    → Outcome i w (opened d can_open i k w' rest)
opened-Outcome none can_open i k w w' rest s n o h = absurd (ground arith)
opened-Outcome (some d) true i k w w' rest s n o h = h
opened-Outcome (some d) false i k w w' rest s n o h = inr (
  device_missing (k ∷ []),
  ap (λ z. (z, some (device_missing (k ∷ [])))) (closed_again i w w' n o),
)

one_more :
    (i : ℕ) (k : SourceKind) (w w' : World)
    → Opened i w w'
    → Opened i w (record w' { open_streams = w'.open_streams ++ (i, k) ∷ [] })
one_more i k w w' (xs, e, h) = (
  xs ++ (i, k) ∷ [],
  ap {A = World} (λ z. record z { open_streams = z.open_streams ++ (i, k) ∷ [] }) e
      ∙ ap (λ z. record w { open_streams = z }) (append_assoc w.open_streams xs ((i, k) ∷ [])),
  keep-append (λ s. not (s.0 == i)) xs ((i, k) ∷ [])
      ∙ ap (λ z. z ++ keep (λ s. not (s.0 == i)) ((i, k) ∷ [])) h
      ∙ ground arith,
)

open_streams-Outcome :
    (ks : List SourceKind) (q : Request) (w w' : World)
    → ((k : SourceKind) → is_some (q.devices k) ≡ true)
    → NoStream q.id w
    → Opened q.id w w'
    → Outcome q.id w (open_streams ks q w')
unfolding open_streams
open_streams-Outcome [] q w w' d n o = inl (refl, o)
open_streams-Outcome (k ∷ ks) q w w' d n o =
    opened-Outcome (q.devices k) (q.opens k) q.id k w w' _ (d k) n o
      (open_streams-Outcome ks q w _ d n (one_more q.id k w w' o))

not_none : {x : EngineError} → ¬ (none ≡ some x)
not_none h = cc

no_more : (w : World) → w ≡ record w { open_streams = w.open_streams ++ [] }
no_more w = ap (λ z. record w { open_streams = z }) (sym (append-nil w.open_streams))

module _ (device : ℕ → SourceKind → Device) (dumps : Detail → Text) where
  -- The call answers, or leaves the idle engine as it was.
  abbrev Unchanged : World → Engine device × Answer → Type 0
  Unchanged w r = (x : EngineError) → r.1 ≡ refused x → r.0 ≡ record { active = none; world = w }

  announce-Unchanged :
      (q : Request) (title : Option Text) (w w' : World) (m : Meta)
      → actives m ≡ q.id ∷ []
      → Unchanged w (
          announce device dumps q
            (some (new_state device dumps q title m))
            (record w' { tables = m })
            (append_event m (event q.id q.now EventType.started (dumps (titled q.title)))))
  announce-Unchanged q title w w' m a =
      let e = event q.id q.now EventType.started (dumps (titled q.title)) in
      rw (append_event-added m e (actives-exists m q.id a))
        (unfold announce in λ x h. absurd (ground arith))

  publish-Unchanged :
      (q : Request) (title : Option Text) (w w' : World) (r : Result Meta)
      → create_active_session w'.tables (new_session q title) (sources q) ≡ r
      → actives w'.tables ≡ []
      → NoStream q.id w
      → Opened q.id w w'
      → Unchanged w (publish device dumps q title w' r)
  unfolding publish
  publish-Unchanged q title w w' (err x) h a n o =
      λ y p. ap (λ z. record { active = none; world = z }) (closed_again q.id w w' n o)
  publish-Unchanged q title w w' (ok m) h a n o =
      announce-Unchanged q title w w' m
        (create_active_session-actives w'.tables m (new_session q title) (sources q) refl a h)

  open_session-Unchanged :
      (q : Request) (title : Option Text) (w : World) (r : World × Option EngineError)
      → actives w.tables ≡ []
      → NoStream q.id w
      → Outcome q.id w r
      → Unchanged w (open_session device dumps q title r)
  unfolding open_session
  open_session-Unchanged q title w (w', some x) a n (inl (e, o)) = absurd (ground arith)
  open_session-Unchanged q title w (w', none) a n (inl (e, o)) =
      publish-Unchanged q title w w' _ refl (ap (λ z. actives z.tables) o.1 ∙ a) n o
  open_session-Unchanged q title w (w', some x) a n (inr (y, e)) =
      λ z p. ap (λ v. record { active = none; world = v.0 }) e
  open_session-Unchanged q title w (w', none) a n (inr (y, e)) = absurd (not_none (ap (λ z. z.1) e))

  begin-Unchanged :
      (q : Request) (w : World) (x : Option EngineError) (title : Option (Option Text))
      → ((k : SourceKind) → is_some (q.devices k) ≡ true)
      → actives w.tables ≡ []
      → NoStream q.id w
      → Unchanged w (begin device dumps q w x title)
  unfolding begin
  begin-Unchanged q w (some x) title d a n = λ y p. refl
  begin-Unchanged q w none none d a n = λ y p. refl
  begin-Unchanged q w none (some title) d a n =
      open_session-Unchanged q title w _ a n
        (open_streams-Outcome kinds q w w d n ([], no_more w, refl))

  start_when-Unchanged :
      (q : Request) (active : Option (ActiveState device)) (w : World) (x : EngineError)
      → ((k : SourceKind) → is_some (q.devices k) ≡ true)
      → actives w.tables ≡ listed (session_of device dumps active)
      → NoStream q.id w
      → (start_when device dumps q active w).1 ≡ refused x
      → (start_when device dumps q active w).0 ≡ record { active = active; world = w }
  unfolding start_when
  start_when-Unchanged q none w x d a n =
      begin-Unchanged q w (preflight q) (strip_title q.title) d a n x
  start_when-Unchanged q (some st) w x d a n = λ p. refl

  -- A start that is refused, because a session is recorded, a device is missing or cannot be opened,
  -- the disk is low, the title is too long or the store refuses the row, leaves the engine as it was:
  -- no stream stays open, no row is left, and nothing was told. The enumeration lists both devices, no
  -- stream of the new identifier is open, and the store agrees with the engine.
  pub start_session-unchanged :
      (q : Request) (e : Engine device) (x : EngineError)
      → ((k : SourceKind) → is_some (q.devices k) ≡ true)
      → IsSynced device dumps e
      → NoStream q.id e.world
      → (start_session device dumps q e).1 ≡ refused x
      → (start_session device dumps q e).0 ≡ e
  unfolding start_session
  start_session-unchanged q e x d a n = start_when-Unchanged q e.active e.world x d a n
