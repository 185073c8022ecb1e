-- ===== src/Capture/Engine/Lively.antt =====
-- The lanes of the active session stay alive under every operation, while the chunk store is reliable.
use ambient_recorder.Base.{
  ℕ, ◌≡◌, refl, sym, subst, ap, ◌∙◌, arith, Bool, true, false, Option, none, some, List, [], ◌∷◌,
  is_some, All, All-append, Bool-cases, inl, inr, leb, length, not, ◌&&◌,
}
use ambient_recorder.Base.Text.{Text}
use ambient_recorder.Models.{SourceKind, mic, system}
use ambient_recorder.Metadata.Rows.{Meta}
use ambient_recorder.Metadata.Reconcile.Actives.{actives}
use ambient_recorder.Capture.Writer.{Device, Thread, running, returned, raised, is_running, run}
use ambient_recorder.Capture.Engine.State.{
  Lane, Detail, World, close, enqueue, put_sentinel, end_unless, end_async, maxsize, ActiveState,
  lane, set_lane, join,
}
use ambient_recorder.Capture.Engine.Start.{on_frames, write, take_item}
use ambient_recorder.Capture.Engine.End.{
  end_lane, end_source_of, end_all_sources, work_meanwhile, end_other,
}
use ambient_recorder.Capture.Engine.Alive.{IsReliable, Lives, frame-Alive, run-Ending}
use ambient_recorder.Capture.Engine.Lanes.{
  Same, end_source_of-Same, on_frames-Same, write-Same, work_meanwhile-Same,
}

-- A lane between two operations: no sentinel waits, and its thread works or has ended by itself.
abbrev pub IsLively : {dev : Device} → ℕ → Lane dev → Type 0
IsLively i l =
    (l.worker.session_id ≡ i)
    × Lives l.worker.thread l.worker.ended
    × All (λ item. is_some item ≡ true) l.queue

enqueue-Lively :
    {dev : Device} (i now : ℕ) (raw : List ℕ) (l : Lane dev)
    → IsLively i l
    → IsLively i (enqueue now raw l)
unfolding enqueue
enqueue-Lively i now raw l (own, lives, q) = elim (Bool-cases (leb maxsize (length l.queue))) [
  | inl e ↦ rw e (own, lives, q)
  | inr e ↦ rw e (
    own,
    lives,
    All-append (λ item. is_some item ≡ true) l.queue (some (now, raw) ∷ []) q (refl, tt),
  )
]

never :
    (full works dies : Bool)
    → works ≡ true
    → dies ≡ false
    → (full && not (works && not dies)) ≡ false
never full works dies h d = ground arith

-- Told to end, a lane that is alive takes the sentinel.
abbrev Told : {dev : Device} → ℕ → Option (Lane dev) → Type 0
Told {dev = dev} i r =
    (l : Lane dev) × (r ≡ some l)
    × (l.worker.session_id ≡ i)
    × Lives l.worker.thread l.worker.ended
    × (l.worker.ended ≡ true)

Lives-true : (t : Thread) (b : Bool) → Lives t b → Lives t true
Lives-true running b h = tt
Lives-true returned b h = refl
Lives-true raised b h = absurd h

Lives-running : (t : Thread) → Lives t false → is_running t ≡ true
Lives-running running h = refl
Lives-running returned h = absurd (ground arith)
Lives-running raised h = absurd h

put_sentinel-Told :
    {dev : Device} (i : ℕ) (l : Lane dev) (blocked : Bool)
    → blocked ≡ false
    → l.worker.session_id ≡ i
    → Lives l.worker.thread l.worker.ended
    → Told i (put_sentinel blocked l)
put_sentinel-Told i l true b own lives = absurd (ground arith)
put_sentinel-Told i l false b own lives =
    (_, refl, own, Lives-true l.worker.thread l.worker.ended lives, refl)

end_unless-Told :
    {dev : Device} (i : ℕ) (l : Lane dev) (ended : Bool)
    → dev.dies_in_hand ≡ false
    → l.worker.ended ≡ ended
    → l.worker.session_id ≡ i
    → Lives l.worker.thread l.worker.ended
    → Told i (end_unless ended l)
end_unless-Told {dev} i l true d e own lives = (l, refl, own, lives, e)
end_unless-Told {dev} i l false d e own lives =
    let works = Lives-running l.worker.thread (subst (Lives l.worker.thread) e lives) in
    put_sentinel-Told i l _ (never (leb maxsize (length l.queue)) _ dev.dies_in_hand works d) own
      lives

end_async-Told :
    {dev : Device} (i : ℕ) (l : Lane dev)
    → dev.dies_in_hand ≡ false
    → IsLively i l
    → Told i (end_async l)
unfolding end_async
end_async-Told i l d (own, lives, q) = end_unless-Told i l l.worker.ended d refl own lives

-- The thread has worked off the queue of a lane that was told to end.
joined-Lively :
    (dev : Device) (now i : ℕ) (l : Lane dev) (m : Meta)
    → IsReliable dev
    → l.worker.session_id ≡ i
    → Lives l.worker.thread l.worker.ended
    → l.worker.ended ≡ true
    → actives m ≡ i ∷ []
    → IsLively i
        (record l { queue = []; worker = run dev now l.queue (record l.worker { tables = m }) })
joined-Lively dev now i l m reliable own lives e a =
    let ending =
      run-Ending dev now i reliable l.queue (record l.worker { tables = m }) ((a, own, lives), e) in
    (ending.0.1, ending.0.2, tt)

module _ (device : ℕ → SourceKind → Device) (dumps : Detail → Text)
    (reliable : (i : ℕ) (k : SourceKind) → IsReliable (device i k)) where
  abbrev pub AreLively : ActiveState device → Type 0
  AreLively st = IsLively st.session.id st.mic_lane × IsLively st.session.id st.system_lane

  -- The session that was active in the store still is.
  Same-active :
      (s t : ActiveState device × World)
      → Same device dumps s t
      → actives s.1.tables ≡ s.0.session.id ∷ []
      → actives t.1.tables ≡ t.0.session.id ∷ []
  Same-active s t same a = same.actives ∙ a ∙ ap (λ z. z ∷ []) (sym (ap (λ x. x.id) same.session))

  lively :
      (k : SourceKind) (st : ActiveState device)
      → AreLively st
      → IsLively st.session.id (lane device k st)
  lively mic st h = h.0
  lively system st h = h.1

  set_lane-Lively :
      (k : SourceKind) (st : ActiveState device) (l : Lane (device st.session.id k))
      → AreLively st
      → IsLively st.session.id l
      → AreLively (set_lane device k st l)
  set_lane-Lively mic st l h g = (g, h.1)
  set_lane-Lively system st l h g = (h.0, g)

  -- Where a lane was told to end, the join leaves both lanes alive.
  join-Lively :
      (k : SourceKind) (now : ℕ) (st : ActiveState device) (w : World)
      → (l : Lane (device st.session.id k)) → AreLively st
      → l.worker.session_id ≡ st.session.id
      → Lives l.worker.thread l.worker.ended
      → l.worker.ended ≡ true
      → actives w.tables ≡ st.session.id ∷ []
      → AreLively (join device k now (set_lane device k st l) w).0
  unfolding join
  join-Lively mic now st w l h own lives e a =
      (joined-Lively _ now st.session.id l w.tables (reliable st.session.id mic) own lives e a, h.1)
  join-Lively system now st w l h own lives e a = (
    h.0,
    joined-Lively _ now st.session.id l w.tables (reliable st.session.id system) own lives e a,
  )

  -- The end of a lane returns, with both lanes alive.
  abbrev pub Returns : Option (ActiveState device × World) → Type 0
  Returns r = (s : ActiveState device × World) × (r ≡ some s) × AreLively s.0

  pub end_lane-Returns :
      (k : SourceKind) (now : ℕ) (st : ActiveState device) (w : World)
      → AreLively st
      → actives w.tables ≡ st.session.id ∷ []
      → Returns (end_lane device dumps k now st w)
  unfolding end_lane
  end_lane-Returns k now st w h a =
      let (l, e, own, lives, told) =
        end_async-Told st.session.id (lane device k st) (reliable st.session.id k).0
          (lively k st h) in
      rw e (_, refl, join-Lively k now st (close st.session.id k w) l h own lives told a)

  end_source_of-Returns :
      (k : SourceKind) (now : ℕ) (st : ActiveState device) (w : World)
      → AreLively st
      → actives w.tables ≡ st.session.id ∷ []
      → Returns (end_source_of device dumps k now (st, w))
  unfolding end_source_of
  end_source_of-Returns k now st w h a =
      let (s, e, g) = end_lane-Returns k now st w h a in rw e (_, refl, g)

  pub on_frames-Lively :
      (k : SourceKind) (now : ℕ) (raw : List ℕ) (st : ActiveState device) (w : World)
      → AreLively st
      → AreLively (on_frames device dumps k now raw st w).0
  unfolding on_frames
  on_frames-Lively k now raw st w h = elim (Bool-cases (lane device k st).worker.ended) [
    | inl e ↦ rw e h
    | inr e ↦
        let st' = set_lane device k st (enqueue now raw (lane device k st)) in
        let g =
          set_lane-Lively k st _ h
            (enqueue-Lively st.session.id now raw (lane device k st) (lively k st h)) in
        elim (Bool-cases st'.first_frame_logged) [ inl f ↦ rw (e, f) g | inr f ↦ rw (e, f) g ]
  ]

  take_item-Lively :
      (k : SourceKind) (now : ℕ) (st : ActiveState device) (w : World)
      → (queue : List (Option (ℕ × List ℕ))) → All (λ item. is_some item ≡ true) queue
      → AreLively st
      → actives w.tables ≡ st.session.id ∷ []
      → AreLively (take_item device dumps k now st w queue).0
  unfolding take_item
  take_item-Lively k now st w [] q h a = h
  take_item-Lively k now st w (none ∷ items) q h a = absurd (ground arith)
  take_item-Lively k now st w (some (arrived_at, raw) ∷ items) q h a =
      let mine = lively k st h in
      let alive =
        frame-Alive (device st.session.id k) now st.session.id (reliable st.session.id k) arrived_at
          raw (record (lane device k st).worker { tables = w.tables }) (a, mine.0, mine.1) in
      set_lane-Lively k st _ h (alive.1, alive.2, q.1)

  pub write-Lively :
      (k : SourceKind) (now : ℕ) (st : ActiveState device) (w : World)
      → AreLively st
      → actives w.tables ≡ st.session.id ∷ []
      → AreLively (write device dumps k now st w).0
  unfolding write
  write-Lively k now st w h a = elim (Bool-cases (is_running (lane device k st).worker.thread)) [
    | inl e ↦ rw e (take_item-Lively k now st w (lane device k st).queue (lively k st h).2 h a)
    | inr e ↦ rw e h
  ]

  work_meanwhile-Lively :
      (k : SourceKind) (now : ℕ) (es : List (Option (ℕ × List ℕ))) (s : ActiveState device × World)
      → AreLively s.0
      → actives s.1.tables ≡ s.0.session.id ∷ []
      → AreLively (work_meanwhile device dumps k now es s).0
  unfolding work_meanwhile
  work_meanwhile-Lively k now [] s h a = h
  work_meanwhile-Lively k now (some (at, raw) ∷ es) s h a =
      work_meanwhile-Lively k now es (on_frames device dumps k at raw s.0 s.1)
        (on_frames-Lively k at raw s.0 s.1 h)
        (Same-active s _ (on_frames-Same device dumps k at raw s.0 s.1) a)
  work_meanwhile-Lively k now (none ∷ es) s h a =
      work_meanwhile-Lively k now es (write device dumps k now s.0 s.1)
        (write-Lively k now s.0 s.1 h a) (Same-active s _ (write-Same device dumps k now s.0 s.1) a)

  end_other-Returns :
      (now : ℕ) (s : ActiveState device × World)
      → AreLively s.0
      → actives s.1.tables ≡ s.0.session.id ∷ []
      → Returns (end_other device dumps now s)
  end_other-Returns now s h a =
      let es = (device s.0.session.id system).meanwhile in
      let t = work_meanwhile device dumps system now es s in
      end_source_of-Returns system now t.0 t.1 (work_meanwhile-Lively system now es s h a)
        (Same-active s t (work_meanwhile-Same device dumps system now es s) a)

  pub end_all_sources-Returns :
      (now : ℕ) (st : ActiveState device) (w : World)
      → AreLively st
      → actives w.tables ≡ st.session.id ∷ []
      → Returns (end_all_sources device dumps now (st, w))
  unfolding end_all_sources
  end_all_sources-Returns now st w h a =
      let (s, e, g) = end_source_of-Returns mic now st w h a in
      let (s', e', g') =
        end_other-Returns now s g
          (Same-active (st, w) s (end_source_of-Same device dumps mic now st w s e) a) in
      rw e (s', e', g')
