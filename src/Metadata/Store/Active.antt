-- ===== src/Metadata/Store/Active.antt =====
-- At most one session is active.
use mathlib.Core.List.{append-nil}
use ambient_recorder.Base.{
  ℕ, ◌≤◌, ◌≡◌, refl, ap, arith, true, false, ◌&&◌, some, List, [], ◌∷◌, ◌++◌, keep, keep-append,
  length, find, any, update_where, Bool-cases, inl, inr, ◌⊎◌,
}
use ambient_recorder.Metadata.Rows.{SessionStatus, Session, CaptureSource, Meta, is_active}
use ambient_recorder.Metadata.Store.{
  Result, ok, err, active_session_exists, has_id, session_active, exists_session, insert_session,
  insert_sources, create_active_session, finalize_session, active_sessions,
}

abbrev pub OneActive : Meta → Type 0
OneActive m = length (active_sessions m) ≤ 1

keep-none : (xs : List Session) → any session_active xs ≡ false → keep session_active xs ≡ []
keep-none [] h = refl
keep-none (x ∷ xs) h = ground (arith, keep-none xs)

tail_any :
    (x : Session) (xs : List Session)
    → any session_active (x ∷ xs) ≡ true
    → session_active x ≡ false
    → any session_active xs ≡ true
tail_any x xs h e = ground arith

find-any :
    (xs : List Session)
    → any session_active xs ≡ true
    → (s : Session) × (find session_active xs ≡ some s) × (session_active s ≡ true)
find-any [] h = absurd (ground arith)
find-any (x ∷ xs) h = elim (Bool-cases (session_active x)) [
  | inl e ↦ (x, rw e refl, e)
  | inr e ↦ let rest = find-any xs (tail_any x xs h e) in (rest.0, rw e (rest.1), rest.2)
]

pub insert_session-added :
    (m m' : Meta) (s : Session)
    → insert_session m s ≡ ok m'
    → (m'.sessions ≡ m.sessions ++ s ∷ [])
      × ((session_active s ≡ false) ⊎ (any session_active m.sessions ≡ false))
unfolding insert_session
insert_session-added m m' s h = (ground arith, ground arith)

one_more :
    (xs : List Session) (s : Session)
    → length (keep session_active xs) ≤ 1
    → (session_active s ≡ false) ⊎ (any session_active xs ≡ false)
    → length (keep session_active (xs ++ s ∷ [])) ≤ 1
one_more xs s h c = ground (
  arith,
  keep-append session_active xs (s ∷ []),
  keep-none xs,
  append-nil (keep session_active xs),
)

insert_session-OneActive :
    (m m' : Meta) (s : Session) → OneActive m → insert_session m s ≡ ok m' → OneActive m'
unfolding active_sessions
insert_session-OneActive m m' s one h =
    let added = insert_session-added m m' s h in rw added.0 (one_more m.sessions s one added.1)

insert_sources-sessions :
    (m m' : Meta) (sources : List CaptureSource)
    → insert_sources (ok m) sources ≡ ok m'
    → m'.sessions ≡ m.sessions
unfolding insert_sources
insert_sources-sessions m m' [] h = ground arith
insert_sources-sessions m m' (s ∷ sources) h =
    let m1 = record m { capture_sources = m.capture_sources ++ s ∷ [] } in
    ground (arith, insert_sources-sessions m1 m' sources)

pub from_sources :
    (r : Result Meta) (m' : Meta) (sources : List CaptureSource)
    → insert_sources r sources ≡ ok m'
    → (m : Meta) × (r ≡ ok m) × (m'.sessions ≡ m.sessions)
from_sources (err e) m' sources h = absurd (unfold insert_sources in ground arith)
from_sources (ok m) m' sources h = (m, refl, insert_sources-sessions m m' sources h)

finalised_fewer :
    (i : ℕ) (to : Session → Session) (xs : List Session)
    → ((s : Session) → session_active (to s) ≡ false)
    → length (keep session_active (update_where (λ s. has_id i s && session_active s) to xs))
      ≤ length (keep session_active xs)
finalised_fewer i to [] h = omega arith
finalised_fewer i to (x ∷ xs) h = ground (arith, h x, finalised_fewer i to xs h)

pub past_test :
    (m m' : Meta) (s : Session) (sources : List CaptureSource)
    → create_active_session m s sources ≡ ok m'
    → insert_sources (insert_session m s) sources ≡ ok m'
unfolding create_active_session
past_test m m' s sources h = ground arith

-- A session that is created is the only one that is active.
pub create_active_session-OneActive :
    (m m' : Meta) (s : Session) (sources : List CaptureSource)
    → OneActive m
    → create_active_session m s sources ≡ ok m'
    → OneActive m'
unfolding active_sessions
create_active_session-OneActive m m' s sources one h =
    let source = from_sources (insert_session m s) m' sources (past_test m m' s sources h) in
    rw source.2 (insert_session-OneActive m source.0 s one source.1)

-- While a session is active no other can be created: the answer names the active one.
pub create_active_session-refused :
    (m : Meta) (s : Session) (sources : List CaptureSource)
    → any session_active m.sessions ≡ true
    → exists_session s.id m ≡ false
    → session_active s ≡ true
    → (a : Session) × (find session_active m.sessions ≡ some a)
      × (session_active a ≡ true)
      × (create_active_session m s sources ≡ err (active_session_exists a.id))
unfolding create_active_session
create_active_session-refused m s sources h e a =
    let found = find-any m.sessions h in (found.0, found.1, found.2, rw (e, a, h, found.1) refl)

finalize_twice :
    (i : ℕ) (to to' : Session → Session) (xs : List Session)
    → ((s : Session) → session_active (to s) ≡ false)
    → update_where
        (λ s. has_id i s && session_active s)
        to'
        (update_where (λ s. has_id i s && session_active s) to xs)
      ≡ update_where (λ s. has_id i s && session_active s) to xs
finalize_twice i to to' [] h = refl
finalize_twice i to to' (x ∷ xs) h = ground (arith, h x, finalize_twice i to to' xs h)

-- A session is finalised once: with another state, time and length nothing changes any more.
pub finalize_session-again :
    (m : Meta) (i : ℕ) (status status' : SessionStatus) (at at' length_s length_s' : ℕ)
    → is_active status ≡ false
    → finalize_session (finalize_session m i status at length_s) i status' at' length_s'
      ≡ finalize_session m i status at length_s
unfolding finalize_session
finalize_session-again m i status status' at at' length_s length_s' h =
    ap (λ xs. record m { sessions = xs }) (finalize_twice i _ _ m.sessions (λ s. h))

-- Finalising never makes a session active.
pub finalize_session-OneActive :
    (m : Meta) (i : ℕ) (status : SessionStatus) (at length_s : ℕ)
    → is_active status ≡ false
    → OneActive m
    → OneActive (finalize_session m i status at length_s)
unfolding finalize_session active_sessions
finalize_session-OneActive m i status at length_s h one = omega (
  arith,
  finalised_fewer i
      (λ s. record s { status = status; ended_at = some at; duration_s = some length_s }) m.sessions
      (λ s. h),
  one,
)
