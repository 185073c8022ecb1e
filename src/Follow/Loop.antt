-- ===== src/Follow/Loop.antt =====
-- The replay and the loop of `transcript_stream`, one at a time.
use ambient_recorder.Base.{
  ℕ, zero, suc, ◌+◌, ◌-◌, ◌≤◌, ◌≡◌, refl, ap, sym, ◌∙◌, subst, false, Option, none, some, List, [],
  ◌∷◌, ◌++◌, arith, All, drop, take, length, drop-none, ap₂, ◌⊎◌, inl, inr,
}
use mathlib.Core.List.{append_assoc, append-nil}
use ambient_recorder.Transcripts.Rows.{TranscriptSegment, Db, validate}
use ambient_recorder.Transcripts.Store.{ok, validate_all, segments_after}
use ambient_recorder.Transcripts.Store.Seqs.{Numbered, IsNumbered, rows_of}
use ambient_recorder.Transcripts.Store.Cursor.{
  segments_after-resume, segments_after-all, of_option-ok,
}
use ambient_recorder.Stream.{Frame, StatusFrame, segment, status}
use ambient_recorder.Follow.{
  Client, Event, frame, ended, timeout, is_terminal, replay, on_event, follow, send_status,
}

-- The segments among the frames, in order.
abbrev pub segs : List Frame → List TranscriptSegment
segs [] = []
segs (segment s ∷ fs) = s ∷ segs fs
segs (status f ∷ fs) = segs fs

abbrev pub event_segs : List Event → List TranscriptSegment
event_segs [] = []
event_segs (frame (segment s) ∷ es) = s ∷ event_segs es
event_segs (e ∷ es) = event_segs es

-- The transcript goes on.
abbrev pub Quiet : Event → Type 0
Quiet (frame (segment s)) = Unit
Quiet (frame (status f)) = is_terminal f.state ≡ false
Quiet (ended state final) = ⊥
Quiet (timeout f) = is_terminal f.state ≡ false

-- The number behind the cursor.
abbrev pub next_of : Option ℕ → ℕ
next_of none = 0
next_of (some s) = suc s

segs-append : (fs gs : List Frame) → segs (fs ++ gs) ≡ segs fs ++ segs gs
segs-append [] gs = refl
segs-append (segment s ∷ fs) gs = ap (λ t. s ∷ t) (segs-append fs gs)
segs-append (status f ∷ fs) gs = segs-append fs gs

pub replay-segs :
    (ss : List TranscriptSegment) (c : Client) → segs (replay ss c).sent ≡ segs c.sent ++ ss
unfolding replay
replay-segs [] c = sym (append-nil (segs c.sent))
replay-segs (s ∷ ss) c =
    replay-segs ss (record c { last_seq = some s.seq; sent = c.sent ++ segment s ∷ [] })
    ∙ ap (λ t. t ++ ss) (segs-append c.sent (segment s ∷ []))
    ∙ append_assoc (segs c.sent) (s ∷ []) ss

pub replay-next :
    (k : ℕ) (ss : List TranscriptSegment) (c : Client)
    → Numbered k ss
    → next_of c.last_seq ≡ k
    → next_of (replay ss c).last_seq ≡ k + length ss
unfolding replay
replay-next k [] c h e = omega arith
replay-next k (s ∷ ss) c h e = omega (
  arith,
  replay-next (suc k) ss (record c { last_seq = some s.seq; sent = c.sent ++ segment s ∷ [] }) h.1
      (omega arith),
)

zero_left : (a b : ℕ) → a ≡ b → a - b ≡ 0
zero_left a b h = omega arith

suc_left : (a b : ℕ) → suc b ≤ a → suc (a - suc b) ≡ a - b
suc_left a b h = omega arith

follow-open :
    (e : Event) (es : List Event) (c : Client)
    → c.closed ≡ false
    → follow (e ∷ es) c ≡ follow es (on_event e c)
unfolding follow
follow-open e es c o = rw o

pub event-status : (f : StatusFrame) (c : Client) → segs (send_status f c).sent ≡ segs c.sent
event-status f c = segs-append c.sent (status f ∷ []) ∙ append-nil (segs c.sent)

event-already :
    (s : TranscriptSegment) (c : Client)
    → suc s.seq ≤ next_of c.last_seq
    → on_event (frame (segment s)) c ≡ c
unfolding on_event
event-already s c h = ground arith

event-new :
    (s : TranscriptSegment) (c : Client)
    → next_of c.last_seq ≡ s.seq
    → on_event (frame (segment s)) c
      ≡ record c { last_seq = some s.seq; sent = c.sent ++ segment s ∷ [] }
unfolding on_event
event-new s c h = ground arith

plus_zero : (k : ℕ) → k ≡ k + 0
plus_zero k = omega arith

plus_suc : (k n : ℕ) → suc k + n ≡ k + suc n
plus_suc k n = omega arith

event-note : (f : StatusFrame) (c : Client) → on_event (frame (status f)) c ≡ send_status f c
unfolding on_event
event-note f c = refl

event-timeout : (f : StatusFrame) (c : Client) → on_event (timeout f) c ≡ send_status f c
unfolding on_event
event-timeout f c = refl

le_cases : (a b : ℕ) → a ≤ b → (a ≡ b) ⊎ (suc a ≤ b)
le_cases a b h = grind arith

-- The loop sends the segments of its queue from the next one on, each once.
pub follow-segs :
    (es : List Event) (c : Client) (p : ℕ)
    → c.closed ≡ false
    → All Quiet es
    → Numbered p (event_segs es)
    → p ≤ next_of c.last_seq
    → segs (follow es c).sent ≡ segs c.sent ++ drop (next_of c.last_seq - p) (event_segs es)
follow-segs [] c p o q h le =
    unfold follow in rw (drop-none (next_of c.last_seq - p)) (sym (append-nil (segs c.sent)))
follow-segs (frame (segment s) ∷ es) c p o q h le = elim (le_cases p (next_of c.last_seq) le) [
  | inl new ↦
      let c' : Client = record c { last_seq = some s.seq; sent = c.sent ++ segment s ∷ [] } in
      ap (λ (x : Client). segs x.sent) (follow-open (frame (segment s)) es c o)
      ∙ ap (λ x. segs (follow es x).sent) (event-new s c (omega arith))
      ∙ follow-segs es c' (suc p) o q.1 h.1 (omega arith)
      ∙ ap₂ (λ a n. a ++ drop n (event_segs es)) (segs-append c.sent (segment s ∷ []))
          (zero_left (suc s.seq) (suc p) (omega arith))
      ∙ append_assoc (segs c.sent) (s ∷ []) (event_segs es)
      ∙ ap (λ n. segs c.sent ++ drop n (s ∷ event_segs es))
          (sym (zero_left (next_of c.last_seq) p (omega arith)))
  | inr old ↦
      ap (λ (x : Client). segs x.sent) (follow-open (frame (segment s)) es c o)
      ∙ ap (λ x. segs (follow es x).sent) (event-already s c (omega arith))
      ∙ follow-segs es c (suc p) o q.1 h.1 old
      ∙ ap (λ n. segs c.sent ++ drop n (s ∷ event_segs es)) (suc_left (next_of c.last_seq) p old)
]
follow-segs (frame (status f) ∷ es) c p o q h le =
    ap (λ (x : Client). segs x.sent) (follow-open (frame (status f)) es c o)
    ∙ ap (λ x. segs (follow es x).sent) (event-note f c)
    ∙ follow-segs es (send_status f c) p q.0 q.1 h le
    ∙ ap (λ t. t ++ drop (next_of c.last_seq - p) (event_segs es)) (event-status f c)
follow-segs (ended state final ∷ es) c p o q h le = absurd q.0
follow-segs (timeout f ∷ es) c p o q h le =
    ap (λ (x : Client). segs x.sent) (follow-open (timeout f) es c o)
    ∙ ap (λ x. segs (follow es x).sent) (event-timeout f c)
    ∙ follow-segs es (send_status f c) p q.0 q.1 h le
    ∙ ap (λ t. t ++ drop (next_of c.last_seq - p) (event_segs es)) (event-status f c)

-- Validation keeps the numbers.
seq-validate : (s v : TranscriptSegment) → validate s ≡ some v → v.seq ≡ s.seq
unfolding validate
seq-validate s v h = ground arith

Numbered-validate_all :
    (k : ℕ) (ss vs : List TranscriptSegment)
    → validate_all ss ≡ some vs
    → Numbered k ss
    → Numbered k vs
unfolding validate_all
Numbered-validate_all k [] [] h n = tt
Numbered-validate_all k [] (v ∷ vs) h n = cc
Numbered-validate_all k (s ∷ ss) [] h n = tt
Numbered-validate_all k (s ∷ ss) (v ∷ vs) h n =
    (seq-validate s v (grind arith) ∙ n.0, Numbered-validate_all (suc k) ss vs (grind arith) n.1)

-- What a full read returns is numbered too.
pub Numbered-read :
    (db : Db) (i : ℕ) {segments : List TranscriptSegment}
    → IsNumbered db
    → segments_after db i none ≡ ok segments
    → Numbered 0 segments
Numbered-read db i {segments} num h =
    Numbered-validate_all 0 (rows_of db i) segments
      (of_option-ok (validate_all (rows_of db i)) (sym (segments_after-all db i num) ∙ h)) (num i)

pub Numbered-drop :
    (k n : ℕ) (ss : List TranscriptSegment) → Numbered k ss → Numbered (k + n) (drop n ss)
Numbered-drop k zero ss h = subst (λ j. Numbered j ss) (plus_zero k) h
Numbered-drop k (suc n) [] h = tt
Numbered-drop k (suc n) (s ∷ ss) h =
    subst (λ j. Numbered j (drop n ss)) (plus_suc k n) (Numbered-drop (suc k) n ss h.1)

pub Numbered-take : (k n : ℕ) (ss : List TranscriptSegment) → Numbered k ss → Numbered k (take n ss)
Numbered-take k zero ss h = tt
Numbered-take k (suc n) [] h = tt
Numbered-take k (suc n) (s ∷ ss) h = (h.0, Numbered-take (suc k) n ss h.1)

-- A read behind the cursor, in the terms of a full read.
pub read_after :
    (db : Db) (i : ℕ) (after : Option ℕ) {segments : List TranscriptSegment}
    → IsNumbered db
    → segments_after db i none ≡ ok segments
    → segments_after db i after ≡ ok (drop (next_of after) segments)
read_after db i none num h = h
read_after db i (some a) num h = segments_after-resume db i a num h
