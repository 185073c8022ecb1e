-- ===== src/Attribution/Decide/Account.antt =====
-- Where the candidates of `attribute` end up.
use mathlib.Core.List.{Perm, perm_middle, append_assoc, append-nil, map-append}
use mathlib.Core.List.Perm
use ambient_recorder.Base.{
  ℕ, ◌≡◌, refl, sym, ap, inl, inr, ◌∙◌, Bool, Option, none, List, [], ◌∷◌, ◌++◌, map, arith, keep,
  keep-append, All, All-map_of, All-every, subst, ◌⊎◌,
}
use ambient_recorder.Base.Sort.{sort, keep-sort}
use ambient_recorder.Models.{SourceKind, mic, system, is_me, is_them, other_kind}
use ambient_recorder.Attribution.Segment.{TimedSegment, AttributedSegment, key_le}
use ambient_recorder.Attribution.Energy.{Acoustics, EnergyBuffer}
use ambient_recorder.Attribution.Twin.{find_twin}
use ambient_recorder.Attribution.Decide.{
  AttributionConfig, Verdict, emit, defer, drop, Pass, deferred, settle, decide, attribute, judge,
  judge_from, judge_heard, judge_expired, judge_twin,
}

-- The candidate that an emitted segment speaks of, if its text is the candidate's.
abbrev pub span : AttributedSegment → TimedSegment
span a = record { start_s = a.start_s; end_s = a.end_s; text = a.text }

abbrev pub is_own : SourceKind → AttributedSegment → Bool
is_own mic a = is_me a.source
is_own system a = is_them a.source

-- What a pass holds of one track: emitted under the track's speaker, or deferred.
abbrev pub placed : SourceKind → Pass → List TimedSegment
placed own p = map span (keep (is_own own) p.out) ++ deferred p own

abbrev pub Kept : TimedSegment → Verdict → Type 0
Kept c v = (v ≡ emit c.text) ⊎ (v ≡ defer)

perm_last :
    (xs ys : List TimedSegment) (c : TimedSegment) → Perm ((xs ++ c ∷ []) ++ ys) (c ∷ (xs ++ ys))
perm_last xs ys c = rw append_assoc (perm_middle xs ys)

perm_end :
    (xs ys : List TimedSegment) (c : TimedSegment) → Perm (xs ++ (ys ++ c ∷ [])) (c ∷ (xs ++ ys))
perm_end xs ys c = rw (sym (append_assoc xs ys (c ∷ []))) (
    subst (λ zs. Perm ((xs ++ ys) ++ c ∷ []) (c ∷ zs)) (append-nil (xs ++ ys))
      (perm_middle (xs ++ ys) []))

-- A candidate that is emitted whole, or deferred, is placed once.
settle-perm :
    (own : SourceKind) (c : TimedSegment) (v : Verdict) (p : Pass)
    → Kept c v
    → Perm (placed own (settle own c v p)) (c ∷ placed own p)
unfolding settle
settle-perm mic c v p (inl e) =
    rw (e, keep-append {0}, map-append)
      (perm_last (map span (keep (is_own mic) p.out)) p.deferred_mic c)
settle-perm system c v p (inl e) =
    rw (e, keep-append {0}, map-append)
      (perm_last (map span (keep (is_own system) p.out)) p.deferred_system c)
settle-perm mic c v p (inr e) = rw e (perm_end _ p.deferred_mic c)
settle-perm system c v p (inr e) = rw e (perm_end _ p.deferred_system c)

other-settle :
    (own : SourceKind) (c : TimedSegment) (v : Verdict) (p : Pass)
    → placed (other_kind own) (settle own c v p) ≡ placed (other_kind own) p
unfolding settle
other-settle mic c (emit t) p = rw (keep-append {0}, append-nil)
other-settle mic c defer p = refl
other-settle mic c drop p = refl
other-settle system c (emit t) p = rw (keep-append {0}, append-nil)
other-settle system c defer p = refl
other-settle system c drop p = refl

module _ (ac : Acoustics) (energy : EnergyBuffer ac.Db) (cfg : AttributionConfig)
    (tu : SourceKind → Option ℕ) where
  -- Candidates that are all kept are all placed, each once.
  decide-perm :
      (own : SourceKind) (others cs : List TimedSegment) (p : Pass)
      → All (λ c. Kept c (judge ac energy cfg tu own others c)) cs
      → Perm (placed own (decide ac energy cfg tu own others cs p)) (cs ++ placed own p)
  unfolding decide
  decide-perm own others [] p h = Perm.refl _
  decide-perm own others (c ∷ cs) p h = Perm.trans (decide-perm own others cs _ h.1) (
      Perm.trans
        (Perm.append_left cs (settle-perm own c (judge ac energy cfg tu own others c) p h.0))
        (perm_middle cs (placed own p)))

  decide-other :
      (own : SourceKind) (others cs : List TimedSegment) (p : Pass)
      → placed (other_kind own) (decide ac energy cfg tu own others cs p)
        ≡ placed (other_kind own) p
  unfolding decide
  decide-other own others [] p = refl
  decide-other own others (c ∷ cs) p =
      decide-other own others cs _ ∙ other-settle own c (judge ac energy cfg tu own others c) p

  -- The system's side never drops a candidate.
  judge-system :
      (others : List TimedSegment) (c : TimedSegment)
      → Kept c (judge ac energy cfg tu system others c)
  unfolding judge judge_from judge_heard judge_expired
  judge-system others c = ground arith

  -- The mic's side drops, or trims, only a candidate with a twin.
  judge-mic :
      (others : List TimedSegment) (c : TimedSegment)
      → find_twin c others cfg.overlap_ratio ≡ none
      → Kept c (judge ac energy cfg tu mic others c)
  unfolding judge judge_from judge_heard judge_expired judge_twin
  judge-mic others c h = ground arith

  sorted-perm :
      (own : SourceKind) (p : Pass)
      → Perm (placed own (record p { out = sort key_le p.out })) (placed own p)
  sorted-perm mic p =
      Perm.append_right p.deferred_mic (Perm.map span (keep-sort key_le (is_own mic) p.out))
  sorted-perm system p =
      Perm.append_right p.deferred_system (Perm.map span (keep-sort key_le (is_own system) p.out))

  abbrev nothing : Pass
  nothing = record { out = []; deferred_mic = []; deferred_system = [] }

  -- Every candidate of the system track is emitted as `them`, with its span and its text, or is
  -- deferred, and that once: none is lost, none is made up.
  pub attribute-system :
      (mic_segs system_segs : List TimedSegment)
      → Perm (placed system (attribute ac mic_segs system_segs energy cfg tu)) system_segs
  unfolding attribute
  attribute-system ms ss =
      let first = decide ac energy cfg tu mic ss ms nothing in
      Perm.trans (sorted-perm system (decide ac energy cfg tu system ms ss first)) (
        subst (λ rest. Perm (placed system (decide ac energy cfg tu system ms ss first)) rest)
          (ap (λ q. ss ++ q) (decide-other mic ss ms nothing) ∙ append-nil ss)
          (decide-perm system ms ss first (All-every (judge-system ms) ss)))

  -- Where no candidate of the microphone has a twin on the system track, every one is emitted as
  -- `me`, with its span and its text, or is deferred, and that once.
  pub attribute-mic :
      (mic_segs system_segs : List TimedSegment)
      → All (λ c. find_twin c system_segs cfg.overlap_ratio ≡ none) mic_segs
      → Perm (placed mic (attribute ac mic_segs system_segs energy cfg tu)) mic_segs
  unfolding attribute
  attribute-mic ms ss h =
      let first = decide ac energy cfg tu mic ss ms nothing in
      Perm.trans (sorted-perm mic (decide ac energy cfg tu system ms ss first)) (
        rw (decide-other system ms ss first) (
          subst (λ q. Perm (placed mic first) q) (append-nil ms)
            (decide-perm mic ss ms nothing (All-map_of ms (judge-mic ss) h))))
