-- ===== src/Metadata/Store/Accounts.antt =====
-- The counts and sizes that are kept beside the chunks.
use ambient_recorder.Base.{
  ℕ, ◌+◌, ◌≡◌, refl, ap, ap₂, sym, subst, ◌∙◌, arith, Bool, true, false, ◌&&◌, ◌==◌, List, [], ◌∷◌,
  ◌++◌, keep, keep-append, length, length-append, any, All, All-update_where, if◌then◌else◌,
  update_where, Bool-cases, inl, inr,
}
use ambient_recorder.Models.{SourceKind, mic, system}
use ambient_recorder.Metadata.Rows.{Session, CaptureSource, AudioChunk, Meta, same_kind}
use ambient_recorder.Metadata.Store.{
  ok, has_id, source_of, chunk_of, same_chunk, record_chunk, count_chunk, grow,
}

abbrev pub total_bytes : List AudioChunk → ℕ
total_bytes [] = 0
total_bytes (c ∷ cs) = c.size_bytes + total_bytes cs

abbrev pub of_session : ℕ → AudioChunk → Bool
of_session i c = c.session_id == i

-- Each track counts its chunks, and each session has the size of its chunks.
abbrev pub CountsChunks : List AudioChunk → CaptureSource → Type 0
CountsChunks chunks s = s.chunk_count ≡ length (keep (chunk_of s.session_id s.kind) chunks)

abbrev pub HasSize : List AudioChunk → Session → Type 0
HasSize chunks s = s.size_bytes ≡ total_bytes (keep (of_session s.id) chunks)

abbrev pub Accounted : Meta → Type 0
Accounted m =
    All (CountsChunks m.audio_chunks) m.capture_sources × All (HasSize m.audio_chunks) m.sessions

total_bytes-append :
    (xs ys : List AudioChunk) → total_bytes (xs ++ ys) ≡ total_bytes xs + total_bytes ys
total_bytes-append [] ys = omega arith
total_bytes-append (x ∷ xs) ys = omega (arith, total_bytes-append xs ys)

same_kind-sym : (a b : SourceKind) → same_kind a b ≡ same_kind b a
same_kind-sym mic mic = refl
same_kind-sym mic system = refl
same_kind-sym system mic = refl
same_kind-sym system system = refl

same_kind_self : (a : SourceKind) → same_kind a a ≡ true
same_kind_self mic = refl
same_kind_self system = refl

same_number : (i j : ℕ) → (i == j) ≡ (j == i)
same_number i j = ground arith

flip :
    (s : CaptureSource) (c : AudioChunk)
    → chunk_of s.session_id s.kind c ≡ source_of c.session_id c.source_kind s
flip s c =
    ap₂ (λ a b. a && b) (same_number c.session_id s.session_id) (same_kind-sym c.source_kind s.kind)

counts_more :
    (chunks : List AudioChunk) (c : AudioChunk) (s : CaptureSource)
    → length (keep (chunk_of s.session_id s.kind) (chunks ++ c ∷ []))
      ≡ length (keep (chunk_of s.session_id s.kind) chunks)
        + (if source_of c.session_id c.source_kind s then 1 else 0)
counts_more chunks c s =
    ap length (keep-append (chunk_of s.session_id s.kind) chunks (c ∷ []))
    ∙ length-append (keep (chunk_of s.session_id s.kind) chunks)
        (keep (chunk_of s.session_id s.kind) (c ∷ []))
    ∙ ground (arith, flip s c)

grows_more :
    (chunks : List AudioChunk) (c : AudioChunk) (s : Session)
    → total_bytes (keep (of_session s.id) (chunks ++ c ∷ []))
      ≡ total_bytes (keep (of_session s.id) chunks)
        + (if has_id c.session_id s then c.size_bytes else 0)
grows_more chunks c s =
    ap total_bytes (keep-append (of_session s.id) chunks (c ∷ []))
    ∙ total_bytes-append (keep (of_session s.id) chunks) (keep (of_session s.id) (c ∷ []))
    ∙ ground arith

added :
    (m m' : Meta) (c : AudioChunk)
    → record_chunk m c ≡ ok m'
    → any (same_chunk c) m.audio_chunks ≡ false
    → m' ≡ record m {
      audio_chunks = m.audio_chunks ++ c ∷ [];
      capture_sources =
          update_where (source_of c.session_id c.source_kind) count_chunk m.capture_sources;
      sessions = update_where (has_id c.session_id) (grow c.size_bytes) m.sessions;
    }
unfolding record_chunk
added m m' c h e = ground arith

kept :
    (m m' : Meta) (c : AudioChunk)
    → record_chunk m c ≡ ok m'
    → any (same_chunk c) m.audio_chunks ≡ true
    → m' ≡ m
unfolding record_chunk
kept m m' c h e = ground arith

-- Recording a chunk, for the first time or again, keeps each track's count at the number of its
-- chunks and each session's size at that of its chunks.
pub record_chunk-Accounted :
    (m m' : Meta) (c : AudioChunk) → Accounted m → record_chunk m c ≡ ok m' → Accounted m'
record_chunk-Accounted m m' c (counts, sizes) h =
    elim (Bool-cases (any (same_chunk c) m.audio_chunks)) [
      | inl e ↦ rw (kept m m' c h e) (counts, sizes)
      | inr e ↦ rw (added m m' c h e) (
        All-update_where (CountsChunks m.audio_chunks) (CountsChunks (m.audio_chunks ++ c ∷ []))
            (source_of c.session_id c.source_kind) count_chunk m.capture_sources
            (λ s t k. grind (arith, counts_more m.audio_chunks c s, t, k))
            (λ s t k. grind (arith, counts_more m.audio_chunks c s, t, k)) counts,
        All-update_where (HasSize m.audio_chunks) (HasSize (m.audio_chunks ++ c ∷ []))
            (has_id c.session_id) (grow c.size_bytes) m.sessions
            (λ s t k. grind (arith, grows_more m.audio_chunks c s, t, k))
            (λ s t k. grind (arith, grows_more m.audio_chunks c s, t, k)) sizes,
      )
    ]

same_self : (c : AudioChunk) → same_chunk c c ≡ true
same_self c = ground (arith, same_kind_self c.source_kind)

known :
    (m : Meta) (c : AudioChunk) → any (same_chunk c) m.audio_chunks ≡ true → record_chunk m c ≡ ok m
unfolding record_chunk
known m c e = rw e refl

any-last :
    (p : AudioChunk → Bool) (xs : List AudioChunk) (c : AudioChunk)
    → p c ≡ true
    → any p (xs ++ c ∷ []) ≡ true
any-last p [] c h = ground arith
any-last p (x ∷ xs) c h = ground (arith, any-last p xs c h)

-- A chunk that is recorded again changes nothing.
pub record_chunk-again :
    (m m' : Meta) (c : AudioChunk) → record_chunk m c ≡ ok m' → record_chunk m' c ≡ ok m'
record_chunk-again m m' c h = elim (Bool-cases (any (same_chunk c) m.audio_chunks)) [
  | inl e ↦ subst (λ x. record_chunk x c ≡ ok x) (sym (kept m m' c h e)) (known m c e)
  | inr e ↦ known m' c (
      ap (λ x. any (same_chunk c) x.audio_chunks) (added m m' c h e)
      ∙ any-last (same_chunk c) m.audio_chunks c (same_self c))
]
