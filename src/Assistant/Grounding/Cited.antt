-- ===== src/Assistant/Grounding/Cited.antt =====
-- The citations are those of the valid markers.
use mathlib.Core.List.{map, Memᴰ}
use ambient_recorder.Base.{
  ℕ, ◌≡◌, refl, sym, subst, ◌∙◌, arith, Bool, true, false, not, ◌&&◌, ◌||◌, ◌==◌, Option, none,
  some, List, [], ◌∷◌, any, All, All-append, is_some, Bool-cases, inl, inr,
}
use ambient_recorder.Base.Sort.{insert, sort, All-sort}
use ambient_recorder.Base.Text.{Text}
use ambient_recorder.Attribution.Twin.{is_empty}
use ambient_recorder.Retrieval.{Excerpt}
use ambient_recorder.Assistant.Markers.{markers}
use ambient_recorder.Assistant.Grounding.{
  Citation, Verdict, grounded, declined, ungrounded, cite, by_n, or_this, add_citation, collect,
  by_number, verdict, validate_citations, clean, bare, declines,
}

this_one : (n : ℕ) (x e : Excerpt) → (x.n == n) ≡ true → or_this n x none ≡ some e → e ≡ x
this_one n x e g h = ground arith

-- Where the numbers satisfy `Q`.
module _ (index : ℕ → Option Excerpt) (Q : ℕ → Type 0) (P : ℕ → Citation → Type 0)
    (holds : (n : ℕ) (e : Excerpt) → Q n → index n ≡ some e → P n (cite e)) where
  add-All :
      (n : ℕ) (o : Option Excerpt) (seen : List (ℕ × Citation))
      → Q n
      → index n ≡ o
      → All (λ c. P c.0 c.1) seen
      → All (λ c. P c.0 c.1) (add_citation n o seen)
  add-All n none seen q h a = a
  add-All n (some e) seen q h a = elim (Bool-cases (any (λ c. c.0 == n) seen)) [
    | inl g ↦ rw g a
    | inr g ↦ rw g (All-append (λ c. P c.0 c.1) seen ((n, cite e) ∷ []) a (holds n e q h, tt))
  ]

  -- What holds of the citation of every valid number holds of all that are collected.
  pub collect-All :
      (ns : List ℕ) (seen : List (ℕ × Citation))
      → All Q ns
      → All (λ c. P c.0 c.1) seen
      → All (λ c. P c.0 c.1) (collect index ns seen)
  unfolding collect
  collect-All [] seen q a = a
  collect-All (n ∷ ns) seen q a =
      collect-All ns (add_citation n (index n) seen) q.1 (add-All n (index n) seen q.0 refl a)

-- The excerpt of a number is one of the excerpts, and has the number.
pub by_n-found :
    (es : List Excerpt) (n : ℕ) (e : Excerpt) → by_n es n ≡ some e → Memᴰ e es × (e.n ≡ n)
unfolding by_n
by_n-found [] n e = λ h. absurd (ground arith)
by_n-found (x ∷ es) n e =
    elim (by_n es n)
        as (λ o. by_n es n ≡ o → or_this n x o ≡ some e → Memᴰ e (x ∷ es) × (e.n ≡ n)) [
          | some y ↦ λ q h. let rest = by_n-found es n e (q ∙ h) in (Memᴰ.tail rest.0, rest.1)
          | none ↦ λ q h. elim (Bool-cases (x.n == n)) [
            | inl g ↦ (Memᴰ.head (this_one n x e g h), ground (arith, this_one n x e g h, g))
            | inr g ↦ absurd (grind (arith, h, g))
          ]
        ]
      refl

pub All-itself {ℓ} :
    {A : Type ℓ} (xs ys : List A) → ((x : A) → Memᴰ x xs → Memᴰ x ys) → All (λ x. Memᴰ x ys) xs
All-itself [] ys f = tt
All-itself (x ∷ xs) ys f = (f x (Memᴰ.head refl), All-itself xs ys (λ y m. f y (Memᴰ.tail m)))

pub All-second :
    (P : Citation → Type 0) (xs : List (ℕ × Citation))
    → All (λ c. P c.1) xs
    → All P (map (λ c. c.1) xs)
All-second P [] h = tt
All-second P (x ∷ xs) h = (h.0, All-second P xs h.1)

-- The citation is that of an excerpt whose marker stands in the answer.
abbrev pub IsBacked : Text → List Excerpt → Citation → Type 0
IsBacked answer excerpts c =
    (e : Excerpt) × Memᴰ e excerpts × Memᴰ e.n (markers answer) × (c ≡ cite e)

verdict-All :
    (P : Citation → Type 0) (b : Bool) (t : Text) (cs : List Citation)
    → All P cs
    → All P (verdict b t cs).1
verdict-All P true t cs h = tt
verdict-All P false t [] h = tt
verdict-All P false t (c ∷ cs) h = h

cited :
    (answer : Text) (excerpts : List Excerpt)
    → All (λ c. IsBacked answer excerpts c.1) (collect (by_n excerpts) (markers answer) [])
cited answer excerpts =
    collect-All (by_n excerpts) (λ n. Memᴰ n (markers answer)) (λ n c. IsBacked answer excerpts c)
      (λ n e q h.
        let there = by_n-found excerpts n e h in
        (e, there.0, subst (λ z. Memᴰ z (markers answer)) (sym there.1) q, refl))
      (markers answer) [] (All-itself (markers answer) (markers answer) (λ x m. m)) tt

added :
    (index : ℕ → Option Excerpt) (n : ℕ) (ns : List ℕ) (seen : List (ℕ × Citation))
    → (o : Option Excerpt) → index n ≡ o
    → (is_empty (add_citation n o seen) && not (any (λ n. is_some (index n)) ns))
      ≡ (is_empty seen && not (is_some (index n) || any (λ n. is_some (index n)) ns))
added index n ns seen none h = rw h refl
added index n ns [] (some e) h = rw h refl
added index n ns (x ∷ seen) (some e) h = elim (Bool-cases (any (λ c. c.0 == n) (x ∷ seen))) [
  | inl g ↦ rw g refl
  | inr g ↦ rw g refl
]

-- Something is collected exactly where a number is valid.
any-collect :
    (index : ℕ → Option Excerpt) (ns : List ℕ) (seen : List (ℕ × Citation))
    → is_empty (collect index ns seen) ≡ (is_empty seen && not (any (λ n. is_some (index n)) ns))
unfolding collect
any-collect index [] seen = ground arith
any-collect index (n ∷ ns) seen =
    any-collect index ns (add_citation n (index n) seen) ∙ added index n ns seen (index n) refl

is_empty-insert :
    (x : ℕ × Citation) (xs : List (ℕ × Citation))
    → is_empty (map (λ c. c.1) (insert by_number x xs)) ≡ false
unfolding insert
is_empty-insert x [] = refl
is_empty-insert x (y ∷ ys) = elim (Bool-cases (by_number x y)) [
  | inl e ↦ rw e refl
  | inr e ↦ rw e refl
]

is_empty-sort :
    (xs : List (ℕ × Citation)) → is_empty (map (λ c. c.1) (sort by_number xs)) ≡ is_empty xs
unfolding sort
is_empty-sort [] = refl
is_empty-sort (x ∷ xs) = is_empty-insert x (sort by_number xs)

-- The verdict, by what the answer says and whether a marker is valid.
abbrev pub expected : Bool → Bool → Verdict
expected true valid = declined
expected false true = grounded
expected false false = ungrounded

verdict-expected :
    (b valid : Bool) (t : Text) (cs : List Citation)
    → is_empty cs ≡ not valid
    → ((verdict b t cs).2 ≡ expected b valid) × (is_empty (verdict b t cs).1 ≡ (b || not valid))
verdict-expected true valid t cs h = (refl, refl)
verdict-expected false true t [] h = absurd (ground arith)
verdict-expected false false t [] h = (refl, refl)
verdict-expected false true t (c ∷ cs) h = (refl, refl)
verdict-expected false false t (c ∷ cs) h = absurd (ground arith)

-- Every citation is that of an excerpt whose marker stands in the answer. The answer is declined where
-- what it says is the decline phrase, with at most thirty characters more; otherwise it is grounded
-- where a marker of it is the number of an excerpt, and ungrounded where none is. Citations are given
-- exactly where it is grounded.
pub validate_citations-IsBacked :
    (answer : Text) (excerpts : List Excerpt)
    → let r = validate_citations answer excerpts in
      let says = declines (bare (clean (by_n excerpts) answer)) in
      let valid = any (λ n. is_some (by_n excerpts n)) (markers answer) in
      All (IsBacked answer excerpts) r.1
      × (r.2 ≡ expected says valid)
      × (is_empty r.1 ≡ (says || not valid))
unfolding validate_citations
validate_citations-IsBacked answer excerpts =
    let index = by_n excerpts in
    let seen = collect index (markers answer) [] in
    let cleaned = clean index answer in
    let cits = map (λ c. c.1) (sort by_number seen) in
    let says = declines (bare cleaned) in
    let valid = any (λ n. is_some (index n)) (markers answer) in
    let e =
      verdict-expected says valid cleaned cits
        (is_empty-sort seen ∙ any-collect index (markers answer) []) in
    (
      verdict-All (IsBacked answer excerpts) says cleaned cits (
          All-second (IsBacked answer excerpts) (sort by_number seen)
            (All-sort by_number (λ c. IsBacked answer excerpts c.1) seen (cited answer excerpts))),
      e.0,
      e.1,
    )
