-- ===== src/Base/Bytes/Patterns.antt =====
-- Where a pattern stands in a text, and texts that are free of it.
use Prim.Native.Nat.{ℕ, zero, suc}
use mathlib.Core.Path.{◌≡◌, refl, ap, subst, sym, ◌∙◌}
use mathlib.Core.Logic.{◌⊎◌, inl, inr}
use mathlib.Core.Bool.{Bool, true, false, not}
use mathlib.Core.Option.{Option, none, some}
use mathlib.Core.List.{List, [], ◌∷◌, ◌++◌}
use native.Mathlib.Omega.{arith}
use bsystem_integration_core.Base.Tests.{
  ◌==◌, ==_iff, if◌then◌else◌, Bool-cases, and_left, and_right,
}
use bsystem_integration_core.Base.Lists.{length, all, All}
use bsystem_integration_core.Base.Bytes.{
  Bytes, take, drop, has_prefix, index, next, split, join, take-drop, IsFree, onto_first,
}

-- A text that begins with a pattern is the pattern and what follows it.
pub has_prefix-append : (s p : Bytes) → has_prefix s p ≡ true → s ≡ p ++ drop (length p) s
unfolding has_prefix
has_prefix-append s [] h = refl
has_prefix-append [] (c ∷ p) h = cc
has_prefix-append (b ∷ s) (c ∷ p) h =
    let same = (==_iff b c).0 (and_left (b == c) (has_prefix s p) h) in
    let rest = has_prefix-append s p (and_right (b == c) (has_prefix s p) h) in
    subst (λ x. b ∷ s ≡ x ∷ (p ++ drop (length p) s)) same (ap (λ t. b ∷ t) rest)

-- A pattern at the beginning stays there when the text goes on.
has_prefix-longer : (s t p : Bytes) → has_prefix s p ≡ true → has_prefix (s ++ t) p ≡ true
unfolding has_prefix
has_prefix-longer s t [] h = refl
has_prefix-longer [] t (c ∷ p) h = cc
has_prefix-longer (b ∷ s) t (c ∷ p) h = ground (arith, has_prefix-longer s t p)

-- A pattern at the beginning ends before a byte that is not in it.
has_prefix-before :
    (s : Bytes) (c : ℕ) (t p : Bytes)
    → all (λ b. not (b == c)) p ≡ true
    → has_prefix (s ++ c ∷ t) p ≡ true
    → has_prefix s p ≡ true
unfolding has_prefix
has_prefix-before s c t [] out h = refl
has_prefix-before [] c t (b ∷ p) out h = ground arith
has_prefix-before (a ∷ s) c t (b ∷ p) out h = ground (arith, has_prefix-before s c t p)

-- A text is free of a pattern if no part of it begins with the pattern.
IsFree-cons : (b : ℕ) (s p : Bytes) → has_prefix (b ∷ s) p ≡ false → IsFree p s → IsFree p (b ∷ s)
unfolding index
IsFree-cons b s p h free = rw (h, free) refl

IsFree-head : (b : ℕ) (s p : Bytes) → IsFree p (b ∷ s) → has_prefix (b ∷ s) p ≡ false
unfolding index
IsFree-head b s p free = elim (Bool-cases (has_prefix (b ∷ s) p)) [
  | inl e ↦ absurd (ground (arith, free, e))
  | inr e ↦ e
]

pub IsFree-tail : (b : ℕ) (s p : Bytes) → IsFree p (b ∷ s) → IsFree p s
unfolding index
IsFree-tail b s p free = tail_of (has_prefix (b ∷ s) p) (index s p) free
  where
    tail_of : (h : Bool) (o : Option ℕ) → (if h then some 0 else next o) ≡ none → o ≡ none
    tail_of true o e = cc
    tail_of false none e = refl
    tail_of false (some i) e = cc

-- A pattern stands where it is found.
pub index_prefix :
    (s : Bytes) (p : Bytes) (i : ℕ) → index s p ≡ some i → has_prefix (drop i s) p ≡ true
unfolding index
index_prefix [] p i h = found (has_prefix [] p) refl i h
  where
    found :
        (b : Bool)
        → has_prefix [] p ≡ b
        → (i : ℕ) → (if b then some 0 else none) ≡ some i
        → has_prefix (drop i []) p ≡ true
    found true e zero h = e
    found true e (suc i) h = cc
    found false e i h = cc
index_prefix (b ∷ s) p i h =
    found (λ j. index_prefix s p j) (has_prefix (b ∷ s) p) refl (index s p) refl i h
  where
    found :
        ((j : ℕ) → index s p ≡ some j → has_prefix (drop j s) p ≡ true)
        → (b' : Bool) → has_prefix (b ∷ s) p ≡ b'
        → (o : Option ℕ) → index s p ≡ o
        → (i : ℕ) → (if b' then some 0 else next o) ≡ some i
        → has_prefix (drop i (b ∷ s)) p ≡ true
    found later true e o eo zero h = e
    found later true e o eo (suc i) h = cc
    found later false e none eo i h = cc
    found later false e (some j) eo zero h = cc
    found later false e (some j) eo (suc i) h =
        let same : j ≡ i = cc in subst (λ x. has_prefix (drop x s) p ≡ true) same (later j eo)

module _ (q : ℕ) (p : Bytes) where
  abbrev pattern : Bytes
  pattern = q ∷ p

  pub IsFree-left : (s t : Bytes) → IsFree (q ∷ p) (s ++ t) → IsFree (q ∷ p) s
  unfolding index has_prefix
  IsFree-left [] t free = refl
  IsFree-left (b ∷ s) t free =
      IsFree-cons b s (q ∷ p) (shorter (Bool-cases (has_prefix (b ∷ s) (q ∷ p))))
        (IsFree-left s t (IsFree-tail b (s ++ t) (q ∷ p) free))
    where
      shorter :
          ((has_prefix (b ∷ s) (q ∷ p) ≡ true) ⊎ (has_prefix (b ∷ s) (q ∷ p) ≡ false))
          → has_prefix (b ∷ s) (q ∷ p) ≡ false
      shorter (inl e) = absurd (
          ground
            (arith, has_prefix-longer (b ∷ s) t (q ∷ p) e, IsFree-head b (s ++ t) (q ∷ p) free))
      shorter (inr e) = e

  pub IsFree-right : (s t : Bytes) → IsFree (q ∷ p) (s ++ t) → IsFree (q ∷ p) t
  IsFree-right [] t free = free
  IsFree-right (b ∷ s) t free = IsFree-right s t (IsFree-tail b (s ++ t) (q ∷ p) free)

  module _ (c : ℕ) (out : all (λ b. not (b == c)) (q ∷ p) ≡ true) where
    -- No part that begins in the first text reaches past a byte that is not in the pattern.
    pub IsFree-around :
        (s t : Bytes) → IsFree (q ∷ p) s → IsFree (q ∷ p) t → IsFree (q ∷ p) (s ++ c ∷ t)
    unfolding index has_prefix
    IsFree-around [] t free rest = IsFree-cons c t (q ∷ p) (ground (arith, out)) rest
    IsFree-around (b ∷ s) t free rest =
        IsFree-cons b (s ++ c ∷ t) (q ∷ p)
          (shorter (Bool-cases (has_prefix (b ∷ (s ++ c ∷ t)) (q ∷ p))))
          (IsFree-around s t (IsFree-tail b s (q ∷ p) free) rest)
      where
        shorter :
            ((has_prefix (b ∷ (s ++ c ∷ t)) (q ∷ p) ≡ true)
              ⊎ (has_prefix (b ∷ (s ++ c ∷ t)) (q ∷ p) ≡ false))
            → has_prefix (b ∷ (s ++ c ∷ t)) (q ∷ p) ≡ false
        shorter (inl e) = absurd (
            ground
              (arith, has_prefix-before (b ∷ s) c t (q ∷ p) out e, IsFree-head b s (q ∷ p) free))
        shorter (inr e) = e

    pub All-join : (xs : List Bytes) → All (IsFree (q ∷ p)) xs → IsFree (q ∷ p) (join c xs)
    unfolding join index has_prefix
    All-join [] free = refl
    All-join (x ∷ []) free = free.0
    All-join (x ∷ y ∷ xs) free = IsFree-around x (join c (y ∷ xs)) free.0 (All-join (y ∷ xs) free.1)

    -- What stands before the first occurrence, and a byte after it that is not in the pattern.
    pub IsFree-before :
        (s t : Bytes) (i : ℕ)
        → index s (q ∷ p) ≡ some i
        → IsFree (q ∷ p) t
        → IsFree (q ∷ p) (take i s ++ c ∷ t)
    unfolding index has_prefix
    IsFree-before [] t i at rest = cc
    IsFree-before (b ∷ s) t i at rest =
        first (λ j at_j. IsFree-before s t j at_j rest) (has_prefix (b ∷ s) (q ∷ p)) refl
          (index s (q ∷ p)) refl i at
      where
        longer :
            (j : ℕ)
            → has_prefix (b ∷ (take j s ++ c ∷ t)) (q ∷ p) ≡ true
            → has_prefix (b ∷ s) (q ∷ p) ≡ true
        longer j e =
            subst (λ x. has_prefix (b ∷ x) (q ∷ p) ≡ true) (take-drop j s)
              (has_prefix-longer (b ∷ take j s) (drop j s) (q ∷ p)
                (has_prefix-before (b ∷ take j s) c t (q ∷ p) out e))

        first :
            ((j : ℕ) → index s (q ∷ p) ≡ some j → IsFree (q ∷ p) (take j s ++ c ∷ t))
            → (h : Bool) → has_prefix (b ∷ s) (q ∷ p) ≡ h
            → (o : Option ℕ) → index s (q ∷ p) ≡ o
            → (i : ℕ) → (if h then some 0 else next o) ≡ some i
            → IsFree (q ∷ p) (take i (b ∷ s) ++ c ∷ t)
        first later true eh o eo zero e = IsFree-around [] t refl rest
        first later true eh o eo (suc i) e = cc
        first later false eh none eo i e = cc
        first later false eh (some j) eo zero e = cc
        first later false eh (some j) eo (suc i) e =
            let same : j ≡ i = cc in
            subst (λ x. IsFree (q ∷ p) (b ∷ (take x s ++ c ∷ t))) same
              (IsFree-cons b (take j s ++ c ∷ t) (q ∷ p)
                (elim (Bool-cases (has_prefix (b ∷ (take j s ++ c ∷ t)) (q ∷ p))) [
                  | inl there ↦ absurd (ground (arith, longer j there, eh))
                  | inr other ↦ other
                ])
                (later j eo))

  All-split_at :
      (c : ℕ) (x : Bytes) (xs : List Bytes)
      → IsFree (q ∷ p) (join c (x ∷ xs))
      → All (IsFree (q ∷ p)) (x ∷ xs)
  unfolding join
  All-split_at c x [] free = (free, tt)
  All-split_at c x (y ∷ xs) free = (
    IsFree-left x (c ∷ join c (y ∷ xs)) free,
    All-split_at c y xs
        (IsFree-tail c (join c (y ∷ xs)) (q ∷ p) (IsFree-right x (c ∷ join c (y ∷ xs)) free)),
  )

join_onto : (c b : ℕ) (xs : List Bytes) → join c (onto_first b xs) ≡ b ∷ join c xs
unfolding join
join_onto c b [] = refl
join_onto c b (x ∷ []) = refl
join_onto c b (x ∷ y ∷ xs) = refl

abbrev IsSome : List Bytes → Type 0
IsSome [] = ⊥
IsSome (x ∷ xs) = Unit

onto_first-IsSome : (b : ℕ) (xs : List Bytes) → IsSome (onto_first b xs)
onto_first-IsSome b [] = tt
onto_first-IsSome b (x ∷ xs) = tt

split-IsSome : (c : ℕ) (s : Bytes) → IsSome (split c s)
unfolding split
split-IsSome c [] = tt
split-IsSome c (b ∷ s) = elim (Bool-cases (b == c)) [
  | inl e ↦ rw e tt
  | inr e ↦ rw e (onto_first-IsSome b (split c s))
]

join_empty : (c : ℕ) (xs : List Bytes) → IsSome xs → join c ([] ∷ xs) ≡ c ∷ join c xs
unfolding join
join_empty c [] some_x = absurd some_x
join_empty c (x ∷ xs) some_x = refl

-- What was split is joined again.
pub join-split : (c : ℕ) (s : Bytes) → join c (split c s) ≡ s
unfolding join split
join-split c [] = refl
join-split c (b ∷ s) = elim (Bool-cases (b == c)) [
  | inl e ↦
      rw e
        (join_empty c (split c s) (split-IsSome c s) ∙ rw (join-split c s, (==_iff b c).0 e) refl)
  | inr e ↦ rw e (join_onto c b (split c s) ∙ ap (λ t. b ∷ t) (join-split c s))
]

-- The pieces of a text that is free of a pattern are free of it.
pub All-split :
    (q : ℕ) (p : Bytes) (c : ℕ) (s : Bytes) → IsFree (q ∷ p) s → All (IsFree (q ∷ p)) (split c s)
All-split q p c s free = pieces (split c s) (subst (IsFree (q ∷ p)) (sym (join-split c s)) free)
  where
    pieces : (xs : List Bytes) → IsFree (q ∷ p) (join c xs) → All (IsFree (q ∷ p)) xs
    pieces [] h = tt
    pieces (x ∷ xs) h = All-split_at q p c x xs h
