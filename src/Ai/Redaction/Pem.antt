-- ===== src/Ai/Redaction/Pem.antt =====
-- The loop over the private key blocks (`redactPEM` of internal/ai/ai.go).
use bsystem_integration_core.Base.{
  ℕ, zero, suc, ◌+◌, ◌≤◌, ◌<◌, ◌≡◌, refl, arith, true, Option, none, some, ◌⊎◌, inl, inr, [], ◌∷◌,
  ◌++◌, length, subst, length-append,
}
use bsystem_integration_core.Base.Bytes.{Bytes, take, drop, has_prefix, index, next, IsFree}
use bsystem_integration_core.Base.Bytes.Patterns.{has_prefix-append, index_prefix, IsFree-before}
use bsystem_integration_core.Ai.Redaction.{
  returned, marker, begin_key, end_key, Turn, done, again, after_line, after_end, after_begin, turn,
  redact_pem, newline,
}

-- The end of a block comes at least ten bytes after its beginning.
end_after_begin :
    (s : Bytes) (f : ℕ) → has_prefix s begin_key ≡ true → index s end_key ≡ some f → 10 ≤ f
unfolding index has_prefix begin_key end_key
end_after_begin s f at h =
    late (index (drop 10 s) end_key) f
      (subst (λ x. index x end_key ≡ some f) (has_prefix-append s begin_key at) h)
  where
    late :
        (o : Option ℕ) (f : ℕ)
        → next (next (next (next (next (next (next (next (next (next o))))))))) ≡ some f
        → 10 ≤ f
    late none f h = cc
    late (some j) f h =
        let e : suc (suc (suc (suc (suc (suc (suc (suc (suc (suc j))))))))) ≡ f = cc in
        omega (arith, e)

length-drop : (n : ℕ) (s : Bytes) → length (drop n s) ≤ length s
length-drop zero s = omega arith
length-drop (suc n) [] = omega arith
length-drop (suc n) (b ∷ s) = omega (arith, length-drop n s)

-- What is dropped is gone, if it begins with something.
pub length-dropped :
    (n : ℕ) (s p : Bytes)
    → 1 ≤ length p
    → has_prefix (drop n s) p ≡ true
    → length (drop n s) + n ≡ length s
unfolding has_prefix
length-dropped zero s p some_p h = omega arith
length-dropped (suc n) [] [] some_p h = omega (arith, some_p)
length-dropped (suc n) [] (c ∷ p) some_p h = cc
length-dropped (suc n) (b ∷ s) p some_p h = omega (arith, length-dropped n s p some_p h)

length-take : (n : ℕ) (s : Bytes) → length (take n s) ≤ n
length-take zero s = omega arith
length-take (suc n) [] = omega arith
length-take (suc n) (b ∷ s) = omega (arith, length-take n s)

drop_nothing : (n : ℕ) → drop n [] ≡ []
drop_nothing zero = refl
drop_nothing (suc n) = refl

drop-drop : (n m : ℕ) (s : Bytes) → drop (n + m) s ≡ drop m (drop n s)
drop-drop zero m s = let e : m ≡ 0 + m = omega arith in subst (λ k. drop k s ≡ drop m s) e refl
drop-drop (suc n) m [] = rw (drop_nothing (suc n + m), drop_nothing m) refl
drop-drop (suc n) m (b ∷ s) =
    let e : suc (n + m) ≡ suc n + m = omega arith in
    subst (λ k. drop k (b ∷ s) ≡ drop m (drop n s)) e (drop-drop n m s)

-- The block's last line does not end where its end is found.
line_after_end :
    (s : Bytes) (l : ℕ) → has_prefix s end_key ≡ true → index s (newline ∷ []) ≡ some l → 1 ≤ l
unfolding index has_prefix end_key
line_after_end s l at h =
    late (index (45 ∷ 45 ∷ 45 ∷ 45 ∷ 69 ∷ 78 ∷ 68 ∷ drop 8 s) (newline ∷ [])) l
      (subst (λ x. index x (newline ∷ []) ≡ some l) (has_prefix-append s end_key at) h)
  where
    late : (o : Option ℕ) (l : ℕ) → next o ≡ some l → 1 ≤ l
    late none l h = cc
    late (some j) l h = let e : suc j ≡ l = cc in omega (arith, e)

is_there : (s p : Bytes) → 1 ≤ length p → has_prefix s p ≡ true → 1 ≤ length s
unfolding has_prefix
is_there s [] some_p h = omega (arith, some_p)
is_there [] (c ∷ p) some_p h = cc
is_there (b ∷ s) (c ∷ p) some_p h = omega arith

-- A block that is cut out is longer than the marker.
marked :
    (start : ℕ) (text rest : Bytes)
    → length (take start text ++ (marker ++ rest)) ≤ start + 10 + length rest
unfolding marker
marked start text rest = omega (
  arith,
  length-append (take start text) (marker ++ rest),
  length-take start text,
  length-append marker rest,
)

bare_marked : (start : ℕ) (text : Bytes) → length (take start text ++ marker) ≤ start + 10
unfolding marker
bare_marked start text =
    omega (arith, length-append (take start text) marker, length-take start text)

cut_shortens :
    (text out : Bytes) (start finish : ℕ)
    → has_prefix (drop start text) begin_key ≡ true
    → index (drop start text) end_key ≡ some finish
    → (o : Option ℕ) → index (drop finish (drop start text)) (newline ∷ []) ≡ o
    → after_line text start (drop finish (drop start text)) o ≡ again out
    → length out < length text
unfolding begin_key end_key
cut_shortens text out start finish b e o eo h = cut o eo h
  where
    at_tail : has_prefix (drop finish (drop start text)) end_key ≡ true
    at_tail = index_prefix (drop start text) end_key finish e

    whole : length (drop finish (drop start text)) + finish + start ≡ length text
    whole = omega (
      arith,
      length-dropped start text begin_key (omega arith) b,
      length-dropped finish (drop start text) end_key (omega arith) at_tail,
    )

    late : 10 ≤ finish
    late = end_after_begin (drop start text) finish b e

    cut :
        (o : Option ℕ)
        → index (drop finish (drop start text)) (newline ∷ []) ≡ o
        → after_line text start (drop finish (drop start text)) o ≡ again out
        → length out < length text
    cut none eo h =
        let same : take start text ++ marker ≡ out = cc in
        let some_tail = is_there (drop finish (drop start text)) end_key (omega arith) at_tail in
        subst (λ x. length x < length text) same
          (omega (arith, bare_marked start text, whole, late, some_tail))
    cut (some l) eo h =
        let tail : Bytes = drop finish (drop start text) in
        let same : take start text ++ (marker ++ drop l tail) ≡ out = cc in
        let at_line = line_after_end tail l at_tail eo in
        let rest =
          length-dropped l tail (newline ∷ []) (omega arith)
            (index_prefix tail (newline ∷ []) l eo) in
        subst (λ x. length x < length text) same
          (omega (arith, marked start text (drop l tail), whole, late, at_line, rest))

-- A turn that goes on has made the text shorter.
turn_shortens : (text out : Bytes) → turn text ≡ again out → length out < length text
unfolding turn
turn_shortens text out h = at_begin (index text begin_key) refl h
  where
    at_line :
        (start finish : ℕ)
        → has_prefix (drop start text) begin_key ≡ true
        → index (drop start text) end_key ≡ some finish
        → (o : Option ℕ) → index (drop finish (drop start text)) (newline ∷ []) ≡ o
        → after_line text start (drop finish (drop start text)) o ≡ again out
        → length out < length text
    at_line start finish b e o eo h = cut_shortens text out start finish b e o eo h

    at_end :
        (start : ℕ)
        → index text begin_key ≡ some start
        → (o : Option ℕ) → index (drop start text) end_key ≡ o
        → after_end text start o ≡ again out
        → length out < length text
    at_end start es none e h = cc
    at_end start es (some finish) e h =
        at_line start finish (index_prefix text begin_key start es) e
          (index (drop finish (drop start text)) (newline ∷ [])) refl
          (subst (λ tail. after_line text start tail (index tail (newline ∷ [])) ≡ again out)
            (drop-drop start finish text) h)

    at_begin :
        (o : Option ℕ)
        → index text begin_key ≡ o
        → after_begin text o ≡ again out
        → length out < length text
    at_begin none e h = cc
    at_begin (some start) e h = at_end start e (index (drop start text) end_key) refl h

IsFree-done : (text out : Bytes) → turn text ≡ done out → IsFree begin_key out
unfolding turn begin_key marker index has_prefix
IsFree-done text out h = at_begin (index text begin_key) refl h
  where
    at_line :
        (start : ℕ) (tail : Bytes) (o : Option ℕ)
        → after_line text start tail o ≡ done out
        → IsFree begin_key out
    at_line start tail none h = cc
    at_line start tail (some l) h = cc

    at_end :
        (start : ℕ)
        → index text begin_key ≡ some start
        → (o : Option ℕ) → after_end text start o ≡ done out
        → IsFree begin_key out
    at_end start es none h =
        let same : take start text ++ marker ≡ out = cc in
        subst (IsFree begin_key) same
          (IsFree-before 45 (drop 1 begin_key) 91 refl text (drop 1 marker) start es refl)
    at_end start es (some finish) h =
        at_line start (drop (start + finish) text)
          (index (drop (start + finish) text) (newline ∷ [])) h

    at_begin :
        (o : Option ℕ)
        → index text begin_key ≡ o
        → after_begin text o ≡ done out
        → IsFree begin_key out
    at_begin none e h = let same : text ≡ out = cc in subst (IsFree begin_key) same e
    at_begin (some start) e h = at_end start e (index (drop start text) end_key) h

pub Turn-cases : (t : Turn) → ((out : Bytes) × (t ≡ done out)) ⊎ ((out : Bytes) × (t ≡ again out))
Turn-cases (done out) = inl (out, refl)
Turn-cases (again out) = inr (out, refl)

-- The removal of the private key blocks comes to an end: one turn more than the text has bytes is
-- enough, as each turn that goes on shortens the text. No key block begins in what it returns.
pub redact_pem-IsFree :
    (fuel : ℕ) (text : Bytes)
    → length text < fuel
    → (out : Bytes) × ((redact_pem fuel text ≡ returned out) × IsFree begin_key out)
unfolding redact_pem
redact_pem-IsFree zero text enough = absurd (omega (arith, enough))
redact_pem-IsFree (suc fuel) text enough = elim (Turn-cases (turn text)) [
  | inl (out, e) ↦ rw (e, redact_pem) (out, (refl, IsFree-done text out e))
  | inr (out, e) ↦
      rw (e, redact_pem)
        (redact_pem-IsFree fuel out (omega (arith, turn_shortens text out e, enough)))
]
