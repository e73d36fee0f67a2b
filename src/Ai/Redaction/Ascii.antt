-- ===== src/Ai/Redaction/Ascii.antt =====
-- The redaction of a text in ASCII, which no slice makes panic (internal/ai/ai.go).
use bsystem_integration_core.Base.{
  ℕ, zero, suc, ◌+◌, ◌≤◌, ◌<◌, ◌≡◌, refl, arith, Bool, true, false, not, ◌&&◌, Option, none, some,
  List, [], ◌∷◌, ◌++◌, length, leb, ltb, all, and_left, and_right, ◌==◌, subst, sym, if◌then◌else◌,
  All, Bool-cases, inl, inr,
}
use bsystem_integration_core.Base.Bytes.{
  Bytes, take, drop, has_prefix, index, split, onto_first, trim_left,
}
use bsystem_integration_core.Base.Bytes.Patterns.{index_prefix}
use bsystem_integration_core.Ai.Redaction.{
  Run, returned, panicked, unfinished, and_then, marker, end_key, begin_key, Turn, done, again,
  after_line, after_end, after_begin, turn, redact_pem, newline, space, of_value, of_key,
  slice_from, starts, is_separator, is_blank, is_bare, is_nil, redact_keyed_value, redact_line,
  redact_lines, redact, credential_keys,
}
use bsystem_integration_core.Ai.Redaction.Pem.{redact_pem-IsFree, length-dropped}

abbrev pub IsAscii : Bytes → Type 0
IsAscii = All (λ b. b < 128)

-- What the program relies on of `strings.ToLower`: a text in ASCII keeps its length.
abbrev pub KeepsAscii : (Bytes → Bytes) → Type 0
KeepsAscii lower = (s : Bytes) → IsAscii s → length (lower s) ≡ length s

take-IsAscii : (n : ℕ) (s : Bytes) → IsAscii s → IsAscii (take n s)
take-IsAscii zero s h = tt
take-IsAscii (suc n) [] h = tt
take-IsAscii (suc n) (b ∷ s) h = (h.0, take-IsAscii n s h.1)

drop-IsAscii : (n : ℕ) (s : Bytes) → IsAscii s → IsAscii (drop n s)
drop-IsAscii zero s h = h
drop-IsAscii (suc n) [] h = tt
drop-IsAscii (suc n) (b ∷ s) h = drop-IsAscii n s h.1

append-IsAscii : (s t : Bytes) → IsAscii s → IsAscii t → IsAscii (s ++ t)
append-IsAscii [] t hs ht = ht
append-IsAscii (b ∷ s) t hs ht = (hs.0, append-IsAscii s t hs.1 ht)

onto_first-IsAscii :
    (b : ℕ) (xs : List Bytes) → b < 128 → All IsAscii xs → All IsAscii (onto_first b xs)
onto_first-IsAscii b [] h hs = ((h, tt), tt)
onto_first-IsAscii b (x ∷ xs) h hs = ((h, hs.0), hs.1)

split-IsAscii : (c : ℕ) (s : Bytes) → IsAscii s → All IsAscii (split c s)
unfolding split
split-IsAscii c [] h = (tt, tt)
split-IsAscii c (b ∷ s) h = elim (Bool-cases (b == c)) [
  | inl e ↦ rw e (tt, split-IsAscii c s h.1)
  | inr e ↦ rw e (onto_first-IsAscii b (split c s) h.0 (split-IsAscii c s h.1))
]

-- The Boolean test of a text that is given.
pub IsAscii-of : (s : Bytes) → all (λ b. ltb b 128) s ≡ true → IsAscii s
IsAscii-of [] h = tt
IsAscii-of (b ∷ s) h = (
  ground (arith, and_left (ltb b 128) (all (λ b. ltb b 128) s) h),
  IsAscii-of s (and_right (ltb b 128) (all (λ b. ltb b 128) s) h),
)

marker-IsAscii : IsAscii marker
unfolding marker
marker-IsAscii = IsAscii-of marker refl

-- The text of a turn, whichever it is.
abbrev text_of : Turn → Bytes
text_of (done text) = text
text_of (again text) = text

turn-IsAscii : (text : Bytes) → IsAscii text → IsAscii (text_of (turn text))
unfolding turn
turn-IsAscii text h = at_begin (index text begin_key)
  where
    at_line :
        (start : ℕ) (tail : Bytes)
        → IsAscii tail
        → (o : Option ℕ) → IsAscii (text_of (after_line text start tail o))
    at_line start tail ht none =
        append-IsAscii (take start text) marker (take-IsAscii start text h) marker-IsAscii
    at_line start tail ht (some l) =
        append-IsAscii (take start text) (marker ++ drop l tail) (take-IsAscii start text h)
          (append-IsAscii marker (drop l tail) marker-IsAscii (drop-IsAscii l tail ht))

    at_end : (start : ℕ) (o : Option ℕ) → IsAscii (text_of (after_end text start o))
    at_end start none =
        append-IsAscii (take start text) marker (take-IsAscii start text h) marker-IsAscii
    at_end start (some finish) =
        at_line start (drop (start + finish) text) (drop-IsAscii (start + finish) text h)
          (index (drop (start + finish) text) (newline ∷ []))

    at_begin : (o : Option ℕ) → IsAscii (text_of (after_begin text o))
    at_begin none = h
    at_begin (some start) = at_end start (index (drop start text) end_key)

redact_pem-IsAscii :
    (fuel : ℕ) (text out : Bytes) → IsAscii text → redact_pem fuel text ≡ returned out → IsAscii out
unfolding redact_pem
redact_pem-IsAscii zero text out h e = cc
redact_pem-IsAscii (suc fuel) text out h e =
    next_turn (turn text) (turn-IsAscii text h) e
      (λ text' h' e'. redact_pem-IsAscii fuel text' out h' e')
  where
    next_turn :
        (t : Turn)
        → IsAscii (text_of t)
        → (elim t [ done text' ↦ returned text' | again text' ↦ redact_pem fuel text' ])
          ≡ returned out
        → ((text' : Bytes) → IsAscii text' → redact_pem fuel text' ≡ returned out → IsAscii out)
        → IsAscii out
    next_turn (done text') ht e' later = let same : text' ≡ out = cc in subst IsAscii same ht
    next_turn (again text') ht e' later = later text' ht e'

-- A computation that does not panic.
abbrev pub IsCalm {ℓ} : {A : Type ℓ} → Run A → Type 0
IsCalm (returned a) = Unit
IsCalm panicked = ⊥
IsCalm unfinished = Unit

pub and_then-IsCalm {ℓ κ} :
    {A : Type ℓ} {B : Type κ} (r : Run A) (f : A → Run B)
    → IsCalm r
    → ((a : A) → r ≡ returned a → IsCalm (f a))
    → IsCalm (and_then r f)
and_then-IsCalm (returned a) f h each = each a refl
and_then-IsCalm panicked f h each = h
and_then-IsCalm unfinished f h each = tt

prefix_length : (s p : Bytes) → has_prefix s p ≡ true → length p ≤ length s
unfolding has_prefix
prefix_length s [] h = omega arith
prefix_length [] (c ∷ p) h = cc
prefix_length (b ∷ s) (c ∷ p) h = ground (arith, prefix_length s p)

-- A key that is found ends within the text.
index_end : (s p : Bytes) (i : ℕ) → 1 ≤ length p → index s p ≡ some i → i + length p ≤ length s
index_end s p i some_p at =
    let there = index_prefix s p i at in
    let whole = length-dropped i s p some_p there in
    omega (arith, whole, prefix_length (drop i s) p there)

keyed-IsCalm :
    (line lowered : Bytes) (keys : List Bytes)
    → length lowered ≡ length line
    → all (λ key. leb 1 (length key)) keys ≡ true
    → IsCalm (redact_keyed_value line lowered keys)
unfolding redact_keyed_value
keyed-IsCalm line lowered [] same some_keys = tt
keyed-IsCalm line lowered (key ∷ keys) same some_keys =
    at_key (redact_keyed_value line lowered keys)
      (keyed-IsCalm line lowered keys same
        (and_right (leb 1 (length key)) (all (λ key. leb 1 (length key)) keys) some_keys))
      (index lowered key) refl
  where
    branch :
        (a b : Bool) (x y : Bytes) (rest : Run (Option Bytes))
        → IsCalm rest
        → IsCalm (if a then returned (some x) else if b then returned (some y) else rest)
    branch true b x y rest h = tt
    branch false true x y rest h = tt
    branch false false x y rest h = h

    at_value :
        (rest : Run (Option Bytes))
        → IsCalm rest
        → (n : ℕ) → n ≤ length line
        → IsCalm (of_value line key rest n (slice_from n line))
    at_value rest h n within =
        let trimmed : Bytes = trim_left is_blank (drop n line) in
        elim (Bool-cases (leb n (length line))) [
          | inl e ↦ rw e (
              branch (starts is_separator trimmed)
                (is_bare key && starts is_blank (drop n line) && not (is_nil trimmed))
                (take n line ++ (take 1 trimmed ++ space ∷ marker)) (take n line ++ space ∷ marker)
                rest h)
          | inr e ↦ absurd (ground (arith, within, e))
        ]

    at_key :
        (rest : Run (Option Bytes))
        → IsCalm rest
        → (o : Option ℕ) → index lowered key ≡ o
        → IsCalm (of_key line key rest o)
    at_key rest h none e = h
    at_key rest h (some i) e =
        at_value rest h (i + length key)
          (omega (arith, same, index_end lowered key i (ground (arith, some_keys)) e))

keys-AreThere : all (λ key. leb 1 (length key)) credential_keys ≡ true
unfolding credential_keys
keys-AreThere = refl

line-IsCalm :
    (lower : Bytes → Bytes)
    → KeepsAscii lower
    → (line : Bytes) → IsAscii line
    → IsCalm (redact_line lower line)
unfolding redact_line
line-IsCalm lower keeps line h =
    and_then-IsCalm (redact_keyed_value line (lower line) credential_keys) _
      (keyed-IsCalm line (lower line) credential_keys (keeps line h) keys-AreThere) (λ found e. tt)

lines-IsCalm :
    (lower : Bytes → Bytes)
    → KeepsAscii lower
    → (lines : List Bytes) → All IsAscii lines
    → IsCalm (redact_lines lower lines)
unfolding redact_lines
lines-IsCalm lower keeps [] h = tt
lines-IsCalm lower keeps (x ∷ xs) h =
    and_then-IsCalm (redact_line lower x) _ (line-IsCalm lower keeps x h.0) (λ y ey.
      and_then-IsCalm (redact_lines lower xs) _ (lines-IsCalm lower keeps xs h.1) (λ ys eys. tt))

pem-IsCalm : (text : Bytes) → IsCalm (redact_pem (suc (length text)) text)
pem-IsCalm text =
    let pem = redact_pem-IsFree (suc (length text)) text (omega arith) in
    subst IsCalm (sym pem.1.0) tt

-- The redaction of a text in ASCII does not panic.
pub redact-IsCalm :
    (lower : Bytes → Bytes)
    → KeepsAscii lower
    → (text : Bytes) → IsAscii text
    → IsCalm (redact lower text)
unfolding redact
redact-IsCalm lower keeps [] h = tt
redact-IsCalm lower keeps (b ∷ s) h =
    and_then-IsCalm (redact_pem (suc (length (b ∷ s))) (b ∷ s)) _ (pem-IsCalm (b ∷ s)) (λ text e.
      and_then-IsCalm (redact_lines lower (split newline text)) _
        (lines-IsCalm lower keeps (split newline text)
          (split-IsAscii newline text (redact_pem-IsAscii (suc (length (b ∷ s))) (b ∷ s) text h e)))
        (λ lines e'. tt))
