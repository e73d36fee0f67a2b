-- ===== src/Ai/Redaction/Clean.antt =====
-- What a redacted text is free of (internal/ai/ai.go).
use bsystem_integration_core.Base.{
  ℕ, suc, ◌+◌, ◌≡◌, refl, arith, Bool, true, false, not, ◌&&◌, Option, none, some, List, [], ◌∷◌,
  ◌++◌, length, subst, sym, if◌then◌else◌, map, All, all, ==_iff, any, ◌==◌, inl, inr, Bool-cases,
}
use bsystem_integration_core.Base.Bytes.{
  Bytes, take, drop, has_prefix, index, split, IsFree, trim, trim_left, take-drop,
}
use bsystem_integration_core.Base.Bytes.Patterns.{
  IsFree-left, IsFree-right, IsFree-around, All-join, All-split,
}
use bsystem_integration_core.Ai.Redaction.{
  Run, returned, panicked, unfinished, and_then, marker, begin_key, redact_pem, redact_word,
  replace_at, is_secret, is_punctuation, redact_secret_looking_words, space, newline, of_value,
  of_key, redact_keyed_value, starts, is_separator, slice_from, is_blank, is_bare, is_nil, or_words,
  redact_line, redact_lines, redact, credential_keys,
}
use bsystem_integration_core.Ai.Redaction.Pem.{redact_pem-IsFree}

abbrev pub IsClean : Bytes → Type 0
IsClean = IsFree begin_key

IsClean-take : (n : ℕ) (s : Bytes) → IsClean s → IsClean (take n s)
unfolding begin_key
IsClean-take n s free =
    IsFree-left 45 (drop 1 begin_key) (take n s) (drop n s)
      (subst IsClean (sym (take-drop n s)) free)

IsClean-drop : (n : ℕ) (s : Bytes) → IsClean s → IsClean (drop n s)
unfolding begin_key
IsClean-drop n s free =
    IsFree-right 45 (drop 1 begin_key) (take n s) (drop n s)
      (subst IsClean (sym (take-drop n s)) free)

-- The marker keeps what stands around it apart.
around_marker : (s t : Bytes) → IsClean s → IsClean t → IsClean (s ++ (marker ++ t))
unfolding begin_key marker index has_prefix
around_marker s t before after =
    IsFree-around 45 (drop 1 begin_key) 91 refl s (drop 1 marker ++ t) before (
      IsFree-around 45 (drop 1 begin_key) 93 refl (82 ∷ 69 ∷ 68 ∷ 65 ∷ 67 ∷ 84 ∷ 69 ∷ 68 ∷ []) t
        refl after)

redact_word-IsClean : (field : Bytes) → IsClean field → IsClean (redact_word field)
unfolding redact_word
redact_word-IsClean field free = chosen (is_secret field) (index field (trim is_punctuation field))
  where
    replaced : (o : Option ℕ) → IsClean (replace_at field (trim is_punctuation field) o)
    replaced none = free
    replaced (some i) =
        around_marker (take i field) (drop (i + length (trim is_punctuation field)) field)
          (IsClean-take i field free)
          (IsClean-drop (i + length (trim is_punctuation field)) field free)

    chosen :
        (b : Bool) (o : Option ℕ)
        → IsClean (if b then replace_at field (trim is_punctuation field) o else field)
    chosen true o = replaced o
    chosen false o = free

All-redacted : (fields : List Bytes) → All IsClean fields → All IsClean (map redact_word fields)
All-redacted [] h = tt
All-redacted (x ∷ xs) h = (redact_word-IsClean x h.0, All-redacted xs h.1)

words-IsClean : (line : Bytes) → IsClean line → IsClean (redact_secret_looking_words line)
unfolding redact_secret_looking_words begin_key
words-IsClean line free = elim (Bool-cases (any is_secret (split space line))) [
  | inl e ↦ rw e (
      All-join 45 (drop 1 begin_key) space refl (map redact_word (split space line))
        (All-redacted (split space line) (All-split 45 (drop 1 begin_key) space line free)))
  | inr e ↦ rw e free
]

-- A computation comes to an end: it panics, or what it returns has the property.
abbrev pub Gives {ℓ} : {A : Type ℓ} → (A → Type 0) → Run A → Type 0
Gives P (returned a) = P a
Gives P panicked = Unit
Gives P unfinished = ⊥

pub and_then-Gives {ℓ κ} :
    {A : Type ℓ} {B : Type κ} (P : A → Type 0) (Q : B → Type 0) (r : Run A) (f : A → Run B)
    → Gives P r
    → ((a : A) → P a → Gives Q (f a))
    → Gives Q (and_then r f)
and_then-Gives P Q (returned a) f h each = each a h
and_then-Gives P Q panicked f h each = tt
and_then-Gives P Q unfinished f h each = absurd h

abbrev MaybeClean : Option Bytes → Type 0
MaybeClean none = Unit
MaybeClean (some s) = IsClean s

separator_outside : (b : ℕ) → is_separator b ≡ true → all (λ c. not (c == b)) begin_key ≡ true
unfolding begin_key
separator_outside b h = elim (Bool-cases (b == 58)) [
  | inl e ↦ subst (λ x. all (λ c. not (c == x)) begin_key ≡ true) (sym ((==_iff b 58).0 e)) refl
  | inr e ↦
      let other : (b == 61) ≡ true = ground (arith, h, e) in
      subst (λ x. all (λ c. not (c == x)) begin_key ≡ true) (sym ((==_iff b 61).0 other)) refl
]

-- A marker set off by a blank after what stands before it.
spaced-IsClean : (s : Bytes) → IsClean s → IsClean (s ++ space ∷ marker)
unfolding begin_key marker index has_prefix
spaced-IsClean s free = IsFree-around 45 (drop 1 begin_key) space refl s marker free refl

-- A separator and the marker after what stands before them.
separated-IsClean :
    (s trimmed : Bytes)
    → IsClean s
    → starts is_separator trimmed ≡ true
    → IsClean (s ++ (take 1 trimmed ++ space ∷ marker))
unfolding begin_key marker index has_prefix
separated-IsClean s [] free h = cc
separated-IsClean s (b ∷ rest) free h =
    IsFree-around 45 (drop 1 begin_key) b (separator_outside b h) s (space ∷ marker) free refl

keyed-IsClean :
    (line lowered : Bytes) (keys : List Bytes)
    → IsClean line
    → Gives MaybeClean (redact_keyed_value line lowered keys)
unfolding redact_keyed_value
keyed-IsClean line lowered [] free = tt
keyed-IsClean line lowered (key ∷ keys) free =
    at_key (redact_keyed_value line lowered keys) (keyed-IsClean line lowered keys free)
      (index lowered key)
  where
    at_value :
        (rest : Run (Option Bytes))
        → Gives MaybeClean rest
        → (n : ℕ) (o : Option Bytes) → Gives MaybeClean (of_value line key rest n o)
    at_value rest h n none = tt
    at_value rest h n (some value) =
        branch (starts is_separator (trim_left is_blank value)) refl
          (is_bare key && starts is_blank value && not (is_nil (trim_left is_blank value)))
      where
        branch :
            (a : Bool)
            → starts is_separator (trim_left is_blank value) ≡ a
            → (b : Bool)
            → Gives MaybeClean (
                if a
                then returned
                    (some (take n line ++ (take 1 (trim_left is_blank value) ++ space ∷ marker)))
                else if b
                then returned (some (take n line ++ space ∷ marker))
                else rest)
        branch true e b =
            separated-IsClean (take n line) (trim_left is_blank value) (IsClean-take n line free) e
        branch false e true = spaced-IsClean (take n line) (IsClean-take n line free)
        branch false e false = h

    at_key :
        (rest : Run (Option Bytes))
        → Gives MaybeClean rest
        → (o : Option ℕ) → Gives MaybeClean (of_key line key rest o)
    at_key rest h none = h
    at_key rest h (some i) = at_value rest h (i + length key) (slice_from (i + length key) line)

line-IsClean :
    (lower : Bytes → Bytes) (line : Bytes) → IsClean line → Gives IsClean (redact_line lower line)
unfolding redact_line
line-IsClean lower line free =
    and_then-Gives MaybeClean IsClean (redact_keyed_value line (lower line) credential_keys)
      (λ found. returned (or_words line found))
      (keyed-IsClean line (lower line) credential_keys free) words
  where
    words : (o : Option Bytes) → MaybeClean o → IsClean (or_words line o)
    words none h = words-IsClean line free
    words (some out) h = h

lines-IsClean :
    (lower : Bytes → Bytes) (lines : List Bytes)
    → All IsClean lines
    → Gives (All IsClean) (redact_lines lower lines)
unfolding redact_lines
lines-IsClean lower [] free = tt
lines-IsClean lower (x ∷ xs) free =
    and_then-Gives IsClean (All IsClean) (redact_line lower x) _ (line-IsClean lower x free.0)
      (λ y hy.
        and_then-Gives (All IsClean) (All IsClean) (redact_lines lower xs) _
          (lines-IsClean lower xs free.1) (λ ys hys. (hy, hys)))

-- The redaction of any text comes to an end: a slice panics, or no private key block begins in what it
-- returns.
pub redact-IsClean : (lower : Bytes → Bytes) (text : Bytes) → Gives IsClean (redact lower text)
unfolding redact begin_key index has_prefix
redact-IsClean lower [] = refl
redact-IsClean lower (b ∷ s) =
    let pem = redact_pem-IsFree (suc (length (b ∷ s))) (b ∷ s) (omega arith) in
    and_then-Gives IsClean IsClean (redact_pem (suc (length (b ∷ s))) (b ∷ s)) _
      (subst (Gives IsClean) (sym pem.1.0) pem.1.1)
      (λ text free.
        and_then-Gives (All IsClean) IsClean (redact_lines lower (split newline text)) _
          (lines-IsClean lower (split newline text)
            (All-split 45 (drop 1 begin_key) newline text free))
          (λ lines clean. All-join 45 (drop 1 begin_key) newline refl lines clean))
