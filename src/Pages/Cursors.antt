-- ===== src/Pages/Cursors.antt =====
-- A cursor names the offset that it was made of (internal/adapters/page.go).
use bsystem_integration_core.Base.{
  ℕ, zero, suc, ◌/◌, ◌%◌, ◌≤◌, ◌<◌, ◌≡◌, refl, ◌∙◌, sym, ap, subst, inl, inr, arith, Bool, true,
  false, ◌&&◌, not, Bool-cases, ltb, some,
}
use bsystem_integration_core.Base.Int.{pos, max_int64}
use bsystem_integration_core.Base.Text.{
  is_empty, append, is_space, trim_left, trim_right, trim_space,
}
use bsystem_integration_core.Base.Decimal.{
  digit, is_digit, code-digit, digits_before, itoa, read_digits, read_digits-itoa,
}
use bsystem_integration_core.Pages.{
  Base64, encode_cursor, itoa_ℤ, atoi, positive, cut_prefix, not_negative, decode_cursor,
}
use Prim.Native.String.{String}

pub is_spaceless : String → Bool
is_spaceless String.[] = true
is_spaceless (String.◌∷◌ c s) = not (is_space c) && is_spaceless s

-- What `base64` does, of texts without a space: what is encoded is decoded, and an encoded text has
-- no space and is empty only for the empty text.
pub record IsFaithful (b : Base64) : Type 0 where
  pub decodes : (s : String) → is_spaceless s ≡ true → b.decode (b.encode s) ≡ some s
  pub spaceless : (s : String) → is_spaceless s ≡ true → is_spaceless (b.encode s) ≡ true
  pub kept : (s : String) → is_empty s ≡ false → is_empty (b.encode s) ≡ false

trim_right_lem : (s : String) → is_spaceless s ≡ true → trim_right s ≡ s
unfolding is_spaceless trim_right
trim_right_lem String.[] h = refl
trim_right_lem (String.◌∷◌ c s) h = elim (Bool-cases (is_space c)) [
  | inl space ↦ absurd (ground (arith, h, space))
  | inr solid ↦ rw solid (ap (λ t. String.◌∷◌ c t) (trim_right_lem s (rw solid at h)))
]

pub trim_space_lem : (s : String) → is_spaceless s ≡ true → trim_space s ≡ s
unfolding trim_space trim_left is_spaceless
trim_space_lem String.[] h = trim_right_lem "" h
trim_space_lem (String.◌∷◌ c s) h = elim (Bool-cases (is_space c)) [
  | inl space ↦ absurd (ground (arith, h, space))
  | inr solid ↦ rw solid (trim_right_lem (String.◌∷◌ c s) h)
]

digit_solid : (d : ℕ) → d < 10 → is_space (digit d) ≡ false
unfolding is_space
digit_solid d h = ground (arith, code-digit d h, h)

digits_spaceless :
    (fuel n : ℕ) (rest : String)
    → is_spaceless rest ≡ true
    → is_spaceless (digits_before fuel n rest) ≡ true
unfolding digits_before is_spaceless
digits_spaceless zero n rest h = h
digits_spaceless (suc fuel) n rest h = elim (Bool-cases (ltb n 10)) [
  | inl one ↦ rw (one, digit_solid n (ground (arith, one))) h
  | inr many ↦ rw many (
      digits_spaceless fuel (n / 10) (String.◌∷◌ (digit (n % 10)) rest)
        (rw (digit_solid (n % 10) (omega arith)) h))
]

digits_there :
    (fuel n : ℕ) (rest : String)
    → is_empty rest ≡ false
    → is_empty (digits_before fuel n rest) ≡ false
unfolding digits_before
digits_there zero n rest h = h
digits_there (suc fuel) n rest h = elim (Bool-cases (ltb n 10)) [
  | inl one ↦ rw one refl
  | inr many ↦ rw many (digits_there fuel (n / 10) (String.◌∷◌ (digit (n % 10)) rest) refl)
]

itoa_there : (n : ℕ) → is_empty (itoa n) ≡ false
unfolding itoa digits_before
itoa_there n = elim (Bool-cases (ltb n 10)) [
  | inl one ↦ rw one refl
  | inr many ↦ rw many (digits_there n (n / 10) (String.◌∷◌ (digit (n % 10)) "") refl)
]

-- The number written is read back: its first character is a digit, so no sign.
itoa_read : (n : ℕ) → n ≤ max_int64 → atoi (itoa n) ≡ some (pos n)
unfolding atoi is_digit read_digits
itoa_read n h = read (itoa n) (itoa_there n) (read_digits-itoa n)
  where
    small : positive (some n) ≡ some (pos n)
    small = ground (arith, h)

    read : (s : String) → is_empty s ≡ false → read_digits 0 s ≡ some n → atoi s ≡ some (pos n)
    read String.[] there e = cc
    read (String.◌∷◌ c s) there e = elim (Bool-cases (is_digit c)) [
      | inl plain ↦
          let whole : atoi (String.◌∷◌ c s) ≡ positive (read_digits 0 (String.◌∷◌ c s)) =
            ground (arith, plain) in
          whole ∙ ap positive e ∙ small
      | inr other ↦ absurd (ground (arith, e, other))
    ]

cursor_text-spaceless : (n : ℕ) → is_spaceless (append "o:" (itoa n)) ≡ true
unfolding is_spaceless is_space append itoa
cursor_text-spaceless n = digits_spaceless (suc n) n "" refl

encode_cursor_lem :
    (b : Base64) (n : ℕ) → 0 < n → encode_cursor b (pos n) ≡ b.encode (append "o:" (itoa n))
unfolding encode_cursor itoa_ℤ
encode_cursor_lem b n left = ground (arith, left)

-- The cursor of an offset names that offset again, of any offset from 1 to the greatest `int64`, where
-- base64 gives back what it was given.
pub decode-encode :
    (b : Base64) (offset : ℕ)
    → IsFaithful b
    → 0 < offset
    → offset ≤ max_int64
    → decode_cursor b (encode_cursor b (pos offset)) ≡ some (pos offset)
unfolding decode_cursor append
decode-encode b offset good left h =
    subst (λ c. decode_cursor b c ≡ some (pos offset)) (sym (encode_cursor_lem b offset left))
      (read_back (append "o:" (itoa offset)) (cursor_text-spaceless offset) refl refl)
  where
    read_back :
        (text : String)
        → is_spaceless text ≡ true
        → is_empty text ≡ false
        → cut_prefix text ≡ some (itoa offset)
        → decode_cursor b (b.encode text) ≡ some (pos offset)
    read_back text solid there cut =
        let trimmed = trim_space_lem (b.encode text) (good.spaceless text solid) in
        let natural : not_negative (some (pos offset)) ≡ some (pos offset) = ground arith in
        rw (trimmed, good.kept text there, good.decodes text solid, cut, itoa_read offset h) natural

pub encode_there :
    (b : Base64) (offset : ℕ)
    → IsFaithful b
    → 0 < offset
    → is_empty (encode_cursor b (pos offset)) ≡ false
unfolding append
encode_there b offset good left =
    subst (λ c. is_empty c ≡ false) (sym (encode_cursor_lem b offset left))
      (good.kept (append "o:" (itoa offset)) refl)
