-- ===== src/Base/Decimal.antt =====
-- Decimal numerals: `strconv.Itoa` of a number that is not negative, the digits that `strconv.Atoi`
-- reads, and the verb %06d of `fmt`.
use Prim.Native.Char.{Char, code}
use Prim.Native.String.{String, char_at}
use Prim.Native.Nat.{ℕ, zero, suc, ◌+◌, ◌-◌, ◌*◌, ◌/◌, ◌%◌, ◌<◌}
use mathlib.Core.Path.{◌≡◌, refl, ◌∙◌, ap}
use mathlib.Core.Logic.{inl, inr}
use mathlib.Core.Bool.{Bool, ◌&&◌}
use mathlib.Core.Option.{Option, none, some}
use native.Mathlib.Omega.{arith}
use bsystem_integration_core.Base.Tests.{leb, ltb, if◌then◌else◌, Bool-cases}

pub digit : ℕ → Char
digit d = char_at "0123456789" d

unfoldable pub is_digit : Char → Bool
is_digit c = leb 48 (code c) && leb (code c) 57

pub code-digit : (d : ℕ) → d < 10 → code (digit d) ≡ 48 + d
unfolding digit
code-digit zero h = refl
code-digit (suc zero) h = refl
code-digit (suc (suc zero)) h = refl
code-digit (suc (suc (suc zero))) h = refl
code-digit (suc (suc (suc (suc zero)))) h = refl
code-digit (suc (suc (suc (suc (suc zero))))) h = refl
code-digit (suc (suc (suc (suc (suc (suc zero)))))) h = refl
code-digit (suc (suc (suc (suc (suc (suc (suc zero))))))) h = refl
code-digit (suc (suc (suc (suc (suc (suc (suc (suc zero)))))))) h = refl
code-digit (suc (suc (suc (suc (suc (suc (suc (suc (suc zero))))))))) h = refl
code-digit (suc (suc (suc (suc (suc (suc (suc (suc (suc (suc d)))))))))) h =
    absurd (omega (arith, h))

-- The digits of a number before a text; fuel above the number is enough.
unfoldable pub digits_before : ℕ → ℕ → String → String
unfolding digit
digits_before zero n rest = rest
digits_before (suc fuel) n rest =
    let more = digits_before fuel (n / 10) (String.◌∷◌ (digit (n % 10)) rest) in
    if ltb n 10 then String.◌∷◌ (digit n) rest else more

-- `strconv.Itoa`
unfoldable pub itoa : ℕ → String
unfolding digits_before
itoa n = digits_before (suc n) n ""

-- The number that is read so far, and the digits to come.
unfoldable pub read_digits : ℕ → String → Option ℕ
unfolding is_digit
read_digits n String.[] = some n
read_digits n (String.◌∷◌ c s) =
    let rest = read_digits (n * 10 + (code c - 48)) s in if is_digit c then rest else none

read_digits-digit :
    (n d : ℕ) (rest : String)
    → d < 10
    → read_digits n (String.◌∷◌ (digit d) rest) ≡ read_digits (n * 10 + d) rest
unfolding read_digits
read_digits-digit n d rest h = ground (arith, code-digit d h)

-- What is written is read back, and reading goes on with the text after it.
pub read_digits-before :
    (fuel n : ℕ) (rest : String)
    → n < fuel
    → read_digits 0 (digits_before fuel n rest) ≡ read_digits n rest
unfolding digits_before
read_digits-before zero n rest h = absurd (omega (arith, h))
read_digits-before (suc fuel) n rest h = elim (Bool-cases (ltb n 10)) [
  | inl one ↦
      rw (one, digits_before)
        (read_digits-digit 0 n rest (ground (arith, one))
          ∙ ap (λ k. read_digits k rest) (omega arith))
  | inr many ↦
      rw (many, digits_before)
        (read_digits-before fuel (n / 10) (String.◌∷◌ (digit (n % 10)) rest)
            (ground (arith, h, many))
          ∙ read_digits-digit (n / 10) (n % 10) rest (omega arith)
          ∙ ap (λ k. read_digits k rest) (omega arith))
]

pub read_digits-itoa : (n : ℕ) → read_digits 0 (itoa n) ≡ some n
unfolding itoa read_digits
read_digits-itoa n = read_digits-before (suc n) n "" (omega arith)
