-- ===== src/Base/Text.antt =====
-- Go's strings, as native texts, and what the program uses of the package strings.
--
-- A text is a list of Unicode scalar values, so a Go string that is not valid UTF-8 is not
-- represented. The lower case of a rune outside ASCII is a parameter (`unicode.ToLower`).
use Prim.Native.Char.{Char, code}
use Prim.Native.String.{String, char_at}
use text.Mathlib.Text.{◌==◌ as text_eq}
use text.Mathlib.TextEquality.{eq_iff}
use Prim.Native.Nat.{ℕ, ◌-◌}
use mathlib.Core.Path.{◌≡◌, refl, sym, subst}
use mathlib.Core.Logic.{◌↔◌, ◌⊎◌, inl, inr, ◌≢◌}
use mathlib.Core.Bool.{Bool, true, false, ◌&&◌, ◌||◌}
use mathlib.Core.List.{List, [], ◌∷◌}
use bsystem_integration_core.Base.Tests.{ltb, leb, ◌==◌, if◌then◌else◌, Bool-cases}

-- `a == b` on strings.
abbrev pub str_eq : String → String → Bool
str_eq = text_eq

pub str_eq_iff : (s t : String) → (str_eq s t ≡ true) ↔ (s ≡ t)
str_eq_iff = eq_iff

-- To split on whether two texts are equal.
pub str_eq-cases :
    (s t : String) → ((str_eq s t ≡ true) × (s ≡ t)) ⊎ ((str_eq s t ≡ false) × (s ≢ t))
str_eq-cases s t = elim (Bool-cases (str_eq s t)) [
  | inl same ↦ inl (same, (eq_iff s t).0 same)
  | inr other ↦ inr (other, λ e. false_true ((eq_iff s t).1 e) other)
]
  where
    false_true : {b : Bool} → b ≡ true → b ≡ false → ⊥
    false_true p q = cc

-- `s + t` on strings.
unfoldable pub append : String → String → String
append String.[] t = t
append (String.◌∷◌ c s) t = String.◌∷◌ c (append s t)

abbrev pub is_empty : String → Bool
is_empty String.[] = true
is_empty (String.◌∷◌ c s) = false

-- A statement about a text holds if it holds of k, and of any text that is not k.
pub pick {ℓ} :
    (P : String → Type ℓ) (k name : String) → P k → (str_eq name k ≡ false → P name) → P name
pick P k name same other = elim (str_eq-cases name k) [
  | inl (_, e) ↦ subst P (sym e) same
  | inr (ne, _) ↦ other ne
]

-- `unicode.IsSpace`
abbrev is_space_code : ℕ → Bool
is_space_code n =
    (leb 9 n && leb n 13)
    || n == 32
    || n == 0x85
    || n == 0xa0
    || n == 0x1680
    || (leb 0x2000 n && leb n 0x200a)
    || n == 0x2028
    || n == 0x2029
    || n == 0x202f
    || n == 0x205f
    || n == 0x3000

unfoldable pub is_space : Char → Bool
is_space c = is_space_code (code c)

unfoldable pub trim_left : String → String
unfolding is_space
trim_left String.[] = String.[]
trim_left (String.◌∷◌ c s) = if is_space c then trim_left s else String.◌∷◌ c s

unfoldable pub trim_right : String → String
unfolding is_space
trim_right String.[] = String.[]
trim_right (String.◌∷◌ c s) =
    let rest = trim_right s in if is_space c && is_empty rest then String.[] else String.◌∷◌ c rest

-- `strings.TrimSpace`
unfoldable pub trim_space : String → String
unfolding trim_left trim_right
trim_space s = trim_right (trim_left s)

pub lower_char : (Char → Char) → Char → Char
lower_char lower c =
    if leb 128 (code c)
    then lower c
    else if leb 65 (code c) && leb (code c) 90
    then char_at "abcdefghijklmnopqrstuvwxyz" (code c - 65)
    else c

-- `strings.ToLower`
unfoldable pub to_lower : (Char → Char) → String → String
unfolding lower_char
to_lower lower String.[] = String.[]
to_lower lower (String.◌∷◌ c s) = String.◌∷◌ (lower_char lower c) (to_lower lower s)

-- `strings.HasPrefix`
unfoldable pub has_prefix : String → String → Bool
has_prefix s String.[] = true
has_prefix String.[] (String.◌∷◌ c p) = false
has_prefix (String.◌∷◌ d s) (String.◌∷◌ c p) = let rest = has_prefix s p in code d == code c && rest

-- `<` on strings, which compares bytes; UTF-8 keeps the order of the code points.
unfoldable pub text_before : String → String → Bool
text_before s String.[] = false
text_before String.[] (String.◌∷◌ c t) = true
text_before (String.◌∷◌ a s) (String.◌∷◌ b t) =
    let rest = text_before s t in ltb (code a) (code b) || (code a == code b && rest)

-- Whether a list holds a text.
abbrev pub contains : List String → String → Bool
contains [] s = false
contains (t ∷ ts) s = str_eq t s || contains ts s

trimmed_lower : to_lower (λ c. c) (trim_space " \tBackup.Failed ") ≡ "backup.failed"
unfolding to_lower trim_space
trimmed_lower = refl
