-- ===== src/Base/Bytes.antt =====
-- Texts as their bytes, and what the program uses of the package strings on them.
pub mod Patterns
use Prim.Native.Char.{Char, code}
use Prim.Native.String.{String}
use Prim.Native.Nat.{ℕ, zero, suc, ◌+◌, ◌*◌, ◌/◌, ◌%◌, ◌≤◌}
use mathlib.Core.Path.{◌≡◌, refl, ap, subst, sym}
use mathlib.Core.Bool.{Bool, true, false, ◌&&◌}
use mathlib.Core.Option.{Option, none, some}
use mathlib.Core.List.{List, [], ◌∷◌, ◌++◌}
use native.Mathlib.Omega.{arith}
use bsystem_integration_core.Base.Tests.{ltb, ◌==◌, if◌then◌else◌, Bool-cases}
use bsystem_integration_core.Base.Lists.{length}

abbrev pub Bytes : Type 0
Bytes = List ℕ

-- The encoding of a rune in UTF-8.
abbrev utf8_code : ℕ → Bytes
utf8_code n =
    if ltb n 0x80
    then n ∷ []
    else if ltb n 0x800
    then (192 + n / 64) ∷ (128 + n % 64) ∷ []
    else if ltb n 0x10000
    then (224 + n / 4096) ∷ (128 + n / 64 % 64) ∷ (128 + n % 64) ∷ []
    else (240 + n / 262144) ∷ (128 + n / 4096 % 64) ∷ (128 + n / 64 % 64) ∷ (128 + n % 64) ∷ []

-- The bytes of a text.
unfoldable pub utf8 : String → Bytes
utf8 String.[] = []
utf8 (String.◌∷◌ c s) = utf8_code (code c) ++ utf8 s

-- `s[:n]` and `s[n:]`, for n within the text.
abbrev pub take : ℕ → Bytes → Bytes
take zero s = []
take (suc n) [] = []
take (suc n) (b ∷ s) = b ∷ take n s

abbrev pub drop : ℕ → Bytes → Bytes
drop zero s = s
drop (suc n) [] = []
drop (suc n) (b ∷ s) = drop n s

-- `strings.HasPrefix`
unfoldable pub has_prefix : Bytes → Bytes → Bool
has_prefix s [] = true
has_prefix [] (c ∷ p) = false
has_prefix (b ∷ s) (c ∷ p) = let rest = has_prefix s p in b == c && rest

abbrev pub next : Option ℕ → Option ℕ
next none = none
next (some i) = some (suc i)

-- `strings.Index`
unfoldable pub index : Bytes → Bytes → Option ℕ
unfolding has_prefix
index [] p = if has_prefix [] p then some 0 else none
index (b ∷ s) p = let rest = index s p in if has_prefix (b ∷ s) p then some 0 else next rest

abbrev pub onto_first : ℕ → List Bytes → List Bytes
onto_first b [] = (b ∷ []) ∷ []
onto_first b (x ∷ xs) = (b ∷ x) ∷ xs

-- `strings.Split` and `strings.Join`, at one byte.
unfoldable pub split : ℕ → Bytes → List Bytes
split c [] = [] ∷ []
split c (b ∷ s) = let rest = split c s in if b == c then [] ∷ rest else onto_first b rest

unfoldable pub join : ℕ → List Bytes → Bytes
join c [] = []
join c (x ∷ []) = x
join c (x ∷ y ∷ xs) = x ++ c ∷ join c (y ∷ xs)

-- `strings.TrimLeft` and `strings.Trim`, of the bytes that pass a test.
unfoldable pub trim_left : (ℕ → Bool) → Bytes → Bytes
trim_left p [] = []
trim_left p (b ∷ s) = let rest = trim_left p s in if p b then rest else b ∷ s

abbrev keep_nonempty : ℕ → Bool → Bytes → Bytes
keep_nonempty b true [] = []
keep_nonempty b true (c ∷ s) = b ∷ c ∷ s
keep_nonempty b false s = b ∷ s

unfoldable pub trim_right : (ℕ → Bool) → Bytes → Bytes
trim_right p [] = []
trim_right p (b ∷ s) = keep_nonempty b (p b) (trim_right p s)

unfoldable pub trim : (ℕ → Bool) → Bytes → Bytes
unfolding trim_left trim_right
trim p s = trim_right p (trim_left p s)

pub take-drop : (n : ℕ) (s : Bytes) → take n s ++ drop n s ≡ s
take-drop zero s = refl
take-drop (suc n) [] = refl
take-drop (suc n) (b ∷ s) = ap (λ t. b ∷ t) (take-drop n s)

abbrev pub IsFree : Bytes → Bytes → Type 0
IsFree p s = index s p ≡ none
