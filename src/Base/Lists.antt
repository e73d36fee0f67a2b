-- ===== src/Base/Lists.antt =====
-- Lists measured by native numbers, under the library's names, and predicates over lists.
use Prim.Native.Nat.{ℕ, suc, ◌+◌, ◌≤◌}
use mathlib.Core.Path.{◌≡◌, refl}
use mathlib.Core.Logic.{◌↔◌, ◌⊎◌}
use mathlib.Core.Bool.{Bool, true, false, ◌&&◌, ◌||◌}
use mathlib.Core.List.{List, [], ◌∷◌, ◌++◌}
use native.Mathlib.Omega.{arith}

module _ {ℓ} {A : Type ℓ} where
  abbrev pub length : List A → ℕ
  length [] = 0
  length (x ∷ xs) = suc (length xs)

  abbrev pub any : (A → Bool) → List A → Bool
  any p [] = false
  any p (x ∷ xs) = p x || any p xs

  abbrev pub all : (A → Bool) → List A → Bool
  all p [] = true
  all p (x ∷ xs) = p x && all p xs

  -- The elements that pass a Boolean test, in order.
  abbrev pub keep : (A → Bool) → List A → List A
  keep p [] = []
  keep p (x ∷ xs) = let rest = keep p xs in elim (p x) [ true ↦ x ∷ rest | false ↦ rest ]

  pub length-append : (xs ys : List A) → length (xs ++ ys) ≡ length xs + length ys
  length-append [] ys = omega arith
  length-append (x ∷ xs) ys = omega (arith, length-append xs ys)

  pub length-keep : (p : A → Bool) (xs : List A) → length (keep p xs) ≤ length xs
  length-keep p [] = omega arith
  length-keep p (x ∷ xs) = ground (arith, length-keep p xs)

module _ {ℓ κ} {A : Type ℓ} where
  abbrev pub All : (A → Type κ) → List A → Type κ
  All P [] = Unit
  All P (x ∷ xs) = P x × All P xs

module _ {ℓ} {A : Type ℓ} where
  -- Some element has the property.
  abbrev pub Exists : (A → Type 0) → List A → Type 0
  Exists P [] = ⊥
  Exists P (x ∷ xs) = P x ⊎ Exists P xs

  -- A Boolean search finds exactly what its test describes.
  pub any-Exists :
      (f : A → Bool) (P : A → Type 0)
      → ((x : A) → (f x ≡ true) ↔ P x)
      → (xs : List A) → (any f xs ≡ true) ↔ Exists P xs
  any-Exists f P test [] = (λ h. cc, λ h. elim h [ ])
  any-Exists f P test (x ∷ xs) = ground (arith, test x, any-Exists f P test xs)

  pub any-append : (f : A → Bool) (xs ys : List A) → any f (xs ++ ys) ≡ (any f xs || any f ys)
  any-append f [] ys = refl
  any-append f (x ∷ xs) ys = ground (arith, any-append f xs ys)

  pub any-keep : (f t : A → Bool) (xs : List A) → any f (keep t xs) ≡ any (λ x. t x && f x) xs
  any-keep f t [] = refl
  any-keep f t (x ∷ xs) = ground (arith, any-keep f t xs)
