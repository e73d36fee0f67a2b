-- ===== src/Ai/Levels.antt =====
-- The classification of a request (internal/ai/ai.go).
use bsystem_integration_core.Base.{
  ℕ, ◌≤◌, ◌≡◌, refl, sym, arith, Bool, true, false, List, [], ◌∷◌, All, Exists, ltb, if◌then◌else◌,
  ◌⊎◌, inl, inr,
}
use bsystem_integration_core.Ai.{Fragment, class_order, classify_from, classify, class_public}
use Prim.Native.String.{String}

-- A level that no fragment is above.
abbrev pub IsAbove : List Fragment → String → Type 0
IsAbove fs level = All (λ f. class_order f.classification ≤ class_order level) fs

abbrev higher : Bool → Fragment → String → String
higher b f highest = if b then f.classification else highest

under : (a b c : ℕ) → ltb a b ≡ true → b ≤ c → a ≤ c
under a b c e h = ground (arith, e, h)

over : (a b c : ℕ) → ltb a b ≡ false → a ≤ c → b ≤ c
over a b c e h = ground (arith, e, h)

-- The level never falls, and comes to stand above every fragment.
classify_from-IsAbove :
    (highest : String) (fs : List Fragment)
    → (class_order highest ≤ class_order (classify_from highest fs))
      × IsAbove fs (classify_from highest fs)
unfolding classify_from
classify_from-IsAbove highest [] = (omega arith, tt)
classify_from-IsAbove highest (f ∷ fs) =
    step (ltb (class_order highest) (class_order f.classification)) refl (
      classify_from-IsAbove
        (higher (ltb (class_order highest) (class_order f.classification)) f highest) fs)
  where
    step :
        (b : Bool)
        → ltb (class_order highest) (class_order f.classification) ≡ b
        → (class_order (higher b f highest) ≤ class_order (classify_from (higher b f highest) fs))
          × IsAbove fs (classify_from (higher b f highest) fs)
        → (class_order highest ≤ class_order (classify_from (higher b f highest) fs))
          × ((class_order f.classification ≤ class_order (classify_from (higher b f highest) fs))
              × IsAbove fs (classify_from (higher b f highest) fs))
    step true e later = (
      under (class_order highest) (class_order f.classification)
          (class_order (classify_from (higher true f highest) fs)) e later.0,
      (later.0, later.1),
    )
    step false e later = (
      later.0,
      (
        over (class_order highest) (class_order f.classification)
            (class_order (classify_from (higher false f highest) fs)) e later.0,
        later.1,
      ),
    )

classify_from-among :
    (highest : String) (fs : List Fragment)
    → (classify_from highest fs ≡ highest)
      ⊎ Exists (λ f. f.classification ≡ classify_from highest fs) fs
unfolding classify_from
classify_from-among highest [] = inl refl
classify_from-among highest (f ∷ fs) =
    step (ltb (class_order highest) (class_order f.classification)) (
      classify_from-among
        (higher (ltb (class_order highest) (class_order f.classification)) f highest) fs)
  where
    step :
        (b : Bool)
        → (classify_from (higher b f highest) fs ≡ higher b f highest)
          ⊎ Exists (λ g. g.classification ≡ classify_from (higher b f highest) fs) fs
        → (classify_from (higher b f highest) fs ≡ highest)
          ⊎ ((f.classification ≡ classify_from (higher b f highest) fs)
              ⊎ Exists (λ g. g.classification ≡ classify_from (higher b f highest) fs) fs)
    step true (inl same) = inr (inl (sym same))
    step false (inl same) = inl same
    step b (inr later) = inr (inr later)

-- A request is classified as its most sensitive fragment: no fragment is above the level, and the level
-- is one of the fragments', or it is PUBLIC.
pub classify_is_highest :
    (fs : List Fragment)
    → IsAbove fs (classify fs)
      × ((classify fs ≡ class_public) ⊎ Exists (λ f. f.classification ≡ classify fs) fs)
classify_is_highest fs =
    ((classify_from-IsAbove class_public fs).1, classify_from-among class_public fs)
