-- ===== src/Pages/Walks.antt =====
-- A client that follows the cursors of a collection (internal/adapters/page.go).
use bsystem_integration_core.Base.{
  ℕ, zero, suc, ◌+◌, ◌-◌, ◌≤◌, ◌<◌, ◌≡◌, refl, ap, ◌⊎◌, inl, inr, arith, ltb, Option, none, some,
  List, [], ◌∷◌, if◌then◌else◌,
}
use bsystem_integration_core.Base.Int.{ℤ, pos, pos_part, max_int64}
use bsystem_integration_core.Base.Text.{is_empty, trim_space, trim_left}
use bsystem_integration_core.Pages.{
  Base64, encode_cursor, decode_cursor, clamp_limit, resolve_page, new_page_info, add_int,
}
use bsystem_integration_core.Pages.Cursors.{IsFaithful, decode-encode, encode_there}
use Prim.Native.String.{String}

-- How many of `total` records an upstream gives from an offset on.
abbrev pub window : ℕ → ℕ → ℕ → ℕ
window total offset limit = if ltb (total - offset) limit then total - offset else limit

abbrev extended : ℕ × ℕ → Option (List (ℕ × ℕ)) → Option (List (ℕ × ℕ))
extended w none = none
extended w (some ws) = some (w ∷ ws)

abbrev continued : ℕ × ℕ → String → (String → Option (List (ℕ × ℕ))) → Option (List (ℕ × ℕ))
continued w next ask = if is_empty next then some (w ∷ []) else extended w (ask next)

abbrev answered :
    Base64 → ℕ → (String → Option (List (ℕ × ℕ))) → Option (ℤ × ℤ) → Option (List (ℕ × ℕ))
answered b total ask none = none
answered b total ask (some (offset, size)) =
    let returned = window total (pos_part offset) (pos_part size) in
    continued (pos_part offset, returned)
      (new_page_info b (pos total) (pos_part offset) returned).next_cursor ask

-- The windows that a client is given which asks with the same limit for the cursor of each answer;
-- `none` where a cursor is refused, or where the fuel is used up.
unfoldable pub walk : Base64 → ℕ → ℤ → ℤ → ℤ → ℕ → String → Option (List (ℕ × ℕ))
unfolding resolve_page new_page_info
walk b total limit fallback greatest zero cursor = none
walk b total limit fallback greatest (suc fuel) cursor =
    answered b total (λ next. walk b total limit fallback greatest fuel next)
      (resolve_page b (record { limit = limit; cursor = cursor }) fallback greatest)

-- Each window begins where the one before it ends, and is within the limit; the last ends the collection.
pub AreWhole : ℕ → ℕ → ℕ → List (ℕ × ℕ) → Type 0
AreWhole size offset total [] = offset ≡ total
AreWhole size offset total ((begins, returned) ∷ ws) =
    (begins ≡ offset) × (returned ≤ size) × AreWhole size (offset + returned) total ws

add_int_lem : (a b : ℕ) → a + b ≤ max_int64 → add_int a b ≡ pos (a + b)
add_int_lem a b h = ground (arith, h)

module _ (b : Base64) (good : IsFaithful b) (total k : ℕ) (limit fallback greatest : ℤ)
    (fits : total ≤ max_int64) (size : clamp_limit limit fallback greatest ≡ pos (suc k)) where
  next_none : (o r : ℕ) → o + r ≡ total → (new_page_info b (pos total) o r).next_cursor ≡ ""
  unfolding new_page_info
  next_none o r e = rw (add_int_lem o r (omega (arith, e, fits))) (ground (arith, e))

  next_some :
      (o r : ℕ)
      → 0 < r
      → o + r < total
      → (new_page_info b (pos total) o r).next_cursor ≡ encode_cursor b (pos (o + r))
  unfolding new_page_info
  next_some o r some_left less =
      rw (add_int_lem o r (omega (arith, less, fits))) (ground (arith, some_left, less))

  window-cases :
      (o : ℕ)
      → o ≤ total
      → (window total o (suc k) ≤ suc k)
        × ((o + window total o (suc k) ≡ total)
            ⊎ ((0 < window total o (suc k)) × (o + window total o (suc k) < total)))
  window-cases o within = ground (arith, within)

  abbrev Reached : ℕ → ℕ → String → Type 0
  Reached fuel offset cursor =
      (ws : List (ℕ × ℕ)) × ((walk b total limit fallback greatest fuel cursor ≡ some ws)
        × AreWhole (suc k) offset total ws)

  walk_from :
      (fuel offset : ℕ) (cursor : String)
      → decode_cursor b cursor ≡ some (pos offset)
      → offset ≤ total
      → total - offset < fuel
      → Reached fuel offset cursor
  unfolding walk resolve_page AreWhole
  walk_from zero offset cursor found within enough = absurd (omega (arith, enough))
  walk_from (suc fuel) offset cursor found within enough =
      step (walk_from fuel) (window total offset (suc k)) refl (window-cases offset within)
    where
      joined :
          (r : ℕ)
          → window total offset (suc k) ≡ r
          → 0 < r
          → offset + r < total
          → (ws : List (ℕ × ℕ))
          → walk b total limit fallback greatest fuel (encode_cursor b (pos (offset + r))) ≡ some ws
          → walk b total limit fallback greatest (suc fuel) cursor ≡ some ((offset, r) ∷ ws)
      joined r is left less ws e =
          rw
            (
              found,
              size,
              is,
              next_some offset r left less,
              encode_there b (offset + r) good (omega (arith, left)),
            )
            (ap (extended (offset, r)) e)

      step :
          ((o : ℕ) (c : String)
            → decode_cursor b c ≡ some (pos o)
            → o ≤ total
            → total - o < fuel
            → Reached fuel o c)
          → (r : ℕ) → window total offset (suc k) ≡ r
          → (r ≤ suc k) × ((offset + r ≡ total) ⊎ ((0 < r) × (offset + r < total)))
          → Reached (suc fuel) offset cursor
      step go r is (small, inl ends) = (
        (offset, r) ∷ [],
        (rw (found, size, is, next_none offset r ends) refl, (refl, small, ends)),
      )
      step go r is (small, inr (left, less)) =
          let next = encode_cursor b (pos (offset + r)) in
          let later =
            go (offset + r) next
              (decode-encode b (offset + r) good (omega (arith, left)) (omega (arith, less, fits)))
              (omega (arith, less)) (omega (arith, less, left, enough)) in
          (
            (offset, r) ∷ later.0,
            (joined r is left less later.0 later.1.0, (refl, small, later.1.1)),
          )

  -- A client that begins without a cursor and follows the cursor of each answer comes to an end, after
  -- at most as many answers as there are records and one; the windows lie one after the other, each
  -- within the limit, and together are the whole collection, each record in exactly one. The collection
  -- stays as it is and is no longer than an `int64` counts, the limit that results is positive, and
  -- base64 gives back what it was given.
  pub walk-AreWhole :
      (ws : List (ℕ × ℕ)) × ((walk b total limit fallback greatest (suc total) "" ≡ some ws)
        × AreWhole (suc k) 0 total ws)
  unfolding decode_cursor trim_space trim_left
  walk-AreWhole = walk_from (suc total) 0 "" refl (omega arith) (omega arith)
