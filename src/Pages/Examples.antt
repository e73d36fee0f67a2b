-- ===== src/Pages/Examples.antt =====
-- Cursors and walks at concrete inputs, and the theorems applied to them.
use bsystem_integration_core.Base.{ℕ, ◌≡◌, refl, arith, none, some, List, [], ◌∷◌}
use bsystem_integration_core.Base.Int.{pos}
use bsystem_integration_core.Base.Text.{trim_space}
use bsystem_integration_core.Base.Decimal.{itoa, read_digits}
use bsystem_integration_core.Pages.{Base64, atoi, encode_cursor, decode_cursor, clamp_limit}
use bsystem_integration_core.Pages.Cursors.{IsFaithful, decode-encode}
use bsystem_integration_core.Pages.Walks.{walk, AreWhole, walk-AreWhole}

-- A code that leaves a text as it is.
abbrev plain : Base64
plain = record { encode = λ s. s; decode = λ s. some s }

plain-IsFaithful : IsFaithful plain
plain-IsFaithful = record { decodes = λ s h. refl; spaceless = λ s h. h; kept = λ s h. h }

cursor_of_fifty : encode_cursor plain (pos 50) ≡ "o:50"
unfolding encode_cursor itoa
cursor_of_fifty = refl

spaced_cursor : decode_cursor plain " o:+50 " ≡ some (pos 50)
unfolding decode_cursor read_digits
spaced_cursor = refl

negative_cursor : decode_cursor plain "o:-1" ≡ none
unfolding decode_cursor read_digits
negative_cursor = refl

negative_zero : atoi "-0" ≡ some (pos 0)
unfolding atoi read_digits
negative_zero = refl

decode-encode_example : decode_cursor plain (encode_cursor plain (pos 50)) ≡ some (pos 50)
decode-encode_example = decode-encode plain 50 plain-IsFaithful (omega arith) (omega arith)

three_windows : walk plain 5 (pos 2) (pos 20) (pos 100) 6 "" ≡ some ((0, 2) ∷ (2, 2) ∷ (4, 1) ∷ [])
unfolding walk itoa trim_space decode_cursor read_digits
three_windows = refl

two_at_once : clamp_limit (pos 2) (pos 20) (pos 100) ≡ pos 2
unfolding clamp_limit
two_at_once = refl

walk-AreWhole_example :
    (ws : List (ℕ × ℕ)) × ((walk plain 5 (pos 2) (pos 20) (pos 100) 6 "" ≡ some ws)
      × AreWhole 2 0 5 ws)
walk-AreWhole_example =
    walk-AreWhole plain plain-IsFaithful 5 1 (pos 2) (pos 20) (pos 100) (omega arith) two_at_once
