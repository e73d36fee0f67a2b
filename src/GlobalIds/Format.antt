-- ===== src/GlobalIds/Format.antt =====
-- An id names its prefix and its number (internal/platformdb/db.go).
use bsystem_integration_core.Base.{
  ℕ, zero, suc, ◌-◌, ◌≡◌, refl, arith, Bool, false, ◌||◌, ◌==◌, some, ap, sym, ◌∙◌, if◌then◌else◌,
}
use bsystem_integration_core.Base.Text.{append}
use bsystem_integration_core.Base.Decimal.{itoa, read_digits, read_digits-itoa}
use bsystem_integration_core.GlobalIds.{global_id, zeros_before, text_length}
use Prim.Native.Char.{code}
use Prim.Native.String.{String}

-- A prefix without a dash, as all of the seeded ones are.
abbrev pub has_dash : String → Bool
has_dash String.[] = false
has_dash (String.◌∷◌ c s) = code c == 45 || has_dash s

-- What stands before the first dash, and what after it.
pub cut_at_dash : String → String × String
cut_at_dash String.[] = ("", "")
cut_at_dash (String.◌∷◌ c s) =
    let (before, after) = cut_at_dash s in
    if code c == 45 then ("", s) else (String.◌∷◌ c before, after)

cut_at_dash-append :
    (p s : String) → has_dash p ≡ false → cut_at_dash (append p (String.◌∷◌ "-" s)) ≡ (p, s)
unfolding cut_at_dash append
cut_at_dash-append String.[] s h = refl
cut_at_dash-append (String.◌∷◌ c p) s h = ground (arith, cut_at_dash-append p s)

read_digits-zeros : (k : ℕ) (s : String) → read_digits 0 (zeros_before k s) ≡ read_digits 0 s
unfolding zeros_before read_digits
read_digits-zeros zero s = refl
read_digits-zeros (suc k) s = read_digits-zeros k s

pub global_id_parts :
    (p : String) (n : ℕ)
    → has_dash p ≡ false
    → ((cut_at_dash (global_id p n)).0 ≡ p)
      × (read_digits 0 (cut_at_dash (global_id p n)).1 ≡ some n)
unfolding global_id
global_id_parts p n h =
    let cut = cut_at_dash-append p (zeros_before (6 - text_length (itoa n)) (itoa n)) h in
    (
      ap (λ x. x.0) cut,
      ap (λ x. read_digits 0 x.1) cut
          ∙ read_digits-zeros (6 - text_length (itoa n)) (itoa n)
          ∙ read_digits-itoa n,
    )

-- Two ids are the same only if both their prefixes and their numbers are, however many digits the
-- numbers have.
pub global_id_injective :
    (p q : String) (m n : ℕ)
    → has_dash p ≡ false
    → has_dash q ≡ false
    → global_id p m ≡ global_id q n
    → (p ≡ q) × (m ≡ n)
global_id_injective p q m n hp hq e =
    let a = global_id_parts p m hp in
    let b = global_id_parts q n hq in
    (
      sym a.0 ∙ ap (λ x. (cut_at_dash x).0) e ∙ b.0,
      cc (sym a.1 ∙ ap (λ x. read_digits 0 (cut_at_dash x).1) e ∙ b.1),
    )
