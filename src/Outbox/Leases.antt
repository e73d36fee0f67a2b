-- ===== src/Outbox/Leases.antt =====
-- What one claim takes, and for how long (internal/platformdb/outbox.go).
use bsystem_integration_core.Base.{
  and_left, and_right, ℕ, zero, suc, ◌^◌, ◌≤◌, ◌≡◌, refl, inl, inr, arith, Bool, true, false,
  Bool-cases, ◌&&◌, not, List, [], ◌∷◌, ◌==◌, if◌then◌else◌, length, All,
}
use Prim.Native.Nat.{min}
use native.Mathlib.Nat.{pow-suc}
use bsystem_integration_core.Outbox.{Row, is_due, backoff_seconds, charge, claim, claim_due_events}

pow_pos : (k : ℕ) → 1 ≤ 2 ^ k
pow_pos zero = omega arith
pow_pos (suc k) = rw pow-suc (omega (arith, pow_pos k))

backoff_bounds : (n : ℕ) → (1 ≤ backoff_seconds n) × (backoff_seconds n ≤ 256)
unfolding backoff_seconds
backoff_bounds n = omega (arith, pow_pos (min n 8))

-- A claimed row: it was due and not locked, and is charged.
abbrev pub IsClaim : (Row → Bool) → ℕ → Row → Type 0
IsClaim locked now r =
    (old : Row) × (is_due now old ≡ true) × (locked old ≡ false) × (r ≡ charge now old)

absurd_test : (b : Bool) → not b ≡ true → b ≡ false
absurd_test b h = ground arith

charged_later : (now later : ℕ) (r : Row) → later ≤ now → is_due later (charge now r) ≡ false
unfolding charge
charged_later now later r h = ground (arith, backoff_bounds r.attempts)

claim-IsClaim :
    (locked : Row → Bool) (now limit : ℕ) (rs : List Row)
    → (length (claim locked now limit rs).0 ≤ limit)
      × All (IsClaim locked now) (claim locked now limit rs).0
unfolding claim
claim-IsClaim locked now limit [] = (omega arith, tt)
claim-IsClaim locked now zero (r ∷ rs) = (omega arith, tt)
claim-IsClaim locked now (suc limit) (r ∷ rs) = elim (Bool-cases (is_due now r && not (locked r))) [
  | inl take' ↦
      let (few, all_due) = claim-IsClaim locked now limit rs in
      rw (take', claim)
        (omega arith, ((r, and_left _ _ take', absurd_test _ (and_right _ _ take'), refl), all_due))
  | inr pass ↦ rw (pass, claim) (claim-IsClaim locked now (suc limit) rs)
]

not_due_again :
    (locked : Row → Bool) (now later : ℕ) (rs : List Row)
    → later ≤ now
    → All (IsClaim locked now) rs
    → All (λ r. is_due later r ≡ false) rs
not_due_again locked now later [] h c = tt
not_due_again locked now later (r ∷ rs) h ((old, due, free, e), c) =
    (rw e (charged_later now later old h), not_due_again locked now later rs h c)

-- One claim takes at most the limit, fifty where none is given, and only rows that are due and that
-- nobody else holds; and none of what it took is due again within the same second, so a publisher
-- that died with them delays them and does not lose them.
pub leases_due_rows :
    (locked : Row → Bool) (limit now later : ℕ) (rs : List Row)
    → later ≤ now
    → (length (claim_due_events locked limit now rs).0 ≤ (if limit == 0 then 50 else limit))
      × All (IsClaim locked now) (claim_due_events locked limit now rs).0
      × All (λ r. is_due later r ≡ false) (claim_due_events locked limit now rs).0
unfolding claim_due_events
leases_due_rows locked limit now later rs h =
    let (few, all_due) = claim-IsClaim locked now (if limit == 0 then 50 else limit) rs in
    (few, all_due, not_due_again locked now later _ h all_due)
