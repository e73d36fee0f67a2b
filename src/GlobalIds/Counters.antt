-- ===== src/GlobalIds/Counters.antt =====
-- The counters never give a number twice (internal/platformdb/db.go).
use bsystem_integration_core.Base.{
  ℕ, ◌+◌, ◌<◌, ◌≡◌, refl, inl, inr, arith, false, Bool-cases, Option, none, some, List, [], ◌∷◌,
  sym, subst, ◌∙◌, if◌then◌else◌,
}
use bsystem_integration_core.Base.Text.{str_eq, str_eq_iff}
use bsystem_integration_core.GlobalIds.{Counter, bump, global_id}
use bsystem_integration_core.GlobalIds.Format.{has_dash, global_id_injective}
use Prim.Native.String.{String}

unfoldable pub find_counter : String → List Counter → Option Counter
find_counter t [] = none
find_counter t (c ∷ cs) =
    let rest = find_counter t cs in if str_eq c.entity_type t then some c else rest

abbrev pub raise : Counter → Counter
raise c = record c { next_value = c.next_value + 1 }

-- The table after the UPDATE.
pub raised : String → List Counter → List Counter
raised t [] = []
raised t (c ∷ cs) =
    let rest = raised t cs in if str_eq c.entity_type t then raise c ∷ cs else c ∷ rest

pub bump-none : (t : String) (cs : List Counter) → find_counter t cs ≡ none → bump t cs ≡ none
unfolding bump find_counter
bump-none t [] h = refl
bump-none t (c ∷ cs) h = ground (arith, h, bump-none t cs)

pub bump-some :
    (t : String) (cs : List Counter) (c : Counter)
    → find_counter t cs ≡ some c
    → bump t cs ≡ some (c, raised t cs)
unfolding bump find_counter raised
bump-some t [] c h = cc
bump-some t (d ∷ cs) c h = elim (Bool-cases (str_eq d.entity_type t)) [
  | inl here ↦ ground (arith, h, here)
  | inr other ↦ ground (arith, h, other, bump-some t cs c (ground (arith, h, other)))
]

pub find-raised_self :
    (t : String) (cs : List Counter) (c : Counter)
    → find_counter t cs ≡ some c
    → find_counter t (raised t cs) ≡ some (raise c)
unfolding find_counter raised
find-raised_self t [] c h = cc
find-raised_self t (d ∷ cs) c h = elim (Bool-cases (str_eq d.entity_type t)) [
  | inl here ↦ ground (arith, h, here)
  | inr other ↦ ground (arith, h, other, find-raised_self t cs c (ground (arith, h, other)))
]

pub find-raised_other :
    (t u : String) (cs : List Counter)
    → str_eq t u ≡ false
    → find_counter u (raised t cs) ≡ find_counter u cs
unfolding find_counter raised
find-raised_other t u [] h = refl
find-raised_other t u (d ∷ cs) h = ground (
  arith,
  h,
  str_eq_iff d.entity_type t,
  str_eq_iff d.entity_type u,
  str_eq_iff t u,
  find-raised_other t u cs h,
)

-- Every type has a prefix of its own, without a dash.
pub record IsPlain (cs : List Counter) : Type 0 where
  pub dashless : (t : String) (c : Counter) → find_counter t cs ≡ some c → has_dash c.prefix ≡ false
  pub own :
      (t u : String) (c d : Counter)
      → find_counter t cs ≡ some c
      → find_counter u cs ≡ some d
      → c.prefix ≡ d.prefix
      → t ≡ u

-- The counter of a type before, with the same prefix.
lowered :
    (t u : String) (cs : List Counter) (c d : Counter)
    → find_counter t cs ≡ some c
    → find_counter u (raised t cs) ≡ some d
    → (d' : Counter) × (find_counter u cs ≡ some d') × (d'.prefix ≡ d.prefix)
lowered t u cs c d h g = elim (Bool-cases (str_eq t u)) [
  | inr other ↦ (d, sym (find-raised_other t u cs other) ∙ g, refl)
  | inl same ↦
      let e : t ≡ u = (str_eq_iff t u).0 same in
      let r : some (raise c) ≡ some d =
        sym (find-raised_self t cs c h)
        ∙ subst (λ x. find_counter x (raised t cs) ≡ some d) (sym e) g in
      (c, subst (λ x. find_counter x cs ≡ some c) e h, ground (arith, r))
]

pub raised-IsPlain :
    (t : String) (cs : List Counter) (c : Counter)
    → find_counter t cs ≡ some c
    → IsPlain cs
    → IsPlain (raised t cs)
raised-IsPlain t cs c h p = record {
  dashless = λ u d g.
      (let (d', before, same) = lowered t u cs c d h g in
        subst (λ x. has_dash x ≡ false) same (p.dashless u d' before));
  own = λ u v a b g k e.
      (let (a', ga, pa) = lowered t u cs c a h g in
        let (b', gb, pb) = lowered t v cs c b h k in p.own u v a' b' ga gb (pa ∙ e ∙ sym pb));
}

-- An id that the counter of a type has given.
abbrev pub IsIssued : List Counter → String → String → Type 0
IsIssued cs t id =
    (c : Counter) × (n : ℕ) × (find_counter t cs ≡ some c)
    × (n < c.next_value)
    × (id ≡ global_id c.prefix n)

pub IsIssued-raised :
    (t u : String) (cs : List Counter) (c : Counter) (id : String)
    → find_counter t cs ≡ some c
    → IsIssued cs u id
    → IsIssued (raised t cs) u id
IsIssued-raised t u cs c id h (d, n, g, less, e) = elim (Bool-cases (str_eq t u)) [
  | inr other ↦ (d, n, find-raised_other t u cs other ∙ g, less, e)
  | inl same ↦
      let s : t ≡ u = (str_eq_iff t u).0 same in
      let r : some c ≡ some d = sym h ∙ subst (λ x. find_counter x cs ≡ some d) (sym s) g in
      let k : c ≡ d = cc in
      (
        raise d,
        n,
        subst (λ x. find_counter x (raised t cs) ≡ some (raise d)) s
            (find-raised_self t cs d (h ∙ r)),
        omega (arith, less),
        e,
      )
]

pub IsIssued-new :
    (t : String) (cs : List Counter) (c : Counter)
    → find_counter t cs ≡ some c
    → IsIssued (raised t cs) t (global_id c.prefix c.next_value)
IsIssued-new t cs c h = (raise c, c.next_value, find-raised_self t cs c h, omega arith, refl)

-- What the counter gives next was never given, by it or by another.
pub issued-ne-new :
    (t u : String) (cs : List Counter) (c : Counter) (id : String)
    → IsPlain cs
    → find_counter t cs ≡ some c
    → IsIssued cs u id
    → str_eq id (global_id c.prefix c.next_value) ≡ false
issued-ne-new t u cs c id p h (d, n, g, less, e) =
    elim (Bool-cases (str_eq id (global_id c.prefix c.next_value))) [
      | inr other ↦ other
      | inl same ↦
          let eq = sym e ∙ (str_eq_iff id (global_id c.prefix c.next_value)).0 same in
          let (prefixes, numbers) =
            global_id_injective d.prefix c.prefix n c.next_value (p.dashless u d g)
              (p.dashless t c h) eq in
          let types : u ≡ t = p.own u t d c g h prefixes in
          let r : some d ≡ some c = sym (subst (λ x. find_counter x cs ≡ some d) types g) ∙ h in
          let k : d.next_value ≡ c.next_value = ground (arith, r) in
          absurd (omega (arith, less, numbers, k))
    ]
