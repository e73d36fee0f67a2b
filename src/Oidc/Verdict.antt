-- ===== src/Oidc/Verdict.antt =====
-- Which tokens are accepted (`Verify`, internal/oidc/verifier.go).
use bsystem_integration_core.Base.{
  ◌≡◌, refl, ◌↔◌, inl, inr, arith, Bool, true, false, ◌||◌, Bool-cases, Option, none, some, ap,
  subst,
}
use bsystem_integration_core.Base.Text.{str_eq, is_empty}
use bsystem_integration_core.Base.Clock.{Time}
use bsystem_integration_core.Oidc.{
  Bytes, Claims, Config, Failure, Outcome, ok, err, check_claims, Provider, Verifier,
}
use bsystem_integration_core.Oidc.Verify.{
  key_for, Token, with_header, with_signature, with_key, read_claims, checked, verify_token,
}
use Prim.Native.String.{String}

read_iff :
    (config : Config) (later : Time) (o : Option Claims) (c : Claims)
    → (read_claims config later o ≡ ok c) ↔ ((o ≡ some c) × (check_claims config later c ≡ none))
read_iff config later none c = (λ h. cc, λ h. cc)
read_iff config later (some d) c = (forth _ refl, back)
  where
    forth :
        (r : Option Failure)
        → check_claims config later d ≡ r
        → checked config later d r ≡ ok c
        → (some d ≡ some c) × (check_claims config later c ≡ none)
    forth none e h =
        let same : d ≡ c = cc in
        (ap (λ x. some x) same, subst (λ x. check_claims config later x ≡ none) same e)
    forth (some f) e h = cc

    back :
        (some d ≡ some c) × (check_claims config later c ≡ none)
        → read_claims config later (some d) ≡ ok c
    back (e, passes) = let same : d ≡ c = cc in rw (same, passes) refl

module _ {Key : Type 0} where
  -- What an accepted token shows: the parts of its header, its signature, and the key found for it.
  pub record Evidence (verify : String → Key → String → Bytes → Bool) (p : Provider Key)
      (v : Verifier Key) (now done later : Time) (t : Token) (c : Claims) : Type 0 where
    pub alg : String
    pub kid : String
    pub signature : Bytes
    pub key : Key
    pub parts : t.three_parts ≡ true
    pub header : t.header ≡ some (alg, kid)
    pub signs : (is_empty alg || str_eq alg "none") ≡ false
    pub decoded : t.signature ≡ some signature
    pub found : (key_for p v now done kid).1 ≡ ok key
    pub verifies : verify alg key t.signed signature ≡ true
    pub payload : t.payload ≡ some c
    pub passes : check_claims v.config later c ≡ none

  -- A token is accepted, with the claims that its payload holds, exactly if its header names an
  -- algorithm other than "none", its signature decodes, a key is found for it, the signature verifies
  -- with that key under that algorithm, and the claims pass.
  pub verified_iff :
      (verify : String → Key → String → Bytes → Bool) (p : Provider Key) (v : Verifier Key)
      (now done later : Time) (t : Token) (c : Claims)
      → ((verify_token verify p v now done later t).1 ≡ ok c)
        ↔ Evidence verify p v now done later t c
  unfolding verify_token
  verified_iff verify p v now done later t c = (cut, back)
    where
      keyed :
          (alg kid : String) (signature : Bytes)
          → t.three_parts ≡ true
          → t.header ≡ some (alg, kid)
          → (is_empty alg || str_eq alg "none") ≡ false
          → t.signature ≡ some signature
          → (key : Outcome Key) → (key_for p v now done kid).1 ≡ key
          → (with_key verify v.config later t alg signature ((key_for p v now done kid).0, key)).1
            ≡ ok c
          → Evidence verify p v now done later t c
      keyed alg kid signature parts header signs decoded (err f) e h = cc
      keyed alg kid signature parts header signs decoded (ok key) e h =
          elim (Bool-cases (verify alg key t.signed signature)) [
            | inl good ↦
                let claims = (read_iff v.config later t.payload c).0 (rw good at h) in
                record {
                  alg = alg;
                  kid = kid;
                  signature = signature;
                  key = key;
                  parts = parts;
                  header = header;
                  signs = signs;
                  decoded = decoded;
                  found = e;
                  verifies = good;
                  payload = claims.0;
                  passes = claims.1;
                }
            | inr bad ↦ absurd (ground (arith, h, bad))
          ]

      signed :
          (alg kid : String)
          → t.three_parts ≡ true
          → t.header ≡ some (alg, kid)
          → (is_empty alg || str_eq alg "none") ≡ false
          → (o : Option Bytes) → t.signature ≡ o
          → (with_signature verify p v now done later t alg kid o).1 ≡ ok c
          → Evidence verify p v now done later t c
      signed alg kid parts header signs none e h = cc
      signed alg kid parts header signs (some signature) e h =
          keyed alg kid signature parts header signs e _ refl h

      headed :
          t.three_parts ≡ true
          → (o : Option (String × String)) → t.header ≡ o
          → (with_header verify p v now done later t o).1 ≡ ok c
          → Evidence verify p v now done later t c
      headed parts none e h = cc
      headed parts (some (alg, kid)) e h = elim (Bool-cases (is_empty alg || str_eq alg "none")) [
        | inl unsigned ↦ absurd (ground (arith, h, unsigned))
        | inr signs ↦ signed alg kid parts e signs t.signature refl (rw signs at h)
      ]

      cut :
          (verify_token verify p v now done later t).1 ≡ ok c
          → Evidence verify p v now done later t c
      cut h = elim (Bool-cases t.three_parts) [
        | inl parts ↦ headed parts t.header refl (rw parts at h)
        | inr fewer ↦ absurd (ground (arith, h, fewer))
      ]

      back :
          Evidence verify p v now done later t c
          → (verify_token verify p v now done later t).1 ≡ ok c
      back e =
          rw (e.parts, e.header, e.signs, e.decoded) (paid (key_for p v now done e.kid) e.found)
        where
          paid :
              (r : Verifier Key × Outcome Key)
              → r.1 ≡ ok e.key
              → (with_key verify v.config later t e.alg e.signature r).1 ≡ ok c
          paid (w, err f) h = cc
          paid (w, ok key) h =
              let same : e.key ≡ key = cc in
              let good : verify e.alg key t.signed e.signature ≡ true =
                subst (λ k. verify e.alg k t.signed e.signature ≡ true) same e.verifies in
              rw good ((read_iff v.config later t.payload c).1 (e.payload, e.passes))
