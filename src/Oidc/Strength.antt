-- ===== src/Oidc/Strength.antt =====
-- Which keys a parsed set can hold, and what an accepted signature says of its key (internal/oidc/jwks.go).
use bsystem_integration_core.Base.{
  ℕ, ◌*◌, ◌≤◌, ◌≡◌, refl, inl, inr, arith, Bool, true, false, ◌||◌, not, ltb, ◌==◌, Bool-cases,
  Option, none, some, List, [], ◌∷◌, if◌then◌else◌, length, All, subst,
}
use bsystem_integration_core.Base.Text.{str_eq, contains}
use bsystem_integration_core.Oidc.{Bytes, KeySet}
use bsystem_integration_core.Oidc.Keys.{
  Curve, byte_size, curve_named, Jwk, min_modulus, max_exponent, big_endian, PublicKey, rsa, ecdsa,
  Crypto, rsa_key, point_on, curve_key, public_key, put_key, with_public, add_keys, unless_empty,
  decoded_set, parse_jwks, pkcs_algorithms, pss_algorithms, ecdsa_algorithms, verify_signature,
}
use Prim.Native.String.{String}

-- A modulus of 2048 bits or more and an exponent in range; or a point of its curve, in the curve's width.
abbrev pub IsStrong : Crypto → PublicKey → Type 0
IsStrong crypto (rsa n e) = (min_modulus ≤ n) × (e ≤ max_exponent)
IsStrong crypto (ecdsa curve x y) =
    (length x ≡ byte_size curve)
    × (length y ≡ byte_size curve)
    × (crypto.is_on_curve curve x y ≡ true)

-- The algorithm is one of the nine, and of the key's kind.
abbrev pub Suits : String → PublicKey → Bytes → Type 0
Suits alg (rsa n e) signature = (contains pkcs_algorithms alg || contains pss_algorithms alg) ≡ true
Suits alg (ecdsa curve x y) signature =
    (contains ecdsa_algorithms alg ≡ true) × (length signature ≡ 2 * byte_size curve)

pub signature-Suits :
    (crypto : Crypto) (alg : String) (key : PublicKey) (signed : String) (signature : Bytes)
    → verify_signature crypto alg key signed signature ≡ true
    → Suits alg key signature
unfolding verify_signature
signature-Suits crypto alg (rsa n e) signed signature h = ground (arith, h)
signature-Suits crypto alg (ecdsa curve x y) signed signature h = ground (arith, h)

rsa_key-IsStrong :
    (crypto : Crypto) (n e : Option Bytes) (key : PublicKey)
    → rsa_key n e ≡ some key
    → IsStrong crypto key
rsa_key-IsStrong crypto none e key h = cc
rsa_key-IsStrong crypto (some []) e key h = cc
rsa_key-IsStrong crypto (some (b ∷ bs)) none key h = cc
rsa_key-IsStrong crypto (some (b ∷ bs)) (some e) key h =
    subst (IsStrong crypto)
      (same (rsa (big_endian 0 (b ∷ bs)) (big_endian 0 e)) (length e == 0 || ltb 8 (length e))
        (ltb max_exponent (big_endian 0 e)) (ltb (big_endian 0 (b ∷ bs)) min_modulus) h)
      (in_range (length e == 0 || ltb 8 (length e)) (big_endian 0 (b ∷ bs)) (big_endian 0 e)
        (rsa (big_endian 0 (b ∷ bs)) (big_endian 0 e)) h)
  where
    same :
        (k : PublicKey) (a b c : Bool)
        → (if a then none else if b then none else if c then none else some k) ≡ some key
        → k ≡ key
    same k true b c h = cc
    same k false true c h = cc
    same k false false true h = cc
    same k false false false h = cc

    in_range :
        (a : Bool) (m f : ℕ) (k : PublicKey)
        → (if a
            then none
            else if ltb max_exponent f
            then none
            else if ltb m min_modulus
            then none
            else some k)
          ≡ some key
        → (min_modulus ≤ m) × (f ≤ max_exponent)
    in_range a m f k h = ground (arith, h)

point_on-IsStrong :
    (crypto : Crypto) (curve : Curve) (x y : Option Bytes) (key : PublicKey)
    → point_on crypto curve x y ≡ some key
    → IsStrong crypto key
point_on-IsStrong crypto curve none y key h = cc
point_on-IsStrong crypto curve (some x) none key h = cc
point_on-IsStrong crypto curve (some x) (some y) key h =
    let there = passed (length x) (length y) (byte_size curve) (crypto.is_on_curve curve x y) _ h in
    subst (IsStrong crypto) there.1 there.0
  where
    passed :
        (l m n : ℕ) (c : Bool) (k : PublicKey)
        → (if not (l == n) || not (m == n) then none else if c then some k else none) ≡ some key
        → ((l ≡ n) × (m ≡ n) × (c ≡ true)) × (k ≡ key)
    passed l m n true k h = elim (Bool-cases (not (l == n) || not (m == n))) [
      | inl wrong ↦ absurd (ground (arith, h, wrong))
      | inr right ↦ let e : some k ≡ some key = rw right at h in (ground (arith, right), cc)
    ]
    passed l m n false k h = absurd (ground (arith, h))

curve_key-IsStrong :
    (crypto : Crypto) (k : Jwk) (curve : Option Curve) (key : PublicKey)
    → curve_key crypto k curve ≡ some key
    → IsStrong crypto key
curve_key-IsStrong crypto k none key h = cc
curve_key-IsStrong crypto k (some curve) key h =
    point_on-IsStrong crypto curve (crypto.decode k.x) (crypto.decode k.y) key h

public_key-IsStrong :
    (crypto : Crypto) (k : Jwk) (key : PublicKey)
    → public_key crypto k ≡ some key
    → IsStrong crypto key
unfolding public_key
public_key-IsStrong crypto k key h = elim (Bool-cases (str_eq k.kty "RSA")) [
  | inl is_rsa ↦
      rsa_key-IsStrong crypto (crypto.decode k.n) (crypto.decode k.e) key (rw is_rsa at h)
  | inr other ↦ elim (Bool-cases (str_eq k.kty "EC")) [
    | inl is_curve ↦ curve_key-IsStrong crypto k (curve_named k.crv) key (rw (other, is_curve) at h)
    | inr neither ↦ absurd (ground (arith, h, other, neither))
  ]
]

abbrev pub AreStrong : Crypto → KeySet PublicKey → Type 0
AreStrong crypto keys = All (λ named. IsStrong crypto named.1) keys

put_key-AreStrong :
    (crypto : Crypto) (kid : String) (key : PublicKey)
    → IsStrong crypto key
    → (keys : KeySet PublicKey) → AreStrong crypto keys
    → AreStrong crypto (put_key kid key keys)
unfolding put_key
put_key-AreStrong crypto kid key strong [] all = (strong, tt)
put_key-AreStrong crypto kid key strong ((k, other) ∷ ks) (first, all) =
    elim (Bool-cases (str_eq k kid)) [
      | inl same ↦ rw same (strong, all)
      | inr differ ↦ rw differ (first, put_key-AreStrong crypto kid key strong ks all)
    ]

add_keys-AreStrong :
    (crypto : Crypto) (entries : List Jwk) (keys : KeySet PublicKey)
    → AreStrong crypto keys
    → AreStrong crypto (add_keys crypto entries keys)
unfolding add_keys
add_keys-AreStrong crypto [] keys all = all
add_keys-AreStrong crypto (k ∷ ks) keys all =
    add_keys-AreStrong crypto ks _ (elim (Bool-cases (str_eq k.purpose "enc")) [
      | inl skipped ↦ rw skipped all
      | inr taken ↦ rw taken (with_public_all (public_key crypto k) refl)
    ])
  where
    with_public_all :
        (o : Option PublicKey) → public_key crypto k ≡ o → AreStrong crypto (with_public k o keys)
    with_public_all none e = all
    with_public_all (some key) e =
        put_key-AreStrong crypto k.kid key (public_key-IsStrong crypto k key e) keys all

-- Every key of a set that parses is strong, whatever the provider published beside it.
pub parse_jwks-AreStrong :
    (crypto : Crypto) (entries : String → Option (List Jwk)) (body : String)
    (keys : KeySet PublicKey)
    → parse_jwks crypto entries body ≡ some keys
    → AreStrong crypto keys
unfolding parse_jwks
parse_jwks-AreStrong crypto entries body keys = read (entries body)
  where
    left :
        (all : KeySet PublicKey)
        → AreStrong crypto all
        → unless_empty all ≡ some keys
        → AreStrong crypto keys
    left [] strong h = cc
    left (k ∷ ks) strong h = let same : (k ∷ ks) ≡ keys = cc in subst (AreStrong crypto) same strong

    read : (o : Option (List Jwk)) → decoded_set crypto o ≡ some keys → AreStrong crypto keys
    read none h = cc
    read (some es) h = left _ (add_keys-AreStrong crypto es [] tt) h
