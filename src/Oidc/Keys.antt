-- ===== src/Oidc/Keys.antt =====
-- The provider's key set, and a signature checked with one of its keys (internal/oidc/jwks.go).
-- base64, JSON, the curve arithmetic and the signature schemes are parameters; bytes are numbers below 256.
use bsystem_integration_core.Base.{
  ℕ, zero, suc, ◌+◌, ◌*◌, ◌/◌, ◌^◌, Bool, false, ◌||◌, not, ltb, ◌==◌, Option, none, some, List, [],
  ◌∷◌, if◌then◌else◌, length,
}
use bsystem_integration_core.Base.Text.{str_eq, contains}
use bsystem_integration_core.Oidc.{Bytes, KeySet}
use Prim.Native.String.{String}

pub data Curve : Type 0 where
  p256 p384 p521 : Curve

abbrev pub curve_named : String → Option Curve
curve_named name =
    if str_eq name "P-256"
    then some p256
    else if str_eq name "P-384"
    then some p384
    else if str_eq name "P-521"
    then some p521
    else none

abbrev pub bit_size : Curve → ℕ
bit_size p256 = 256
bit_size p384 = 384
bit_size p521 = 521

-- `(BitSize + 7) / 8`
abbrev pub byte_size : Curve → ℕ
byte_size curve = (bit_size curve + 7) / 8

pub record Jwk : Type 0 where
  pub kty : String
  pub kid : String
  pub purpose : String
  pub n : String
  pub e : String
  pub crv : String
  pub x : String
  pub y : String

-- `SetBytes` and `BigEndian.Uint64`
pub big_endian : ℕ → Bytes → ℕ
big_endian acc [] = acc
big_endian acc (b ∷ bs) = big_endian (acc * 256 + b) bs

-- The least number of 2048 bits; the largest exponent that is accepted.
unfoldable pub min_modulus : ℕ
min_modulus = 2 ^ 2047

abbrev pub max_exponent : ℕ
max_exponent = 2_147_483_648

pub data PublicKey : Type 0 where
  rsa : (modulus exponent : ℕ) → PublicKey
  ecdsa : (curve : Curve) (x y : Bytes) → PublicKey

-- What the code calls: base64 without padding; whether a point is on a curve; and the schemes, which
-- take a digest.
pub data Hash : Type 0 where
  sha256 sha384 sha512 : Hash

pub record Crypto : Type 0 where
  pub decode : String → Option Bytes
  pub is_on_curve : Curve → Bytes → Bytes → Bool
  pub digest : Hash → String → Bytes
  pub pkcs1v15 : ℕ → ℕ → Hash → Bytes → Bytes → Bool
  pub pss : ℕ → ℕ → Hash → Bytes → Bytes → Bool
  pub ecdsa_verifies : Curve → Bytes → Bytes → Bytes → ℕ → ℕ → Bool

abbrev pub rsa_key : Option Bytes → Option Bytes → Option PublicKey
rsa_key none exponent = none
rsa_key (some []) exponent = none
rsa_key (some (b ∷ bs)) none = none
rsa_key (some (b ∷ bs)) (some exponent) =
    if length exponent == 0 || ltb 8 (length exponent)
    then none
    else if ltb max_exponent (big_endian 0 exponent)
    then none
    else if ltb (big_endian 0 (b ∷ bs)) min_modulus
    then none
    else some (rsa (big_endian 0 (b ∷ bs)) (big_endian 0 exponent))

abbrev pub point_on : Crypto → Curve → Option Bytes → Option Bytes → Option PublicKey
point_on crypto curve none y = none
point_on crypto curve (some x) none = none
point_on crypto curve (some x) (some y) =
    if not (length x == byte_size curve) || not (length y == byte_size curve)
    then none
    else if crypto.is_on_curve curve x y
    then some (ecdsa curve x y)
    else none

abbrev pub curve_key : Crypto → Jwk → Option Curve → Option PublicKey
curve_key crypto k none = none
curve_key crypto k (some curve) = point_on crypto curve (crypto.decode k.x) (crypto.decode k.y)

-- `publicKey`
unfoldable pub public_key : Crypto → Jwk → Option PublicKey
unfolding big_endian
public_key crypto k =
    if str_eq k.kty "RSA"
    then rsa_key (crypto.decode k.n) (crypto.decode k.e)
    else if str_eq k.kty "EC"
    then curve_key crypto k (curve_named k.crv)
    else none

-- `keys[kid] = key`
unfoldable pub put_key : String → PublicKey → KeySet PublicKey → KeySet PublicKey
put_key kid key [] = (kid, key) ∷ []
put_key kid key ((k, other) ∷ ks) =
    let rest = put_key kid key ks in if str_eq k kid then (kid, key) ∷ ks else (k, other) ∷ rest

abbrev pub with_public : Jwk → Option PublicKey → KeySet PublicKey → KeySet PublicKey
with_public k none keys = keys
with_public k (some key) keys = put_key k.kid key keys

-- The loop of `parseJWKS`, and its check that a key is left.
unfoldable pub add_keys : Crypto → List Jwk → KeySet PublicKey → KeySet PublicKey
unfolding put_key public_key
add_keys crypto [] keys = keys
add_keys crypto (k ∷ ks) keys =
    add_keys crypto ks
      (if str_eq k.purpose "enc" then keys else with_public k (public_key crypto k) keys)

abbrev pub unless_empty : KeySet PublicKey → Option (KeySet PublicKey)
unless_empty [] = none
unless_empty (k ∷ ks) = some (k ∷ ks)

abbrev pub decoded_set : Crypto → Option (List Jwk) → Option (KeySet PublicKey)
decoded_set crypto none = none
decoded_set crypto (some entries) = unless_empty (add_keys crypto entries [])

-- `parseJWKS`; `entries` is what JSON makes of a body.
unfoldable pub parse_jwks :
    Crypto → (String → Option (List Jwk)) → String → Option (KeySet PublicKey)
unfolding add_keys
parse_jwks crypto entries body = decoded_set crypto (entries body)

-- `alg[2:]`
abbrev pub drop_two : String → String
drop_two String.[] = String.[]
drop_two (String.◌∷◌ a String.[]) = String.[]
drop_two (String.◌∷◌ a (String.◌∷◌ b s)) = s

-- `digestFor`, of which the digest is taken where it is used.
abbrev pub hash_for : String → Hash
hash_for alg =
    if str_eq (drop_two alg) "384"
    then sha384
    else if str_eq (drop_two alg) "512"
    then sha512
    else sha256

abbrev pub first_bytes : ℕ → Bytes → Bytes
first_bytes zero bs = []
first_bytes (suc n) [] = []
first_bytes (suc n) (b ∷ bs) = b ∷ first_bytes n bs

abbrev pub later_bytes : ℕ → Bytes → Bytes
later_bytes zero bs = bs
later_bytes (suc n) [] = []
later_bytes (suc n) (b ∷ bs) = later_bytes n bs

abbrev pub check_pkcs : Crypto → Hash → PublicKey → Bytes → Bytes → Bool
check_pkcs crypto hash (rsa n e) digest signature = crypto.pkcs1v15 n e hash digest signature
check_pkcs crypto hash (ecdsa curve x y) digest signature = false

abbrev pub check_pss : Crypto → Hash → PublicKey → Bytes → Bytes → Bool
check_pss crypto hash (rsa n e) digest signature = crypto.pss n e hash digest signature
check_pss crypto hash (ecdsa curve x y) digest signature = false

abbrev pub check_ecdsa : Crypto → PublicKey → Bytes → Bytes → Bool
check_ecdsa crypto (rsa n e) digest signature = false
check_ecdsa crypto (ecdsa curve x y) digest signature =
    if not (length signature == 2 * byte_size curve)
    then false
    else crypto.ecdsa_verifies curve x y digest
        (big_endian 0 (first_bytes (byte_size curve) signature))
        (big_endian 0 (later_bytes (byte_size curve) signature))

abbrev pub pkcs_algorithms : List String
pkcs_algorithms = "RS256" ∷ "RS384" ∷ "RS512" ∷ []

abbrev pub pss_algorithms : List String
pss_algorithms = "PS256" ∷ "PS384" ∷ "PS512" ∷ []

abbrev pub ecdsa_algorithms : List String
ecdsa_algorithms = "ES256" ∷ "ES384" ∷ "ES512" ∷ []

-- `verifySignature`; `true` is no error.
unfoldable pub verify_signature : Crypto → String → PublicKey → String → Bytes → Bool
unfolding big_endian
verify_signature crypto alg key signed signature =
    if contains pkcs_algorithms alg
    then check_pkcs crypto (hash_for alg) key (crypto.digest (hash_for alg) signed) signature
    else if contains pss_algorithms alg
    then check_pss crypto (hash_for alg) key (crypto.digest (hash_for alg) signed) signature
    else if contains ecdsa_algorithms alg
    then check_ecdsa crypto key (crypto.digest (hash_for alg) signed) signature
    else false
