-- ===== src/Oidc/Examples.antt =====
-- Tokens, key sets and calls at concrete inputs, and the theorems applied to them.
use bsystem_integration_core.Base.{
  ℕ, ◌≡◌, ◌↔◌, refl, arith, true, false, Option, none, some, List, [], ◌∷◌, ◌++◌, ◌*◌, ◌+◌,
}
use bsystem_integration_core.Base.Int.{pos}
use bsystem_integration_core.Base.Clock.{Time, second, seconds}
use bsystem_integration_core.Oidc.{
  Bytes, Claims, Config, ok, invalid_token, check_claims, Provider, Verifier, unix_epoch,
}
use bsystem_integration_core.Oidc.Verify.{Token, discover, refresh, key_for, verify_token}
use bsystem_integration_core.Oidc.Keys.{
  p256, Jwk, Crypto, PublicKey, ecdsa, parse_jwks, verify_signature,
}
use bsystem_integration_core.Oidc.Verdict.{Evidence, verified_iff}
use bsystem_integration_core.Oidc.Rotation.{Call, ArePaced, key_for-ArePaced}
use bsystem_integration_core.Oidc.Origin.{parsing}
use bsystem_integration_core.Oidc.Trust.{IsTrusted, accepted_token-IsStrong}
use Prim.Native.String.{String}

abbrev issuer_url : String
issuer_url = "https://id.example"

abbrev keys_url : String
keys_url = "https://id.example/jwks"

abbrev configured : Config
configured = record {
  issuer = issuer_url;
  audience = "core";
  clock_skew = seconds 60;
  cache_ttl = seconds 900;
}

abbrev at_second : ℕ → Time
at_second s = (unix_epoch + s) * second

abbrev pub good_claims : Claims
good_claims = record {
  subject = "alice";
  issuer = issuer_url;
  email = "alice@example.org";
  name = "Alice";
  preferred_username = "alice";
  groups = "BSYSTEM-Admins" ∷ [];
  audience = "core" ∷ [];
  expires_at = pos 1000;
  not_before = pos 0;
}

accepted_at_the_end : check_claims configured (at_second 1060) good_claims ≡ none
unfolding check_claims
accepted_at_the_end = refl

refused_after_the_end : check_claims configured (at_second 1061) good_claims ≡ some invalid_token
unfolding check_claims
refused_after_the_end = refl

abbrev coordinates : String → Bytes
coordinates s =
    1 ∷ 2 ∷ 3 ∷ 4 ∷ 5 ∷ 6 ∷ 7 ∷ 8 ∷ 1 ∷ 2 ∷ 3 ∷ 4 ∷ 5 ∷ 6 ∷ 7 ∷ 8 ∷ 1 ∷ 2 ∷ 3 ∷ 4 ∷ 5 ∷ 6 ∷ 7 ∷ 8
    ∷ 1 ∷ 2 ∷ 3 ∷ 4 ∷ 5 ∷ 6 ∷ 7 ∷ 8 ∷ []

abbrev toy_crypto : Crypto
toy_crypto = record {
  decode = λ s. some (coordinates s);
  is_on_curve = λ c x y. true;
  digest = λ h s. 9 ∷ [];
  pkcs1v15 = λ n e h d s. false;
  pss = λ n e h d s. false;
  ecdsa_verifies = λ c x y d r s. true;
}

abbrev ec_entry : Jwk
ec_entry = record {
  kty = "EC";
  kid = "k1";
  purpose = "sig";
  n = "";
  e = "";
  crv = "P-256";
  x = "x";
  y = "y";
}

abbrev encryption_entry : Jwk
encryption_entry = record ec_entry { kid = "k0"; purpose = "enc" }

abbrev entries_of : String → Option (List Jwk)
entries_of body = some (encryption_entry ∷ ec_entry ∷ [])

abbrev ec_key : PublicKey
ec_key = ecdsa p256 (coordinates "x") (coordinates "y")

ec_set : parse_jwks toy_crypto entries_of "{}" ≡ some (("k1", ec_key) ∷ [])
unfolding parse_jwks
ec_set = refl

abbrev provider : Provider PublicKey
provider = record {
  get = λ url. some "{}";
  discovery = λ body. some ("https://id.example/", keys_url);
  key_set = λ body. some (("k1", ec_key) ∷ []);
  origin_of = λ url. some "https://id.example";
}

discovered_url : discover provider issuer_url ≡ ok keys_url
unfolding discover
discovered_url = refl

abbrev fresh_verifier : Verifier PublicKey
fresh_verifier = record {
  config = configured;
  jwks_uri = "";
  keys = none;
  fetched_at = 0;
  last_kid_refresh = 0;
  refresh_every = seconds 30;
}

abbrev signed_token : Token
signed_token = record {
  three_parts = true;
  header = some ("ES256", "k1");
  signature = some (coordinates "x" ++ coordinates "y");
  signed = "aGVhZGVy.cGF5bG9hZA";
  payload = some good_claims;
}

abbrev published : Provider PublicKey
published = parsing toy_crypto entries_of provider

signed_token_passes :
    (verify_token
      (verify_signature toy_crypto)
      published
      fresh_verifier
      (at_second 900)
      (at_second 901)
      (at_second 902)
      signed_token).1
    ≡ ok good_claims
unfolding verify_token refresh parse_jwks discover verify_signature check_claims
signed_token_passes = refl

verified_iff_example :
    ((verify_token
        (verify_signature toy_crypto)
        published
        fresh_verifier
        (at_second 900)
        (at_second 901)
        (at_second 902)
        signed_token).1
      ≡ ok good_claims)
    ↔ Evidence
        (verify_signature toy_crypto)
        published
        fresh_verifier
        (at_second 900)
        (at_second 901)
        (at_second 902)
        signed_token
        good_claims
verified_iff_example =
    verified_iff (verify_signature toy_crypto) published fresh_verifier (at_second 900)
      (at_second 901) (at_second 902) signed_token good_claims

accepted_token-IsStrong_example :
    (alg : String) × ((kid : String) × ((key : PublicKey) × ((signature : Bytes) × ((keys : List
              (String × PublicKey))
            × IsTrusted toy_crypto entries_of provider fresh_verifier signed_token alg kid key
                signature keys))))
accepted_token-IsStrong_example =
    accepted_token-IsStrong toy_crypto entries_of provider fresh_verifier (at_second 900)
      (at_second 901) (at_second 902) signed_token good_claims (λ keys e. cc) signed_token_passes

abbrev filled : Verifier PublicKey
filled = record fresh_verifier {
  jwks_uri = keys_url;
  keys = some (("k0", ec_key) ∷ []);
  fetched_at = at_second 800;
}

abbrev named_call : String → ℕ → Provider PublicKey × Call
named_call kid s = (provider, record { kid = kid; now = at_second s; done = at_second s })

abbrev forged_calls : List (Provider PublicKey × Call)
forged_calls = named_call "x1" 801 ∷ named_call "x2" 802 ∷ named_call "x3" 831 ∷ []

-- A provider that does not answer.
abbrev silent : Provider PublicKey
silent = record provider { get = λ url. none }

key_for-ArePaced_example : ArePaced (30 * second) 0 filled forged_calls
key_for-ArePaced_example = key_for-ArePaced (30 * second) forged_calls filled refl (omega arith)

held_back_in_between :
    (key_for provider
      (key_for provider filled (at_second 801) (at_second 801) "x1").0
      (at_second 802)
      (at_second 802)
      "x2").0.last_kid_refresh
    ≡ at_second 801
unfolding key_for refresh
held_back_in_between = refl
