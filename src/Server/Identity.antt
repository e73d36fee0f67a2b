-- ===== src/Server/Identity.antt =====
-- A bearer token resolved to an identity (cmd/server/identity.go, and `fetchUserInfo` of
-- cmd/server/main.go).
--
-- `endpoint` is AUTHENTIK_USERINFO_URL, and an answer of it is what a reply with the status 200 decodes to.
use bsystem_integration_core.Base.{ℕ, not, Option, none, some, List, [], ◌∷◌, if◌then◌else◌}
use bsystem_integration_core.Base.Text.{str_eq, is_empty, trim_space}
use bsystem_integration_core.Oidc
use bsystem_integration_core.Oidc.{Claims, Outcome}
use Prim.Native.String.{String}

-- `userInfo`
pub record UserInfo : Type 0 where
  pub sub : String
  pub email : String
  pub name : String
  pub preferred_username : String
  pub groups : List String

-- An error of the verifier, or one of `fetchUserInfo`.
pub data IdentityError : Type 0 where
  of_verifier : Oidc.Failure → IdentityError
  user_info_failed : IdentityError

pub data Identified : Type 0 where
  identified : UserInfo → Identified
  unidentified : IdentityError → Identified

abbrev pub with_subject : Option UserInfo → Option UserInfo
with_subject none = none
with_subject (some info) = if is_empty info.sub then none else some info

-- `fetchUserInfo`
unfoldable pub fetch_user_info : String → Option UserInfo → Option UserInfo
fetch_user_info endpoint answer = if is_empty endpoint then none else with_subject answer

abbrev pub or_else : String → String → String
or_else value fallback = if is_empty value then fallback else value

abbrev pub merged : UserInfo → Option UserInfo → UserInfo
merged info none = info
merged info (some enriched) = if not (str_eq enriched.sub info.sub) then info else record info {
  groups = enriched.groups;
  email = or_else info.email enriched.email;
  name = or_else info.name enriched.name;
  preferred_username = or_else info.preferred_username enriched.preferred_username;
}

-- `enrich`
unfoldable pub enrich : String → Option UserInfo → UserInfo → UserInfo
unfolding fetch_user_info trim_space
enrich endpoint answer info =
    if is_empty (trim_space endpoint) then info else merged info (fetch_user_info endpoint answer)

abbrev pub of_claims : Claims → UserInfo
of_claims c = record {
  sub = c.subject;
  email = c.email;
  name = c.name;
  preferred_username = c.preferred_username;
  groups = c.groups;
}

abbrev pub enriched : String → Option UserInfo → UserInfo → List String → UserInfo
enriched endpoint answer info [] = enrich endpoint answer info
enriched endpoint answer info (g ∷ gs) = info

abbrev pub of_fetched : Option UserInfo → Identified
of_fetched none = unidentified user_info_failed
of_fetched (some info) = identified info

-- `identify`; no outcome means that no local verifier is configured.
unfoldable pub identify : Option (Outcome Claims) → String → Option UserInfo → Identified
unfolding enrich fetch_user_info
identify none endpoint answer = of_fetched (fetch_user_info endpoint answer)
identify (some (Oidc.err e)) endpoint answer = unidentified (of_verifier e)
identify (some (Oidc.ok c)) endpoint answer =
    identified (enriched endpoint answer (of_claims c) c.groups)

-- `authenticationStatus`
unfoldable pub authentication_status : IdentityError → ℕ × String
authentication_status (of_verifier Oidc.provider_unavailable) =
    (503, "identity provider unavailable")
authentication_status (of_verifier Oidc.invalid_token) = (401, "invalid or expired token")
authentication_status (of_verifier Oidc.not_configured) = (401, "invalid or expired token")
authentication_status user_info_failed = (401, "invalid or expired token")
