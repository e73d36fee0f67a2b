-- ===== src/Oidc/Trust.antt =====
-- What an accepted token shows of the key that signed it (internal/oidc/verifier.go and jwks.go).
use bsystem_integration_core.Base.{
  ◌≡◌, ◌⊎◌, ◌||◌, inl, inr, true, Bool-cases, Option, none, some, List, [], ◌∷◌, subst,
}
use bsystem_integration_core.Base.Text.{str_eq, is_empty}
use bsystem_integration_core.Base.Clock.{Time}
use bsystem_integration_core.Oidc.{Bytes, Claims, Outcome, ok, err, KeySet, Provider, Verifier}
use bsystem_integration_core.Oidc.Verify.{
  find_key, key_for, Token, with_key, with_signature, with_header, verify_token,
}
use bsystem_integration_core.Oidc.Keys.{Jwk, PublicKey, Crypto, verify_signature}
use bsystem_integration_core.Oidc.Verdict.{verified_iff}
use bsystem_integration_core.Oidc.Acceptance.{key_for-IsHeld}
use bsystem_integration_core.Oidc.Origin.{parsing, IsFrom, key_for-IsFrom}
use Prim.Native.String.{String}
use bsystem_integration_core.Oidc.Strength.{
  IsStrong, Suits, signature-Suits, AreStrong, parse_jwks-AreStrong,
}

-- The key that a token names, or the only one, for a token that names none.
abbrev pub IsAmong : String → PublicKey → KeySet PublicKey → Type 0
IsAmong kid key keys =
    (find_key kid keys ≡ some key)
    ⊎ ((is_empty kid ≡ true) × ((k : String) × (keys ≡ (k, key) ∷ [])))

find_key-IsStrong :
    (crypto : Crypto) (kid : String) (keys : KeySet PublicKey) (key : PublicKey)
    → AreStrong crypto keys
    → find_key kid keys ≡ some key
    → IsStrong crypto key
unfolding find_key
find_key-IsStrong crypto kid [] key all h = cc
find_key-IsStrong crypto kid ((k, other) ∷ ks) key (first, all) h =
    elim (Bool-cases (str_eq k kid)) [
      | inl same ↦
          let e : some other ≡ some key = rw same at h in
          let k_eq : other ≡ key = cc in subst (IsStrong crypto) k_eq first
      | inr differ ↦ find_key-IsStrong crypto kid ks key all (rw differ at h)
    ]

held-IsStrong :
    (crypto : Crypto) (kid : String) (key : PublicKey) (keys : KeySet PublicKey)
    → AreStrong crypto keys
    → IsAmong kid key keys
    → IsStrong crypto key
held-IsStrong crypto kid key keys all (inl there) = find_key-IsStrong crypto kid keys key all there
held-IsStrong crypto kid key keys all (inr (unnamed, (k, single))) =
    (subst (AreStrong crypto) single all).0

abbrev pub HoldsStrong : Crypto → Verifier PublicKey → Type 0
HoldsStrong crypto v = (keys : KeySet PublicKey) → v.keys ≡ some keys → AreStrong crypto keys

module _ (crypto : Crypto) (entries : String → Option (List Jwk)) (p : Provider PublicKey) where
  from-AreStrong :
      (v : Verifier PublicKey) (keys : KeySet PublicKey)
      → HoldsStrong crypto v
      → IsFrom crypto entries p v keys
      → AreStrong crypto keys
  from-AreStrong v keys strong (inl held) = strong keys held
  from-AreStrong v keys strong (inr (uri, (body, (located, answered, parsed)))) =
      parse_jwks-AreStrong crypto entries body keys parsed

  -- Whatever token comes, and whatever the provider answers, the keys that are held stay strong; a new
  -- verifier holds none.
  verify_token-HoldsStrong :
      (v : Verifier PublicKey) (now done later : Time) (t : Token)
      → HoldsStrong crypto v
      → HoldsStrong crypto
          (verify_token (verify_signature crypto) (parsing crypto entries p) v now done later t).0
  unfolding verify_token
  verify_token-HoldsStrong v now done later t strong = elim (Bool-cases t.three_parts) [
    | inr fewer ↦ rw fewer strong
    | inl parts ↦ rw parts (headed t.header)
  ]
    where
      keyed :
          (alg : String) (signature : Bytes) (w : Verifier PublicKey) (key : Outcome PublicKey)
          → HoldsStrong crypto w
          → HoldsStrong crypto
              (with_key (verify_signature crypto) v.config later t alg signature (w, key)).0
      keyed alg signature w (err f) own = own
      keyed alg signature w (ok key) own =
          elim (Bool-cases (verify_signature crypto alg key t.signed signature)) [
            | inl good ↦ rw good own
            | inr bad ↦ rw bad own
          ]

      signed :
          (alg kid : String) (o : Option Bytes)
          → HoldsStrong crypto
              (with_signature
                (verify_signature crypto)
                (parsing crypto entries p)
                v
                now
                done
                later
                t
                alg
                kid
                o).0
      signed alg kid none = strong
      signed alg kid (some signature) =
          keyed alg signature (key_for (parsing crypto entries p) v now done kid).0
            (key_for (parsing crypto entries p) v now done kid).1
            (λ keys held.
              from-AreStrong v keys strong
                (key_for-IsFrom crypto entries p v now done kid keys held))

      headed :
          (o : Option (String × String))
          → HoldsStrong crypto
              (with_header
                (verify_signature crypto)
                (parsing crypto entries p)
                v
                now
                done
                later
                t
                o).0
      headed none = strong
      headed (some (alg, kid)) = elim (Bool-cases (is_empty alg || str_eq alg "none")) [
        | inl unsigned ↦ rw unsigned strong
        | inr signs ↦ rw signs (signed alg kid t.signature)
      ]

  -- What signed an accepted token: a key of a set of the provider, of the algorithm's kind and strong,
  -- with which the token's signature verifies.
  abbrev pub IsTrusted :
      Verifier PublicKey → Token → String → String → PublicKey → Bytes → KeySet PublicKey → Type 0
  IsTrusted v t alg kid key signature keys =
      (t.header ≡ some (alg, kid))
      × (t.signature ≡ some signature)
      × (verify_signature crypto alg key t.signed signature ≡ true)
      × IsAmong kid key keys
      × IsFrom crypto entries p v keys
      × IsStrong crypto key
      × Suits alg key signature

  -- A token that is accepted, by a verifier that holds strong keys if any, has a signature that verifies
  -- with a key of the set that the verifier held or of one that the provider published: the key that
  -- the token names, or the only one, for a token that names none. That key is strong, and the
  -- algorithm is of its kind: never an HMAC, and never none.
  pub accepted_token-IsStrong :
      (v : Verifier PublicKey) (now done later : Time) (t : Token) (c : Claims)
      → HoldsStrong crypto v
      → (verify_token (verify_signature crypto) (parsing crypto entries p) v now done later t).1
        ≡ ok c
      → (alg : String) × ((kid : String) × ((key : PublicKey) × ((signature : Bytes)
              × ((keys : KeySet PublicKey) × IsTrusted v t alg kid key signature keys))))
  accepted_token-IsStrong v now done later t c strong h =
      let e =
        (verified_iff (verify_signature crypto) (parsing crypto entries p) v now done later t c).0
          h in
      let (keys, held, there) =
        key_for-IsHeld (parsing crypto entries p) v now done e.kid e.key e.found in
      let from = key_for-IsFrom crypto entries p v now done e.kid keys held in
      (
        e.alg,
        (
          e.kid,
          (
            e.key,
            (
              e.signature,
              (
                keys,
                (
                  e.header,
                  e.decoded,
                  e.verifies,
                  there,
                  from,
                  held-IsStrong crypto e.kid e.key keys (from-AreStrong v keys strong from) there,
                  signature-Suits crypto e.alg e.key t.signed e.signature e.verifies,
                ),
              ),
            ),
          ),
        ),
      )
