-- ===== src/Oauth/Verify.antt =====
-- src/auth.rs: which bearer tokens are accepted. The JWT library and the fetching of key sets are
-- the parameter `JwtOps`; the reading of the clock is in nanoseconds.
use aprendiendo.Base.{
  ℕ, zero, suc, ◌+◌, ◌-◌, ◌*◌, ◌/◌, ◌%◌, String, Bool, true, false, not, ◌&&◌, ◌||◌, Option, none,
  some, List, [], ◌∷◌, Outcome, ok, err, ◌>>=◌, ◌>>◌, flat_map, bail_if, is_ok, ok_or, any,
  is_some_and, len, length, str_eq, codes, split_ascii_whitespace, same_codes, leb, ltb, ◌==◌,
  if◌then◌else◌,
}
use aprendiendo.Oauth.Server.{EmbeddedOauthConfig}

pub data ScopeClaim : Type 0 where
  space_separated : String → ScopeClaim
  list : List String → ScopeClaim

pub record Claims : Type 0 where
  pub sub : String
  pub scope : Option ScopeClaim
  pub scp : Option ScopeClaim
  pub token_type : Option String

-- `ScopeClaim::contains`
unfoldable pub contains_scope : ScopeClaim → String → Bool
contains_scope (ScopeClaim.space_separated value) required =
    any (λ w. same_codes w (codes required)) (split_ascii_whitespace (codes value))
contains_scope (ScopeClaim.list values) required = any (λ v. str_eq v required) values

unfoldable pub has_scope : Claims → String → Bool
unfolding contains_scope
has_scope claims required =
    is_some_and claims.scope (λ s. contains_scope s required)
    || is_some_and claims.scp (λ s. contains_scope s required)

-- The types and functions of the JWT library that the code calls. `decode` is given the issuer and
-- the audience that it must find.
pub record JwtOps : Type 1 where
  pub Algorithm : Type 0
  pub Jwk : Type 0
  pub JwkSet : Type 0
  pub DecodingKey : Type 0
  pub is_ed_dsa : Algorithm → Bool
  pub is_rs256 : Algorithm → Bool
  pub is_rs384 : Algorithm → Bool
  pub is_rs512 : Algorithm → Bool
  pub decode_header : String → Option (Algorithm × Option String)
  pub from_jwk : Jwk → Option DecodingKey
  pub find_key : String → JwkSet → Option Jwk
  pub decode : String → DecodingKey → Algorithm → String → String → Option Claims

pub record OidcConfig : Type 0 where
  pub public_base_url : String
  pub issuer : String
  pub audience : String
  pub jwks_url : String
  pub allowed_subject : String
  pub required_scope : String

-- The bytes of a code point in UTF-8.
abbrev pub utf8_of : ℕ → List ℕ
utf8_of c =
    if ltb c 0x80
    then c ∷ []
    else if ltb c 0x800
    then (0xc0 + c / 64) ∷ (0x80 + c % 64) ∷ []
    else if ltb c 0x10000
    then (0xe0 + c / 4096) ∷ (0x80 + c / 64 % 64) ∷ (0x80 + c % 64) ∷ []
    else (0xf0 + c / 262144) ∷ (0x80 + c / 4096 % 64) ∷ (0x80 + c / 64 % 64) ∷ (0x80 + c % 64) ∷ []

-- `as_bytes()`
abbrev pub as_bytes : String → List ℕ
as_bytes s = flat_map utf8_of (codes s)

-- `^` and `|` on the last `k` bits.
abbrev pub xor_bits : ℕ → ℕ → ℕ → ℕ
xor_bits zero x y = 0
xor_bits (suc k) x y = (x % 2 + y % 2) % 2 + 2 * xor_bits k (x / 2) (y / 2)

abbrev pub or_bits : ℕ → ℕ → ℕ → ℕ
or_bits zero x y = 0
or_bits (suc k) x y = (x % 2 + y % 2 + 1) / 2 + 2 * or_bits k (x / 2) (y / 2)

unfoldable pub xor_byte : ℕ → ℕ → ℕ
xor_byte x y = xor_bits 8 x y

unfoldable pub or_byte : ℕ → ℕ → ℕ
or_byte x y = or_bits 8 x y

-- The loop; `zip` ends with the shorter list.
abbrev pub fold_diff : ℕ → List ℕ → List ℕ → ℕ
fold_diff diff [] ys = diff
fold_diff diff (x ∷ xs) [] = diff
fold_diff diff (x ∷ xs) (y ∷ ys) = fold_diff (or_byte diff (xor_byte x y)) xs ys

unfoldable pub constant_time_eq : String → String → Bool
constant_time_eq a b =
    length (as_bytes a) == length (as_bytes b) && fold_diff 0 (as_bytes a) (as_bytes b) == 0

pub data AuthError : Type 0 where
  invalid_bearer_token too_large invalid_header unsupported_algorithm no_kid unknown_key : AuthError
  invalid_jwk invalid_jwt fetch_failed other_subject id_token missing_scope : AuthError

-- The tests of the claims, which both issuers share.
unfoldable pub check_claims : String → String → Claims → Outcome AuthError (Unit {0})
unfolding has_scope
check_claims subject scope claims = do
  bail_if (not (str_eq claims.sub subject)) AuthError.other_subject
  bail_if (is_some_and claims.token_type (λ t. str_eq t "id-token")) AuthError.id_token
  bail_if (not (has_scope claims scope)) AuthError.missing_scope

-- 60 seconds.
abbrev pub refresh_interval : ℕ
refresh_interval = 60000000000

module _ (ops : JwtOps) where
  pub record OidcAuthenticator : Type 0 where
    pub config : OidcConfig
    pub keys : ops.JwkSet
    pub last_jwks_refresh : ℕ

  -- The embedded server is its configuration and its public key.
  pub data Authenticator : Type 0 where
    disabled : Authenticator
    oidc : OidcAuthenticator → Authenticator
    bearer : String → Authenticator
    embedded_oauth : EmbeddedOauthConfig → ops.Jwk → Authenticator

  -- The value of `supported_algorithm`.
  unfoldable pub is_supported : Authenticator → ops.Algorithm → Bool
  is_supported (Authenticator.embedded_oauth _ _) alg = ops.is_ed_dsa alg
  is_supported (Authenticator.oidc _) alg =
      ops.is_ed_dsa alg || (ops.is_rs256 alg || (ops.is_rs384 alg || ops.is_rs512 alg))
  is_supported _ alg = false

  -- The tests of the header, before a key is looked for.
  unfoldable pub check_header : Authenticator → String → Outcome AuthError (ops.Algorithm × String)
  unfolding is_supported
  check_header auth token = do
    bail_if (ltb 16384 (len token)) AuthError.too_large
    (alg, kid) ← ok_or (ops.decode_header token) AuthError.invalid_header
    bail_if (not (is_supported auth alg)) AuthError.unsupported_algorithm
    kid' ← ok_or kid AuthError.no_kid
    ok (alg, kid')

  -- From the key on: the signature, the issuer, the audience and the claims.
  unfoldable pub check_signed :
      Option ops.Jwk
      → ops.Algorithm
      → String
      → String
      → String
      → String
      → String
      → Outcome AuthError (Unit {0})
  unfolding check_claims
  check_signed jwk alg token issuer audience subject scope = do
    known ← ok_or jwk AuthError.unknown_key
    key ← ok_or (ops.from_jwk known) AuthError.invalid_jwk
    claims ← ok_or (ops.decode token key alg issuer audience) AuthError.invalid_jwt
    check_claims subject scope claims

  -- The key of an OIDC token, the authenticator with the refreshed keys, and the times at which
  -- `fetch_jwks` was called. `now` is read for `elapsed()`, `later` after the fetch, whose result
  -- is `fetched`.
  unfoldable pub find_or_refresh :
      OidcAuthenticator
      → String
      → ℕ
      → ℕ
      → Option ops.JwkSet
      → Outcome AuthError (Option ops.Jwk) × OidcAuthenticator × List ℕ
  find_or_refresh a kid now later fetched = elim (ops.find_key kid a.keys) [
    | some jwk ↦ (ok (some jwk), a, [])
    | none ↦
        if leb refresh_interval (now - a.last_jwks_refresh)
        then elim fetched [
          | none ↦ (err AuthError.fetch_failed, a, now ∷ [])
          | some refreshed ↦ (
            ok (ops.find_key kid refreshed),
            record a { keys = refreshed; last_jwks_refresh = later },
            now ∷ [],
          )
        ]
        else (ok none, a, [])
  ]

  -- The answer, the authenticator afterwards, and the times at which keys were fetched.
  unfoldable pub verify :
      Authenticator
      → String
      → ℕ
      → ℕ
      → Option ops.JwkSet
      → Outcome AuthError (Unit {0}) × Authenticator × List ℕ
  unfolding check_header check_signed find_or_refresh constant_time_eq
  verify (Authenticator.bearer secret) token now later fetched = (
    (if constant_time_eq token secret then ok tt else err AuthError.invalid_bearer_token),
    Authenticator.bearer secret,
    [],
  )
  verify Authenticator.disabled token now later fetched = (ok tt, Authenticator.disabled, [])
  verify (Authenticator.embedded_oauth config public_jwk) token now later fetched = (
    (check_header (Authenticator.embedded_oauth config public_jwk) token >>= λ h.
        check_signed (if str_eq h.1 "1" then some public_jwk else none) h.0 token
          config.public_base_url config.public_base_url config.username config.required_scope),
    Authenticator.embedded_oauth config public_jwk,
    [],
  )
  verify (Authenticator.oidc a) token now later fetched =
      elim (check_header (Authenticator.oidc a) token) [
        | err e ↦ (err e, Authenticator.oidc a, [])
        | ok h ↦
            let (found, a', fetches) = find_or_refresh a h.1 now later fetched in
            (
              (found >>= λ jwk.
                  check_signed jwk h.0 token a.config.issuer a.config.audience
                    a.config.allowed_subject a.config.required_scope),
              Authenticator.oidc a',
              fetches,
            )
      ]

  -- Whether the request is passed on, with the token of its `Authorization` header if it has one.
  unfoldable pub require_auth :
      Authenticator → Option String → ℕ → ℕ → Option ops.JwkSet → Bool × Authenticator
  unfolding verify
  require_auth Authenticator.disabled token now later fetched = (true, Authenticator.disabled)
  require_auth auth none now later fetched = (false, auth)
  require_auth auth (some token) now later fetched =
      let (answer, auth', _) = verify auth token now later fetched in (is_ok answer, auth')
