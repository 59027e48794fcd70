-- ===== src/Oauth/Server.antt =====
-- The handlers of src/embedded_oauth.rs on the state that they share. A handler that returns has
-- held the mutex while it ran, so each is one step. The verification of passwords, the S256
-- challenge of a verifier and the signature of claims are parameters, as are the readings of the
-- clocks and the identifiers that are drawn. An `Instant` is a number of nanoseconds.
use Prim.Native.String.{◌++◌ as string_append}
use aprendiendo.Base.{
  ℕ, ◌+◌, String, Bool, not, ◌&&◌, ◌||◌, Option, none, some, List, [], ◌∷◌, Outcome, ok, err, ◌>>◌,
  bail_if, any, keep, is_some_and, unwrap_or, str_eq, codes, split_ascii_whitespace, same_codes,
  ltb, if◌then◌else◌,
}

pub record EmbeddedOauthConfig : Type 0 where
  pub public_base_url : String
  pub username : String
  pub password_hash : String
  pub ed25519_private_key_path : String
  pub client_id : String
  pub redirect_uri : String
  pub required_scope : String

pub record AuthCode : Type 0 where
  pub code : String
  pub client_id : String
  pub redirect_uri : String
  pub code_challenge : String
  pub code_challenge_method : String
  pub expires_at : ℕ

-- The keys of the map `auth_codes` are the codes themselves.
pub record EmbeddedOauthState : Type 0 where
  pub config : EmbeddedOauthConfig
  pub auth_codes : List (String × AuthCode)

-- `HashMap::get`, `insert` and `remove`
abbrev pub find_code : String → List (String × AuthCode) → Option AuthCode
find_code code [] = none
find_code code (e ∷ es) = let rest = find_code code es in if str_eq e.0 code then some e.1 else rest

abbrev pub remove_code : String → List (String × AuthCode) → List (String × AuthCode)
remove_code code es = keep (λ (e : String × AuthCode). not (str_eq e.0 code)) es

abbrev pub insert_code : String → AuthCode → List (String × AuthCode) → List (String × AuthCode)
insert_code code value es = (code, value) ∷ remove_code code es

pub record AuthorizeQuery : Type 0 where
  pub client_id : String
  pub redirect_uri : String
  pub response_type : String
  pub scope : String
  pub state : Option String
  pub code_challenge : String
  pub code_challenge_method : String

pub record LoginForm : Type 0 where
  pub username : Option String
  pub password : Option String
  pub csrf_token : String
  pub action : String

-- The status and the message of a refusal of the two authorization handlers.
pub data AuthorizeError : Type 0 where
  invalid_client_or_redirect unsupported_response_type unsupported_challenge_method : AuthorizeError
  invalid_scope invalid_csrf_token invalid_credentials : AuthorizeError

abbrev is_other_client : AuthorizeQuery → EmbeddedOauthConfig → Bool
is_other_client query config =
    not (str_eq query.client_id config.client_id)
    || not (str_eq query.redirect_uri config.redirect_uri)

-- The token of the form and of the cookie, `drawn`, where the request is in order.
unfoldable pub authorize_get :
    EmbeddedOauthConfig → AuthorizeQuery → String → Outcome AuthorizeError String
authorize_get config query drawn = do
  bail_if (is_other_client query config) AuthorizeError.invalid_client_or_redirect
  bail_if (not (str_eq query.response_type "code")) AuthorizeError.unsupported_response_type
  bail_if (not (str_eq query.code_challenge_method "S256"))
      AuthorizeError.unsupported_challenge_method
  bail_if
      (not (
        any (λ sc. same_codes sc (codes config.required_scope))
          (split_ascii_whitespace (codes query.scope))))
      AuthorizeError.invalid_scope
  ok drawn

-- A redirection; the cookie is removed where a code was issued.
pub data AuthorizeAnswer : Type 0 where
  denied issued : String → AuthorizeAnswer

-- `if let Some(st) = query.state { redirect.push_str(…) }`
abbrev with_state : Option String → String → String
with_state none redirect = redirect
with_state (some st) redirect = string_append redirect (string_append "&state=" st)

abbrev denial : AuthorizeQuery → EmbeddedOauthConfig → String
denial query config = with_state query.state (
    string_append query.redirect_uri
      (string_append "?error=access_denied&iss=" config.public_base_url))

abbrev issuance : AuthorizeQuery → EmbeddedOauthConfig → String → String
issuance query config code = with_state query.state (
    string_append query.redirect_uri
      (string_append "?code=" (string_append code (string_append "&iss=" config.public_base_url))))

-- 300 seconds.
abbrev pub code_lifetime : ℕ
code_lifetime = 300000000000

abbrev pub auth_code : AuthorizeQuery → String → ℕ → AuthCode
auth_code query code now = record {
  code = code;
  client_id = query.client_id;
  redirect_uri = query.redirect_uri;
  code_challenge = query.code_challenge;
  code_challenge_method = query.code_challenge_method;
  expires_at = now + code_lifetime;
}

-- `username_ok && password_ok`; a hash that does not parse is a password that does not verify.
abbrev pub has_credentials : (String → String → Bool) → LoginForm → EmbeddedOauthConfig → Bool
has_credentials verify_password form config =
    str_eq (unwrap_or form.username "") config.username
    && verify_password (unwrap_or form.password "") config.password_hash

unfoldable pub authorize_post :
    (String → String → Bool)
    → EmbeddedOauthState
    → Option String
    → AuthorizeQuery
    → LoginForm
    → String
    → ℕ
    → Outcome AuthorizeError AuthorizeAnswer × EmbeddedOauthState
authorize_post verify_password s cookie query form drawn now =
    if not (is_some_and cookie (λ expected. str_eq expected form.csrf_token))
    then (err AuthorizeError.invalid_csrf_token, s)
    else if is_other_client query s.config
    then (err AuthorizeError.invalid_client_or_redirect, s)
    else if str_eq form.action "deny"
    then (ok (AuthorizeAnswer.denied (denial query s.config)), s)
    else if not (has_credentials verify_password form s.config)
    then (err AuthorizeError.invalid_credentials, s)
    else (
      ok (AuthorizeAnswer.issued (issuance query s.config drawn)),
      record s { auth_codes = insert_code drawn (auth_code query drawn now) s.auth_codes },
    )

pub record TokenRequest : Type 0 where
  pub grant_type : String
  pub code : String
  pub client_id : String
  pub redirect_uri : String
  pub code_verifier : String

pub record JwtClaims : Type 0 where
  pub iss : String
  pub sub : String
  pub aud : String
  pub exp : ℕ
  pub scope : String

pub record TokenResponse : Type 0 where
  pub access_token : String
  pub token_type : String
  pub expires_in : ℕ
  pub scope : String

pub data TokenError : Type 0 where
  unsupported_grant_type invalid_grant server_error : TokenError

abbrev pub claims_of : EmbeddedOauthConfig → ℕ → JwtClaims
claims_of config now = record {
  iss = config.public_base_url;
  sub = config.username;
  aud = config.public_base_url;
  exp = now + 3600;
  scope = config.required_scope;
}

-- What follows the challenge. `clock` is the time since the Unix epoch, none before it.
unfoldable pub issue_token :
    (JwtClaims → Option String) → EmbeddedOauthConfig → Option ℕ → Outcome TokenError TokenResponse
issue_token sign config none = err TokenError.server_error
issue_token sign config (some now) = elim (sign (claims_of config now)) [
  | none ↦ err TokenError.server_error
  | some token ↦ ok (record {
    access_token = token;
    token_type = "Bearer";
    expires_in = 3600;
    scope = config.required_scope;
  })
]

-- What follows the removal of the code from the map.
unfoldable pub redeem :
    (String → String)
    → (JwtClaims → Option String)
    → EmbeddedOauthConfig
    → TokenRequest
    → Option ℕ
    → Option AuthCode
    → Outcome TokenError TokenResponse
unfolding issue_token
redeem challenge_of sign config req clock none = err TokenError.invalid_grant
redeem challenge_of sign config req clock (some c) = do
  bail_if (not (str_eq c.client_id req.client_id) || not (str_eq c.redirect_uri req.redirect_uri))
      TokenError.invalid_grant
  bail_if (not (str_eq c.code_challenge (challenge_of req.code_verifier))) TokenError.invalid_grant
  issue_token sign config clock

-- `retain(|_, v| v.expires_at > Instant::now())`, with a reading of the clock for each entry.
abbrev pub live_codes : (String → ℕ) → List (String × AuthCode) → List (String × AuthCode)
live_codes now es = keep (λ (e : String × AuthCode). ltb (now e.0) e.1.expires_at) es

unfoldable pub token_post :
    (String → String)
    → (JwtClaims → Option String)
    → EmbeddedOauthState
    → TokenRequest
    → (String → ℕ)
    → Option ℕ
    → Outcome TokenError TokenResponse × EmbeddedOauthState
unfolding redeem
token_post challenge_of sign s req now clock =
    if not (str_eq req.grant_type "authorization_code")
    then (err TokenError.unsupported_grant_type, s)
    else let live = live_codes now s.auth_codes in
      (
        redeem challenge_of sign s.config req clock (find_code req.code live),
        record s { auth_codes = remove_code req.code live },
      )
