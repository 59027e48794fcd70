-- ===== src/Oauth/Examples.antt =====
-- A server with one client, and tokens that are their claims, on which the theorems are applied.
use aprendiendo.Base.{
  ◌+◌, ◌≤◌, ◌<◌, ◌≡◌, ◌↔◌, refl, String, Bool, true, false, Option, none, some, List, [], ◌∷◌,
  Outcome, ok, is_ok, find, str_eq, arith, split_ascii_whitespace, eq_iff, ◌&&◌, if◌then◌else◌,
}
use aprendiendo.Oauth.Server.{
  EmbeddedOauthConfig, EmbeddedOauthState, AuthorizeQuery, LoginForm, TokenRequest, TokenResponse,
  JwtClaims, AuthorizeAnswer, AuthorizeError, authorize_post, issue_token, redeem, token_post,
}
use aprendiendo.Oauth.Verify.{
  ScopeClaim, Claims, JwtOps, OidcAuthenticator, Authenticator, as_bytes, constant_time_eq,
  contains_scope, has_scope, check_claims, is_supported, check_header, check_signed,
  find_or_refresh, refresh_interval, verify,
}
use aprendiendo.Oauth.Once.{Later, token_post-once}
use aprendiendo.Oauth.Exchange.{Reach, IsEntitled, token_post-IsEntitled, token_post-authorize_post}
use aprendiendo.Oauth.Bytes.{constant_time_eq_iff}
use aprendiendo.Oauth.Tokens.{IsSigned, verify-oidc}
use aprendiendo.Oauth.Issued.{IsIssuer, read_back}
use aprendiendo.Oauth.Refresh.{Served, verify-interval}

abbrev server : EmbeddedOauthConfig
server = record {
  public_base_url = "https://tutor";
  username = "ana";
  password_hash = "secreto";
  ed25519_private_key_path = "key.pem";
  client_id = "app";
  redirect_uri = "https://app/cb";
  required_scope = "tutor";
}

abbrev query : AuthorizeQuery
query = record {
  client_id = "app";
  redirect_uri = "https://app/cb";
  response_type = "code";
  scope = "openid tutor";
  state = some "x";
  code_challenge = "v";
  code_challenge_method = "S256";
}

abbrev login : LoginForm
login = record {
  username = some "ana";
  password = some "secreto";
  csrf_token = "t";
  action = "authorize";
}

abbrev request : TokenRequest
request = record {
  grant_type = "authorization_code";
  code = "c-1";
  client_id = "app";
  redirect_uri = "https://app/cb";
  code_verifier = "v";
}

abbrev plain : String → String
plain verifier = verifier

abbrev sign_subject : JwtClaims → Option String
sign_subject claims = some claims.sub

abbrev logged_in : Outcome AuthorizeError AuthorizeAnswer × EmbeddedOauthState
logged_in =
    authorize_post str_eq (record { config = server; auth_codes = [] }) (some "t") query login "c-1"
      7

abbrev granted : TokenResponse
granted = record { access_token = "ana"; token_type = "Bearer"; expires_in = 3600; scope = "tutor" }

abbrev location : String
location = "https://app/cb?code=c-1&iss=https://tutor&state=x"

login_issues : logged_in.0 ≡ ok (AuthorizeAnswer.issued location)
unfolding authorize_post
login_issues = refl

exchange_grants :
    (token_post plain sign_subject logged_in.1 request (λ _. 8) (some 9)).0 ≡ ok granted
unfolding authorize_post token_post redeem issue_token
exchange_grants = refl

token_post-once_example :
    is_ok
      (token_post plain sign_subject
        (token_post plain sign_subject logged_in.1 request (λ _. 8) (some 9)).1
        request
        (λ _. 10)
        (some 11)).0
    ≡ false
token_post-once_example =
    token_post-once str_eq plain sign_subject logged_in.1
      (token_post plain sign_subject logged_in.1 request (λ _. 8) (some 9)).1 request (λ _. 8)
      (some 9) request (λ _. 10) (some 11) refl Later.now refl

token_post-IsEntitled_example :
    IsEntitled str_eq plain sign_subject logged_in.1 request (λ _. 8) (some 9) granted
token_post-IsEntitled_example =
    token_post-IsEntitled str_eq plain sign_subject server logged_in.1 request (λ _. 8) (some 9)
      granted (Reach.authorized (some "t") query login "c-1" 7 Reach.started) exchange_grants

token_post-authorize_post_example :
    (token_post plain sign_subject logged_in.1 request (λ _. 8) (some 9)).0
    ≡ ok
        (record { access_token = "ana"; token_type = "Bearer"; expires_in = 3600; scope = "tutor" })
token_post-authorize_post_example =
    token_post-authorize_post str_eq plain sign_subject
      (record { config = server; auth_codes = [] }) (some "t") query login "c-1" location 7 request
      (λ _. 8) 9 "ana" login_issues refl refl refl refl refl (omega arith) refl

abbrev good_claims : Claims
good_claims = record {
  sub = "ana";
  scope = some (ScopeClaim.space_separated "tutor");
  scp = none;
  token_type = none;
}

abbrev simple_ops : JwtOps
simple_ops = record {
  Algorithm = Bool;
  Jwk = String;
  JwkSet = List String;
  DecodingKey = String;
  is_ed_dsa = λ alg. alg;
  is_rs256 = λ _. false;
  is_rs384 = λ _. false;
  is_rs512 = λ _. false;
  decode_header = λ _. some (true, some "1");
  from_jwk = λ jwk. some jwk;
  find_key = λ kid set. find (λ k. str_eq k kid) set;
  decode = λ token key alg issuer audience.
      if str_eq issuer "https://tutor" && str_eq audience "https://tutor"
      then some good_claims
      else none;
}

-- Claims are signed where the decoder above gives them back.
abbrev sign_server : JwtClaims → Option String
sign_server c =
    if str_eq c.iss "https://tutor" && str_eq c.aud "https://tutor"
    then (if str_eq c.sub "ana" && str_eq c.scope "tutor" then some "t" else none)
    else none

decode_signed :
    (c : JwtClaims) (token : String)
    → sign_server c ≡ some token
    → 3000 < c.exp
    → simple_ops.decode token "1" true c.iss c.aud ≡ some (read_back c)
decode_signed c token h soon = ground (
  arith,
  eq_iff c.iss "https://tutor",
  eq_iff c.aud "https://tutor",
  eq_iff c.sub "ana",
  eq_iff c.scope "tutor",
)

abbrev provider : OidcAuthenticator simple_ops
provider = record {
  config = record {
    public_base_url = "https://tutor";
    issuer = "https://tutor";
    audience = "https://tutor";
    jwks_url = "https://tutor/jwks";
    allowed_subject = "ana";
    required_scope = "tutor";
  };
  keys = [];
  last_jwks_refresh = 0;
}

embedded_accepts :
    (verify simple_ops (Authenticator.embedded_oauth server "1") "ana" 0 0 none).0 ≡ ok tt
unfolding verify check_header is_supported check_signed check_claims has_scope contains_scope
    split_ascii_whitespace
embedded_accepts = refl

oidc_accepts :
    (verify simple_ops
      (Authenticator.oidc provider)
      "ana"
      60000000000
      60000000001
      (some ("1" ∷ []))).0
    ≡ ok tt
unfolding verify check_header is_supported check_signed check_claims has_scope contains_scope
    split_ascii_whitespace find_or_refresh
oidc_accepts = refl

abbrev issuing : IsIssuer simple_ops sign_server "1" 3000
issuing = record {
  algorithm = true;
  key = "1";
  ed_dsa = refl;
  usable = refl;
  headed = λ c token h. refl;
  decoded = decode_signed;
}

verify-oidc_example :
    (kid : String) × (jwk : String) × (held : OidcAuthenticator simple_ops) × ((verify simple_ops
        (Authenticator.oidc provider)
        "ana"
        60000000000
        60000000001
        (some ("1" ∷ []))).1
      ≡ Authenticator.oidc held)
    × (find (λ k. str_eq k kid) held.keys ≡ some jwk)
    × IsSigned simple_ops jwk "ana" "https://tutor" "https://tutor" "ana" "tutor"
verify-oidc_example =
    verify-oidc simple_ops provider "ana" 60000000000 60000000001 (some ("1" ∷ [])) oidc_accepts

-- The provider after a fetch, at 60 seconds, that gave no keys.
abbrev refreshed : OidcAuthenticator simple_ops
refreshed = record provider { last_jwks_refresh = 60000000001 }

-- At 130 seconds the key is still unknown: the keys are fetched again.
verify-interval_example :
    (60000000001 + refresh_interval ≤ 130000000000)
    × ((verify simple_ops (Authenticator.oidc refreshed) "ana" 130000000000 130000000001 none).2
        ≡ 130000000000 ∷ [])
unfolding verify check_header is_supported check_signed check_claims has_scope contains_scope
    split_ascii_whitespace find_or_refresh
verify-interval_example =
    verify-interval simple_ops provider refreshed refreshed "ana" "ana" 60000000000 60000000001
      130000000000 130000000001 [] none (cc) refl Served.idle (cc)

constant_time_eq-iff_example :
    (constant_time_eq "clave" "clava" ≡ true) ↔ (as_bytes "clave" ≡ as_bytes "clava")
constant_time_eq-iff_example = constant_time_eq_iff "clave" "clava"
