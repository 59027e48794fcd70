-- ===== src/Oauth/Issued.antt =====
-- The two ends of a token: `token_post` of src/embedded_oauth.rs issues it, and `verify` of
-- src/auth.rs tests it.
use aprendiendo.Base.{
  ℕ, ◌<◌, ◌≡◌, String, true, Option, none, some, [], ◌∷◌, codes, split_ascii_whitespace,
}
use aprendiendo.Oauth.Server.{JwtClaims}
use aprendiendo.Oauth.Verify.{ScopeClaim, Claims, JwtOps}

-- What `Claims` reads from the claims that `JwtClaims` writes: the other fields are absent.
abbrev pub read_back : JwtClaims → Claims
read_back c = record {
  sub = c.sub;
  scope = some (ScopeClaim.space_separated c.scope);
  scp = none;
  token_type = none;
}

-- What is relied on of the JWT library: with EdDSA and the key of `jwk`, a token that `encode` made
-- has the header that it was given, and before its expiry it decodes, for its issuer and its
-- audience, to its claims. `present` is the time at which tokens are decoded.
pub record IsIssuer (ops : JwtOps) (sign : JwtClaims → Option String) (jwk : ops.Jwk) (present : ℕ)
    : Type 0 where
  pub algorithm : ops.Algorithm
  pub key : ops.DecodingKey
  pub ed_dsa : ops.is_ed_dsa algorithm ≡ true
  pub usable : ops.from_jwk jwk ≡ some key
  pub headed :
      (c : JwtClaims) (token : String)
      → sign c ≡ some token
      → ops.decode_header token ≡ some (algorithm, some "1")
  pub decoded :
      (c : JwtClaims) (token : String)
      → sign c ≡ some token
      → present < c.exp
      → ops.decode token key algorithm c.iss c.aud ≡ some (read_back c)

-- The scope is one word.
abbrev pub IsWord : String → Type 0
IsWord scope = split_ascii_whitespace (codes scope) ≡ codes scope ∷ []
