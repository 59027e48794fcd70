-- ===== src/Oauth/Tokens.antt =====
-- What an accepted bearer token of an OIDC issuer has shown.
use aprendiendo.Base.{
  ℕ, ◌≡◌, inl, inr, String, true, false, not, Option, some, ok, ◌>>=◌, bail_if, ok_or, >>=-eq-ok,
  is_some_and, str_eq, eq_iff, arith, Outcome-cases,
}
use aprendiendo.Oauth.Verify.{
  Claims, JwtOps, OidcAuthenticator, Authenticator, AuthError, has_scope, check_claims,
  check_header, check_signed, find_or_refresh, verify,
}

module _ (ops : JwtOps) where
  -- A token that a key signed, with claims of this issuer, audience, subject and scope.
  pub record IsSigned (jwk : ops.Jwk) (token issuer audience subject scope : String) : Type 0 where
    pub algorithm : ops.Algorithm
    pub key : ops.DecodingKey
    pub claims : Claims
    pub usable : ops.from_jwk jwk ≡ some key
    pub decoded : ops.decode token key algorithm issuer audience ≡ some claims
    pub subjected : claims.sub ≡ subject
    pub access : is_some_and claims.token_type (λ t. str_eq t "id-token") ≡ false
    pub scoped : has_scope claims scope ≡ true

  check_signed-IsSigned :
      (jwk : Option ops.Jwk) (alg : ops.Algorithm) (token issuer audience subject scope : String)
      → check_signed ops jwk alg token issuer audience subject scope ≡ ok tt
      → (known : ops.Jwk) × (jwk ≡ some known) × IsSigned known token issuer audience subject scope
  unfolding check_signed check_claims
  check_signed-IsSigned jwk alg token issuer audience subject scope h =
      let (known, looked, h1) = >>=-eq-ok (ok_or jwk AuthError.unknown_key) _ h in
      let (key, made, h2) = >>=-eq-ok (ok_or (ops.from_jwk known) AuthError.invalid_jwk) _ h1 in
      let (claims, read, h3) =
        >>=-eq-ok (ok_or (ops.decode token key alg issuer audience) AuthError.invalid_jwt) _ h2 in
      let (_, subject', h4) =
        >>=-eq-ok (bail_if (not (str_eq claims.sub subject)) AuthError.other_subject) _ h3 in
      let (_, access', scope') =
        >>=-eq-ok
          (bail_if (is_some_and claims.token_type (λ t. str_eq t "id-token")) AuthError.id_token) _
          h4 in
      (
        known,
        ground (arith, looked),
        record {
          algorithm = alg;
          key = key;
          claims = claims;
          usable = ground (arith, made);
          decoded = ground (arith, read);
          subjected = ground (arith, subject', eq_iff claims.sub subject);
          access = ground (arith, access');
          scoped = ground (arith, scope');
        },
      )

  find_or_refresh-held :
      (a : OidcAuthenticator ops) (kid : String) (now later : ℕ) (fetched : Option ops.JwkSet)
      (jwk : ops.Jwk)
      → (find_or_refresh ops a kid now later fetched).0 ≡ ok (some jwk)
      → ops.find_key kid (find_or_refresh ops a kid now later fetched).1.keys ≡ some jwk
  unfolding find_or_refresh
  find_or_refresh-held a kid now later fetched jwk h = ground arith

  -- An OIDC token that is accepted was signed by a key that the authenticator holds afterwards, and
  -- is of the configured issuer, for the configured audience, subject and scope, and no ID token.
  pub verify-oidc :
      (a : OidcAuthenticator ops) (token : String) (now later : ℕ) (fetched : Option ops.JwkSet)
      → (verify ops (Authenticator.oidc a) token now later fetched).0 ≡ ok tt
      → (kid : String) × (jwk : ops.Jwk) × (held : OidcAuthenticator ops) × ((verify ops
            (Authenticator.oidc a)
            token
            now
            later
            fetched).1
          ≡ Authenticator.oidc held)
        × (ops.find_key kid held.keys ≡ some jwk)
        × IsSigned jwk token a.config.issuer a.config.audience a.config.allowed_subject
            a.config.required_scope
  unfolding verify
  verify-oidc a token now later fetched h =
      elim (Outcome-cases (check_header ops (Authenticator.oidc a) token)) [
        | inr (e, refused) ↦ absurd (ground (arith, refused, h))
        | inl ((alg, kid), headed) ↦
            let step = find_or_refresh ops a kid now later fetched in
            let checked : (step.0 >>= λ jwk.
            check_signed ops jwk alg token a.config.issuer a.config.audience
              a.config.allowed_subject a.config.required_scope)
                ≡ ok tt =
              ground (arith, headed, h) in
            let (found, looked, h1) = >>=-eq-ok step.0 _ checked in
            let (jwk, known, signed) = check_signed-IsSigned found alg token _ _ _ _ h1 in
            (
              kid,
              jwk,
              step.1,
              ground (arith, headed),
              find_or_refresh-held a kid now later fetched jwk (ground (arith, looked, known)),
              signed,
            )
      ]
