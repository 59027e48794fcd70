-- ===== src/Oauth/Refresh.antt =====
-- How often the keys of an OIDC issuer are fetched (`verify` of src/auth.rs), over any sequence of
-- requests.
use aprendiendo.Base.{
  ℕ, ◌+◌, ◌≤◌, ◌≡◌, ◌≢◌, inl, inr, String, Option, some, [], ◌∷◌, arith, Outcome-cases,
}
use aprendiendo.Oauth.Verify.{
  JwtOps, OidcAuthenticator, Authenticator, check_header, find_or_refresh, refresh_interval, verify,
}

module _ (ops : JwtOps) where
  -- What a sequence of requests makes of an authenticator. The clock, which is read before and
  -- after a fetch, does not go back.
  pub data Served (a : OidcAuthenticator ops) : OidcAuthenticator ops → Type 0 where
    idle : Served a a
    request :
        {b c : OidcAuthenticator ops} (token : String) (now later : ℕ) (fetched : Option ops.JwkSet)
        → Served a b
        → now ≤ later
        → (verify ops (Authenticator.oidc b) token now later fetched).1 ≡ Authenticator.oidc c
        → Served a c

  -- A fetch is made only when the interval is over, and once.
  find_or_refresh-fetched :
      (a : OidcAuthenticator ops) (kid : String) (now later : ℕ) (fetched : Option ops.JwkSet)
      → (find_or_refresh ops a kid now later fetched).2 ≢ []
      → (a.last_jwks_refresh + refresh_interval ≤ now)
        × ((find_or_refresh ops a kid now later fetched).2 ≡ now ∷ [])
  unfolding find_or_refresh
  find_or_refresh-fetched a kid now later fetched h = ground arith

  find_or_refresh-refreshed :
      (a : OidcAuthenticator ops) (kid : String) (now later : ℕ) (keys : ops.JwkSet)
      → (find_or_refresh ops a kid now later (some keys)).2 ≢ []
      → (find_or_refresh ops a kid now later (some keys)).1.last_jwks_refresh ≡ later
  unfolding find_or_refresh
  find_or_refresh-refreshed a kid now later keys h = ground arith

  find_or_refresh-later :
      (a : OidcAuthenticator ops) (kid : String) (now later : ℕ) (fetched : Option ops.JwkSet)
      → now ≤ later
      → a.last_jwks_refresh ≤ (find_or_refresh ops a kid now later fetched).1.last_jwks_refresh
  unfolding find_or_refresh
  find_or_refresh-later a kid now later fetched h = ground arith

  verify-fetched :
      (a : OidcAuthenticator ops) (token : String) (now later : ℕ) (fetched : Option ops.JwkSet)
      → (verify ops (Authenticator.oidc a) token now later fetched).2 ≢ []
      → (a.last_jwks_refresh + refresh_interval ≤ now)
        × ((verify ops (Authenticator.oidc a) token now later fetched).2 ≡ now ∷ [])
  unfolding verify
  verify-fetched a token now later fetched h =
      elim (Outcome-cases (check_header ops (Authenticator.oidc a) token)) [
        | inr (e, refused) ↦ absurd (ground (arith, refused, h))
        | inl ((alg, kid), headed) ↦
            ground (arith, headed, find_or_refresh-fetched a kid now later fetched)
      ]

  verify-refreshed :
      (a b : OidcAuthenticator ops) (token : String) (now later : ℕ) (keys : ops.JwkSet)
      → (verify ops (Authenticator.oidc a) token now later (some keys)).2 ≢ []
      → (verify ops (Authenticator.oidc a) token now later (some keys)).1 ≡ Authenticator.oidc b
      → b.last_jwks_refresh ≡ later
  unfolding verify
  verify-refreshed a b token now later keys h e =
      elim (Outcome-cases (check_header ops (Authenticator.oidc a) token)) [
        | inr (error, refused) ↦ absurd (ground (arith, refused, h))
        | inl ((alg, kid), headed) ↦
            ground (arith, headed, find_or_refresh-refreshed a kid now later keys)
      ]

  verify-later :
      (a b : OidcAuthenticator ops) (token : String) (now later : ℕ) (fetched : Option ops.JwkSet)
      → now ≤ later
      → (verify ops (Authenticator.oidc a) token now later fetched).1 ≡ Authenticator.oidc b
      → a.last_jwks_refresh ≤ b.last_jwks_refresh
  unfolding verify
  verify-later a b token now later fetched h e =
      elim (Outcome-cases (check_header ops (Authenticator.oidc a) token)) [
        | inr (error, refused) ↦
            let same : Authenticator.oidc a ≡ Authenticator.oidc b = ground (arith, refused, e) in
            ground arith
        | inl ((alg, kid), headed) ↦
            ground (arith, headed, find_or_refresh-later a kid now later fetched)
      ]

  Served-later :
      (a : OidcAuthenticator ops) {b : OidcAuthenticator ops}
      → Served a b
      → a.last_jwks_refresh ≤ b.last_jwks_refresh
  Served-later a Served.idle = omega arith
  Served-later a {b = c} (Served.request {b = b} token now later fetched before forward e) =
      omega (arith, Served-later a before, verify-later b c token now later fetched forward e)

  -- After a request for which the keys of an OIDC issuer were fetched with success, and whatever
  -- requests come then, no request fetches them again until 60 seconds after that fetch ended;
  -- one that does fetch them does so once. The clock is one that does not go back within a
  -- request.
  pub verify-interval :
      (a b c : OidcAuthenticator ops) (token token' : String) (now later now' later' : ℕ)
      (keys : ops.JwkSet) (fetched : Option ops.JwkSet)
      → (verify ops (Authenticator.oidc a) token now later (some keys)).2 ≢ []
      → (verify ops (Authenticator.oidc a) token now later (some keys)).1 ≡ Authenticator.oidc b
      → Served b c
      → (verify ops (Authenticator.oidc c) token' now' later' fetched).2 ≢ []
      → (later + refresh_interval ≤ now')
        × ((verify ops (Authenticator.oidc c) token' now' later' fetched).2 ≡ now' ∷ [])
  verify-interval a b c token token' now later now' later' keys fetched first e between again =
      let (waited, once) = verify-fetched c token' now' later' fetched again in
      (
        omega (
          arith,
          waited,
          Served-later b between,
          verify-refreshed a b token now later keys first e,
        ),
        once,
      )
