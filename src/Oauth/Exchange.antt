-- ===== src/Oauth/Exchange.antt =====
-- What a token proves of the request that got it, and which requests get one.
use aprendiendo.Base.{
  All-keep, ℕ, ◌+◌, ◌<◌, ◌≡◌, ◌⊎◌, refl, sym, String, Bool, true, Option, none, some, [], ok,
  str_eq, eq_iff, arith, Bool-cases, Option-cases, inl, inr,
}
use aprendiendo.Oauth.Server.{
  EmbeddedOauthConfig, EmbeddedOauthState, AuthCode, AuthorizeQuery, LoginForm, TokenRequest,
  TokenResponse, JwtClaims, AuthorizeAnswer, find_code, remove_code, insert_code, live_codes,
  auth_code, code_lifetime, claims_of, authorize_post, issue_token, redeem, token_post,
}
use aprendiendo.Oauth.Once.{find_code-remove_code}
use aprendiendo.Oauth.Codes.{keep-IsUnique, find_code-kept, IsIssued, find_code-All}

module _ (verify_password : String → String → Bool) (challenge_of : String → String)
    (sign : JwtClaims → Option String) where
  -- A login leaves the state, or adds a code for the one client.
  authorize_post-cases :
      (s : EmbeddedOauthState) (cookie : Option String) (query : AuthorizeQuery) (form : LoginForm)
      (drawn : String) (instant : ℕ)
      → ((authorize_post verify_password s cookie query form drawn instant).1 ≡ s)
        ⊎ ((query.client_id ≡ s.config.client_id)
            × (query.redirect_uri ≡ s.config.redirect_uri)
            × ((authorize_post verify_password s cookie query form drawn instant).1 ≡ record s {
              auth_codes = insert_code drawn (auth_code query drawn instant) s.auth_codes;
            }))
  unfolding authorize_post
  authorize_post-cases s cookie query form drawn instant = ground (
    arith,
    eq_iff query.client_id s.config.client_id,
    eq_iff query.redirect_uri s.config.redirect_uri,
  )

  authorize_post-IsIssued :
      (s : EmbeddedOauthState) (cookie : Option String) (query : AuthorizeQuery) (form : LoginForm)
      (drawn : String) (instant : ℕ)
      → IsIssued s
      → IsIssued (authorize_post verify_password s cookie query form drawn instant).1
  authorize_post-IsIssued s cookie query form drawn instant i =
      elim (authorize_post-cases s cookie query form drawn instant) [
        | inl left ↦ rw left i
        | inr (client, redirect, added) ↦ rw added (record {
          unique =
              (find_code-remove_code drawn s.auth_codes, keep-IsUnique _ s.auth_codes i.unique);
          client = ((client, redirect), All-keep _ _ s.auth_codes i.client);
        })
      ]

  token_post-IsIssued :
      (s : EmbeddedOauthState) (req : TokenRequest) (instants : String → ℕ) (clock : Option ℕ)
      → IsIssued s
      → IsIssued (token_post challenge_of sign s req instants clock).1
  unfolding token_post
  token_post-IsIssued s req instants clock i =
      elim (Bool-cases (str_eq req.grant_type "authorization_code")) [
        | inl grant ↦
            let step : (token_post challenge_of sign s req instants clock).1 ≡ record s {
              auth_codes = remove_code req.code (live_codes instants s.auth_codes);
            } =
              ground (arith, grant) in
            rw step (record {
              unique =
                  keep-IsUnique _ (live_codes instants s.auth_codes)
                    (keep-IsUnique _ s.auth_codes i.unique);
              client =
                  All-keep _ _ (live_codes instants s.auth_codes)
                    (All-keep _ _ s.auth_codes i.client);
            })
        | inr other ↦
            let left : (token_post challenge_of sign s req instants clock).1 ≡ s =
              ground (arith, other) in
            rw left i
      ]

  -- The states of a server that started with no codes.
  pub data Reach (config : EmbeddedOauthConfig) : EmbeddedOauthState → Type 0 where
    started : Reach config (record { config = config; auth_codes = [] })
    authorized :
        {s : EmbeddedOauthState} (cookie : Option String) (query : AuthorizeQuery)
        (form : LoginForm) (drawn : String) (instant : ℕ)
        → Reach config s
        → Reach config (authorize_post verify_password s cookie query form drawn instant).1
    exchanged :
        {s : EmbeddedOauthState} (req : TokenRequest) (instants : String → ℕ) (clock : Option ℕ)
        → Reach config s
        → Reach config (token_post challenge_of sign s req instants clock).1

  Reach-IsIssued :
      (config : EmbeddedOauthConfig) (s : EmbeddedOauthState) → Reach config s → IsIssued s
  Reach-IsIssued config s Reach.started = record { unique = tt; client = tt }
  Reach-IsIssued config s (Reach.authorized {s = u} cookie query form drawn instant before) =
      authorize_post-IsIssued u cookie query form drawn instant (Reach-IsIssued config u before)
  Reach-IsIssued config s (Reach.exchanged {s = u} req instants clock before) =
      token_post-IsIssued u req instants clock (Reach-IsIssued config u before)

  issue_token-signed :
      (config : EmbeddedOauthConfig) (clock : Option ℕ) (token : TokenResponse)
      → issue_token sign config clock ≡ ok token
      → (n : ℕ) × (clock ≡ some n) × (sign (claims_of config n) ≡ some token.access_token)
  unfolding issue_token
  issue_token-signed config none token h = absurd (cc)
  issue_token-signed config (some n) token h = elim (Option-cases (sign (claims_of config n))) [
    | inl unsigned ↦ absurd (ground (arith, unsigned, h))
    | inr (text, signed) ↦ (n, refl, ground (arith, signed, h))
  ]

  -- What a request that gets a token has shown.
  pub record IsEntitled (s : EmbeddedOauthState) (req : TokenRequest) (instants : String → ℕ)
      (clock : Option ℕ) (token : TokenResponse) : Type 0 where
    pub code : AuthCode
    pub epoch : ℕ
    pub known : find_code req.code s.auth_codes ≡ some code
    pub unexpired : instants req.code < code.expires_at
    pub client : req.client_id ≡ s.config.client_id
    pub redirect : req.redirect_uri ≡ s.config.redirect_uri
    pub verified : code.code_challenge ≡ challenge_of req.code_verifier
    pub clocked : clock ≡ some epoch
    pub signed : sign (claims_of s.config epoch) ≡ some token.access_token

  -- A request of a running server gets a token only for a code that is in the map and has not
  -- expired, for the configured client and redirection, and with the verifier of the challenge that
  -- the login gave; the token is the signature of claims that expire an hour after the clock.
  pub token_post-IsEntitled :
      (config : EmbeddedOauthConfig) (s : EmbeddedOauthState) (req : TokenRequest)
      (instants : String → ℕ) (clock : Option ℕ) (token : TokenResponse)
      → Reach config s
      → (token_post challenge_of sign s req instants clock).0 ≡ ok token
      → IsEntitled s req instants clock token
  unfolding token_post redeem
  token_post-IsEntitled config s req instants clock token reach h =
      let i = Reach-IsIssued config s reach in
      let redeemed : redeem challenge_of sign s.config req clock
            (find_code req.code (live_codes instants s.auth_codes))
          ≡ ok token =
        ground (arith, h) in
      elim (Option-cases (find_code req.code (live_codes instants s.auth_codes))) [
        | inl absent ↦ absurd (ground (arith, absent, redeemed))
        | inr (c, found) ↦
            let (known, live) = find_code-kept req.code _ s.auth_codes c i.unique found in
            let (client, redirect) =
              find_code-All req.code
                (λ x. (x.client_id ≡ s.config.client_id) × (x.redirect_uri ≡ s.config.redirect_uri))
                s.auth_codes c i.client known in
            let same_client : c.client_id ≡ req.client_id =
              ground (arith, found, redeemed, eq_iff c.client_id req.client_id) in
            let same_redirect : c.redirect_uri ≡ req.redirect_uri =
              ground (arith, found, redeemed, eq_iff c.redirect_uri req.redirect_uri) in
            let verified : c.code_challenge ≡ challenge_of req.code_verifier =
              ground (
                arith,
                found,
                redeemed,
                eq_iff c.code_challenge (challenge_of req.code_verifier),
              ) in
            let issued : issue_token sign s.config clock ≡ ok token =
              ground (arith, found, redeemed) in
            let (n, clocked, signed) = issue_token-signed s.config clock token issued in
            record {
              code = c;
              epoch = n;
              known = known;
              unexpired = ground (arith, live);
              client = rw (← client, same_client) refl;
              redirect = rw (← redirect, same_redirect) refl;
              verified = verified;
              clocked = clocked;
              signed = signed;
            }
      ]

  redeem-verified :
      (config : EmbeddedOauthConfig) (req : TokenRequest) (epoch : ℕ) (c : AuthCode)
      (token : String)
      → c.client_id ≡ req.client_id
      → c.redirect_uri ≡ req.redirect_uri
      → c.code_challenge ≡ challenge_of req.code_verifier
      → sign (claims_of config epoch) ≡ some token
      → redeem challenge_of sign config req (some epoch) (some c)
        ≡ ok (record {
          access_token = token;
          token_type = "Bearer";
          expires_in = 3600;
          scope = config.required_scope;
        })
  unfolding redeem issue_token
  redeem-verified config req epoch c token client redirect verifier signed = ground (
    arith,
    (eq_iff c.client_id req.client_id).1 client,
    (eq_iff c.redirect_uri req.redirect_uri).1 redirect,
    (eq_iff c.code_challenge (challenge_of req.code_verifier)).1 verifier,
    signed,
  )

  -- After a login that issued a code, a request with that code, the client and the redirection of
  -- the login and a verifier of its challenge gets a token within 300 seconds, where the clock
  -- reads a time since the epoch and the claims can be signed.
  pub token_post-authorize_post :
      (s : EmbeddedOauthState) (cookie : Option String) (query : AuthorizeQuery) (form : LoginForm)
      (drawn location : String) (instant : ℕ) (req : TokenRequest) (instants : String → ℕ)
      (epoch : ℕ) (token : String)
      → (authorize_post verify_password s cookie query form drawn instant).0
        ≡ ok (AuthorizeAnswer.issued location)
      → str_eq req.grant_type "authorization_code" ≡ true
      → req.code ≡ drawn
      → req.client_id ≡ query.client_id
      → req.redirect_uri ≡ query.redirect_uri
      → query.code_challenge ≡ challenge_of req.code_verifier
      → instants drawn < instant + code_lifetime
      → sign (claims_of s.config epoch) ≡ some token
      → (token_post challenge_of sign
          (authorize_post verify_password s cookie query form drawn instant).1
          req
          instants
          (some epoch)).0
        ≡ ok (record {
          access_token = token;
          token_type = "Bearer";
          expires_in = 3600;
          scope = s.config.required_scope;
        })
  unfolding authorize_post token_post
  token_post-authorize_post s cookie query form drawn location instant req instants epoch token
        issued grant code client redirect verifier soon signed =
      let t = (authorize_post verify_password s cookie query form drawn instant).1 in
      let added : t ≡ record s {
        auth_codes = insert_code drawn (auth_code query drawn instant) s.auth_codes;
      } =
        ground (arith, issued) in
      let u : EmbeddedOauthState = record s {
        auth_codes = insert_code drawn (auth_code query drawn instant) s.auth_codes;
      } in
      let same : str_eq drawn req.code ≡ true = (eq_iff drawn req.code).1 (sym code) in
      let live : find_code req.code (live_codes instants u.auth_codes)
          ≡ some (auth_code query drawn instant) =
        ground (arith, same, soon) in
      let answer =
        redeem-verified s.config req epoch (auth_code query drawn instant) token (sym client)
          (sym redirect) verifier signed in
      rw added (ground (arith, grant, live, answer))
