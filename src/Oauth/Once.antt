-- ===== src/Oauth/Once.antt =====
-- Authorization codes over the steps of the server: the map of codes, and that a code that was
-- presented is of no further use.
use aprendiendo.Base.{
  ℕ, ◌≡◌, refl, String, Bool, true, false, not, Option, none, List, [], ◌∷◌, is_ok, keep, str_eq,
  ltb, arith,
}
use aprendiendo.Oauth.Server.{
  EmbeddedOauthState, AuthCode, AuthorizeQuery, LoginForm, TokenRequest, JwtClaims, find_code,
  remove_code, insert_code, live_codes, auth_code, authorize_post, redeem, token_post,
}

pub find_code-keep :
    (code : String) (p : String × AuthCode → Bool) (es : List (String × AuthCode))
    → find_code code es ≡ none
    → find_code code (keep p es) ≡ none
find_code-keep code p [] absent = refl
find_code-keep code p (e ∷ es) absent = ground (arith, find_code-keep code p es)

pub find_code-remove_code :
    (code : String) (es : List (String × AuthCode)) → find_code code (remove_code code es) ≡ none
find_code-remove_code code [] = refl
find_code-remove_code code (e ∷ es) = ground (arith, find_code-remove_code code es)

find_code-insert_code :
    (code drawn : String) (c : AuthCode) (es : List (String × AuthCode))
    → str_eq drawn code ≡ false
    → find_code code es ≡ none
    → find_code code (insert_code drawn c es) ≡ none
find_code-insert_code code drawn c es other absent = ground (
  arith,
  other,
  find_code-keep code (λ (e : String × AuthCode). not (str_eq e.0 drawn)) es absent,
)

module _ (verify_password : String → String → Bool) (challenge_of : String → String)
    (sign : JwtClaims → Option String) where
  -- What the server may have become after `s`, where no login has drawn the identifier `code`.
  pub data Later (code : String) (s : EmbeddedOauthState) : EmbeddedOauthState → Type 0 where
    now : Later code s s
    authorized :
        {t : EmbeddedOauthState} (cookie : Option String) (query : AuthorizeQuery)
        (form : LoginForm) (drawn : String) (instant : ℕ)
        → Later code s t
        → str_eq drawn code ≡ false
        → Later code s (authorize_post verify_password t cookie query form drawn instant).1
    exchanged :
        {t : EmbeddedOauthState} (req : TokenRequest) (instants : String → ℕ) (clock : Option ℕ)
        → Later code s t
        → Later code s (token_post challenge_of sign t req instants clock).1

  authorize_post-absent :
      (code : String) (s : EmbeddedOauthState) (cookie : Option String) (query : AuthorizeQuery)
      (form : LoginForm) (drawn : String) (instant : ℕ)
      → str_eq drawn code ≡ false
      → find_code code s.auth_codes ≡ none
      → find_code code
          (authorize_post verify_password s cookie query form drawn instant).1.auth_codes
        ≡ none
  unfolding authorize_post
  authorize_post-absent code s cookie query form drawn instant other absent = ground (
    arith,
    other,
    absent,
    find_code-insert_code code drawn (auth_code query drawn instant) s.auth_codes,
  )

  token_post-absent :
      (code : String) (s : EmbeddedOauthState) (req : TokenRequest) (instants : String → ℕ)
      (clock : Option ℕ)
      → find_code code s.auth_codes ≡ none
      → find_code code (token_post challenge_of sign s req instants clock).1.auth_codes ≡ none
  unfolding token_post
  token_post-absent code s req instants clock absent = ground (
    arith,
    absent,
    find_code-keep code (λ (e : String × AuthCode). ltb (instants e.0) e.1.expires_at) s.auth_codes,
    find_code-keep code (λ (e : String × AuthCode). not (str_eq e.0 req.code))
        (live_codes instants s.auth_codes),
  )

  Later-absent :
      (code : String) (s t : EmbeddedOauthState)
      → Later code s t
      → find_code code s.auth_codes ≡ none
      → find_code code t.auth_codes ≡ none
  Later-absent code s t Later.now absent = absent
  Later-absent code s t (Later.authorized {t = u} cookie query form drawn instant before other)
        absent =
      authorize_post-absent code u cookie query form drawn instant other
        (Later-absent code s u before absent)
  Later-absent code s t (Later.exchanged {t = u} req instants clock before) absent =
      token_post-absent code u req instants clock (Later-absent code s u before absent)

  -- A code that a request of the grant type `authorization_code` presented, whatever the answer,
  -- gets no token afterwards, in any order of logins and requests, as long as no login draws the
  -- same identifier again.
  pub token_post-once :
      (s t : EmbeddedOauthState) (req : TokenRequest) (instants : String → ℕ) (clock : Option ℕ)
      (again : TokenRequest) (instants' : String → ℕ) (clock' : Option ℕ)
      → str_eq req.grant_type "authorization_code" ≡ true
      → Later req.code (token_post challenge_of sign s req instants clock).1 t
      → again.code ≡ req.code
      → is_ok (token_post challenge_of sign t again instants' clock').0 ≡ false
  unfolding token_post redeem
  token_post-once s t req instants clock again instants' clock' grant later same =
      let gone : find_code req.code (token_post challenge_of sign s req instants clock).1.auth_codes
          ≡ none =
        ground (arith, grant, find_code-remove_code req.code (live_codes instants s.auth_codes)) in
      let absent = Later-absent req.code _ t later gone in
      ground (
        arith,
        same,
        absent,
        find_code-keep req.code (λ (e : String × AuthCode). ltb (instants' e.0) e.1.expires_at)
            t.auth_codes,
      )
