-- ===== src/Oauth/Codes.antt =====
-- The map of authorization codes: unique keys, and codes of the one client.
use aprendiendo.Base.{
  ◌≡◌, String, Bool, true, none, some, List, [], ◌∷◌, keep, str_eq, eq_iff, arith, All, Bool-cases,
  inl, inr,
}
use aprendiendo.Oauth.Server.{EmbeddedOauthState, AuthCode, find_code}
use aprendiendo.Oauth.Once.{find_code-keep}

abbrev pub IsUnique : List (String × AuthCode) → Type 0
IsUnique [] = Unit
IsUnique (e ∷ es) = (find_code e.0 es ≡ none) × IsUnique es

pub keep-IsUnique :
    (p : String × AuthCode → Bool) (es : List (String × AuthCode))
    → IsUnique es
    → IsUnique (keep p es)
keep-IsUnique p [] unique = tt
keep-IsUnique p (e ∷ es) unique = elim (Bool-cases (p e)) [
  | inl kept ↦
      let same : keep p (e ∷ es) ≡ e ∷ keep p es = ground (arith, kept) in
      rw same (find_code-keep e.0 p es unique.0, keep-IsUnique p es unique.1)
  | inr dropped ↦
      let same : keep p (e ∷ es) ≡ keep p es = ground (arith, dropped) in
      rw same (keep-IsUnique p es unique.1)
]

-- An entry that is found among those that are kept is the entry of the whole map.
pub find_code-kept :
    (code : String) (p : String × AuthCode → Bool) (es : List (String × AuthCode)) (c : AuthCode)
    → IsUnique es
    → find_code code (keep p es) ≡ some c
    → (find_code code es ≡ some c) × (p (code, c) ≡ true)
find_code-kept code p [] c unique h = absurd (cc)
find_code-kept code p (e ∷ es) c unique h = elim (Bool-cases (str_eq e.0 code)) [
  | inl same ↦
      let equal : e.0 ≡ code = (eq_iff e.0 code).0 same in
      let absent = find_code-keep code p es (rw equal at unique.0) in
      elim (Bool-cases (p e)) [
        | inl kept ↦
            let one : e.1 ≡ c = ground (arith, same, kept, h) in
            (ground (arith, same, one), rw (← equal, ← one) kept)
        | inr dropped ↦ absurd (ground (arith, dropped, absent, h))
      ]
  | inr other ↦
      let h' : find_code code (keep p es) ≡ some c = ground (arith, other, h) in
      let (found, held) = find_code-kept code p es c unique.1 h' in
      (ground (arith, other, found), held)
]

-- What the map of codes keeps: a key is there once, and its code was issued to the one client.
pub record IsIssued (s : EmbeddedOauthState) : Type 0 where
  pub unique : IsUnique s.auth_codes
  pub client :
      All
        (λ (e : String × AuthCode).
          (e.1.client_id ≡ s.config.client_id) × (e.1.redirect_uri ≡ s.config.redirect_uri))
        s.auth_codes

pub find_code-All :
    (code : String) (P : AuthCode → Type 0) (es : List (String × AuthCode)) (c : AuthCode)
    → All (λ (e : String × AuthCode). P e.1) es
    → find_code code es ≡ some c
    → P c
find_code-All code P [] c all h = absurd (cc)
find_code-All code P (e ∷ es) c all h = elim (Bool-cases (str_eq e.0 code)) [
  | inl same ↦ let one : c ≡ e.1 = ground (arith, same, h) in rw one all.0
  | inr other ↦ find_code-All code P es c all.1 (ground (arith, other, h))
]
