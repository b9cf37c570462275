-- ===== src/Auth/Jwt/Issued.antt =====
-- What the tokens of the manager say when they come back.
use orkai.Prelude.{
  ℕ, ◌+◌, String, ◌≡◌, ◌≢◌, refl, ap, ◌∙◌, ◌⊎◌, Bool, true, false, some, leb, ◌==◌, Bool-cases, inl,
  inr, if◌then◌else◌,
}
use orkai.Result.{Result, ok, err}
use orkai.Auth.Jwt.{
  Claims, valid, expired, token_expired, is_over, Manager, Parses, Challenge, access_claims,
  refresh_claims, challenge_claims, challenge_expiry, numeric_date, checked, with_subject,
  challenge_for, challenge_of, validate_oauth_2fa_challenge, TokenPair, both_tokens,
  generate_token_pair, refresh_of, validate_refresh_token, access_of, validate_access_token,
}

module _ (m : Manager) (law : Parses m.lib) (made : ℕ) (jti : String) (user_id : ℕ) (s : String)
    (signed : m.lib.sign (challenge_claims made jti user_id) ≡ ok s) where
  -- When the challenge is over.
  abbrev pub over : ℕ
  over = numeric_date (made + challenge_expiry)

  abbrev pub said : Challenge
  said = record { user_id = user_id; jti = jti; expires_at = over }

  valid_challenge :
      (b : Bool)
      → (user_id == 0) ≡ b
      → (if user_id == 0
          then with_subject (some user_id) (challenge_for (challenge_claims made jti user_id))
          else ok (challenge_for (challenge_claims made jti user_id) user_id))
        ≡ ok said
  unfolding with_subject challenge_for
  valid_challenge true e = rw e refl
  valid_challenge false e = rw e refl

  -- A challenge is good until it is over.
  pub validate_challenge :
      (now : ℕ) → leb over now ≡ false → validate_oauth_2fa_challenge m now s ≡ ok said
  unfolding validate_oauth_2fa_challenge challenge_of
  validate_challenge now o = rw (law.back _ s now signed, o) (valid_challenge (user_id == 0) refl)

  pub validate_challenge_over :
      (now : ℕ) (c : Challenge) → leb over now ≡ true → validate_oauth_2fa_challenge m now s ≢ ok c
  unfolding validate_oauth_2fa_challenge challenge_of
  validate_challenge_over now c o h = cc (rw (law.back _ s now signed, o) at h)

refresh_of_both :
    (at_end : ℕ) (a r : Result String) (pair : TokenPair)
    → both_tokens at_end a r ≡ ok pair
    → r ≡ ok pair.refresh_token
unfolding both_tokens
refresh_of_both at_end (err e) r pair h = cc
refresh_of_both at_end (ok a) (err e) pair h = cc
refresh_of_both at_end (ok a) (ok r) pair h = ap ok (refresh_eq h)
  where
    refresh_eq : {p q : TokenPair} → ok p ≡ ok q → p.refresh_token ≡ q.refresh_token
    refresh_eq h = cc

access_of_both :
    (at_end : ℕ) (a r : Result String) (pair : TokenPair)
    → both_tokens at_end a r ≡ ok pair
    → a ≡ ok pair.access_token
unfolding both_tokens
access_of_both at_end (err e) r pair h = cc
access_of_both at_end (ok a) (err e) pair h = cc
access_of_both at_end (ok a) (ok r) pair h = ap ok (access_eq h)
  where
    access_eq : {p q : TokenPair} → ok p ≡ ok q → p.access_token ≡ q.access_token
    access_eq h = cc

module _ (m : Manager) (law : Parses m.lib) (made user_id org_id : ℕ) (role : String) (tv : ℕ)
    (pair : TokenPair) (issued : generate_token_pair m made user_id org_id role tv ≡ ok pair) where
  -- A refresh token names its user and the token version, until it expires.
  pub validate_refresh :
      (now : ℕ)
      → leb (numeric_date (made + m.refresh_expiry)) now ≡ false
      → validate_refresh_token m now pair.refresh_token ≡ ok (user_id, tv)
  unfolding validate_refresh_token refresh_of with_subject generate_token_pair
  validate_refresh now live =
      let signed = refresh_of_both _ _ _ pair issued in
      rw (law.back (refresh_claims m made user_id tv) pair.refresh_token now signed, live) refl

  -- An access token carries the claims it was made with, until it expires.
  pub validate_access :
      (now : ℕ)
      → leb (numeric_date (made + m.token_expiry)) now ≡ false
      → validate_access_token m now pair.access_token
        ≡ ok (access_claims m made user_id org_id role tv)
  unfolding validate_access_token access_of generate_token_pair
  validate_access now live =
      let signed = access_of_both _ _ _ pair issued in
      rw (law.back (access_claims m made user_id org_id role tv) pair.access_token now signed, live)
        refl

pub checked_cases : (now : ℕ) (c : Claims) → (checked now c ≡ expired) ⊎ (checked now c ≡ valid c)
checked_cases now c = elim (Bool-cases (is_over c.expires_at now)) [
  | inl h ↦ inl (rw h refl)
  | inr h ↦ inr (rw h refl)
]

-- Any token of the manager's is checked for its time alone when it is taken for an access token.
module _ (m : Manager) (law : Parses m.lib) (c : Claims) (s : String) (signed : m.lib.sign c ≡ ok s)
    (now : ℕ) where
  pub validate_expired : checked now c ≡ expired → validate_access_token m now s ≡ err token_expired
  unfolding validate_access_token access_of
  validate_expired h = rw (law.back c s now signed ∙ h) refl

  pub validate_valid : checked now c ≡ valid c → validate_access_token m now s ≡ ok c
  unfolding validate_access_token access_of
  validate_valid h = rw (law.back c s now signed ∙ h) refl
