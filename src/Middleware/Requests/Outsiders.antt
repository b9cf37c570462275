-- ===== src/Middleware/Requests/Outsiders.antt =====
-- Tokens that the manager makes for other ends do not pass as access tokens.
use orkai.Prelude.{
  ℕ, ◌≡◌, ◌<◌, refl, String, false, Option, none, some, [], ◌==◌, find?, arith, ◌⊎◌, inl, inr,
}
use orkai.Result.{Result, ok, err, Error, problem}
use orkai.Exec.{◌>>=◌}
use orkai.Model.Accounts.{User}
use orkai.World.{World}
use orkai.Store.Users as Users
use orkai.Auth.Jwt.{
  Claims, Manager, Parses, checked, refresh_claims, state_claims, challenge_claims, valid,
  token_expired,
}
use orkai.Auth.Jwt.Issued.{checked_cases, validate_expired, validate_valid}
use orkai.Middleware.Requests.{Passed, with_token, current_version, validate_claims}

-- A request is turned away with 401, and nothing changes.
pub record TurnedAway (w : World) (r : Result Passed × World) : Type 0 where
  pub detail : String
  pub answer : r ≡ (err (problem 401 detail), w)

-- The account that the claims name has another token version, or is not there.
abbrev pub Stale : World → Claims → Type 0
Stale w c =
    (find? (Users.by_id c.user_id) w.db.users ≡ none)
    ⊎ ((u : User) × (find? (Users.by_id c.user_id) w.db.users ≡ some u)
        × ((c.token_version == u.token_version) ≡ false))

module _ (m : Manager) (law : Parses m.lib) (cache : ℕ → Option ℕ) (text : Error → String) where
  module _ (c : Claims) (s : String) (w : World) (signed : m.lib.sign c ≡ ok s) (up : w.faults ≡ [])
      (uncached : cache c.user_id ≡ none) where
    valid-Stale : checked w.now c ≡ valid c → Stale w c → TurnedAway w (with_token m cache text s w)
    unfolding with_token validate_claims current_version Users.get_by_id ◌>>=◌
    valid-Stale h (inl missing) = record {
      detail = "session invalidated";
      answer = rw (validate_valid m law c s signed w.now h, up, uncached, missing) refl;
    }
    valid-Stale h (inr (u, found, other)) = record {
      detail = "session invalidated";
      answer = rw (validate_valid m law c s signed w.now h, up, uncached, found, other) refl;
    }

    pub with_token-Stale : Stale w c → TurnedAway w (with_token m cache text s w)
    unfolding with_token ◌>>=◌
    with_token-Stale stale = elim (checked_cases w.now c) [
      | inl h ↦ record {
        detail = text token_expired;
        answer = rw (validate_expired m law c s signed w.now h) refl;
      }
      | inr h ↦ valid-Stale h stale
    ]

  -- With the database up and nothing in the cache of versions, and where the library parses what it
  -- has signed, no token that the manager makes for another end passes as an access token: a
  -- challenge for the second factor of an account whose token version has been raised, a refresh
  -- token, or the state of a sign-in through another provider. No account has the id 0.
  pub with_token-outsiders :
      (w : World) (u : User) (made : ℕ) (jti provider challenge refresh state : String)
      (user_id tv : ℕ)
      → w.faults ≡ []
      → ((id : ℕ) → cache id ≡ none)
      → find? (Users.by_id 0) w.db.users ≡ none
      → find? (Users.by_id user_id) w.db.users ≡ some u
      → 0 < u.token_version
      → m.lib.sign (challenge_claims made jti user_id) ≡ ok challenge
      → m.lib.sign (refresh_claims m made user_id tv) ≡ ok refresh
      → m.lib.sign (state_claims made jti provider) ≡ ok state
      → TurnedAway w (with_token m cache text challenge w)
        × TurnedAway w (with_token m cache text refresh w)
        × TurnedAway w (with_token m cache text state w)
  with_token-outsiders w u made jti provider challenge refresh state user_id tv up uncached nobody
        found raised c r s =
      (
        with_token-Stale (challenge_claims made jti user_id) challenge w c up (uncached user_id)
            (inr (u, found, ground arith)),
        with_token-Stale (refresh_claims m made user_id tv) refresh w r up (uncached 0)
            (inl nobody),
        with_token-Stale (state_claims made jti provider) state w s up (uncached 0) (inl nobody),
      )
