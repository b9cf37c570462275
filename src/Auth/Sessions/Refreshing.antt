-- ===== src/Auth/Sessions/Refreshing.antt =====
-- A refresh token is good until the account's token version is raised.
use orkai.Prelude.{
  ℕ, ◌+◌, String, ◌≡◌, refl, ◌∙◌, false, some, List, [], leb, ◌==◌, find?, find?-sound,
  find?-update_where, update_where, arith, Bool-cases, inl, inr, if◌then◌else◌,
}
use orkai.Result.{Result, ok, err, message}
use orkai.Exec.{◌>>=◌}
use orkai.Model.Accounts.{User}
use orkai.World.{World}
use orkai.Store.Users as Users
use orkai.Auth.Jwt.{Manager, Parses, TokenPair, generate_token_pair, numeric_date}
use orkai.Auth.Jwt.Issued.{validate_refresh}
use orkai.Auth.Sessions.{AuthResult, sign_in, refresh}

abbrev pub Refused : Result AuthResult × World → Type 0
Refused r = r.0 ≡ err (message "session invalidated — please log in again")

module _ (m : Manager) (law : Parses m.lib) (made user_id org_id : ℕ) (role : String) (tv : ℕ)
    (pair : TokenPair) (issued : generate_token_pair m made user_id org_id role tv ≡ ok pair) where
  pub refresh-issued :
      (w : World) (u : User)
      → w.faults ≡ []
      → leb (numeric_date (made + m.refresh_expiry)) w.now ≡ false
      → find? (Users.by_id user_id) w.db.users ≡ some u
      → refresh m pair.refresh_token w ≡ (
          if tv == u.token_version
          then sign_in m u w
          else (err (message "session invalidated — please log in again"), w))
  unfolding refresh Users.get_by_id ◌>>=◌
  refresh-issued w u up live found =
      let valid = validate_refresh m law made user_id org_id role tv pair issued w.now live in
      elim (Bool-cases (tv == u.token_version)) [
        | inl h ↦ rw (valid, up, found, h) refl
        | inr h ↦ rw (valid, up, found, h) refl
      ]

  pub refresh-bumped :
      (w : World) (u : User)
      → w.faults ≡ []
      → leb (numeric_date (made + m.refresh_expiry)) w.now ≡ false
      → find? (Users.by_id user_id) w.db.users ≡ some u
      → u.token_version ≡ tv + 1
      → Refused (refresh m pair.refresh_token w)
  refresh-bumped w u up live found raised =
      let other : (tv == u.token_version) ≡ false = rw raised (ground arith) in
      rw (refresh-issued w u up live found, other) refl

pub bumped_found :
    (id : ℕ) (f : User → User) (users : List User) (u : User)
    → find? (Users.by_id id) users ≡ some u
    → (Users.by_id id (f u) ≡ Users.by_id id u)
    → find? (Users.by_id id) (update_where (Users.by_id id) f users) ≡ some (f u)
bumped_found id f users u found same =
    find?-update_where (Users.by_id id) f users u found
      (same ∙ find?-sound (Users.by_id id) users u found)
