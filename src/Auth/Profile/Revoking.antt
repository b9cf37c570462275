-- ===== src/Auth/Profile/Revoking.antt =====
-- Logging out and changing the password end the sessions of an account.
use orkai.Prelude.{
  ℕ, ◌+◌, String, ◌≡◌, ◌==◌, refl, ap, List, true, false, some, [], leb, find?, update_where,
  ==_refl,
}
use orkai.Result.{ok}
use orkai.Model.Accounts.{User}
use orkai.World.{World, Db}
use orkai.Store.Users as Users
use orkai.Store.Users.{on_users}
use orkai.Auth.Jwt.{Manager, Parses, TokenPair, generate_token_pair, numeric_date}
use orkai.Auth.Sessions.{Bcrypt, sign_in, refresh, logout}
use orkai.Auth.Sessions.Refreshing.{refresh-issued, refresh-bumped, bumped_found, Refused}
use orkai.Auth.Profile.{change_password}
use orkai.Auth.Profile.Passwords.{changed, with_password, change_password-changed}

logged_out :
    (id : ℕ) (w : World)
    → w.faults ≡ []
    → logout id w
      ≡ (ok tt, record w { db = on_users (update_where (Users.by_id id) Users.bump) w.db })
unfolding logout Users.bump_token_version
logged_out id w up = rw up refl

module _ (m : Manager) (law : Parses m.lib) (made user_id org_id : ℕ) (role : String) (tv : ℕ)
    (pair : TokenPair) (issued : generate_token_pair m made user_id org_id role tv ≡ ok pair)
    (w : World) (u : User) (up : w.faults ≡ [])
    (live : leb (numeric_date (made + m.refresh_expiry)) w.now ≡ false)
    (found : find? (Users.by_id user_id) w.db.users ≡ some u) (current : u.token_version ≡ tv) where
  Refused-after :
      (db : Db) (u' : User)
      → find? (Users.by_id user_id) db.users ≡ some u'
      → u'.token_version ≡ tv + 1
      → Refused (refresh m pair.refresh_token (record w { db = db }))
  Refused-after db u' found' raised =
      refresh-bumped m law made user_id org_id role tv pair issued (record w { db = db }) u' up live
        found' raised

  -- A refresh token that the manager made for the account's token version and that has not expired
  -- opens a session for the account as its row is now; a refresh directly after a logout of the
  -- account, or directly after a change of its password, is refused. This is so while the database is up, where the library
  -- parses what it has signed, and where the change of the password is one that is allowed.
  pub refresh-revoked :
      (bcrypt : Bcrypt) (old new hash : String)
      → bcrypt.matches u.password_hash old ≡ true
      → bcrypt.hash new ≡ ok hash
      → (refresh m pair.refresh_token w ≡ sign_in m u w)
        × Refused (refresh m pair.refresh_token (logout user_id w).1)
        × Refused (refresh m pair.refresh_token (change_password bcrypt user_id old new w).1)
  refresh-revoked bcrypt old new hash matches hashed =
      let raised = ap (λ (n : ℕ). n + 1) current in
      let same : (tv == u.token_version) ≡ true = rw current (==_refl tv) in
      let out = bumped_found user_id Users.bump w.db.users u found refl in
      let set = bumped_found user_id (with_password hash) w.db.users u found refl in
      let both =
        bumped_found user_id Users.bump (changed_users hash) (with_password hash u) set refl in
      (
        rw (refresh-issued m law made user_id org_id role tv pair issued w u up live found, same)
            refl,
        rw (logged_out user_id w up) (Refused-after _ (Users.bump u) out raised),
        rw (change_password-changed bcrypt user_id old new hash w u up found matches hashed) (
            Refused-after (changed user_id hash w.db) (Users.bump (with_password hash u)) both
              raised),
      )
    where
      changed_users : String → List User
      changed_users hash = update_where (Users.by_id user_id) (with_password hash) w.db.users
