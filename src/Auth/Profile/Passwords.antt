-- ===== src/Auth/Profile/Passwords.antt =====
-- What `ChangePassword` writes.
use orkai.Prelude.{String, ℕ, ◌≡◌, refl, true, some, [], find?, update_where}
use orkai.Result.{ok}
use orkai.Exec.{◌>>=◌}
use orkai.Model.Accounts.{User}
use orkai.World.{World, Db, tx}
use orkai.Store.Users as Users
use orkai.Store.Users.{on_users}
use orkai.Auth.Sessions.{Bcrypt}
use orkai.Auth.Profile.{change_password}

abbrev pub with_password : String → User → User
with_password hash u = record u { password_hash = hash }

-- The password is written, and then the token version is raised.
abbrev pub changed : ℕ → String → Db → Db
changed id hash db =
    on_users (update_where (Users.by_id id) Users.bump)
      (on_users (update_where (Users.by_id id) (with_password hash)) db)

pub change_password-changed :
    (bcrypt : Bcrypt) (id : ℕ) (current new hash : String) (w : World) (u : User)
    → w.faults ≡ []
    → find? (Users.by_id id) w.db.users ≡ some u
    → bcrypt.matches u.password_hash current ≡ true
    → bcrypt.hash new ≡ ok hash
    → change_password bcrypt id current new w ≡ (ok tt, record w { db = changed id hash w.db })
unfolding change_password Users.get_by_id Users.update_password Users.bump_token_version tx ◌>>=◌
change_password-changed bcrypt id current new hash w u up found matches hashed =
    rw (up, found, matches, hashed) refl
