-- ===== src/Tests/Accounts.antt =====
-- Registration, sessions and the second factor at concrete inputs.
use orkai.Prelude.{◌≤◌, ◌≡◌, refl, true, false, none, some, List, [], ◌∷◌, arith, str_eq}
use orkai.Result.{ok}
use orkai.Exec.{◌>>=◌}
use orkai.Model.Accounts.{User}
use orkai.World.{World}
use orkai.Store.Users as Users
use orkai.Auth.Jwt.{TokenPair, generate_token_pair}
use orkai.Auth.Totp.{Hmac}
use orkai.Auth.Sessions.{Bcrypt, RegisterInput, founder, register, sign_in, refresh, logout}
use orkai.Auth.Sessions.Registering.{register_open}
use orkai.Auth.Sessions.Refreshing.{Refused}
use orkai.Auth.Oauth.Once.{Attempt, sessions_of, sessions_of-le}
use orkai.Auth.Profile.{UpdateProfileInput, save_profile, change_password}
use orkai.Auth.Profile.Revoking.{refresh-revoked}
use orkai.Auth.Profile.Overwriting.{save_profile-undoes}
use orkai.Middleware.Requests.{with_token}
use orkai.Middleware.Requests.Outsiders.{TurnedAway, with_token-outsiders}
use orkai.Tests.Data.{ada, bob, cyd, world, db}
use orkai.Tests.Tokens.{manager, manager-Parses}

abbrev hmac : Hmac
hmac = record { decode = λ s. some s; sum = λ key counter i. 7 }

abbrev bcrypt : Bcrypt
bcrypt = record { hash = λ s. ok s; matches = λ hash s. str_eq hash s }

abbrev eve : RegisterInput
eve = record {
  email = "eve@orkai.dev";
  password = "password";
  display_name = "Eve";
  org_name = "evil";
}

-- The count of the accounts fails.
abbrev uncounted : World
uncounted = world (db (ada ∷ bob ∷ cyd ∷ []) [] [] []) (true ∷ [])

register_open_example :
    (register manager bcrypt eve uncounted).1.db.users
    ≡ ada ∷ bob ∷ cyd ∷ record (founder eve "password" 100) { id = 101; created_at = 1000 } ∷ []
register_open_example = register_open manager bcrypt eve uncounted "password" refl refl refl

-- An account with the second factor, which has raised its token version.
abbrev guarded : User
guarded = record cyd {
  two_fa_enabled = true;
  two_fa_secret = "key";
  token_version = 1;
  password_hash = "old";
}

abbrev guarded_world : World
guarded_world = world (db (ada ∷ guarded ∷ []) [] [] []) []

abbrev twice : List Attempt
twice =
    record {
      challenge = "c";
      code = "000000";
      time = 2000;
      faults = false ∷ false ∷ true ∷ [];
      before = λ db. db;
    }
    ∷ record { challenge = "c"; code = "1"; time = 2001; faults = []; before = λ db. db }
    ∷ []

sessions_of-le_example : sessions_of manager hmac "c" twice guarded_world ≤ 1
sessions_of-le_example =
    sessions_of-le manager hmac manager-Parses 1000 "j1" 13 "c" refl 1000 twice guarded_world
      (omega arith, λ db. refl, (omega arith, λ db. refl, tt))

abbrev pair : TokenPair
pair = record { access_token = "a"; refresh_token = "r"; expires_at = 900000001000 }

issued : generate_token_pair manager 1000 13 1 "member" 1 ≡ ok pair
unfolding generate_token_pair
issued = refl

refresh-revoked_example :
    (refresh manager "r" guarded_world ≡ sign_in manager guarded guarded_world)
    × Refused (refresh manager "r" (logout 13 guarded_world).1)
    × Refused (refresh manager "r" (change_password bcrypt 13 "old" "new" guarded_world).1)
refresh-revoked_example =
    refresh-revoked manager manager-Parses 1000 13 1 "member" 1 pair issued guarded_world guarded
      refl refl refl refl bcrypt "old" "new" "new" refl refl

abbrev renamed : UpdateProfileInput
renamed = record {
  first_name = some "Cyd";
  last_name = none;
  display_name = none;
  avatar_url = none;
}

renamed_saved :
    (save_profile renamed guarded guarded_world).0 ≡ ok (record guarded { first_name = "Cyd" })
unfolding save_profile Users.update ◌>>=◌
renamed_saved = refl

save_profile-undoes_example :
    (save_profile renamed guarded
      (change_password bcrypt 13 "old" "new" guarded_world).1).1.db.users
    ≡ (save_profile renamed guarded guarded_world).1.db.users
save_profile-undoes_example =
    save_profile-undoes renamed guarded bcrypt "old" "new" "new" guarded_world refl refl refl refl
      renamed_saved

with_token-outsiders_example :
    TurnedAway guarded_world (with_token manager (λ id. none) (λ e. "bad") "c" guarded_world)
    × TurnedAway guarded_world (with_token manager (λ id. none) (λ e. "bad") "r" guarded_world)
    × TurnedAway guarded_world (with_token manager (λ id. none) (λ e. "bad") "s" guarded_world)
with_token-outsiders_example =
    with_token-outsiders manager manager-Parses (λ id. none) (λ e. "bad") guarded_world guarded 1000
      "j1" "google" "c" "r" "s" 13 1 refl (λ id. refl) refl refl (omega arith) refl refl refl
