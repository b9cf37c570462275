-- ===== src/Auth/Sessions/Registering.antt =====
-- Registration is for the first account, unless the accounts cannot be counted.
use orkai.Prelude.{
  suc, String, ◌≡◌, refl, ap, Bool, true, false, none, List, [], ◌∷◌, ◌++◌, ltb, find?, any, count,
  Bool-cases, inl, inr,
}
use orkai.Result.{Result, ok, err, message}
use orkai.Exec.{pure, lift, ◌>>=◌}
use orkai.Model.Accounts.{User}
use orkai.World.{World, tx}
use orkai.Store.Query.{is_live}
use orkai.Store.Users as Users
use orkai.Store.Accounts.Identities as Identities
use orkai.Auth.Jwt.{Manager, TokenPair, generate_token_pair}
use orkai.Auth.Sessions.{AuthResult, Bcrypt, RegisterInput, sign_in, register}

any-none : {A : Type 0} (p : A → Bool) (xs : List A) → find? p xs ≡ none → any p xs ≡ false
any-none p [] e = refl
any-none p (x ∷ xs) e = elim (Bool-cases (p x)) [
  | inl h ↦ cc (rw h at e)
  | inr h ↦ let ih = any-none p xs (rw h at e) in rw (h, ih) refl
]

pub state-sign_in : (m : Manager) (u : User) (w : World) → (sign_in m u w).1 ≡ w
unfolding sign_in ◌>>=◌
state-sign_in m u w = by_tokens (generate_token_pair m w.now u.id u.org_id u.role u.token_version)
  where
    by_tokens :
        (r : Result TokenPair) → ((lift r >>= λ tokens. pure (AuthResult.session u tokens)) w).1 ≡ w
    by_tokens (ok tokens) = refl
    by_tokens (err e) = refl

module _ (m : Manager) (bcrypt : Bcrypt) (input : RegisterInput) (w : World) where
  pub register_closed :
      w.faults ≡ []
      → ltb 0 (count (λ u. is_live u.deleted_at) w.db.users) ≡ true
      → register m bcrypt input w
        ≡ (err (message "registration is disabled — use team invitation to join"), w)
  unfolding register Users.count_users ◌>>=◌
  register_closed up some_user = rw (up, some_user) refl

  -- Where the query that counts the accounts fails and no later one does, where no live account has
  -- the email and the password can be hashed, a registration adds an account, an administrator with
  -- the super-administrator flag, to those that there are, however many they are.
  pub register_open :
      (hash : String)
      → w.faults ≡ true ∷ []
      → find? (Users.by_email input.email) w.db.users ≡ none
      → bcrypt.hash input.password ≡ ok hash
      → (register m bcrypt input w).1.db.users
        ≡ w.db.users
          ++ record {
            id = suc w.db.next_id;
            created_at = w.now;
            deleted_at = none;
            org_id = w.db.next_id;
            email = input.email;
            password_hash = hash;
            display_name = input.display_name;
            first_name = "";
            last_name = "";
            role = "admin";
            avatar_url = "";
            two_fa_secret = "";
            two_fa_enabled = false;
            token_version = 0;
            is_super_admin = true;
          }
            ∷ []
  unfolding register Users.count_users Users.get_by_email Users.create
      Identities.create_organization tx ◌>>=◌
  register_open hash fault free hashed =
      let untaken = any-none (Users.by_email input.email) w.db.users free in
      rw (fault, free, hashed, untaken) (ap (λ (v : World). v.db.users) (state-sign_in m _ _))
