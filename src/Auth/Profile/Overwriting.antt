-- ===== src/Auth/Profile/Overwriting.antt =====
-- A profile is saved as a whole row, from the row as it was read.
use orkai.Prelude.{
  String, ◌≡◌, refl, ◌∙◌, Bool, true, some, List, [], ◌∷◌, find?, update_where, Bool-cases, inl,
  inr,
}
use orkai.Result.{ok}
use orkai.Exec.{◌>>=◌}
use orkai.Model.Accounts.{User}
use orkai.World.{World}
use orkai.Store.Users as Users
use orkai.Auth.Sessions.{Bcrypt}
use orkai.Auth.Profile.{
  UpdateProfileInput, is_blank, is_unknown_avatar, edited, save_profile, change_password,
}
use orkai.Auth.Profile.Passwords.{changed, with_password, change_password-changed}

module _ {A : Type 0} (p : A → Bool) (a : A) (f : A → A) (same : (x : A) → p (f x) ≡ p x) where
  -- What is overwritten as a whole leaves no trace.
  update_where-overwrites :
      (xs : List A) → update_where p (λ _. a) (update_where p f xs) ≡ update_where p (λ _. a) xs
  update_where-overwrites [] = refl
  update_where-overwrites (x ∷ xs) =
      let ih = update_where-overwrites xs in
      elim (Bool-cases (p x)) [ inl h ↦ rw (h, same x, h, ih) refl | inr h ↦ rw (h, h, ih) refl ]

module _ (input : UpdateProfileInput) (u : User) where
  -- A save that succeeds on one database succeeds on another, and writes the row.
  saved :
      (w v : World)
      → v.faults ≡ []
      → (save_profile input u w).0 ≡ ok (edited input u)
      → (save_profile input u v).1.db.users
        ≡ update_where (Users.by_id u.id) (λ _. edited input u) v.db.users
  unfolding save_profile Users.update ◌>>=◌
  saved w v up h = elim (Bool-cases (is_blank input.display_name)) [
    | inl b ↦ cc (rw b at h)
    | inr b ↦ elim (Bool-cases (is_unknown_avatar input.avatar_url)) [
      | inl a ↦ cc (rw (b, a) at h)
      | inr a ↦ rw (b, a, up) refl
    ]
  ]

  -- With the database up, a change of the password that is allowed and that succeeds between the
  -- moment when a save of the profile has read the row and the moment when it writes it, is undone:
  -- the accounts are then as they are without that change, with the old password and the old token
  -- version.
  pub save_profile-undoes :
      (bcrypt : Bcrypt) (old new hash : String) (w : World)
      → w.faults ≡ []
      → find? (Users.by_id u.id) w.db.users ≡ some u
      → bcrypt.matches u.password_hash old ≡ true
      → bcrypt.hash new ≡ ok hash
      → (save_profile input u w).0 ≡ ok (edited input u)
      → (save_profile input u (change_password bcrypt u.id old new w).1).1.db.users
        ≡ (save_profile input u w).1.db.users
  save_profile-undoes bcrypt old new hash w up found matches hashed good =
      let by = Users.by_id u.id in
      let v = record w { db = changed u.id hash w.db } in
      rw
        (
          change_password-changed bcrypt u.id old new hash w u up found matches hashed,
          saved w v up good,
          saved w w up good,
        )
        (update_where-overwrites by (edited input u) Users.bump (λ x. refl) _
          ∙ update_where-overwrites by (edited input u) (with_password hash) (λ x. refl) w.db.users)
