-- ===== src/Store/Accounts/Identities.antt =====
-- Organizations, accounts of other providers, and used challenges:
-- apps/api/internal/store/pg/organization_store.go, identity_store.go and oauth_challenge_store.go.
pub mod Consuming
use orkai.Prelude.{
  ℕ, suc, String, Bool, true, false, Option, none, List, [], ◌∷◌, ◌++◌, ◌&&◌, not, ltb, str_eq,
  find?, filter, any, if◌then◌else◌,
}
use orkai.Result.{unique_violation}
use orkai.Exec.{Exec, pure, throw, view, ignore, modify, ◌>>=◌, ◌>>◌}
use orkai.Model.Accounts.{Organization, UserIdentity, UsedOauthChallenge}
use orkai.World.{Db, World, Context, round_trip, on_db}
use orkai.Store.Query.{is_live, fetch, exec}

abbrev pub insert_organization : Organization → Db → Db
insert_organization org db = record db {
  organizations = db.organizations ++ record org { id = db.next_id } ∷ [];
  next_id = suc db.next_id;
}

-- `RETURNING *` reads the new id back.
unfoldable pub create_organization : Context → Organization → Exec World ℕ
unfolding round_trip on_db ◌>>=◌
create_organization c org = do
  round_trip c
  id ← view (λ w. w.db.next_id)
  on_db (insert_organization org)
  pure id

abbrev pub by_subject : String → String → UserIdentity → Bool
by_subject provider subject i =
    str_eq i.provider provider && str_eq i.subject subject && is_live i.deleted_at

unfoldable pub get_by_provider_subject : Context → String → String → Exec World UserIdentity
unfolding fetch
get_by_provider_subject c provider subject =
    fetch c (λ db. find? (by_subject provider subject) db.identities)

abbrev pub insert_identity : UserIdentity → Db → Db
insert_identity i db = record db {
  identities = db.identities ++ record i { id = db.next_id } ∷ [];
  next_id = suc db.next_id;
}

-- The index idx_user_identities_provider_subject_active holds one live row for an account.
unfoldable pub create_identity : Context → UserIdentity → Exec World (Unit {0})
unfolding round_trip on_db ◌>>=◌
create_identity c i = do
  round_trip c
  taken ← view (λ w. any (by_subject i.provider i.subject) w.db.identities)
  if taken then throw unique_violation else on_db (insert_identity i)

abbrev pub has_jti : String → UsedOauthChallenge → Bool
has_jti jti u = str_eq u.jti jti

abbrev pub add_used : String → ℕ → Db → Db
add_used jti expires_at db = record db {
  used_challenges = db.used_challenges ++ record { jti = jti; expires_at = expires_at } ∷ [];
}

-- `expires_at < now`
abbrev pub still_kept : ℕ → UsedOauthChallenge → Bool
still_kept now u = not (ltb u.expires_at now)

-- Was the challenge used before? It is used from now on: `ON CONFLICT DO NOTHING`.
mark_used : Context → String → ℕ → Exec World Bool
mark_used c jti expires_at = do
  round_trip c
  used ← view (λ w. any (has_jti jti) w.db.used_challenges)
  on_db (λ db. if used then db else add_used jti expires_at db)
  pure used

abbrev pub prune_at : ℕ → Db → Db
prune_at now db = record db { used_challenges = filter (still_kept now) db.used_challenges }

prune : Context → Exec World (Unit {0})
prune c = do now ← view (λ w. w.now); exec c (prune_at now)

-- Is the challenge fresh? The rows that are over are pruned, and a failure to prune is ignored.
unfoldable pub consume : Context → String → ℕ → Exec World Bool
unfolding mark_used prune
consume c jti expires_at = do used ← mark_used c jti expires_at; ignore (prune c); pure (not used)
