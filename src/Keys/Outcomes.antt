-- ===== src/Keys/Outcomes.antt =====
-- What a key grants: no more than its creator had, and nothing once it has expired or is revoked.
use orkai.Prelude.{
  ℕ, String, ◌≡◌, ◌≢◌, ◌⊎◌, inl, inr, ◌≤◌, ◌<◌, true, refl, Bool-cases, eq_iff, ◌∙◌, false, Option,
  none, some, [], ◌∷◌, ◌++◌, arith, not, ◌&&◌, str_eq, find?, find?-append, find?-sound, any-found,
  find?-update_where-dead, count, eq_refl,
}
use orkai.Prelude.Text.{trim_space}
use orkai.Result.{Result, ok, err, problem}
use orkai.Exec.{◌>>=◌}
use orkai.Exec.Triple.{Triple}
use orkai.Model.Accounts.{ApiKey, role_admin, role_member}
use orkai.World.{Db, World, notify}
use orkai.Store.Accounts.ApiKeys as ApiKeys
use orkai.Keys.{
  NewKey, generate_api_key, role_refused, not_future, is_expired, CreateInput, new_api_key, create,
  get_by_hash, revoke,
}

-- A request for a key that may be granted at `now`.
pub record Grantable (input : CreateInput) (now : ℕ) : Type 0 where
  pub named : str_eq (trim_space input.name) "" ≡ false
  pub known : (not (str_eq input.role role_admin) && not (str_eq input.role role_member)) ≡ false
  pub no_escalation : role_refused input.caller_role input.role ≡ false
  pub future : not_future input.expires_at now ≡ false

-- The end is after `now`, where there is one.
abbrev pub EndsAfter : ℕ → Option ℕ → Type 0
EndsAfter now none = Unit {0}
EndsAfter now (some t) = now < t

-- What a key that was granted at `now` has: a name, one of two roles, the role of a member unless an
-- administrator asked, and an end in the future or none.
pub record Fair (input : CreateInput) (now : ℕ) : Type 0 where
  pub named : trim_space input.name ≢ ""
  pub known : (input.role ≡ "admin") ⊎ (input.role ≡ "member")
  pub capped : (input.caller_role ≡ "admin") ⊎ (input.role ≡ "member")
  pub future : EndsAfter now input.expires_at

one_of :
    (r : String)
    → (not (str_eq r role_admin) && not (str_eq r role_member)) ≡ false
    → (r ≡ "admin") ⊎ (r ≡ "member")
one_of r h = elim (Bool-cases (str_eq r role_admin)) [
  | inl a ↦ inl ((eq_iff r role_admin).0 a)
  | inr a ↦ let m : str_eq r role_member ≡ true = ground arith in inr ((eq_iff r role_member).0 m)
]

no_higher : (c r : String) → role_refused c r ≡ false → (c ≡ "admin") ⊎ (r ≡ "member")
no_higher c r h = elim (Bool-cases (str_eq c role_admin)) [
  | inl a ↦ inl ((eq_iff c role_admin).0 a)
  | inr a ↦ let m : str_eq r role_member ≡ true = ground arith in inr ((eq_iff r role_member).0 m)
]

ends_after : (t : Option ℕ) (now : ℕ) → not_future t now ≡ false → EndsAfter now t
ends_after none now h = tt
ends_after (some t) now h = ground arith

fair : (input : CreateInput) (now : ℕ) → Grantable input now → Fair input now
fair input now g = record {
  named = λ e. let t = (eq_iff (trim_space input.name) "").1 e in let f = g.named in cc;
  known = one_of input.role g.known;
  capped = no_higher input.caller_role input.role g.no_escalation;
  future = ends_after input.expires_at now g.future;
}

-- What the creation of a key leaves: one new row, with the hash of the key and not the key.
pub record Granted (before : Db) (hash : String → String) (body : Result String)
    (input : CreateInput) (db : Db) : Type 0 where
  pub time : ℕ
  pub fair : Fair input time
  pub key : NewKey
  pub generated : generate_api_key hash body ≡ ok key
  pub hashed : key.hash ≡ hash key.raw
  pub keys :
      db.api_keys
      ≡ before.api_keys
        ++ record {
          id = before.next_id;
          deleted_at = none;
          org_id = input.org_id;
          user_id = input.user_id;
          name = trim_space input.name;
          key_prefix = key.prefix;
          key_hash = key.hash;
          role = input.role;
          last_used_at = none;
          expires_at = input.expires_at;
        }
          ∷ []

future-unexpired : (t : Option ℕ) (now : ℕ) → not_future t now ≡ false → is_expired t now ≡ false
future-unexpired none now h = refl
future-unexpired (some t) now h = ground arith

module _ (hash : String → String) (body : Result String) (input : CreateInput) (key : NewKey)
    (w : World) (up : w.faults ≡ []) (g : Grantable input w.now) where
  -- With the database up, for a request that may be granted and a hash that no live key has, the
  -- hash of the new key finds its row at once, with its role, its user and its organization.
  pub create-authenticates :
      generate_api_key hash body ≡ ok key
      → find? (ApiKeys.by_hash key.hash) w.db.api_keys ≡ none
      → let w' = (create hash body input w).1 in
        get_by_hash key.hash w'
        ≡ (ok (record (new_api_key input key (trim_space input.name)) { id = w.db.next_id }), w')
  unfolding create get_by_hash ApiKeys.create ApiKeys.get_by_hash ◌>>=◌
  create-authenticates e fresh =
      let row = record (new_api_key input key (trim_space input.name)) { id = w.db.next_id } in
      let hit : find? (ApiKeys.by_hash key.hash) (w.db.api_keys ++ row ∷ []) ≡ some row =
        find?-append (ApiKeys.by_hash key.hash) w.db.api_keys (row ∷ []) fresh
        ∙ rw (eq_refl key.hash) refl in
      rw
        (
          up,
          g.named,
          g.known,
          g.no_escalation,
          g.future,
          e,
          hit,
          future-unexpired input.expires_at w.now g.future,
        )
        refl

revoked-dead :
    (h : String) (now : ℕ) (k : ApiKey) → ApiKeys.by_hash h (ApiKeys.revoke now k) ≡ false
revoked-dead h now k = ground arith

module _ (user_id key_id : ℕ) (w : World) (k : ApiKey) (up : w.faults ≡ [])
    (found : find? (ApiKeys.by_id_for_user key_id user_id) w.db.api_keys ≡ some k) where
  -- With the database up, a key that is the only live one with its hash authenticates nothing once
  -- its user has revoked it.
  pub revoke-unauthorized :
      find? (ApiKeys.by_hash k.key_hash) w.db.api_keys ≡ some k
      → count (ApiKeys.by_hash k.key_hash) w.db.api_keys ≤ 1
      → let w' = (revoke user_id key_id w).1 in
        get_by_hash k.key_hash w' ≡ (err (problem 401 "invalid api key"), w')
  unfolding revoke get_by_hash ApiKeys.get_by_id_for_user ApiKeys.delete ApiKeys.get_by_hash notify
      ◌>>=◌
  revoke-unauthorized hashed one =
      let now = w.now in
      let gone =
        find?-update_where-dead (ApiKeys.by_id_for_user key_id user_id) (ApiKeys.by_hash k.key_hash)
          (ApiKeys.revoke now) (revoked-dead k.key_hash now) w.db.api_keys k hashed one
          (find?-sound (ApiKeys.by_id_for_user key_id user_id) w.db.api_keys k found) in
      rw (up, found, any-found (ApiKeys.by_id_for_user key_id user_id) w.db.api_keys k found, gone)
        refl
