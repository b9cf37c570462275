-- ===== src/Auth/Oauth/Consumed.antt =====
-- The row of a used challenge stays until the challenge is over, and refuses it.
use orkai.Prelude.{
  ℕ, String, ◌≡◌, refl, ap, Bool, true, false, List, [], ◌∷◌, ◌++◌, ◌&&◌, ◌||◌, not, ◌==◌, leb,
  str_eq, eq_refl, ==_refl, arith, Bool-cases, inl, inr, filter, any, if◌then◌else◌,
}
use orkai.Exec.Triple.{Triple, Triple-weaken}
use orkai.Model.Accounts.{UsedOauthChallenge}
use orkai.World.{Db, request}
use orkai.Store.Accounts.Identities.{consume, has_jti, add_used, still_kept, prune_at}
use orkai.Store.Accounts.Identities.Consuming.{At, consume-At}

abbrev pub is_row : String → ℕ → UsedOauthChallenge → Bool
is_row jti e u = str_eq u.jti jti && u.expires_at == e

module _ {A : Type 0} (p : A → Bool) where
  any-append : (xs ys : List A) → any p (xs ++ ys) ≡ (any p xs || any p ys)
  any-append [] ys = refl
  any-append (x ∷ xs) ys = let ih = any-append xs ys in rw ih (ground arith)

  any-filter :
      (q : A → Bool) (xs : List A)
      → ((x : A) → p x ≡ true → q x ≡ true)
      → any p xs ≡ true
      → any p (filter q xs) ≡ true
  any-filter q [] k h = h
  any-filter q (x ∷ xs) k h = elim (Bool-cases (p x)) [
    | inl e ↦ rw (k x e, e) refl
    | inr e ↦
        let ih = any-filter q xs k (rw e at h) in
        elim (Bool-cases (q x)) [ inl d ↦ rw (d, e) ih | inr d ↦ rw d ih ]
  ]

  any-weaken :
      (q : A → Bool) (xs : List A)
      → ((x : A) → p x ≡ true → q x ≡ true)
      → any p xs ≡ true
      → any q xs ≡ true
  any-weaken q [] k h = h
  any-weaken q (x ∷ xs) k h = elim (Bool-cases (p x)) [
    | inl e ↦ rw (k x e) refl
    | inr e ↦ let ih = any-weaken q xs k (rw e at h) in rw ih (ground arith)
  ]

-- The challenge is among the used ones.
abbrev pub HasRow : String → ℕ → Db → Type 0
HasRow jti e db = any (is_row jti e) db.used_challenges ≡ true

-- At time `t`.
abbrev pub Used : String → ℕ → ℕ → Db → ℕ → Type 0
Used jti e t db now = HasRow jti e db × (now ≡ t)

module _ (jti : String) (e t : ℕ) (live : leb e t ≡ false) where
  kept : (u : UsedOauthChallenge) → is_row jti e u ≡ true → still_kept t u ≡ true
  kept u h = ground arith

  pruned : (db : Db) (now : ℕ) → Used jti e t db now → Used jti e t (prune_at now db) now
  pruned db now h =
      (rw h.1 (any-filter (is_row jti e) (still_kept t) db.used_challenges kept h.0), h.1)

  added :
      (b : Bool) (j : String) (x : ℕ) (db : Db)
      → HasRow jti e db
      → HasRow jti e (if b then db else add_used j x db)
  added true j x db h = h
  added false j x db h = rw (any-append (is_row jti e) db.used_challenges, h) refl

  pub consume-keeps :
      (j : String) (x : ℕ)
      → Triple
          (At (Used jti e t))
          (consume request j x)
          (λ _. At (Used jti e t))
          (At (Used jti e t))
  consume-keeps j x =
      consume-At (Used jti e t) (λ _. Used jti e t) request j x
        (λ db n h. (added (any (has_jti j) db.used_challenges) j x db h.0, h.1))
        (λ b db n h. pruned db n h)

  has_jti_of : (u : UsedOauthChallenge) → is_row jti e u ≡ true → has_jti jti u ≡ true
  has_jti_of u h = ground arith

  -- A used challenge is not fresh.
  pub consume-refuses :
      (x : ℕ)
      → Triple
          (At (Used jti e t))
          (consume request jti x)
          (λ fresh _. fresh ≡ false)
          (λ _. Unit {0})
  consume-refuses x =
      Triple-weaken _ (λ w h. h) (λ fresh w h. negated fresh h.1) (λ w h. tt)
        (consume-At (Used jti e t) (λ b db n. Used jti e t db n × (b ≡ true)) request jti x
          (λ db n h. (
            (added (any (has_jti jti) db.used_challenges) jti x db h.0, h.1),
            any-weaken (is_row jti e) (has_jti jti) db.used_challenges has_jti_of h.0,
          ))
          (λ b db n h. (pruned db n h.0, h.1)))
    where
      negated : (fresh : Bool) → not fresh ≡ true → fresh ≡ false
      negated fresh h = ground arith

  fresh_row : (b : Bool) (db : Db) → b ≡ false → HasRow jti e (if b then db else add_used jti e db)
  fresh_row b db h =
      rw (h, any-append (is_row jti e) db.used_challenges, eq_refl jti, ==_refl e) (ground arith)

  -- A fresh challenge is used from then on.
  pub consume-marks :
      Triple
        (At (λ db n. n ≡ t))
        (consume request jti e)
        (λ fresh w. fresh ≡ true → HasRow jti e w.db)
        (λ _. Unit {0})
  consume-marks =
      Triple-weaken _ (λ w h. h) (λ fresh w h f. (h (ap not f)).0) (λ w h. tt)
        (consume-At (λ db n. n ≡ t) (λ b db n. b ≡ false → Used jti e t db n) request jti e
          (λ db n h f. (fresh_row (any (has_jti jti) db.used_challenges) db f, h))
          (λ b db n h f. pruned db n (h f)))
