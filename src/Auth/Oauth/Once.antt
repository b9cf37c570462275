-- ===== src/Auth/Oauth/Once.antt =====
-- A challenge opens one session at most.
use orkai.Prelude.{
  ℕ, ◌+◌, ◌≤◌, String, ◌≡◌, refl, Bool, true, false, List, [], ◌∷◌, leb, ◌&&◌, str_eq, eq_iff, sym,
  subst, arith, ◌⊎◌, Bool-cases, inl, inr, if◌then◌else◌,
}
use orkai.Result.{Result, ok, err}
use orkai.Exec.Triple.{Both, Triple-weaken, Preserves-from_Triple}
use orkai.World.{World, Db}
use orkai.Auth.Jwt.{Manager, Parses, challenge_claims}
use orkai.Auth.Totp.{Hmac}
use orkai.Auth.Sessions.{AuthResult}
use orkai.Auth.Oauth.{complete_oauth_2fa}
use orkai.Auth.Oauth.Consumed.{HasRow, Used, consume-keeps, consume-refuses, consume-marks}
use orkai.Auth.Oauth.Attempt.{complete-At, complete-Both, the_end}

-- A call of `CompleteOAuth2FA`: its time, the queries that fail in it, and what was done to the database
-- since the call before.
pub record Attempt : Type 0 where
  pub challenge : String
  pub code : String
  pub time : ℕ
  pub faults : List Bool
  pub before : Db → Db

-- The times do not decrease, and nothing else touches the used challenges.
abbrev pub InOrder : ℕ → List Attempt → Type 0
InOrder t [] = Unit
InOrder t (a ∷ rest) =
    (t ≤ a.time)
    × ((db : Db) → (a.before db).used_challenges ≡ db.used_challenges)
    × InOrder a.time rest

abbrev is_session : Result AuthResult → Bool
is_session (ok (AuthResult.session u tokens)) = true
is_session (ok (AuthResult.requires_2fa c)) = false
is_session (err e) = false

module _ (m : Manager) (hmac : Hmac) where
  attempt : Attempt → World → Result AuthResult × World
  attempt a w =
      complete_oauth_2fa m hmac a.challenge a.code
        (record w { db = a.before w.db; now = a.time; faults = a.faults })

  -- How many sessions the challenge opens in these attempts.
  pub sessions_of : String → List Attempt → World → ℕ
  unfolding attempt
  sessions_of s [] w = 0
  sessions_of s (a ∷ rest) w =
      let (r, w') = attempt a w in
      (if str_eq a.challenge s && is_session r then 1 else 0) + sessions_of s rest w'

module _ (m : Manager) (hmac : Hmac) (law : Parses m.lib) (made : ℕ) (jti : String) (user_id : ℕ)
    (s : String) (signed : m.lib.sign (challenge_claims made jti user_id) ≡ ok s) where
  abbrev over : ℕ
  over = the_end m hmac law made jti user_id s signed

  -- The challenge is over, or has been used.
  abbrev Spent : ℕ → Db → Type 0
  Spent t db = (leb over t ≡ true) ⊎ HasRow jti over db

  Spent-later : (t t' : ℕ) (db : Db) → t ≤ t' → Spent t db → Spent t' db
  Spent-later t t' db h (inl o) = inl (ground arith)
  Spent-later t t' db h (inr r) = inr r

  module _ (t : ℕ) (w : World) (at_t : w.now ≡ t) where
    row_kept :
        (challenge code : String)
        → leb over t ≡ false
        → HasRow jti over w.db
        → HasRow jti over (complete_oauth_2fa m hmac challenge code w).1.db
    row_kept challenge code live row =
        ((complete-At (Used jti over t) m hmac challenge code
            (λ j x. record { at = Preserves-from_Triple _ (consume-keeps jti over t live j x) })).at
          w (row, at_t)).0

    Spent-kept :
        (challenge code : String)
        → Spent t w.db
        → Spent t (complete_oauth_2fa m hmac challenge code w).1.db
    Spent-kept challenge code (inl o) = inl o
    Spent-kept challenge code (inr row) = elim (Bool-cases (leb over t)) [
      | inl o ↦ inl o
      | inr live ↦ inr (row_kept challenge code live row)
    ]

    row_of : leb over t ≡ false → (db : Db) → Spent t db → HasRow jti over db
    row_of live db (inl o) = cc
    row_of live db (inr row) = row

    no_session :
        (r : Result AuthResult) (v : World)
        → Both (λ _ _. ⊥) (λ _. Unit {0}) (r, v)
        → is_session r ≡ false
    no_session (ok a) v h = absurd h
    no_session (err e) v h = refl

    Spent-refused :
        (code : String) → Spent t w.db → is_session (complete_oauth_2fa m hmac s code w).0 ≡ false
    Spent-refused code h =
        let (r, v) = complete_oauth_2fa m hmac s code w in
        no_session r v (
          (complete-Both m hmac law made jti user_id s signed (λ db _. Spent t db) (λ _. ⊥) t code
              (λ live.
                Triple-weaken _ (λ v h. (row_of live v.db h.0, h.1)) (λ fresh v h f. cc) (λ v h. tt)
                  (consume-refuses jti over t live over))).at
            w (h, at_t))

    Spent-by :
        (r : Result AuthResult) (v : World)
        → Both (λ _ v. HasRow jti over v.db) (λ _. Unit {0}) (r, v)
        → is_session r ≡ true
        → Spent t v.db
    Spent-by (ok a) v h e = inr h
    Spent-by (err e) v h e' = cc

    session_spends :
        (code : String)
        → is_session (complete_oauth_2fa m hmac s code w).0 ≡ true
        → Spent t (complete_oauth_2fa m hmac s code w).1.db
    session_spends code e =
        let (r, v) = complete_oauth_2fa m hmac s code w in
        Spent-by r v
          ((complete-Both m hmac law made jti user_id s signed (λ _ _. Unit {0}) (HasRow jti over) t
              code
              (λ live.
                Triple-weaken _ (λ v h. h.1) (λ fresh v h. h) (λ v h. tt)
                  (consume-marks jti over t live))).at
            w (tt, at_t))
          e

  -- The world in which an attempt begins.
  abbrev begun : Attempt → World → World
  begun a w = record w { db = a.before w.db; now = a.time; faults = a.faults }

  Spent-begun :
      (t : ℕ) (a : Attempt) (w : World)
      → t ≤ a.time
      → ((db : Db) → (a.before db).used_challenges ≡ db.used_challenges)
      → Spent t w.db
      → Spent a.time (begun a w).db
  Spent-begun t a w le calm (inl o) = inl (ground arith)
  Spent-begun t a w le calm (inr r) = inr (rw (calm w.db) r)

  Spent-none :
      (t : ℕ) (attempts : List Attempt) (w : World)
      → InOrder t attempts
      → Spent t w.db
      → sessions_of m hmac s attempts w ≡ 0
  unfolding sessions_of attempt
  Spent-none t [] w o h = refl
  Spent-none t (a ∷ rest) w o h =
      let v = begun a w in
      let spent = Spent-begun t a w o.0 o.1 h in
      let w' = (complete_oauth_2fa m hmac a.challenge a.code v).1 in
      let later =
        Spent-none a.time rest w' o.2 (Spent-kept a.time v refl a.challenge a.code spent) in
      elim (Bool-cases (str_eq a.challenge s)) [
        | inr other ↦ rw other (omega (arith, later))
        | inl same ↦
            let is = (eq_iff a.challenge s).0 same in
            let refused =
              subst (λ (x : String). is_session (complete_oauth_2fa m hmac x a.code v).0 ≡ false)
                (sym is) (Spent-refused a.time v refl a.code spent) in
            rw (same, refused) (omega (arith, later))
      ]

  -- If the library parses what it has signed until that expires, then in any sequence of attempts to
  -- complete a sign-in, with any challenges and codes, at times that do not decrease, whichever
  -- queries fail and whatever else is done to the database between them that leaves the used
  -- challenges alone, a challenge that the manager made opens at most one session.
  pub sessions_of-le :
      (t : ℕ) (attempts : List Attempt) (w : World)
      → InOrder t attempts
      → sessions_of m hmac s attempts w ≤ 1
  unfolding sessions_of attempt
  sessions_of-le t [] w o = omega arith
  sessions_of-le t (a ∷ rest) w o =
      let v = begun a w in
      let w' = (complete_oauth_2fa m hmac a.challenge a.code v).1 in
      let later = sessions_of-le a.time rest w' o.2 in
      elim (Bool-cases (str_eq a.challenge s)) [
        | inr other ↦ rw other (omega (arith, later))
        | inl same ↦
            let is = (eq_iff a.challenge s).0 same in
            elim (Bool-cases (is_session (complete_oauth_2fa m hmac a.challenge a.code v).0)) [
              | inr e ↦ rw (same, e) (omega (arith, later))
              | inl e ↦
                  let spent =
                    subst
                      (λ (x : String).
                        is_session (complete_oauth_2fa m hmac x a.code v).0 ≡ true
                        → Spent a.time (complete_oauth_2fa m hmac x a.code v).1.db)
                      (sym is) (session_spends a.time v refl a.code) e in
                  rw (same, e) (omega (arith, Spent-none a.time rest w' o.2 spent))
            ]
      ]
