-- ===== src/Auth/Oauth/Attempt.antt =====
-- One attempt to complete a sign-in with a challenge.
use orkai.Prelude.{
  ℕ, String, ◌≡◌, sym, ◌∙◌, ap, Bool, true, false, not, leb, arith, Bool-cases, inl, inr,
}
use orkai.Result.{ok, message}
use orkai.Exec.{or_else, throw_if, ◌>>=◌, ◌>>◌}
use orkai.Exec.Preserves.{Preserves, Preserves-bind, Preserves-throw_if, preserves_rules}
use orkai.Exec.Triple.{
  Triple, Triple-bind, Triple-view, Triple-lift, Triple-or_else, Triple-throw_if, Triple-fact,
  Triple-weaken, Triple-from_Preserves,
}
use orkai.Model.Accounts.{User}
use orkai.World.{Db, request}
use orkai.Store.Query.{fetch}
use orkai.Store.Users as Users
use orkai.Store.Accounts.Identities.{consume}
use orkai.Store.Accounts.Identities.Consuming.{At, round_trip-At}
use orkai.Auth.Jwt.{Manager, Parses, Challenge, challenge_claims, validate_oauth_2fa_challenge}
use orkai.Auth.Jwt.Issued.{over, validate_challenge, validate_challenge_over}
use orkai.Auth.Totp.{Hmac, verify_totp}
use orkai.Auth.Sessions.{sign_in}
use orkai.Auth.Oauth.{complete_oauth_2fa}

module _ (P : Db → ℕ → Type 0) where
  get_user-At : (id : ℕ) → Preserves (At P) (Users.get_by_id request id)
  unfolding Users.get_by_id fetch
  get_user-At id = search (preserves_rules, round_trip-At P)

  sign_in-At : (m : Manager) (u : User) → Preserves (At P) (sign_in m u)
  unfolding sign_in
  sign_in-At m u = search preserves_rules

  pub complete-At :
      (m : Manager) (hmac : Hmac) (challenge code : String)
      → ((jti : String) (x : ℕ) → Preserves (At P) (consume request jti x))
      → Preserves (At P) (complete_oauth_2fa m hmac challenge code)
  unfolding complete_oauth_2fa
  complete-At m hmac challenge code k =
      search (preserves_rules, get_user-At, sign_in-At, k) depth 30

module _ (m : Manager) (hmac : Hmac) (law : Parses m.lib) (made : ℕ) (jti : String) (user_id : ℕ)
    (s : String) (signed : m.lib.sign (challenge_claims made jti user_id) ≡ ok s) where
  abbrev pub the_end : ℕ
  the_end = over m law made jti user_id s signed

  validated :
      (now : ℕ) (c : Challenge)
      → validate_oauth_2fa_challenge m now s ≡ ok c
      → (leb the_end now ≡ false) × (c.jti ≡ jti) × (c.expires_at ≡ the_end)
  validated now c h = elim (Bool-cases (leb the_end now)) [
    | inl o ↦ absurd (validate_challenge_over m law made jti user_id s signed now c o h)
    | inr o ↦
        let e = same_value (sym (validate_challenge m law made jti user_id s signed now o) ∙ h) in
        (o, ap (λ (d : Challenge). d.jti) (sym e), ap (λ (d : Challenge). d.expires_at) (sym e))
  ]
    where
      same_value : {a b : Challenge} → ok a ≡ ok b → a ≡ b
      same_value h = cc

  module _ (P : Db → ℕ → Type 0) (Q : Db → Type 0) (t : ℕ) where
    -- What using up the challenge shows of the table.
    abbrev Shows : Challenge → Type 0
    Shows c =
        Triple (At (λ db n. P db n × (n ≡ t))) (consume request c.jti c.expires_at)
          (λ fresh w. fresh ≡ true → Q w.db) (λ _. Unit {0})

    after_consume :
        (user : User) (now : ℕ) (code : String) (fresh : Bool)
        → Triple
            (λ w. (fresh ≡ true → Q w.db) × (not fresh ≡ false))
            (throw_if
                (not (verify_totp hmac now user.two_fa_secret code))
                (message "invalid two-factor authentication code")
              >> sign_in m user)
            (λ _ w. Q w.db)
            (λ _. Unit {0})
    after_consume user now code fresh =
        Triple-weaken _ (λ w h. h.0 (ground arith)) (λ r w h. h) (λ w h. tt)
          (Triple-from_Preserves {E = λ w. Q w.db} _ (λ w h. h)
            (Preserves-bind _ _ (Preserves-throw_if _ _) (λ _. sign_in-At (λ db _. Q db) m user)))

    with_challenge :
        (c : Challenge) (code : String) (now : ℕ)
        → Shows c
        → Triple
            (At (λ db n. P db n × (n ≡ t)))
            (do
              user ← or_else (Users.get_by_id request c.user_id) (message "user not found")
              throw_if
                  (not user.two_fa_enabled)
                  (message "two-factor authentication is not enabled for this account")
              fresh ← consume request c.jti c.expires_at
              throw_if (not fresh) (message "invalid or expired OAuth challenge")
              throw_if
                  (not (verify_totp hmac now user.two_fa_secret code))
                  (message "invalid two-factor authentication code")
              sign_in m user)
            (λ _ w. Q w.db)
            (λ _. Unit {0})
    with_challenge c code now shows =
        Triple-bind _ _
          (Triple-or_else _ _ (
            Triple-from_Preserves _ (λ w h. tt) (get_user-At (λ db n. P db n × (n ≡ t)) c.user_id)))
          (λ user. Triple-bind _ _ (Triple-throw_if (not user.two_fa_enabled) _ (λ w h. tt)) (λ _.
            Triple-bind _ _ (Triple-weaken _ (λ w h. h.0) (λ fresh w h. h) (λ w h. h) shows)
              (λ fresh.
                Triple-bind _ _ (Triple-throw_if (not fresh) _ (λ w h. tt))
                  (λ _. after_consume user now code fresh))))

    -- A session that is opened shows it too.
    pub complete-Both :
        (code : String)
        → (leb the_end t ≡ false
            → Triple
                (At (λ db n. P db n × (n ≡ t)))
                (consume request jti the_end)
                (λ fresh w. fresh ≡ true → Q w.db)
                (λ _. Unit {0}))
        → Triple
            (At (λ db n. P db n × (n ≡ t)))
            (complete_oauth_2fa m hmac s code)
            (λ _ w. Q w.db)
            (λ _. Unit {0})
    unfolding complete_oauth_2fa
    complete-Both code step =
        Triple-bind _ _
          (Triple-weaken _ (λ w h. h) (λ now w h. (h.0, h.1 ∙ h.0.1)) (λ w h. h)
            (Triple-view {P = At (λ db n. P db n × (n ≡ t))} {E = λ _. Unit {0}} (λ w. w.now)))
          (λ now. Triple-fact _ (λ at_t.
            Triple-bind _ _ (Triple-or_else _ _ (Triple-lift _ (λ w h. tt))) (λ c.
              Triple-fact _ (λ valid.
                let (live, same_jti, same_end) = validated now c valid in
                let shows : Shows c = rw (same_jti, same_end) (step (rw at_t at live)) in
                with_challenge c code now shows))))
