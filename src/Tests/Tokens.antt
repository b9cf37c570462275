-- ===== src/Tests/Tokens.antt =====
-- A library of tokens that signs the claims of a table.
use orkai.Prelude.{
  ℕ, ◌*◌, String, ◌≡◌, refl, ap, Bool, true, false, Option, none, some, ◌&&◌, ◌==◌, ==_iff, str_eq,
  eq_iff, arith, Bool-cases, inl, inr, if◌then◌else◌,
}
use orkai.Result.{Result, ok, err, message}
use orkai.Model.Accounts.{minute}
use orkai.Auth.Jwt.{
  Claims, Parses, Parsed, invalid, checked, Manager, access_claims, refresh_claims, state_claims,
  challenge_claims,
}

abbrev same_time : Option ℕ → Option ℕ → Bool
same_time none none = true
same_time (some a) (some b) = a == b
same_time _ _ = false

abbrev same : Claims → Claims → Bool
same a b =
    str_eq a.issuer b.issuer
    && same_time a.subject b.subject
    && str_eq a.jti b.jti
    && a.issued_at == b.issued_at
    && same_time a.expires_at b.expires_at
    && a.user_id == b.user_id
    && a.org_id == b.org_id
    && str_eq a.role b.role
    && a.token_version == b.token_version
    && str_eq a.provider b.provider

same_time_sound : (a b : Option ℕ) → same_time a b ≡ true → a ≡ b
same_time_sound none none h = refl
same_time_sound none (some b) h = cc
same_time_sound (some a) none h = cc
same_time_sound (some a) (some b) h = ap some ((==_iff a b).0 h)

same_sound : (a b : Claims) → same a b ≡ true → a ≡ b
same_sound a b h = ground (
  arith,
  eq_iff a.issuer b.issuer,
  eq_iff a.jti b.jti,
  eq_iff a.role b.role,
  eq_iff a.provider b.provider,
  same_time_sound a.subject b.subject,
  same_time_sound a.expires_at b.expires_at,
)

abbrev unsigned : Manager
unsigned = record {
  lib = record { sign = λ c. err (message "no key"); parse = λ now s. invalid };
  token_expiry = 15 * minute;
  refresh_expiry = 60 * minute;
}

abbrev pub access : Claims
access = access_claims unsigned 1000 13 1 "member" 1

abbrev pub refreshing : Claims
refreshing = refresh_claims unsigned 1000 13 1

abbrev pub challenge : Claims
challenge = challenge_claims 1000 "j1" 13

abbrev pub state : Claims
state = state_claims 1000 "j1" "google"

abbrev sign_one : Claims → Result String
sign_one c =
    if same c access
    then ok "a"
    else if same c refreshing
    then ok "r"
    else if same c challenge
    then ok "c"
    else if same c state
    then ok "s"
    else err (message "not in the table")

abbrev read_one : ℕ → String → Parsed
read_one now s =
    if str_eq s "a"
    then checked now access
    else if str_eq s "r"
    then checked now refreshing
    else if str_eq s "c"
    then checked now challenge
    else if str_eq s "s"
    then checked now state
    else invalid

abbrev pub manager : Manager
manager = record unsigned { lib = record { sign = sign_one; parse = read_one } }

one_text : (a b : String) → ok a ≡ ok b → b ≡ a
one_text a b h = cc

reads :
    (c d : Claims) (s t : String) (now : ℕ)
    → c ≡ d
    → ok t ≡ ok s
    → read_one now t ≡ checked now d
    → read_one now s ≡ checked now c
reads c d s t now e h k = rw (one_text t s h, e) k

manager-back :
    (c : Claims) (s : String) (now : ℕ) → sign_one c ≡ ok s → read_one now s ≡ checked now c
manager-back c s now h = elim (Bool-cases (same c access)) [
  | inl e ↦ reads c access s "a" now (same_sound c access e) (rw e at h) refl
  | inr e ↦ elim (Bool-cases (same c refreshing)) [
    | inl f ↦ reads c refreshing s "r" now (same_sound c refreshing f) (rw (e, f) at h) refl
    | inr f ↦ elim (Bool-cases (same c challenge)) [
      | inl g ↦ reads c challenge s "c" now (same_sound c challenge g) (rw (e, f, g) at h) refl
      | inr g ↦ elim (Bool-cases (same c state)) [
        | inl i ↦ reads c state s "s" now (same_sound c state i) (rw (e, f, g, i) at h) refl
        | inr i ↦ cc (rw (e, f, g, i) at h)
      ]
    ]
  ]
]

pub manager-Parses : Parses manager.lib
manager-Parses = record { back = manager-back }
