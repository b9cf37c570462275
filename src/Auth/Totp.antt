-- ===== src/Auth/Totp.antt =====
-- `verifyTOTP` and `generateTOTPCode` of auth_service.go. Base32 and HMAC-SHA1 are parameters.
use orkai.Prelude.{
  ℕ, ◌+◌, ◌-◌, ◌*◌, ◌%◌, ◌^◌, ◌≤◌, ◌<◌, String, Bool, true, false, Option, none, some, List, [],
  ◌∷◌, ◌≡◌, ◌&&◌, ◌||◌, ◌==◌, arith, refl, subst, Bool-cases, Option-cases, inl, inr, length, All,
}
use Prim.Native.Nat.{◌/◌}
use Prim.Native.Char.{code}
use Prim.Native.String as Text
use orkai.Model.Accounts.{second}

pub record Hmac : Type 0 where
  -- `DecodeString` of base32 without padding
  pub decode : String → Option String
  -- the 20 bytes of the sum of a key and a text, by their index
  pub sum : String → List ℕ → ℕ → ℕ

-- `binary.BigEndian.PutUint64`
abbrev be64 : ℕ → List ℕ
be64 n =
    (n / 2 ^ 56 % 256)
    ∷ (n / 2 ^ 48 % 256)
    ∷ (n / 2 ^ 40 % 256)
    ∷ (n / 2 ^ 32 % 256)
    ∷ (n / 2 ^ 24 % 256)
    ∷ (n / 2 ^ 16 % 256)
    ∷ (n / 2 ^ 8 % 256)
    ∷ (n % 256)
    ∷ []

-- `hash[len(hash)-1] & 0x0f`
abbrev offset_of : (ℕ → ℕ) → ℕ
offset_of hash = hash 19 % 16

-- `binary.BigEndian.Uint32(hash[offset:offset+4]) & 0x7fffffff`
abbrev truncated : (ℕ → ℕ) → ℕ
truncated hash =
    let o = offset_of hash in
    (hash o * 2 ^ 24 + hash (o + 1) * 2 ^ 16 + hash (o + 2) * 2 ^ 8 + hash (o + 3)) % 2 ^ 31

-- `%06d` of a number below a million, as code points.
abbrev six_digits : ℕ → List ℕ
six_digits n =
    (48 + n / 100000 % 10)
    ∷ (48 + n / 10000 % 10)
    ∷ (48 + n / 1000 % 10)
    ∷ (48 + n / 100 % 10)
    ∷ (48 + n / 10 % 10)
    ∷ (48 + n % 10)
    ∷ []

unfoldable pub generate_totp_code : Hmac → String → ℕ → List ℕ
generate_totp_code h key counter = six_digits (truncated (h.sum key (be64 counter)) % 1000000)

abbrev pub codes : String → List ℕ
codes Text.[] = []
codes (Text.◌∷◌ c s) = code c ∷ codes s

same : List ℕ → List ℕ → Bool
same [] [] = true
same (x ∷ xs) (y ∷ ys) = (x == y) && same xs ys
same _ _ = false

-- The counters one step before and after; `int64` to `uint64` wraps around.
abbrev any_counter : Hmac → String → ℕ → String → Bool
unfolding same generate_totp_code
any_counter h key counter text =
    same (generate_totp_code h key ((counter + 2 ^ 64 - 1) % 2 ^ 64)) (codes text)
    || same (generate_totp_code h key counter) (codes text)
    || same (generate_totp_code h key (counter + 1)) (codes text)

with_key : Hmac → Option String → ℕ → String → Bool
unfolding same generate_totp_code
with_key h none counter text = false
with_key h (some key) counter text = any_counter h key counter text

unfoldable pub verify_totp : Hmac → ℕ → String → String → Bool
unfolding with_key
verify_totp h now secret text = with_key h (h.decode secret) (now / second / 30) text

-- The sum is read inside its 20 bytes.
offset_bounds : (hash : ℕ → ℕ) → offset_of hash + 3 < 20
offset_bounds hash = omega arith

abbrev pub IsDigit : ℕ → Type 0
IsDigit c = (48 ≤ c) × (c ≤ 57)

abbrev pub IsCode : List ℕ → Type 0
IsCode cs = All IsDigit cs × (length cs ≡ 6)

digit : (m : ℕ) → IsDigit (48 + m % 10)
digit m = (omega arith, omega arith)

six_digits-IsCode : (n : ℕ) → IsCode (six_digits n)
six_digits-IsCode n = (
  (
    digit (n / 100000),
    (digit (n / 10000), (digit (n / 1000), (digit (n / 100), (digit (n / 10), (digit n, tt))))),
  ),
  refl,
)

generate_totp_code-IsCode :
    (h : Hmac) (key : String) (counter : ℕ) → IsCode (generate_totp_code h key counter)
unfolding generate_totp_code
generate_totp_code-IsCode h key counter =
    six_digits-IsCode (truncated (h.sum key (be64 counter)) % 1000000)

same_sound : (xs ys : List ℕ) → same xs ys ≡ true → xs ≡ ys
unfolding same
same_sound [] [] h = refl
same_sound [] (y ∷ ys) h = cc
same_sound (x ∷ xs) [] h = cc
same_sound (x ∷ xs) (y ∷ ys) h = ground (arith, same_sound xs ys)

same-IsCode :
    (h : Hmac) (key : String) (n : ℕ) (cs : List ℕ)
    → same (generate_totp_code h key n) cs ≡ true
    → IsCode cs
same-IsCode h key n cs e = subst IsCode (same_sound _ cs e) (generate_totp_code-IsCode h key n)

any_counter-IsCode :
    (h : Hmac) (key : String) (n : ℕ) (text : String)
    → any_counter h key n text ≡ true
    → IsCode (codes text)
unfolding any_counter
any_counter-IsCode h key n text e =
    let before = (n + 2 ^ 64 - 1) % 2 ^ 64 in
    elim (Bool-cases (same (generate_totp_code h key before) (codes text))) [
      | inl a ↦ same-IsCode h key before _ a
      | inr a ↦ elim (Bool-cases (same (generate_totp_code h key n) (codes text))) [
        | inl b ↦ same-IsCode h key n _ b
        | inr b ↦ same-IsCode h key (n + 1) _ (rw (a, b) at e)
      ]
    ]

-- Whatever the secret and the time, only a text of six decimal digits is accepted as a code.
pub verify_totp-IsCode :
    (h : Hmac) (now : ℕ) (secret text : String)
    → verify_totp h now secret text ≡ true
    → IsCode (codes text)
unfolding verify_totp
verify_totp-IsCode h now secret text e = elim (Option-cases (h.decode secret)) [
  | inl a ↦ cc (rw a at e)
  | inr (key, a) ↦ any_counter-IsCode h key (now / second / 30) text (rw a at e)
]
