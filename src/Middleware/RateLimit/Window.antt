-- ===== src/Middleware/RateLimit/Window.antt =====
-- How many requests of one address pass within a window.
use orkai.Prelude.{
  ℕ, ◌+◌, ◌-◌, ◌≤◌, String, ◌≡◌, refl, ap, ◌∙◌, true, false, Option, none, some, List, [], ◌∷◌,
  str_eq, eq_iff, eq_refl, ltb, if◌then◌else◌, All, arith, Bool-cases, inl, inr,
}
use orkai.Middleware.RateLimit.{
  Entry, Attempts, put, Event, request, cleanup, time_of, step, passed, attempt, expire,
}

abbrev pub Before : ℕ → Event → Type 0
Before t ev = time_of ev ≤ t

kept : (e : Entry) (now : ℕ) → now ≤ e.reset → expire now (some e) ≡ some e
kept e now h = ground arith

in_window : (e : Entry) (now : ℕ) → now ≤ e.reset → ltb e.reset now ≡ false
in_window e now h = ground arith

spend_one :
    (m c n : ℕ)
    → n ≤ m - (c + 1)
    → (if (if ltb m (c + 1) then false else true) then 1 else 0) + n ≤ m - c
spend_one m c n h = ground arith

same_text : (a b : String) → str_eq a b ≡ false → b ≡ a → ⊥
same_text a b h p = cc (rw (p, eq_refl a) at h)

flip_false : (a b : String) → str_eq a b ≡ false → str_eq b a ≡ false
flip_false a b h = elim (Bool-cases (str_eq b a)) [
  | inl e ↦ absurd (same_text a b h ((eq_iff b a).0 e))
  | inr e ↦ e
]

put-other :
    (k ip : String) (e : Entry) (attempts : Attempts)
    → str_eq k ip ≡ false
    → put k e attempts ip ≡ attempts ip
put-other k ip e attempts h = rw (flip_false k ip h) refl

module _ (max_attempts window : ℕ) (ip : String) where
  untouched :
      (k : String) (now : ℕ) (o : Option Entry) (attempts : Attempts)
      → str_eq k ip ≡ false
      → (attempt max_attempts window k now o attempts).1 ip ≡ attempts ip
  untouched k now none attempts h = put-other k ip _ attempts h
  untouched k now (some e) attempts h = elim (Bool-cases (ltb e.reset now)) [
    | inl b ↦ rw b (put-other k ip _ attempts h)
    | inr b ↦ rw b (put-other k ip _ attempts h)
  ]

  -- Once the entry is there, what is left of the allowance bounds the rest of the window.
  rest_of_window :
      (evs : List Event) (attempts : Attempts) (e : Entry)
      → attempts ip ≡ some e
      → All (Before e.reset) evs
      → passed max_attempts window ip evs attempts ≤ max_attempts - e.count
  unfolding passed step
  rest_of_window [] attempts e h _ = omega arith
  rest_of_window (cleanup now ∷ evs) attempts e h (b, bs) = omega (
    arith,
    rest_of_window evs (λ k. expire now (attempts k)) e (ap (expire now) h ∙ kept e now b) bs,
  )
  rest_of_window (request k now ∷ evs) attempts e h (b, bs) = elim (Bool-cases (str_eq k ip)) [
    | inl s ↦
        let e' = record e { count = e.count + 1 } in
        let ih = rest_of_window evs (put ip e' attempts) e' (rw (eq_refl ip) refl) bs in
        rw ((eq_iff k ip).0 s, eq_refl ip, h, in_window e now b)
          (spend_one max_attempts e.count _ ih)
    | inr s ↦ rw s (
        omega (
          arith,
          rest_of_window evs (step max_attempts window (request k now) attempts).1 e
              (untouched k now (attempts k) attempts s ∙ h) bs,
        ))
  ]

  -- A window opens with the first request of an address that has no entry. Until it ends, whatever
  -- other addresses and the cleanup do, no more requests of the address pass than the limit allows
  -- (the first one always does, also under a limit of 0).
  pub passed-window :
      (evs : List Event) (attempts : Attempts) (now : ℕ)
      → attempts ip ≡ none
      → All (Before (now + window)) evs
      → passed max_attempts window ip (request ip now ∷ evs) attempts ≤ 1 + (max_attempts - 1)
  unfolding passed step
  passed-window evs attempts now h bs =
      let e : Entry = record { count = 1; reset = now + window } in
      rw (eq_refl ip, h)
        (omega (arith, rest_of_window evs (put ip e attempts) e (rw (eq_refl ip) refl) bs))
