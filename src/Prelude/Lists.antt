-- ===== src/Prelude/Lists.antt =====
-- Lists searched and changed by Boolean tests: what a query does to a table.
use Prim.Native.Nat.{ℕ, suc, ◌+◌, ◌≤◌}
use mathlib.Core.Path.{◌≡◌, refl}
use mathlib.Core.Bool.{Bool, true, false, ◌||◌, ◌&&◌}
use mathlib.Core.Logic.{inl, inr}
use mathlib.Core.List.{List, [], ◌∷◌, ◌++◌}
use mathlib.Core.Option.{Option, none, some}
use native.Mathlib.Omega.{arith}
use orkai.Prelude.Tests.{if◌then◌else◌, ◌==◌, Bool-cases}

module _ {ℓ} {A : Type ℓ} where
  abbrev pub length : List A → ℕ
  length [] = 0
  length (x ∷ xs) = suc (length xs)

  abbrev pub find? : (A → Bool) → List A → Option A
  find? p [] = none
  find? p (x ∷ xs) = if p x then some x else find? p xs

  abbrev pub filter : (A → Bool) → List A → List A
  filter p [] = []
  filter p (x ∷ xs) = let rest = filter p xs in if p x then x ∷ rest else rest

  abbrev pub count : (A → Bool) → List A → ℕ
  count p [] = 0
  count p (x ∷ xs) = (if p x then 1 else 0) + count p xs

  abbrev pub any : (A → Bool) → List A → Bool
  any p [] = false
  any p (x ∷ xs) = p x || any p xs

  abbrev pub update_where : (A → Bool) → (A → A) → List A → List A
  update_where p f [] = []
  update_where p f (x ∷ xs) = (if p x then f x else x) ∷ update_where p f xs

  abbrev pub All {κ} : (A → Type κ) → List A → Type κ
  All P [] = Unit
  All P (x ∷ xs) = P x × All P xs

  pub count-append : (p : A → Bool) (xs ys : List A) → count p (xs ++ ys) ≡ count p xs + count p ys
  count-append p [] ys = omega arith
  count-append p (x ∷ xs) ys = omega (arith, count-append p xs ys)

module _ {ℓ} {A : Type ℓ} where
  -- A row that fits both tests is among the last of the rows that fit the first.
  pub any-filter-last :
      (p q : A → Bool) (xs : List A) (x : A)
      → q x ≡ true
      → p x ≡ true
      → any p (filter q (xs ++ x ∷ [])) ≡ true
  any-filter-last p q [] x hq hp = rw (hq, hp) refl
  any-filter-last p q (y ∷ ys) x hq hp =
      let ih = any-filter-last p q ys x hq hp in
      elim (Bool-cases (q y)) [ inl h ↦ rw h (ground arith) | inr h ↦ rw (h, ih) refl ]

  pub find?-sound : (p : A → Bool) (xs : List A) (x : A) → find? p xs ≡ some x → p x ≡ true
  find?-sound p [] x e = cc
  find?-sound p (y ∷ xs) x e = elim (Bool-cases (p y)) [
    | inl h ↦ cc (rw h at e)
    | inr h ↦ find?-sound p xs x (rw h at e)
  ]

  pub any-found : (p : A → Bool) (xs : List A) (x : A) → find? p xs ≡ some x → any p xs ≡ true
  any-found p [] x e = cc
  any-found p (y ∷ xs) x e = elim (Bool-cases (p y)) [
    | inl h ↦ rw h refl
    | inr h ↦ rw (h, any-found p xs x (rw h at e)) refl
  ]

  -- A row that is found and rewritten is found in its new form, if it still fits.
  pub find?-update_where :
      (p : A → Bool) (f : A → A) (xs : List A) (x : A)
      → find? p xs ≡ some x
      → p (f x) ≡ true
      → find? p (update_where p f xs) ≡ some (f x)
  find?-update_where p f [] x e h = cc
  find?-update_where p f (y ∷ xs) x e h = elim (Bool-cases (p y)) [
    | inl hy ↦ ground arith
    | inr hy ↦ rw (hy, hy) (find?-update_where p f xs x (rw hy at e) h)
  ]

  pub find?-append :
      (p : A → Bool) (xs ys : List A) → find? p xs ≡ none → find? p (xs ++ ys) ≡ find? p ys
  find?-append p [] ys e = refl
  find?-append p (x ∷ xs) ys e = elim (Bool-cases (p x)) [
    | inl h ↦ cc (rw h at e)
    | inr h ↦ rw h (find?-append p xs ys (rw h at e))
  ]

module _ {ℓ} {A : Type ℓ} (p q : A → Bool) (f : A → A) (dead : (y : A) → q (f y) ≡ false) where
  find?-update_where-unfit : (xs : List A) → count q xs ≡ 0 → find? q (update_where p f xs) ≡ none
  find?-update_where-unfit [] h = refl
  find?-update_where-unfit (y ∷ ys) h = elim (Bool-cases (q y)) [
    | inl e ↦ absurd (omega (arith, rw e at h))
    | inr e ↦
        let ih = find?-update_where-unfit ys (omega (arith, rw e at h)) in
        elim (Bool-cases (p y)) [ inl k ↦ rw (k, dead y) ih | inr k ↦ rw (k, e) ih ]
  ]

  same_test : (y x : A) → some y ≡ some x → p x ≡ true → p y ≡ true
  same_test y x e k = cc

  -- The one row that fits is no longer found once it is rewritten so that it does not.
  pub find?-update_where-dead :
      (xs : List A) (x : A)
      → find? q xs ≡ some x
      → count q xs ≤ 1
      → p x ≡ true
      → find? q (update_where p f xs) ≡ none
  find?-update_where-dead [] x e one k = refl
  find?-update_where-dead (y ∷ ys) x e one k = elim (Bool-cases (q y)) [
    | inl h ↦
        rw (same_test y x (rw h at e) k, dead y)
          (find?-update_where-unfit ys (omega (arith, rw h at one)))
    | inr h ↦
        let ih = find?-update_where-dead ys x (rw h at e) (omega (arith, rw h at one)) k in
        elim (Bool-cases (p y)) [ inl j ↦ rw (j, dead y) ih | inr j ↦ rw (j, h) ih ]
  ]

abbrev pub mem_nat : ℕ → List ℕ → Bool
mem_nat a [] = false
mem_nat a (x ∷ xs) = (x == a) || mem_nat a xs

module _ {ℓ} {A : Type ℓ} (fits bad : A → Bool) (f : A → A)
    (hit : (x : A) → fits x ≡ true → bad (f x) ≡ false)
    (miss : (x : A) → fits x ≡ false → bad x ≡ false) where
  -- Rewriting the rows that fit leaves no bad row, if only rows that fit are bad.
  pub any-update_where-none : (xs : List A) → any bad (update_where fits f xs) ≡ false
  any-update_where-none [] = refl
  any-update_where-none (x ∷ xs) =
      let ih = any-update_where-none xs in
      elim (Bool-cases (fits x)) [
        | inl h ↦ rw (h, hit x h, ih) refl
        | inr h ↦ rw (h, miss x h, ih) refl
      ]

module _ {ℓ} {A : Type ℓ} (p q : A → Bool) where
  pub any-found-both :
      (xs : List A) (x : A) → find? p xs ≡ some x → q x ≡ true → any (λ y. p y && q y) xs ≡ true
  any-found-both [] x e h = cc
  any-found-both (y ∷ xs) x e h = elim (Bool-cases (p y)) [
    | inl k ↦ let e' = rw k at e in let same : y ≡ x = cc in rw (k, same, h) refl
    | inr k ↦ rw (k, any-found-both xs x (rw k at e) h) refl
  ]

  -- The row that is found fits and is rewritten.
  pub find?-update_where-both :
      (f : A → A) (xs : List A) (x : A)
      → find? p xs ≡ some x
      → q x ≡ true
      → p (f x) ≡ true
      → find? p (update_where (λ y. p y && q y) f xs) ≡ some (f x)
  find?-update_where-both f [] x e h k = cc
  find?-update_where-both f (y ∷ xs) x e h k = elim (Bool-cases (p y)) [
    | inl j ↦ let e' = rw j at e in let same : y ≡ x = cc in rw (j, same, h, k) refl
    | inr j ↦ rw (j, j) (find?-update_where-both f xs x (rw j at e) h k)
  ]

  -- The first row that a filter leaves.
  pub filter-head :
      (xs ys : List A) (y : A)
      → filter p xs ≡ y ∷ ys
      → q y ≡ true
      → (p y ≡ true) × (any q xs ≡ true)
  filter-head [] ys y e h = cc
  filter-head (x ∷ xs) ys y e h = elim (Bool-cases (p x)) [
    | inl k ↦ let e' = rw k at e in let same : x ≡ y = cc in rw⁻¹ same (k, rw (same, h) refl)
    | inr k ↦ let ih = filter-head xs ys y (rw k at e) h in (ih.0, rw ih.1 (ground arith))
  ]
