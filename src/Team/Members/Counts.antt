-- ===== src/Team/Members/Counts.antt =====
-- How many rows fit a test after one row is rewritten.
use orkai.Prelude.{
  ◌+◌, ◌≤◌, ◌≡◌, refl, Bool, true, false, some, List, [], ◌∷◌, arith, find?, count, update_where,
  inl, inr, Bool-cases,
}

module _ {A : Type 0} (p q : A → Bool) (f : A → A) where
  -- At most the rewritten rows are lost.
  pub count-update_where : (xs : List A) → count p xs ≤ count p (update_where q f xs) + count q xs
  count-update_where [] = omega arith
  count-update_where (x ∷ xs) =
      let ih = count-update_where xs in
      elim (Bool-cases (q x)) [
        | inl h ↦ elim (Bool-cases (p x)) [
          | inl k ↦ rw (h, k) (omega (arith, ih))
          | inr k ↦ rw (h, k) (omega (arith, ih))
        ]
        | inr h ↦ rw h (omega (arith, ih))
      ]

  -- Rows that fit before and after the rewriting are not lost.
  pub count-update_where-stays :
      (xs : List A)
      → ((x : A) → q x ≡ true → p x ≡ true → p (f x) ≡ true)
      → count p xs ≤ count p (update_where q f xs)
  count-update_where-stays [] k = omega arith
  count-update_where-stays (x ∷ xs) k =
      let ih = count-update_where-stays xs k in
      elim (Bool-cases (q x)) [
        | inl h ↦ elim (Bool-cases (p x)) [
          | inl k' ↦ rw (h, k', k x h k') (omega (arith, ih))
          | inr k' ↦ rw (h, k') (omega (arith, ih))
        ]
        | inr h ↦ rw h (omega (arith, ih))
      ]

  update_where-none : (xs : List A) → count q xs ≡ 0 → update_where q f xs ≡ xs
  update_where-none [] h = refl
  update_where-none (x ∷ xs) h = elim (Bool-cases (q x)) [
    | inl e ↦ absurd (omega (arith, rw e at h))
    | inr e ↦ rw (e, update_where-none xs (omega (arith, rw e at h))) refl
  ]

  head_unfit : (y x : A) → some y ≡ some x → p x ≡ false → p y ≡ false
  head_unfit y x e k = cc

  -- Where one row alone is rewritten, and it did not fit, nothing is lost.
  pub count-update_where-unfit :
      (xs : List A) (x : A)
      → find? q xs ≡ some x
      → count q xs ≤ 1
      → p x ≡ false
      → count p xs ≤ count p (update_where q f xs)
  count-update_where-unfit [] x e one k = cc
  count-update_where-unfit (y ∷ ys) x e one k = elim (Bool-cases (q y)) [
    | inl h ↦
        let none_left = update_where-none ys (omega (arith, rw h at one)) in
        rw (h, head_unfit y x (rw h at e) k, none_left) (omega arith)
    | inr h ↦
        rw h
          (omega (arith, count-update_where-unfit ys x (rw h at e) (omega (arith, rw h at one)) k))
  ]

head_fit : {A : Type 0} (p : A → Bool) (y x : A) → some y ≡ some x → p x ≡ true → p y ≡ true
head_fit p y x e k = cc

module _ {A : Type 0} (p q : A → Bool) (f : A → A) (unfit : (y : A) → p (f y) ≡ false) where
  count-update_where-at_most : (xs : List A) → count p (update_where q f xs) ≤ count p xs
  count-update_where-at_most [] = omega arith
  count-update_where-at_most (y ∷ ys) =
      let ih = count-update_where-at_most ys in
      elim (Bool-cases (q y)) [
        | inl h ↦ rw (h, unfit y) (omega (arith, ih))
        | inr h ↦ rw h (omega (arith, ih))
      ]

  -- A row that fitted and is rewritten so that it does not is lost.
  pub count-update_where-loses :
      (xs : List A) (x : A)
      → find? q xs ≡ some x
      → p x ≡ true
      → count p (update_where q f xs) + 1 ≤ count p xs
  count-update_where-loses [] x e k = cc
  count-update_where-loses (y ∷ ys) x e k = elim (Bool-cases (q y)) [
    | inl h ↦
        rw (h, unfit y, head_fit p y x (rw h at e) k) (omega (arith, count-update_where-at_most ys))
    | inr h ↦ rw h (omega (arith, count-update_where-loses ys x (rw h at e) k))
  ]
