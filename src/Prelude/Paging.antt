-- ===== src/Prelude/Paging.antt =====
-- ORDER BY a time DESC, OFFSET and LIMIT.
use Prim.Native.Nat.{ℕ, zero, suc}
use mathlib.Core.Path.{◌≡◌, refl, ◌∙◌}
use mathlib.Core.Logic.{inl, inr}
use mathlib.Core.Bool.{Bool, false, ◌||◌}
use mathlib.Core.List.{List, [], ◌∷◌}
use native.Mathlib.Omega.{arith}
use orkai.Prelude.Tests.{ltb, if◌then◌else◌, Bool-cases}
use orkai.Prelude.Lists.{any}

module _ {A : Type 0} where
  unfoldable pub drop : ℕ → List A → List A
  drop zero xs = xs
  drop (suc n) [] = []
  drop (suc n) (x ∷ xs) = drop n xs

  unfoldable pub take : ℕ → List A → List A
  take zero xs = []
  take (suc n) [] = []
  take (suc n) (x ∷ xs) = x ∷ take n xs

module _ {A : Type 0} (time_of : A → ℕ) where
  put_in_order : A → List A → List A
  put_in_order a [] = a ∷ []
  put_in_order a (b ∷ bs) =
      let rest = put_in_order a bs in if ltb (time_of a) (time_of b) then b ∷ rest else a ∷ b ∷ bs

  -- Rows of one time stay as they are in the table.
  unfoldable pub latest_first : List A → List A
  unfolding put_in_order
  latest_first [] = []
  latest_first (a ∷ xs) = put_in_order a (latest_first xs)

module _ {A : Type 0} (time_of : A → ℕ) (p : A → Bool) where
  any-put_in_order : (a : A) (xs : List A) → any p (put_in_order time_of a xs) ≡ (p a || any p xs)
  unfolding put_in_order
  any-put_in_order a [] = refl
  any-put_in_order a (b ∷ bs) =
      let ih = any-put_in_order a bs in
      elim (Bool-cases (ltb (time_of a) (time_of b))) [
        | inl h ↦ rw (h, ih) (ground arith)
        | inr h ↦ rw h refl
      ]

  pub any-latest_first : (xs : List A) → any p (latest_first time_of xs) ≡ any p xs
  unfolding latest_first
  any-latest_first [] = refl
  any-latest_first (x ∷ xs) =
      rw (any-put_in_order x (latest_first time_of xs), any-latest_first xs) refl

module _ {A : Type 0} (p : A → Bool) where
  any-drop : (n : ℕ) (xs : List A) → any p xs ≡ false → any p (drop n xs) ≡ false
  unfolding drop
  any-drop zero xs h = h
  any-drop (suc n) [] h = refl
  any-drop (suc n) (x ∷ xs) h = any-drop n xs (ground arith)

  any-take : (n : ℕ) (xs : List A) → any p xs ≡ false → any p (take n xs) ≡ false
  unfolding take
  any-take zero xs h = refl
  any-take (suc n) [] h = refl
  any-take (suc n) (x ∷ xs) h = let ih = any-take n xs (ground arith) in rw ih (ground arith)

  -- A page has only rows of the list.
  pub any-page :
      (time_of : A → ℕ) (n k : ℕ) (xs : List A)
      → any p xs ≡ false
      → any p (take n (drop k (latest_first time_of xs))) ≡ false
  any-page time_of n k xs h = any-take n _ (any-drop k _ (any-latest_first time_of p xs ∙ h))
