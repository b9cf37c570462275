-- ===== src/Exec/Triple.antt =====
-- What an action leaves on its two ways out: `Triple P m Q E` says that from a state with `P`, a
-- value comes with `Q` and an error with `E`.
use orkai.Prelude.{◌≡◌, refl, Bool, true, false, if◌then◌else◌}
use orkai.Result.{Result, ok, err, Error}
use orkai.Exec.Preserves.{Preserves}
use orkai.Exec.Yields.{Post, Yields}
use orkai.Exec.{Exec, pure, lift, view, continue, ◌>>=◌, throw_if, replace, or_else, ignore}

abbrev pub Both : {S A : Type 0} → (A → S → Type 0) → (S → Type 0) → Result A × S → Type 0
Both Q E (ok a, s) = Q a s
Both Q E (err e, s) = E s

pub record Triple {S A : Type 0} (P : S → Type 0) (m : Exec S A) (Q : A → S → Type 0)
    (E : S → Type 0) : Type 0 where
  pub at : (s : S) → P s → Both Q E (m s)

module _ {S A : Type 0} {P E : S → Type 0} where
  pub Triple-pure : {Q : A → S → Type 0} (a : A) → ((s : S) → P s → Q a s) → Triple P (pure a) Q E
  unfolding pure
  Triple-pure a k = record { at = λ s h. k s h }

  pub Triple-view : (f : S → A) → Triple P (view f) (λ a s. P s × (a ≡ f s)) E
  unfolding view
  Triple-view f = record { at = λ s h. (h, refl) }

module _ {S : Type 0} {P E : S → Type 0} where
  -- Past a guard, its test was false.
  pub Triple-throw_if :
      (b : Bool) (e : Error)
      → ((s : S) → P s → E s)
      → Triple P (throw_if b e) (λ _ s. P s × (b ≡ false)) E
  unfolding throw_if
  Triple-throw_if true e k = record { at = λ s h. k s h }
  Triple-throw_if false e k = record { at = λ s h. (h, refl) }

module _ {S A B : Type 0} where
  continue-Both :
      (R : A → S → Type 0) (Q : B → S → Type 0) (E : S → Type 0) (r : Result A) (s : S)
      (f : A → Exec S B)
      → Both R E (r, s)
      → ((a : A) → Triple (R a) (f a) Q E)
      → Both Q E (continue r f s)
  continue-Both R Q E (ok a) s f h k = (k a).at s h
  continue-Both R Q E (err e) s f h k = h

module _ {S A B : Type 0} {P : S → Type 0} {R : A → S → Type 0} {Q : B → S → Type 0}
    {E : S → Type 0} where
  pub Triple-bind :
      (m : Exec S A) (f : A → Exec S B)
      → Triple P m R E
      → ((a : A) → Triple (R a) (f a) Q E)
      → Triple P (m >>= f) Q E
  unfolding ◌>>=◌
  Triple-bind m f hm hf = record {
    at = λ s h. let (r, s') = m s in continue-Both R Q E r s' f (hm.at s h) hf;
  }

module _ {S A : Type 0} (Q Q' : A → S → Type 0) (E E' : S → Type 0) where
  Both-weaken :
      (r : Result A) (s : S)
      → ((a : A) (s : S) → Q a s → Q' a s)
      → ((s : S) → E s → E' s)
      → Both Q E (r, s)
      → Both Q' E' (r, s)
  Both-weaken (ok a) s q e h = q a s h
  Both-weaken (err x) s q e h = e s h

module _ {S A : Type 0} {P P' : S → Type 0} {Q Q' : A → S → Type 0} {E E' : S → Type 0} where
  pub Triple-weaken :
      (m : Exec S A)
      → ((s : S) → P' s → P s)
      → ((a : A) (s : S) → Q a s → Q' a s)
      → ((s : S) → E s → E' s)
      → Triple P m Q E
      → Triple P' m Q' E'
  Triple-weaken m p q e h = record {
    at = λ s x. let (r, s') = m s in Both-weaken Q Q' E E' r s' q e (h.at s (p s x));
  }

module _ {S A : Type 0} (E : S → Type 0) (Q : A → S → Type 0) where
  Both-or_else : (r : Result A) (s : S) (x : Error) → Both Q E (r, s) → Both Q E (replace x r, s)
  Both-or_else (ok a) s x h = h
  Both-or_else (err e) s x h = h

module _ {S A : Type 0} {P E : S → Type 0} {Q : A → S → Type 0} where
  pub Triple-or_else : (m : Exec S A) (x : Error) → Triple P m Q E → Triple P (or_else m x) Q E
  unfolding or_else
  Triple-or_else m x h = record {
    at = λ s p. let (r, s') = m s in Both-or_else E Q r s' x (h.at s p);
  }

module _ {S A : Type 0} {P E : S → Type 0} {Q : A → S → Type 0} where
  -- A fact of the precondition that does not speak of the state is a hypothesis.
  pub Triple-fact : {F : Type 0} (m : Exec S A) → (F → Triple P m Q E) → Triple (λ s. P s × F) m Q E
  Triple-fact m k = record { at = λ s h. (k h.1).at s h.0 }

module _ {S A : Type 0} where
  Both-ignore : (P : S → Type 0) (r : Result A) (s : S) → Both (λ _. P) P (r, s) → P s
  Both-ignore P (ok a) s h = h
  Both-ignore P (err e) s h = h

module _ {S A : Type 0} {P R E : S → Type 0} where
  pub Triple-ignore : (m : Exec S A) → Triple P m (λ _. R) R → Triple P (ignore m) (λ _. R) E
  unfolding ignore
  Triple-ignore m k = record { at = λ s h. let (r, s') = m s in Both-ignore R r s' (k.at s h) }

module _ {S A : Type 0} {P E : S → Type 0} {Q : A → S → Type 0} where
  pub Triple-if :
      (b : Bool) (m n : Exec S A)
      → (b ≡ true → Triple P m Q E)
      → (b ≡ false → Triple P n Q E)
      → Triple P (if b then m else n) Q E
  Triple-if true m n hm hn = hm refl
  Triple-if false m n hm hn = hn refl

module _ {S A : Type 0} {P E : S → Type 0} where
  pub Triple-lift :
      (r : Result A) → ((s : S) → P s → E s) → Triple P (lift r) (λ a s. P s × (r ≡ ok a)) E
  unfolding lift
  Triple-lift (ok a) k = record { at = λ s h. (h, refl) }
  Triple-lift (err e) k = record { at = λ s h. k s h }

-- What is kept on both ways out.
module _ {S A : Type 0} {P : S → Type 0} where
  Both-same :
      (E : S → Type 0) (r : Result A) (s : S) → ((s : S) → P s → E s) → P s → Both (λ _. P) E (r, s)
  Both-same E (ok a) s k h = h
  Both-same E (err e) s k h = k s h

  pub Triple-from_Preserves :
      {E : S → Type 0} (m : Exec S A)
      → ((s : S) → P s → E s)
      → Preserves P m
      → Triple P m (λ _. P) E
  Triple-from_Preserves {E} m k pm = record {
    at = λ s h. let (r, s') = m s in Both-same E r s' k (pm.at s h);
  }

  pub Preserves-from_Triple :
      {Q : S → Type 0} (m : Exec S A) → Triple Q m (λ _. P) P → (s : S) → Q s → P (m s).1
  Preserves-from_Triple {Q} m k s h = let (r, s') = m s in back r s' (k.at s h)
    where
      back : (r : Result A) (s : S) → Both (λ _. P) P (r, s) → P s
      back (ok a) s h = h
      back (err e) s h = h

module _ {S A : Type 0} {P : S → Type 0} {R : A → Type 0} where
  -- What every value has and what every state keeps, of an action that never fails.
  pub Triple-from_Yields :
      (m : Exec S A) → Yields R m → Preserves P m → Triple P m (λ a s. P s × R a) (λ _. ⊥)
  Triple-from_Yields m y k = record {
    at = λ s h. let (r, s') = m s in both r s' (y.at s) (k.at s h);
  }
    where
      both : (r : Result A) (s : S) → Post R (r, s) → P s → Both (λ a s. P s × R a) (λ _. ⊥) (r, s)
      both (ok a) s h p = (p, h)
      both (err e) s h p = h
