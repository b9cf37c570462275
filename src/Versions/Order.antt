-- ===== src/Versions/Order.antt =====
-- Updates go one way.
use orkai.Prelude.{
  ℕ, String, ◌≡◌, refl, ◌⊎◌, inl, inr, Bool, true, false, str_eq, eq_iff, Bool-cases, arith,
}
use orkai.Versions.{newer, is_newer, is_release_of, should_update, base, clean, is_prerelease}

newer_asym : (l c : ℕ × (ℕ × ℕ)) → newer l c ≡ true → newer c l ≡ false
unfolding newer
newer_asym (la, (lb, lc)) (ca, (cb, cd)) h = ground arith

newer_irrefl : (l : ℕ × (ℕ × ℕ)) → newer l l ≡ false
unfolding newer
newer_irrefl (a, (b, c)) = ground arith

-- A version is never newer than one with the same numbers.
same_base : (l c : String) → base (clean l) ≡ base (clean c) → is_newer l c ≡ false
same_base l c e = rw e (newer_irrefl _)

release-base :
    (l c : String)
    → is_release_of (clean l) (clean c) ≡ true
    → (base (clean c) ≡ base (clean l)) × (is_prerelease (clean l) ≡ false)
release-base l c h =
    let same : str_eq (base (clean c)) (base (clean l)) ≡ true = ground arith in
    ((eq_iff (base (clean c)) (base (clean l))).0 same, ground arith)

unfolded :
    (l c : String)
    → should_update l c ≡ true
    → (is_release_of (clean l) (clean c) ≡ true) ⊎ (is_newer l c ≡ true)
unfolding should_update
unfolded l c h = ground arith

refused :
    (l c : String)
    → is_release_of (clean l) (clean c) ≡ false
    → is_newer l c ≡ false
    → should_update l c ≡ false
unfolding should_update
refused l c r n = ground arith

not_release :
    (l c : String) → is_prerelease (clean c) ≡ false → is_release_of (clean l) (clean c) ≡ false
not_release l c h = rw h refl

differ : {b : Bool} → b ≡ true → b ≡ false → ⊥
differ t f = cc

-- Of two versions at most one is an update of the other.
pub should_update-one_way : (l c : String) → should_update l c ≡ true → should_update c l ≡ false
should_update-one_way l c h = elim (unfolded l c h) [
  | inl r ↦
      let (same, final) = release-base l c r in
      refused c l (not_release c l final) (same_base c l same)
  | inr n ↦ elim (Bool-cases (is_release_of (clean c) (clean l))) [
    | inl r ↦ let same = same_base l c (release-base c l r).0 in absurd (differ n same)
    | inr r ↦ refused c l r (newer_asym _ _ n)
  ]
]
