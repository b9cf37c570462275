-- ===== src/Alerts/Rows.antt =====
-- The statements of metrics_store.go, each from a table with at most one active alert of a rule for
-- a source.
use orkai.Prelude.{
  ℕ, ◌≤◌, String, ◌≡◌, refl, Bool, true, false, none, some, List, [], ◌∷◌, ◌++◌, str_eq, eq_iff,
  subst, arith, Bool-cases, Option-cases, inl, inr, find?, count, count-append, update_where,
}
use orkai.Result.{Result, err, no_rows}
use orkai.Exec.{catch, ◌>>=◌}
use orkai.Exec.Triple.{Both}
use orkai.Store.Query.{row}
use orkai.Alerts.Store as Store
use orkai.Alerts.Store.{
  MetricAlert, Monitor, trip, active_of, fresh, has_id, get_active, list_active, list_from,
}
use orkai.Alerts.Tables.{On, OneActive}

count-update_where-dead :
    {A : Type 0} (p q : A → Bool) (f : A → A) (xs : List A)
    → ((x : A) → p (f x) ≡ false)
    → count p (update_where q f xs) ≤ count p xs
count-update_where-dead p q f [] h = omega arith
count-update_where-dead p q f (x ∷ xs) h =
    let ih = count-update_where-dead p q f xs h in
    elim (Bool-cases (q x)) [
      | inl e ↦ rw (e, h x) (omega (arith, ih))
      | inr e ↦ rw e (omega (arith, ih))
    ]

dead :
    (rule source : String) (a : MetricAlert) (t : ℕ)
    → active_of rule source (record a { resolved_at = some t }) ≡ false
dead rule source a t = ground arith

resolve_rows :
    (id : ℕ) (m : Monitor)
    → On OneActive m
    → OneActive (update_where (has_id id) (λ a. record a { resolved_at = some m.now }) m.alerts)
resolve_rows id m h rule source =
    let less =
      count-update_where-dead (active_of rule source) (has_id id)
        (λ a. record a { resolved_at = some m.now }) m.alerts (λ a. dead rule source a m.now) in
    omega (arith, less, h.rows rule source)

pub resolve_by_faults :
    (id : ℕ) (fs : List Bool) (m : Monitor)
    → On OneActive m
    → On OneActive (Store.resolve id (record m { faults = fs })).1
unfolding Store.resolve ◌>>=◌
resolve_by_faults id [] m h = record { rows = resolve_rows id m h }
resolve_by_faults id (true ∷ fs) m h = record { rows = h.rows }
resolve_by_faults id (false ∷ fs) m h = record { rows = resolve_rows id m h }

-- No alert of the rule is active for the source.
abbrev pub Free : String → String → List MetricAlert → Type 0
Free rule source alerts = OneActive alerts × (count (active_of rule source) alerts ≡ 0)

module _ (rule severity source_type source message : String) where
  same_pair :
      (r s : String) (m : Monitor)
      → active_of r s (fresh rule severity source_type source message m) ≡ true
      → (rule ≡ r) × (source ≡ s)
  same_pair r s m h = elim (Bool-cases (str_eq rule r)) [
    | inr e ↦ cc (rw e at h)
    | inl e ↦ elim (Bool-cases (str_eq source s)) [
      | inr d ↦ cc (rw (e, d) at h)
      | inl d ↦ ((eq_iff rule r).0 e, (eq_iff source s).0 d)
    ]
  ]

  one_more :
      (m : Monitor)
      → Free rule source m.alerts
      → OneActive (m.alerts ++ fresh rule severity source_type source message m ∷ [])
  one_more m h r s =
      let new = fresh rule severity source_type source message m in
      let both = count-append (active_of r s) m.alerts (new ∷ []) in
      elim (Bool-cases (active_of r s new)) [
        | inl e ↦
            let (pr, ps) = same_pair r s m e in
            let none_yet =
              subst (λ (x : String). count (active_of x s) m.alerts ≡ 0) pr
                (subst (λ (x : String). count (active_of rule x) m.alerts ≡ 0) ps h.1) in
            omega (arith, rw e at both, none_yet)
        | inr e ↦ omega (arith, rw e at both, h.0 r s)
      ]

  pub insert_by_faults :
      (fs : List Bool) (m : Monitor)
      → On (Free rule source) m
      → On OneActive
          (Store.insert rule severity source_type source message (record m { faults = fs })).1
  unfolding Store.insert ◌>>=◌
  insert_by_faults [] m h = record { rows = one_more m h.rows }
  insert_by_faults (true ∷ fs) m h = record { rows = h.rows.0 }
  insert_by_faults (false ∷ fs) m h = record { rows = one_more m h.rows }

-- What the lookup of the active alert answers, and the table.
abbrev pub Found : String → String → Result MetricAlert → Monitor → Type 0
Found rule source r m =
    On OneActive m × (r ≡ err no_rows → count (active_of rule source) m.alerts ≡ 0)

count-none : {A : Type 0} (p : A → Bool) (xs : List A) → find? p xs ≡ none → count p xs ≡ 0
count-none p [] e = refl
count-none p (x ∷ xs) e = elim (Bool-cases (p x)) [
  | inl h ↦ cc (rw h at e)
  | inr h ↦ let ih = count-none p xs (rw h at e) in rw h (omega (arith, ih))
]

row_found :
    {A : Type 0} (p : A → Bool) (xs : List A) → row (find? p xs) ≡ err no_rows → count p xs ≡ 0
row_found p xs e = elim (Option-cases (find? p xs)) [
  | inl h ↦ count-none p xs h
  | inr (a, h) ↦ cc (rw h at e)
]

module _ (rule source : String) where
  pub get_active_by_faults :
      (fs : List Bool) (m : Monitor)
      → On OneActive m
      → Both
          (Found rule source)
          (On OneActive)
          (catch (get_active rule source) (record m { faults = fs }))
  unfolding get_active catch ◌>>=◌
  get_active_by_faults [] m h =
      (record { rows = h.rows }, row_found (active_of rule source) m.alerts)
  get_active_by_faults (true ∷ fs) m h = (record { rows = h.rows }, λ e. cc)
  get_active_by_faults (false ∷ fs) m h =
      (record { rows = h.rows }, row_found (active_of rule source) m.alerts)
