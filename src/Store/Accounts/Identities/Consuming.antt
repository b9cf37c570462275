-- ===== src/Store/Accounts/Identities/Consuming.antt =====
-- `Consume`, by what it leaves in the table of used challenges.
use orkai.Prelude.{ℕ, String, ◌≡◌, sym, subst, Bool, not, any, if◌then◌else◌, arith}
use orkai.Exec.Preserves.{Preserves}
use orkai.Exec.Triple.{
  Triple, Triple-bind, Triple-pure, Triple-view, Triple-ignore, Triple-weaken,
  Triple-from_Preserves,
}
use orkai.World.{World, Db, Context, round_trip, on_db}
use orkai.Store.Query.{exec}
use orkai.Store.Accounts.Identities.{mark_used, prune, consume, has_jti, add_used, prune_at}

-- A predicate of the database and the time.
abbrev pub At : (Db → ℕ → Type 0) → World → Type 0
At P w = P w.db w.now

module _ (P : Db → ℕ → Type 0) (c : Context) where
  pub round_trip-At : Preserves (At P) (round_trip c)
  unfolding round_trip
  round_trip-At = record { at = λ w h. ground arith }

module _ (P Q : Db → ℕ → Type 0) (c : Context) (f : Db → Db)
    (k : (db : Db) (t : ℕ) → P db t → Q (f db) t) where
  exec-At : Triple (At P) (exec c f) (λ _. At Q) (At P)
  unfolding exec on_db
  exec-At =
      Triple-bind _ _ (Triple-from_Preserves _ (λ w h. h) (round_trip-At P c))
        (λ _. record { at = λ w h. k w.db w.now h })

module _ (P : Db → ℕ → Type 0) (R : Bool → Db → ℕ → Type 0) (c : Context) (jti : String)
    (x : ℕ) where
  mark_used-At :
      ((db : Db) (t : ℕ)
        → P db t
        → let used = any (has_jti jti) db.used_challenges in
          R used (if used then db else add_used jti x db) t)
      → Triple (At P) (mark_used c jti x) (λ used. At (R used)) (At P)
  unfolding mark_used on_db
  mark_used-At k = Triple-bind _ _ (Triple-from_Preserves _ (λ w h. h) (round_trip-At P c)) (λ _.
      Triple-bind _ _ (Triple-view (λ w. any (has_jti jti) w.db.used_challenges)) (λ used.
        Triple-bind _ _
          (record {
            at = λ w h.
                subst (λ (b : Bool). R b (if b then w.db else add_used jti x w.db) w.now) (sym h.1)
                  (k w.db w.now h.0);
          })
          (λ _. Triple-pure used (λ w h. h))))

  prune-At :
      (b : Bool)
      → ((db : Db) (t : ℕ) → R b db t → R b (prune_at t db) t)
      → Triple (At (R b)) (prune c) (λ _. At (R b)) (At (R b))
  unfolding prune
  prune-At b keep = Triple-bind _ _ (Triple-view (λ w. w.now)) (λ now.
      Triple-weaken _ (λ w h. h) (λ _ w h. h.0) (λ w h. h.0)
        (exec-At (λ db t. R b db t × (now ≡ t)) (λ db t. R b db t × (now ≡ t)) c (prune_at now)
          (λ db t h. (subst (λ (n : ℕ). R b (prune_at n db) t) (sym h.1) (keep db t h.0), h.1))))

  -- From what marking makes of the table, if pruning keeps it.
  pub consume-At :
      ((db : Db) (t : ℕ)
        → P db t
        → let used = any (has_jti jti) db.used_challenges in
          R used (if used then db else add_used jti x db) t)
      → ((b : Bool) (db : Db) (t : ℕ) → R b db t → R b (prune_at t db) t)
      → Triple (At P) (consume c jti x) (λ fresh. At (R (not fresh))) (At P)
  unfolding consume
  consume-At k keep = Triple-bind _ _ (mark_used-At k) (λ used.
      Triple-bind _ _ (Triple-ignore _ (prune-At used (keep used))) (λ _.
        Triple-pure (not used) (λ w h. subst (λ (b : Bool). R b w.db w.now) (not-not used) h)))
    where
      not-not : (b : Bool) → b ≡ not (not b)
      not-not b = ground arith
