-- ===== src/Store/Atomic.antt =====
-- Statements, by what they leave on each way out.
use orkai.Prelude.{ℕ, ◌≡◌, sym, ap, ◌∙◌, find?, Option, none, some}
use orkai.Exec.{lift}
use orkai.Exec.Triple.{Triple, Triple-bind, Triple-view, Triple-weaken}
use orkai.World.{Db, Context, on_db}
use orkai.World.Atomic.{On, round_trip-On}
use orkai.Store.Users as Users
use orkai.Store.Accounts.Teams as Teams
use orkai.Store.Query.{row, fetch, select, exec}

module _ (P : Db → Type 0) (c : Context) where
  pub exec-On :
      (Q : Db → Type 0) (f : Db → Db)
      → ((db : Db) → P db → Q (f db))
      → Triple (On P) (exec c f) (λ _. On Q) (On P)
  unfolding exec on_db
  exec-On Q f k = Triple-bind _ _ (round_trip-On P c) (λ _. record { at = λ w h. k w.db h })

module _ {A : Type 0} (P : Db → Type 0) (c : Context) where
  row-On :
      (f : Db → Option A) (o : Option A)
      → Triple
          (λ w. On P w × (o ≡ f w.db))
          (lift (row o))
          (λ a w. On P w × (f w.db ≡ some a))
          (On P)
  unfolding lift
  row-On f none = record { at = λ w h. h.0 }
  row-On f (some a) = record { at = λ w h. (h.0, sym h.1) }

  -- What is fetched is what the query finds.
  pub fetch-On :
      (f : Db → Option A) → Triple (On P) (fetch c f) (λ a w. On P w × (f w.db ≡ some a)) (On P)
  unfolding fetch
  fetch-On f =
      Triple-bind _ _ (round_trip-On P c) (λ _. Triple-bind _ _ (Triple-view _) (λ o. row-On f o))

  pub select-On : (f : Db → A) → Triple (On P) (select c f) (λ a w. On P w × (a ≡ f w.db)) (On P)
  unfolding select
  select-On f = Triple-bind _ _ (round_trip-On P c) (λ _. Triple-view _)

abbrev pub Same : Db → Db → Type 0
Same db0 db = db ≡ db0

module _ {A : Type 0} (db0 : Db) (c : Context) where
  -- While nothing is written, the queries read one database.
  pub fetch-Same :
      (f : Db → Option A)
      → Triple
          (On (Same db0))
          (fetch c f)
          (λ a w. On (Same db0) w × (f db0 ≡ some a))
          (On (Same db0))
  fetch-Same f =
      Triple-weaken _ (λ w h. h) (λ a w h. (h.0, sym (ap f h.0) ∙ h.1)) (λ w h. h)
        (fetch-On (Same db0) c f)

  pub select-Same :
      (f : Db → A)
      → Triple (On (Same db0)) (select c f) (λ a w. On (Same db0) w × (a ≡ f db0)) (On (Same db0))
  select-Same f =
      Triple-weaken _ (λ w h. h) (λ a w h. (h.0, h.1 ∙ ap f h.0)) (λ w h. h)
        (select-On (Same db0) c f)

module _ (db0 : Db) (c : Context) where
  pub get_user-Same :
      (id : ℕ)
      → Triple
          (On (Same db0))
          (Users.get_by_id c id)
          (λ u w. On (Same db0) w × (find? (Users.by_id id) db0.users ≡ some u))
          (On (Same db0))
  unfolding Users.get_by_id
  get_user-Same id = fetch-Same db0 c (λ db. find? (Users.by_id id) db.users)

  pub get_team-Same :
      (id : ℕ)
      → Triple
          (On (Same db0))
          (Teams.get_by_id c id)
          (λ t w. On (Same db0) w × (find? (Teams.by_id id) db0.teams ≡ some t))
          (On (Same db0))
  unfolding Teams.get_by_id
  get_team-Same id = fetch-Same db0 c (λ db. find? (Teams.by_id id) db.teams)
