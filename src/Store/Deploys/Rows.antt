-- ===== src/Store/Deploys/Rows.antt =====
-- What is found after a row was saved.
use orkai.Prelude.{
  ◌≡◌, ◌∙◌, true, none, some, List, [], ◌∷◌, ◌++◌, find?, arith, find?-update_where, find?-append,
}
use orkai.Model.Deploys.{Deployment, Application, AppStatus}
use orkai.World.{Db}
use orkai.Store.Deploys.{by_id, app_by_id, save, save_app, put_status}

module _ (d : Deployment) (alive : d.deleted_at ≡ none) where
  by_id_self : by_id d.id d ≡ true
  by_id_self = ground arith

  -- A saved row is found as it was saved, if it was there.
  pub find?-save :
      (db : Db) (old : Deployment)
      → find? (by_id d.id) db.deployments ≡ some old
      → find? (by_id d.id) (save d db).deployments ≡ some d
  find?-save db old e = find?-update_where (by_id d.id) (λ _. d) db.deployments old e by_id_self

  pub find?-insert :
      (ds : List Deployment)
      → find? (by_id d.id) ds ≡ none
      → find? (by_id d.id) (ds ++ d ∷ []) ≡ some d
  find?-insert ds fresh = find?-append (by_id d.id) ds (d ∷ []) fresh ∙ rw by_id_self

module _ (a : Application) (alive : a.deleted_at ≡ none) where
  app_by_id_self : app_by_id a.id a ≡ true
  app_by_id_self = ground arith

  pub find?-save_app :
      (db : Db) (old : Application)
      → find? (app_by_id a.id) db.applications ≡ some old
      → find? (app_by_id a.id) (save_app a db).applications ≡ some a
  find?-save_app db old e =
      find?-update_where (app_by_id a.id) (λ _. a) db.applications old e app_by_id_self

  pub find?-put_status :
      (db : Db) (status : AppStatus)
      → find? (app_by_id a.id) db.applications ≡ some a
      → find? (app_by_id a.id) (put_status a.id status db).applications
        ≡ some (record a { status = status })
  find?-put_status db status e =
      find?-update_where (app_by_id a.id) (λ (x : Application). record x { status = status })
        db.applications a e app_by_id_self
