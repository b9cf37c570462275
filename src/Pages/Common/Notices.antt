-- ===== src/Pages/Common/Notices.antt =====
-- A notification about a page writes nothing and never fails.
use orkai.Prelude.{String, refl, sym, subst}
use orkai.Result.{Result, ok, err}
use orkai.Exec.{Exec, pure, catch}
use orkai.Exec.Preserves.{Preserves}
use orkai.Exec.Triple.{Both, Triple, Triple-bind, Triple-view}
use orkai.Model.Accounts.{Project}
use orkai.Model.Pages.{Page}
use orkai.World.{Db, World, notify}
use orkai.Store.Reads.{Reads, get_project-Reads}
use orkai.Pages.Env.{Run, in_world}
use orkai.Pages.Common.{to_org, notify_page, announce}

pub Triple-catch :
    {S A : Type 0} {P : S → Type 0} (m : Exec S A)
    → Preserves P m
    → Triple P (catch m) (λ _. P) (λ _. ⊥)
unfolding catch
Triple-catch m k = record { at = λ s h. k.at s h }

pub Triple-in_world :
    {A : Type 0} {P E : World → Type 0} {Q : A → World → Type 0} (m : Exec World A)
    → Triple P m Q E
    → Triple (λ run. P run.world) (in_world m) (λ a run. Q a run.world) (λ run. E run.world)
unfolding in_world
Triple-in_world {A} {P} {E} {Q} m k = record {
  at = λ run h. let (r, w) = m run.world in both r w run (k.at run.world h);
}
  where
    both :
        (r : Result A) (w : World) (run : Run)
        → Both Q E (r, w)
        → Both (λ a run. Q a run.world) (λ run. E run.world) (r, record run { world = w })
    both (ok a) w run h = h
    both (err e) w run h = h

module _ (P : Db → Type 0) where
  Reads-keeps : {A : Type 0} (m : Exec World A) → Reads m → Preserves (λ w. P w.db) m
  Reads-keeps m r = record { at = λ w h. subst P (sym ((r w.db).at w refl)) h }

  to_org-keeps :
      (page : Page) (event : String) (r : Result Project)
      → Triple (λ w. P w.db) (to_org page event r) (λ _ w. P w.db) (λ _. ⊥)
  unfolding to_org notify pure
  to_org-keeps page event (ok p) = record { at = λ w h. h }
  to_org-keeps page event (err e) = record { at = λ w h. h }

  notify_page-keeps :
      (page : Page) (event : String)
      → Triple (λ w. P w.db) (notify_page page event) (λ _ w. P w.db) (λ _. ⊥)
  unfolding notify_page
  notify_page-keeps page event =
      Triple-bind _ _ (Triple-catch _ (Reads-keeps _ (get_project-Reads _ _)))
        (λ r. to_org-keeps page event r)

  pub announce-keeps :
      (event : String)
      → Triple (λ run. P run.world.db) (announce event) (λ _ run. P run.world.db) (λ _. ⊥)
  unfolding announce
  announce-keeps event = Triple-bind _ _ (Triple-view (λ run. run.page)) (λ page. record {
    at = λ run h. (Triple-in_world _ (notify_page-keeps page event)).at run h.0;
  })
