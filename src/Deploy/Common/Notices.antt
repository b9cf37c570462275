-- ===== src/Deploy/Common/Notices.antt =====
-- A notification about a deployment writes nothing to the database.
use orkai.Prelude.{String}
use orkai.Result.{Result, ok, err}
use orkai.Exec.Preserves.{preserves_rules}
use orkai.Model.Accounts.{Project}
use orkai.Model.Deploys.{Application}
use orkai.World.{notify}
use orkai.Store.Reads.{Reads, get_project-Reads}
use orkai.Deploy.Common.{to_org, notify_deploy}

module _ (app : Application) (event : String) where
  to_org-Reads : (p : Result Project) → Reads (to_org app event p)
  unfolding to_org notify
  to_org-Reads (ok p) db = record { at = λ w h. h }
  to_org-Reads (err e) db = search preserves_rules

  pub notify_deploy-Reads : Reads (notify_deploy app event)
  unfolding notify_deploy
  notify_deploy-Reads db = search (preserves_rules, get_project-Reads, to_org-Reads)
