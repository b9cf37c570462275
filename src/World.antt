-- ===== src/World.antt =====
-- What the services act on: the database, the clock, the notifications handed to the notification
-- service, and the environment's choice of which round trips to the database fail.
pub mod Atomic
use orkai.Prelude.{ℕ, String, Bool, true, false, List, [], ◌∷◌, ◌++◌}
use orkai.Result.{Result, ok, err, query_failed}
use orkai.Exec.{Exec}
use orkai.Model.Accounts.{
  User, Team, TeamMember, Invitation, ApiKey, Project, Owned, Domain, Organization, UserIdentity,
  UsedOauthChallenge,
}
use orkai.Model.Jobs.{Message}
use orkai.Model.Pages.{Page, PageDeployment, SharedResource}
use orkai.Model.Deploys.{Deployment, Application}

pub record Db : Type 0 where
  pub users : List User
  pub teams : List Team
  pub team_members : List TeamMember
  pub invitations : List Invitation
  pub api_keys : List ApiKey
  pub projects : List Project
  pub applications : List Application
  pub deployments : List Deployment
  pub databases : List Owned
  pub pages : List Page
  pub page_deployments : List PageDeployment
  pub workers : List Owned
  pub cron_jobs : List Owned
  pub domains : List Domain
  pub settings : List (String × String)
  pub organizations : List Organization
  pub identities : List UserIdentity
  pub used_challenges : List UsedOauthChallenge
  pub resources : List SharedResource
  -- the queue `orkai_jobs` and its archive
  pub queue : List Message
  pub archive : List Message
  -- `gen_random_uuid()` gives an id that no row has: ids are handed out in order
  pub next_id : ℕ

-- `ctx.Err()` of the context of a running job.
pub data CtxErr : Type 0 where
  live canceled deadline_exceeded : CtxErr

-- The context that a call is given: a request's, `context.Background()`, or the job's.
pub data Context : Type 0 where
  request background job : Context

pub record Notice : Type 0 where
  pub org_id : ℕ
  pub event : String
  pub subject : String

pub record World : Type 0 where
  pub db : Db
  pub now : ℕ
  -- `true` fails the next round trip; a list that is used up fails none
  pub faults : List Bool
  pub job_err : CtxErr
  pub sent : List Notice

-- `database/sql` refuses a query on a context that is done.
abbrev pub refuses : Context → CtxErr → Bool
refuses job canceled = true
refuses job deadline_exceeded = true
refuses _ _ = false

spend : List Bool → World → Result (Unit {0}) × World
spend [] w = (ok tt, w)
spend (true ∷ fs) w = (err query_failed, record w { faults = fs })
spend (false ∷ fs) w = (ok tt, record w { faults = fs })

reach : Bool → World → Result (Unit {0}) × World
reach true w = (err query_failed, w)
reach false w = spend w.faults w

-- One round trip: it fails and changes nothing, or the statement takes effect.
unfoldable pub round_trip : Context → Exec World (Unit {0})
unfolding spend reach
round_trip c w = reach (refuses c w.job_err) w

unfoldable pub on_db : (Db → Db) → Exec World (Unit {0})
on_db f w = (ok tt, record w { db = f w.db })

module _ {A : Type 0} where
  commit : Db → Result A × World → Result A × World
  commit before (ok a, w) = (ok a, w)
  commit before (err e, w) = (err e, record w { db = before })

  with_value : A → Result (Unit {0}) × World → Result A × World
  with_value a (ok _, w) = (ok a, w)
  with_value a (err e, w) = (err e, w)

  then_commit : Result A → World → Result A × World
  unfolding with_value
  then_commit (ok a) w = with_value a (round_trip background w)
  then_commit (err e) w = (err e, w)

  begin : Exec World A → Db → Result (Unit {0}) → World → Result A × World
  begin body before (err e) w = (err e, w)
  begin body before (ok _) w =
      let (r, w') = body w in let (r', w'') = then_commit r w' in commit before (r', w'')

  -- `Store.Tx`: BEGIN, the body, COMMIT; an error anywhere restores the database.
  unfoldable pub tx : Exec World A → Exec World A
  unfolding commit then_commit begin round_trip
  tx body w = let (r, w') = round_trip background w in begin body w.db r w'

-- `NotifyAsync` hands a notice over and never fails its caller.
unfoldable pub notify : ℕ → String → String → Exec World (Unit {0})
notify org event subject w = (
  ok tt,
  record w { sent = w.sent ++ record { org_id = org; event = event; subject = subject } ∷ [] },
)
