-- ===== src/Deploy/Env.antt =====
-- What a deploy job takes from outside: the builder, the registry credentials, the deploy target.
use orkai.Prelude.{String, List}
use orkai.Result.{Result, ok, Error}
use orkai.Exec.{Exec}
use orkai.World.{Db, World, CtxErr, live, canceled, deadline_exceeded}

-- A call that takes time: what it returns, the job's context after it, and what other processes
-- have done to the database meanwhile.
pub record Call (A : Type 0) : Type 0 where
  pub result : Result A
  pub ctx_after : CtxErr
  pub meanwhile : Db → Db

-- A context that is done stays done, for its first reason.
abbrev pub later : CtxErr → CtxErr → CtxErr
later live c = c
later canceled _ = canceled
later deadline_exceeded _ = deadline_exceeded

unfoldable pub perform : {A : Type 0} → Call A → Exec World A
perform call w =
    (call.result, record w { db = call.meanwhile w.db; job_err = later w.job_err call.ctx_after })

-- A call that succeeds, and leaves the job's context as it is.
abbrev pub returns : {A : Type 0} → A → (Db → Db) → Call A
returns a meanwhile = record { result = ok a; ctx_after = live; meanwhile = meanwhile }

pub record BuildResult : Type 0 where
  pub image : String
  pub logs : String

pub record DeployOpts : Type 0 where
  pub image : String
  pub env_vars : List (String × String)
  pub config : String
  pub image_pull_secret : String

pub record Env : Type 0 where
  -- `targetBuilder`
  pub builder : Result (Unit {0})
  -- the texts that the builder hands to `OnLog`, its outcome, and the logs beside an error
  pub on_log : List String
  pub build : Call BuildResult
  pub failed_logs : String
  -- `strings.ReplaceAll(logs, gitToken, "[REDACTED]")`, when there is a token
  pub redact : String → String
  -- `err.Error()`
  pub text : Error → String
  -- `DockerConfigJSONForApp`
  pub pull_secret : Call String
  -- `targetForApp`
  pub target : Result (Unit {0})
  pub deploy : DeployOpts → Call (Unit {0})
  -- the phase that `GetStatus` reports
  pub phase : Call String
  pub configure_hpa : Call (Unit {0})
  -- `target.Rollback`
  pub rollback : Call (Unit {0})
