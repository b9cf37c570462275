-- ===== src/Tests/Entry.antt =====
-- Access control, API keys, sessions and the limit on attempts at concrete inputs.
use orkai.Prelude.{◌≡◌, ◌≤◌, ◌+◌, ◌-◌, refl, none, some, List, [], ◌∷◌, arith}
use orkai.Prelude.Text.{trim_space}
use orkai.Result.{ok, err, problem}
use orkai.Exec.Triple.{Both}
use orkai.Model.Accounts.{role_admin, role_member}
use orkai.Model.Pages.{PageStatus, owned_page}
use orkai.World.{request}
use orkai.Store.Projects.{attach_team}
use orkai.Access.Authz.{Scope}
use orkai.Access.Authz.Agreement.{Agree, can_access-agrees}
use orkai.Access.Guards.{Caller, Kind, guard}
use orkai.Access.Guards.Sound.{MayReach, Passed, guard-Passed, of_page}
use orkai.Access.Guards.Complete.{guard-passes}
use orkai.Keys.{NewKey, CreateInput, new_api_key, create, get_by_hash, revoke, generate_api_key}
use orkai.Keys.Outcomes.{Grantable, create-authenticates, revoke-unauthorized}
use orkai.Middleware.RateLimit as RateLimit
use orkai.Middleware.RateLimit.{Event, passed}
use orkai.Middleware.RateLimit.Window.{passed-window}
use orkai.Middleware.Session as Session
use orkai.Middleware.Session.Fresh.{answer-fresh}
use orkai.Tests.Data.{members, project, page, key}

abbrev cyd_calls : Caller
cyd_calls = record { user_id = 13; role = role_member; org_id = 1 }

abbrev reach : MayReach members.db cyd_calls 31
reach = record { project = project; found = refl; of_org = refl; entitled = refl }

guard-Passed_example :
    Both
      (λ _ _. Passed members.db Kind.page cyd_calls (some 81))
      (λ w'. w'.db ≡ members.db)
      (guard Kind.page cyd_calls (some 81) members)
guard-Passed_example = guard-Passed Kind.page cyd_calls (some 81) members

guard-passes_example : guard Kind.page cyd_calls (some 81) members ≡ (ok tt, members)
guard-passes_example =
    guard-passes cyd_calls 31 members refl reach refl Kind.page 81
      (of_page 81 (owned_page (page PageStatus.live)) refl)

attached : attach_team request project members ≡ (ok project, members)
unfolding attach_team
attached = refl

can_access-agrees_example : (s : Scope) × Agree 31 13 role_member 1 project members s
can_access-agrees_example =
    can_access-agrees 13 1 31 role_member members project refl refl attached (omega arith)

abbrev wanted : CreateInput
wanted = record {
  user_id = 12;
  org_id = 1;
  caller_role = role_admin;
  name = "cli";
  role = role_member;
  expires_at = some 2000;
}

abbrev new_key : NewKey
new_key = record { raw = "ork_ab"; prefix = "ork_ab"; hash = "ork_ab" }

grantable : Grantable wanted 1000
unfolding trim_space
grantable = record { named = refl; known = refl; no_escalation = refl; future = refl }

generated : generate_api_key (λ s. s) (ok "ab") ≡ ok new_key
unfolding generate_api_key
generated = refl

create-authenticates_example :
    let w' = (create (λ s. s) (ok "ab") wanted members).1 in
    get_by_hash "ork_ab" w'
    ≡ (ok (record (new_api_key wanted new_key (trim_space "cli")) { id = 100 }), w')
create-authenticates_example =
    create-authenticates (λ s. s) (ok "ab") wanted new_key members refl grantable generated refl

revoke-unauthorized_example :
    let w' = (revoke 12 61 members).1 in
    get_by_hash "h1" w' ≡ (err (problem 401 "invalid api key"), w')
revoke-unauthorized_example = revoke-unauthorized 12 61 members key refl refl refl (omega arith)

abbrev knocks : List Event
knocks =
    RateLimit.request "b" 3
    ∷ RateLimit.request "a" 4
    ∷ RateLimit.cleanup 5
    ∷ RateLimit.request "a" 9
    ∷ []

passed-window_example : passed 2 10 "a" (RateLimit.request "a" 1 ∷ knocks) (λ k. none) ≤ 1 + (2 - 1)
passed-window_example =
    passed-window 2 10 "a" knocks (λ k. none) 1 refl
      (omega arith, (omega arith, (omega arith, (omega arith, tt))))

-- A call reads the old version; the version is bumped and the user invalidated; the call starts again.
abbrev early : List Session.Event
early = Session.look 1 7 0 ∷ Session.fetch 1 ∷ Session.bump 7 ∷ []

abbrev late : List Session.Event
late = Session.store 1 ∷ Session.look 1 7 1 ∷ Session.fetch 1 ∷ []

stored :
    Session.answer (Session.store 1) (
      Session.run late
        (Session.step (Session.invalidate 7) (Session.run early (Session.start (λ u. 0)))))
    ≡ some (7, 1)
unfolding Session.answer Session.run Session.step
stored = refl

answer-fresh_example : (Session.run early (Session.start (λ u. 0))).versions 7 ≤ 1
answer-fresh_example = answer-fresh 7 (λ u. 0) early late (Session.store 1) 1 (omega arith) stored
