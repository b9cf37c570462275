-- ===== src/Alerts.antt =====
-- alert_evaluator.go: one pass of `Evaluate` over the rules. What a rule's own `Evaluate` reports
-- about the cluster is a parameter.
pub mod Store
pub mod Tables
pub mod Rows
pub mod Unique
pub mod Cooldown
use orkai.Prelude.{
  ℕ, ◌+◌, ◌*◌, ◌^◌, String, Bool, true, false, Option, none, some, List, [], ◌∷◌, ◌++◌, ◌&&◌, ◌||◌,
  not, str_eq, ltb, any, filter, if◌then◌else◌,
}
use orkai.Result.{Result, ok, err, no_rows}
use orkai.Exec.{Exec, pure, view, catch, ◌>>=◌, ◌>>◌}
use orkai.Alerts.Store as Store
use orkai.Alerts.Store.{MetricAlert, Monitor, Notice}

pub record AlertFiring : Type 0 where
  pub source_name : String
  pub message : String

-- The last field is what the rule reports in this pass.
pub record AlertRule : Type 0 where
  pub name : String
  pub severity : String
  pub source_type : String
  pub firings : List AlertFiring

is_source : String → AlertFiring → Bool
is_source source f = str_eq f.source_name source

without : String → List AlertFiring → List AlertFiring
unfolding is_source
without source fs = filter (λ f. not (is_source source f)) fs

-- `firingSet[f.SourceName] = f`, in the order of the reports: the last report of a source stays.
add_all : List AlertFiring → List AlertFiring → List AlertFiring
unfolding without
add_all [] fs = fs
add_all (g ∷ gs) fs = add_all gs (without g.source_name fs ++ g ∷ [])

unfoldable pub firing_set : AlertRule → List AlertFiring
unfolding add_all
firing_set rule = add_all rule.firings []

pub notify_all : Bool → String → List String → List String → Exec Monitor (Unit {0})
notify_all false event title message m = (ok tt, m)
notify_all true event title message m = (
  ok tt,
  record m { sent = m.sent ++ record { event = event; title = title; message = message } ∷ [] },
)

-- 30 minutes.
abbrev pub cooldown : ℕ
cooldown = 1800 * 10 ^ 9

-- `time.Since(*a.ResolvedAt) < cooldown`
abbrev in_time : ℕ → Option ℕ → Bool
in_time now none = false
in_time now (some t) = ltb now (t + cooldown)

abbrev pub cools : String → String → ℕ → MetricAlert → Bool
cools rule source now a =
    str_eq a.rule_name rule && str_eq a.source_name source && in_time now a.resolved_at

cooled : String → String → ℕ → Result (List MetricAlert) → Bool
cooled rule source now (ok alerts) = any (cools rule source now) alerts
cooled rule source now (err e) = false

unfoldable pub is_in_cooldown : String → String → Exec Monitor Bool
unfolding cooled
is_in_cooldown rule source = do
  now ← view (λ m. m.now)
  alerts ← catch (Store.list_from now cooldown 1 200)
  pure (cooled rule source now alerts)

active_list : Result (List MetricAlert) → List MetricAlert
active_list (ok alerts) = alerts
active_list (err e) = []

-- `notifier` says whether there is a notification service. The map of firing sources is ranged
-- over in an order that Go leaves open: `order` is any such order.
module _ (notifier : Bool) (order : List AlertFiring → List AlertFiring) where
  resolved : AlertRule → MetricAlert → Result (Unit {0}) → Exec Monitor (Unit {0})
  unfolding notify_all
  resolved rule a (err e) = pure tt
  resolved rule a (ok _) =
      notify_all notifier "alert_resolved" (rule.name ∷ " resolved" ∷ [])
        ("Resolved: " ∷ rule.name ∷ " on " ∷ a.source_name ∷ [])

  resolve : AlertRule → MetricAlert → Exec Monitor (Unit {0})
  unfolding resolved
  resolve rule a = do r ← catch (Store.resolve a.id); resolved rule a r

  -- The active alerts of the rule are resolved, or taken out of the set as still firing.
  resolve_cleared :
      AlertRule → List MetricAlert → List AlertFiring → Exec Monitor (List AlertFiring)
  unfolding is_source without resolve
  resolve_cleared rule [] firing = pure firing
  resolve_cleared rule (a ∷ alerts) firing =
      let rest = λ (fs : List AlertFiring). resolve_cleared rule alerts fs in
      if not (str_eq a.rule_name rule.name)
      then rest firing
      else if any (is_source a.source_name) firing
      then rest (without a.source_name firing)
      else (do resolve rule a; rest firing)

  inserted : AlertRule → AlertFiring → Result (Unit {0}) → Exec Monitor (Unit {0})
  unfolding notify_all
  inserted rule f (err e) = pure tt
  inserted rule f (ok _) = notify_all notifier "alert_fired" (rule.name ∷ []) (f.message ∷ [])

  insert : AlertRule → AlertFiring → Exec Monitor (Unit {0})
  unfolding inserted
  insert rule f = do
    r ← catch (Store.insert rule.name rule.severity rule.source_type f.source_name f.message)
    inserted rule f r

  insert_if : Bool → AlertRule → AlertFiring → Exec Monitor (Unit {0})
  unfolding insert
  insert_if true rule f = pure tt
  insert_if false rule f = insert rule f

  fire_unless : Result MetricAlert → AlertRule → AlertFiring → Exec Monitor (Unit {0})
  unfolding insert_if
  fire_unless (ok a) rule f = pure tt
  fire_unless (err no_rows) rule f = do
    cool ← is_in_cooldown rule.name f.source_name
    insert_if cool rule f
  fire_unless (err e) rule f = pure tt

  unfoldable pub fire : AlertRule → AlertFiring → Exec Monitor (Unit {0})
  unfolding fire_unless
  fire rule f = do
    found ← catch (Store.get_active rule.name f.source_name)
    fire_unless found rule f

  fire_all : AlertRule → List AlertFiring → Exec Monitor (Unit {0})
  fire_all rule [] = pure tt
  fire_all rule (f ∷ fs) = do fire rule f; fire_all rule fs

  evaluate_rule : AlertRule → Exec Monitor (Unit {0})
  unfolding active_list resolve_cleared fire_all
  evaluate_rule rule = do
    active ← catch Store.list_active
    firing ← resolve_cleared rule (active_list active) (firing_set rule)
    fire_all rule (order firing)

  each_rule : List AlertRule → Exec Monitor (Unit {0})
  unfolding evaluate_rule
  each_rule [] = pure tt
  each_rule (rule ∷ rules) = do evaluate_rule rule; each_rule rules

  -- The first argument is whether `defaultK8s` finds the cluster.
  unfoldable pub evaluate : Result (Unit {0}) → List AlertRule → Exec Monitor (Unit {0})
  unfolding each_rule
  evaluate (err e) rules = pure tt
  evaluate (ok _) rules = each_rule rules
