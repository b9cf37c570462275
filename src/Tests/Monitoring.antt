-- ===== src/Tests/Monitoring.antt =====
-- The alert evaluator at concrete inputs.
use orkai.Prelude.{
  ℕ, ◌*◌, ◌^◌, String, ◌≡◌, refl, Bool, true, false, Option, none, some, List, [], ◌∷◌, arith,
  Bool-cases, inl, inr,
}
use orkai.Result.{ok}
use orkai.Alerts.{AlertRule, AlertFiring, evaluate, fire}
use orkai.Alerts.Store.{MetricAlert, Monitor, active_of, fresh}
use orkai.Alerts.Tables.{OneActive}
use orkai.Alerts.Unique.{evaluate-OneActive}
use orkai.Alerts.Cooldown.{alerts-fire}

abbrev alert : ℕ → Option ℕ → MetricAlert
alert fired resolved = record {
  id = 71;
  rule_name = "node_not_ready";
  severity = "critical";
  source_type = "node";
  source_name = "n1";
  message = "Node n1 is NotReady";
  fired_at = fired;
  resolved_at = resolved;
  notified = false;
}

abbrev monitor : List MetricAlert → List Bool → Monitor
monitor alerts faults = record {
  alerts = alerts;
  next_id = 100;
  now = 4000 * 10 ^ 9;
  faults = faults;
  sent = [];
}

abbrev firing : String → AlertFiring
firing source = record { source_name = source; message = "not ready" }

abbrev not_ready : AlertRule
not_ready = record {
  name = "node_not_ready";
  severity = "critical";
  source_type = "node";
  firings = firing "n1" ∷ firing "n2" ∷ firing "n2" ∷ [];
}

-- The list of the active alerts cannot be read.
abbrev watched : Monitor
watched = monitor (alert 1000 none ∷ []) (true ∷ [])

abbrev resolved_now : Monitor
resolved_now = monitor (alert 1000 (some (3999 * 10 ^ 9)) ∷ []) []

watched-OneActive : OneActive watched.alerts
watched-OneActive rule source = elim (Bool-cases (active_of rule source (alert 1000 none))) [
  | inl h ↦ rw h (omega arith)
  | inr h ↦ rw h (omega arith)
]

evaluate-OneActive_example :
    OneActive (evaluate true (λ fs. fs) (ok tt) (not_ready ∷ []) watched).1.alerts
evaluate-OneActive_example =
    evaluate-OneActive true (λ fs. fs) (ok tt) (not_ready ∷ []) watched watched-OneActive

alerts-fire_example :
    (fire true (λ fs. fs) not_ready (firing "n1") resolved_now).1.alerts
    ≡ alert 1000 (some (3999 * 10 ^ 9))
      ∷ fresh "node_not_ready" "critical" "node" "n1" "not ready" resolved_now
      ∷ []
alerts-fire_example =
    alerts-fire true (λ fs. fs) not_ready (firing "n1") resolved_now refl refl refl
