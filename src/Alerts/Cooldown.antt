-- ===== src/Alerts/Cooldown.antt =====
-- The cooldown looks at the alerts that were fired lately, not at those that were resolved lately.
use orkai.Prelude.{
  ℕ, String, ◌≡◌, refl, Bool, true, false, none, List, [], ◌∷◌, ◌++◌, ◌&&◌, str_eq, arith, find?,
  filter, any,
}
use orkai.Result.{ok}
use orkai.Exec.{◌>>=◌}
use orkai.Alerts.{
  AlertRule, AlertFiring, cooldown, cools, cooled, is_in_cooldown, notify_all, inserted, insert,
  insert_if, fire_unless, fire,
}
use orkai.Alerts.Store as Store
use orkai.Alerts.Store.{MetricAlert, Monitor, active_of, fresh, fired_within}
use orkai.Prelude.Paging.{any-page}

-- No alert of the rule for the source was fired within the cooldown.
abbrev pub Unfired : String → String → Monitor → Type 0
Unfired rule source m =
    any (λ a. str_eq a.rule_name rule && str_eq a.source_name source)
      (filter (fired_within m.now cooldown) m.alerts)
    ≡ false

cools_less :
    (rule source : String) (now : ℕ) (xs : List MetricAlert)
    → any (λ a. str_eq a.rule_name rule && str_eq a.source_name source) xs ≡ false
    → any (cools rule source now) xs ≡ false
cools_less rule source now [] h = refl
cools_less rule source now (x ∷ xs) h =
    let ih = cools_less rule source now xs (ground arith) in rw ih (ground arith)

not_in_cooldown :
    (rule source : String) (m : Monitor)
    → m.faults ≡ []
    → Unfired rule source m
    → is_in_cooldown rule source m ≡ (ok false, m)
unfolding is_in_cooldown cooled Store.list_from ◌>>=◌
not_in_cooldown rule source m up h =
    let none_cools =
      any-page (cools rule source m.now) (λ a. a.fired_at) 200 0 _
        (cools_less rule source m.now _ h) in
    rw (up, none_cools) refl

module _ (notifier : Bool) (order : List AlertFiring → List AlertFiring) where
  alerts-notify_all :
      (event : String) (title message : List String) (m : Monitor)
      → (notify_all notifier event title message m).1.alerts ≡ m.alerts
  unfolding notify_all
  alerts-notify_all event title message m = by_notifier notifier
    where
      by_notifier : (b : Bool) → (notify_all b event title message m).1.alerts ≡ m.alerts
      by_notifier true = refl
      by_notifier false = refl

  -- With the database up, a source that a rule reports, that has no active alert of the rule and
  -- for which none was fired within the last 30 minutes is given a new alert at once, however
  -- lately its last alert was resolved.
  pub alerts-fire :
      (rule : AlertRule) (f : AlertFiring) (m : Monitor)
      → m.faults ≡ []
      → find? (active_of rule.name f.source_name) m.alerts ≡ none
      → Unfired rule.name f.source_name m
      → (fire notifier order rule f m).1.alerts
        ≡ m.alerts ++ fresh rule.name rule.severity rule.source_type f.source_name f.message m ∷ []
  unfolding fire fire_unless insert_if insert inserted Store.get_active Store.insert ◌>>=◌
  alerts-fire rule f m up inactive unfired =
      let cool = not_in_cooldown rule.name f.source_name m up unfired in
      rw (up, inactive, rw up at cool) (alerts-notify_all _ _ _ _)
