-- ===== src/Alerts/Unique.antt =====
-- A rule has at most one active alert for a source.
use orkai.Prelude.{refl, Bool, true, false, List, [], ◌∷◌}
use orkai.Result.{Result, ok, err, no_rows}
use orkai.Exec.{catch}
use orkai.Exec.Preserves.{Preserves, Preserves-bind, Preserves-catch, Preserves-if, preserves_rules}
use orkai.Exec.Triple.{
  Triple, Triple-bind, Triple-pure, Triple-weaken, Triple-from_Preserves, Preserves-from_Triple,
}
use orkai.Alerts.{
  AlertRule, AlertFiring, resolved, resolve, without, resolve_cleared, inserted, insert, insert_if,
  fire_unless, fire, fire_all, evaluate_rule, each_rule, evaluate,
}
use orkai.Alerts.Store.{MetricAlert, Monitor}
use orkai.Alerts.Tables.{On, OneActive, list_active-On, is_in_cooldown-On, notify_all-On}
use orkai.Alerts.Rows.{resolve_by_faults, Free, insert_by_faults, Found, get_active_by_faults}

module _ (notifier : Bool) (order : List AlertFiring → List AlertFiring) where
  resolved-On :
      (rule : AlertRule) (a : MetricAlert) (r : Result (Unit {0}))
      → Preserves (On OneActive) (resolved notifier order rule a r)
  unfolding resolved
  resolved-On rule a (err e) = search preserves_rules
  resolved-On rule a (ok _) = notify_all-On OneActive notifier _ _ _

  resolve-On :
      (rule : AlertRule) (a : MetricAlert)
      → Preserves (On OneActive) (resolve notifier order rule a)
  unfolding resolve
  resolve-On rule a =
      Preserves-bind _ _
        (Preserves-catch _ (record { at = λ m h. resolve_by_faults a.id m.faults m h }))
        (resolved-On rule a)

  resolve_cleared-On :
      (rule : AlertRule) (alerts : List MetricAlert) (firing : List AlertFiring)
      → Preserves (On OneActive) (resolve_cleared notifier order rule alerts firing)
  unfolding resolve_cleared
  resolve_cleared-On rule [] firing = search preserves_rules
  resolve_cleared-On rule (a ∷ alerts) firing =
      let rest = λ (fs : List AlertFiring). resolve_cleared-On rule alerts fs in
      Preserves-if _ _ _ (rest firing) (
        Preserves-if _ _ _ (rest (without a.source_name firing))
          (Preserves-bind _ _ (resolve-On rule a) (λ _. rest firing)))

module _ (notifier : Bool) (order : List AlertFiring → List AlertFiring) (rule : AlertRule) where
  inserted-On :
      (f : AlertFiring) (r : Result (Unit {0}))
      → Preserves (On OneActive) (inserted notifier order rule f r)
  unfolding inserted
  inserted-On f (err e) = search preserves_rules
  inserted-On f (ok _) = notify_all-On OneActive notifier _ _ _

  insert-On :
      (f : AlertFiring)
      → Triple
          (On (Free rule.name f.source_name))
          (insert notifier order rule f)
          (λ _. On OneActive)
          (On OneActive)
  unfolding insert catch
  insert-On f =
      Triple-bind _ _
        (record {
          at = λ m h.
              insert_by_faults rule.name rule.severity rule.source_type f.source_name f.message
                m.faults m h;
        })
        (λ r. Triple-from_Preserves _ (λ m h. h) (inserted-On f r))

  insert_if-On :
      (cool : Bool) (f : AlertFiring)
      → Triple
          (On (Free rule.name f.source_name))
          (insert_if notifier order cool rule f)
          (λ _. On OneActive)
          (On OneActive)
  unfolding insert_if
  insert_if-On true f = Triple-pure tt (λ m h. record { rows = h.rows.0 })
  insert_if-On false f = insert-On f

  fire_unless-On :
      (r : Result MetricAlert) (f : AlertFiring)
      → Triple
          (Found rule.name f.source_name r)
          (fire_unless notifier order r rule f)
          (λ _. On OneActive)
          (On OneActive)
  unfolding fire_unless
  fire_unless-On (ok a) f = Triple-pure tt (λ m h. h.0)
  fire_unless-On (err no_rows) f =
      Triple-weaken _ (λ m h. record { rows = (h.0.rows, h.1 refl) }) (λ _ m h. h) (λ m h. h)
        (Triple-bind _ _
          (Triple-from_Preserves _ (λ m h. record { rows = h.rows.0 })
            (is_in_cooldown-On (Free rule.name f.source_name) rule.name f.source_name))
          (λ cool. insert_if-On cool f))
  fire_unless-On (err e) f = Triple-pure tt (λ m h. h.0)

  fire-On : (f : AlertFiring) → Preserves (On OneActive) (fire notifier order rule f)
  unfolding fire
  fire-On f = record {
    at = Preserves-from_Triple _ (
        Triple-bind _ _
          (record { at = λ m h. get_active_by_faults rule.name f.source_name m.faults m h })
          (λ r. fire_unless-On r f));
  }

  fire_all-On : (fs : List AlertFiring) → Preserves (On OneActive) (fire_all notifier order rule fs)
  unfolding fire_all
  fire_all-On [] = search preserves_rules
  fire_all-On (f ∷ fs) = Preserves-bind _ _ (fire-On f) (λ _. fire_all-On fs)

  evaluate_rule-On : Preserves (On OneActive) (evaluate_rule notifier order rule)
  unfolding evaluate_rule
  evaluate_rule-On = Preserves-bind _ _ (Preserves-catch _ (list_active-On OneActive)) (λ active.
      Preserves-bind _ _ (resolve_cleared-On notifier order rule _ _)
        (λ firing. fire_all-On (order firing)))

module _ (notifier : Bool) (order : List AlertFiring → List AlertFiring) where
  every_rule-On :
      (rules : List AlertRule) → Preserves (On OneActive) (each_rule notifier order rules)
  unfolding each_rule
  every_rule-On [] = search preserves_rules
  every_rule-On (rule ∷ rules) =
      Preserves-bind _ _ (evaluate_rule-On notifier order rule) (λ _. every_rule-On rules)

  evaluate-On :
      (k8s : Result (Unit {0})) (rules : List AlertRule)
      → Preserves (On OneActive) (evaluate notifier order k8s rules)
  unfolding evaluate
  evaluate-On (err e) rules = search preserves_rules
  evaluate-On (ok _) rules = every_rule-On rules

  -- Where each rule has at most one active alert for each source, that is so after a pass of the
  -- evaluator too, whatever the rules report, in whatever order the sources of a rule come, and
  -- whichever queries fail.
  pub evaluate-OneActive :
      (k8s : Result (Unit {0})) (rules : List AlertRule) (m : Monitor)
      → OneActive m.alerts
      → OneActive (evaluate notifier order k8s rules m).1.alerts
  evaluate-OneActive k8s rules m h = ((evaluate-On k8s rules).at m (record { rows = h })).rows
