-- ===== src/Alerts/Tables.antt =====
-- Predicates of the table of alerts, and the reads and notices of the evaluator that keep them.
use orkai.Prelude.{ℕ, ◌≤◌, String, Bool, true, false, List, [], ◌∷◌, count}
use orkai.Exec.Preserves.{Preserves, preserves_rules}
use orkai.Alerts.{is_in_cooldown, notify_all}
use orkai.Alerts.Store.{MetricAlert, Monitor, trip, active_of, list_active, list_from}

-- A predicate of the table alone.
pub record On (P : List MetricAlert → Type 0) (m : Monitor) : Type 0 where
  pub rows : P m.alerts

abbrev pub OneActive : List MetricAlert → Type 0
OneActive alerts = (rule source : String) → count (active_of rule source) alerts ≤ 1

module _ (P : List MetricAlert → Type 0) where
  trip_by_faults :
      (fs : List Bool) (m : Monitor) → On P m → On P (trip (record m { faults = fs })).1
  unfolding trip
  trip_by_faults [] m h = record { rows = h.rows }
  trip_by_faults (true ∷ fs) m h = record { rows = h.rows }
  trip_by_faults (false ∷ fs) m h = record { rows = h.rows }

  trip-On : Preserves (On P) trip
  trip-On = record { at = λ m h. trip_by_faults m.faults m h }

  pub list_active-On : Preserves (On P) list_active
  unfolding list_active
  list_active-On = search (preserves_rules, trip-On)

  list_from-On : (now span page per_page : ℕ) → Preserves (On P) (list_from now span page per_page)
  unfolding list_from
  list_from-On now span page per_page = search (preserves_rules, trip-On)

  pub is_in_cooldown-On : (rule source : String) → Preserves (On P) (is_in_cooldown rule source)
  unfolding is_in_cooldown
  is_in_cooldown-On rule source = search (preserves_rules, list_from-On)

  pub notify_all-On :
      (b : Bool) (event : String) (title message : List String)
      → Preserves (On P) (notify_all b event title message)
  unfolding notify_all
  notify_all-On true event title message = record { at = λ m h. record { rows = h.rows } }
  notify_all-On false event title message = record { at = λ m h. h }
