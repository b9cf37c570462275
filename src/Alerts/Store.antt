-- ===== src/Alerts/Store.antt =====
-- The alerts of metrics_store.go.
use orkai.Prelude.{
  ℕ, suc, ◌+◌, ◌-◌, ◌*◌, String, Bool, true, false, Option, none, some, List, [], ◌∷◌, ◌++◌, ◌&&◌,
  ◌==◌, str_eq, ltb, leb, find?, filter, update_where, if◌then◌else◌,
}
use orkai.Prelude.Paging.{take, drop, latest_first}
use orkai.Result.{Result, ok, err, query_failed}
use orkai.Exec.{Exec, view, lift, modify, ◌>>=◌, ◌>>◌}
use orkai.Store.Query.{is_live, row}

pub record MetricAlert : Type 0 where
  pub id : ℕ
  pub rule_name : String
  pub severity : String
  pub source_type : String
  pub source_name : String
  pub message : String
  pub fired_at : ℕ
  pub resolved_at : Option ℕ
  pub notified : Bool

-- A text is the list of the parts that the code puts together.
pub record Notice : Type 0 where
  pub event : String
  pub title : List String
  pub message : List String

-- The table of alerts, oldest insertion first; `true` in `faults` fails the next round trip.
pub record Monitor : Type 0 where
  pub alerts : List MetricAlert
  pub next_id : ℕ
  pub now : ℕ
  pub faults : List Bool
  pub sent : List Notice

next_trip : List Bool → Monitor → Result (Unit {0}) × Monitor
next_trip [] m = (ok tt, m)
next_trip (true ∷ fs) m = (err query_failed, record m { faults = fs })
next_trip (false ∷ fs) m = (ok tt, record m { faults = fs })

unfoldable pub trip : Exec Monitor (Unit {0})
unfolding next_trip
trip m = next_trip m.faults m

abbrev pub active_of : String → String → MetricAlert → Bool
active_of rule source a =
    str_eq a.rule_name rule && str_eq a.source_name source && is_live a.resolved_at

-- A new row, `notified` and `resolved_at` by their zero values, the id and the time by default.
abbrev pub fresh : String → String → String → String → String → Monitor → MetricAlert
fresh rule severity source_type source message m = record {
  id = m.next_id;
  rule_name = rule;
  severity = severity;
  source_type = source_type;
  source_name = source;
  message = message;
  fired_at = m.now;
  resolved_at = none;
  notified = false;
}

unfoldable pub insert : String → String → String → String → String → Exec Monitor (Unit {0})
unfolding trip ◌>>=◌
insert rule severity source_type source message = do
  trip
  modify (λ m. record m {
    alerts = m.alerts ++ fresh rule severity source_type source message m ∷ [];
    next_id = suc m.next_id;
  })

unfoldable pub get_active : String → String → Exec Monitor MetricAlert
unfolding trip ◌>>=◌
get_active rule source = do
  trip
  found ← view (λ m. find? (active_of rule source) m.alerts)
  lift (row found)

abbrev pub has_id : ℕ → MetricAlert → Bool
has_id id a = (a.id == id) && is_live a.resolved_at

unfoldable pub resolve : ℕ → Exec Monitor (Unit {0})
unfolding trip ◌>>=◌
resolve id = do
  trip
  modify (λ m. record m {
    alerts = update_where (has_id id) (λ a. record a { resolved_at = some m.now }) m.alerts;
  })

unfoldable pub list_active : Exec Monitor (List MetricAlert)
unfolding trip latest_first ◌>>=◌
list_active = do
  trip
  view (λ m. latest_first (λ a. a.fired_at) (filter (λ a. is_live a.resolved_at) m.alerts))

-- `fired_at >= now - span`
abbrev pub fired_within : ℕ → ℕ → MetricAlert → Bool
fired_within now span a = leb now (a.fired_at + span)

abbrev or_default : ℕ → ℕ → ℕ
or_default default n = if ltb n 1 then default else n

-- `List` with `From` alone, as the evaluator calls it: the count and then the page.
unfoldable pub list_from : ℕ → ℕ → ℕ → ℕ → Exec Monitor (List MetricAlert)
unfolding trip latest_first drop take ◌>>=◌
list_from now span page per_page = do
  trip
  trip
  view (λ m. take (or_default 50 per_page) (
      drop ((or_default 1 page - 1) * or_default 50 per_page)
        (latest_first (λ a. a.fired_at) (filter (fired_within now span) m.alerts))))
