-- ===== src/Middleware/RateLimit.antt =====
-- `RateLimit` of auth.go. The mutex makes each request, and each pass of the cleanup, one step.
pub mod Window
use orkai.Prelude.{
  ℕ, ◌+◌, String, Bool, true, false, Option, none, some, List, [], ◌∷◌, str_eq, ltb, if◌then◌else◌,
}

pub record Entry : Type 0 where
  pub count : ℕ
  pub reset : ℕ

-- `attempts`, by address.
abbrev pub Attempts : Type 0
Attempts = String → Option Entry

abbrev pub put : String → Entry → Attempts → Attempts
put ip e attempts = λ k. if str_eq k ip then some e else attempts k

-- What happens to the table: a request from an address, or the cleanup's tick, with the time.
pub data Event : Type 0 where
  request : String → ℕ → Event
  cleanup : ℕ → Event

abbrev pub time_of : Event → ℕ
time_of (request ip now) = now
time_of (cleanup now) = now

abbrev open_window : ℕ → String → ℕ → Attempts → Bool × Attempts
open_window window ip now attempts =
    (true, put ip (record { count = 1; reset = now + window }) attempts)

abbrev count_attempt : ℕ → String → Entry → Attempts → Bool × Attempts
count_attempt max_attempts ip e attempts =
    let n = e.count + 1 in
    (if ltb max_attempts n then false else true, put ip (record e { count = n }) attempts)

abbrev attempt : ℕ → ℕ → String → ℕ → Option Entry → Attempts → Bool × Attempts
attempt max_attempts window ip now none attempts = open_window window ip now attempts
attempt max_attempts window ip now (some e) attempts =
    if ltb e.reset now
    then open_window window ip now attempts
    else count_attempt max_attempts ip e attempts

-- `delete` of the entries whose window is over.
abbrev expire : ℕ → Option Entry → Option Entry
expire now none = none
expire now (some e) = if ltb e.reset now then none else some e

-- Does the request pass, and the table after it?
unfoldable pub step : ℕ → ℕ → Event → Attempts → Bool × Attempts
step max_attempts window (request ip now) attempts =
    attempt max_attempts window ip now (attempts ip) attempts
step max_attempts window (cleanup now) attempts = (false, λ k. expire now (attempts k))

abbrev pub is_from : String → Event → Bool
is_from ip (request k now) = str_eq k ip
is_from ip (cleanup now) = false

-- How many requests of the address pass.
unfoldable pub passed : ℕ → ℕ → String → List Event → Attempts → ℕ
unfolding step
passed max_attempts window ip [] attempts = 0
passed max_attempts window ip (ev ∷ evs) attempts =
    let (ok, attempts') = step max_attempts window ev attempts in
    (if is_from ip ev then (if ok then 1 else 0) else 0)
    + passed max_attempts window ip evs attempts'
