-- ===== src/Middleware/Session.antt =====
-- The session cache of auth.go: `currentVersion` and `Invalidate`, as the steps that the mutex and the
-- database make of them. A call of `currentVersion` looks in the cache, reads the user's row, and
-- stores what it read, and the steps of other calls may come between.
pub mod Fresh
use orkai.Prelude.{
  ℕ, ◌+◌, ◌*◌, ◌%◌, ◌^◌, Bool, true, false, Option, none, some, List, [], ◌∷◌, ◌==◌, ltb,
  if◌then◌else◌,
}
use orkai.Model.Accounts.{second}

-- `sessionVersionCacheTTL`
abbrev pub ttl : ℕ
ttl = 30 * second

pub record CacheEntry : Type 0 where
  pub version : ℕ
  pub expires : ℕ

-- Where a call stands: not begun, about to read the row, or with the version that it read. It
-- keeps the number of invalidations and the time from before the read.
pub data Call : Type 0 where
  idle : Call
  reading : ℕ → ℕ → ℕ → Call
  read : ℕ → ℕ → ℕ → ℕ → Call

-- `invalidations` holds 64-bit counters.
pub record State : Type 0 where
  -- `users.token_version` in the database
  pub versions : ℕ → ℕ
  pub cache : ℕ → Option CacheEntry
  pub invalidations : ℕ → ℕ
  pub calls : ℕ → Call

abbrev pub set : {A : Type 0} → ℕ → A → (ℕ → A) → ℕ → A
set k a f = λ j. if j == k then a else f j

pub data Event : Type 0 where
  -- a statement bumps the version of a user
  bump : ℕ → Event
  -- `Invalidate(user)`
  invalidate : ℕ → Event
  -- call `c` looks for the user in the cache, at a time
  look : ℕ → ℕ → ℕ → Event
  -- call `c` reads the row, or the query fails
  fetch : ℕ → Event
  fail : ℕ → Event
  -- call `c` stores what it read, or finds that it has to start again
  store : ℕ → Event

-- A hit in the cache ends the call at once.
abbrev pub hit : Option CacheEntry → ℕ → Option ℕ
hit none now = none
hit (some e) now = if ltb now e.expires then some e.version else none

abbrev look_in : ℕ → ℕ → ℕ → Option ℕ → State → State
look_in c user now (some v) s = s
look_in c user now none s = record s {
  calls = set c (reading user (s.invalidations user) now) s.calls;
}

abbrev fetch_in : ℕ → Call → State → State
fetch_in c (reading user gen now) s = record s {
  calls = set c (read user gen now (s.versions user)) s.calls;
}
fetch_in c _ s = s

abbrev store_in : ℕ → Call → State → State
store_in c (read user gen now v) s =
    if s.invalidations user == gen
    then record s {
      cache = set user (some (record { version = v; expires = now + ttl })) s.cache;
      calls = set c idle s.calls;
    }
    else record s { calls = set c idle s.calls }
store_in c _ s = s

unfoldable pub step : Event → State → State
step (bump user) s = record s { versions = set user (s.versions user + 1) s.versions }
step (invalidate user) s = record s {
  cache = set user none s.cache;
  invalidations = set user ((s.invalidations user + 1) % 2 ^ 64) s.invalidations;
}
step (look c user now) s = look_in c user now (hit (s.cache user) now) s
step (fetch c) s = fetch_in c (s.calls c) s
step (fail c) s = record s { calls = set c idle s.calls }
step (store c) s = store_in c (s.calls c) s

unfoldable pub run : List Event → State → State
unfolding step
run [] s = s
run (ev ∷ evs) s = run evs (step ev s)

abbrev answer_hit : ℕ → Option ℕ → Option (ℕ × ℕ)
answer_hit user none = none
answer_hit user (some v) = some (user, v)

abbrev answer_read : Call → State → Option (ℕ × ℕ)
answer_read (read user gen now v) s = if s.invalidations user == gen then some (user, v) else none
answer_read _ s = none

-- What the call that takes this step returns with it, if it ends: the user and the version.
unfoldable pub answer : Event → State → Option (ℕ × ℕ)
answer (look c user now) s = answer_hit user (hit (s.cache user) now)
answer (store c) s = answer_read (s.calls c) s
answer _ s = none

-- `NewSessionValidator`, over a database.
abbrev pub start : (ℕ → ℕ) → State
start versions = record {
  versions = versions;
  cache = λ _. none;
  invalidations = λ _. 0;
  calls = λ _. idle;
}
