-- ===== src/Result.antt =====
-- Go's `error` values and the pair `(value, error)` that a fallible function returns.
use orkai.Prelude.{ℕ, String}

pub data Error : Type 0 where
  -- `sql.ErrNoRows`
  no_rows : Error
  -- any other error of a round trip to the database
  query_failed : Error
  -- a unique index refuses a row
  unique_violation : Error
  -- `errors.New`
  message : String → Error
  -- `fmt.Errorf(format, text)`
  formatted : String → String → Error
  -- `fmt.Errorf("...: %w", err)`
  wrapped : String → Error → Error
  -- `*apierr.ProblemDetail`, by its HTTP status and detail
  problem : ℕ → String → Error

pub data Result {ℓ} (A : Type ℓ) : Type ℓ where
  ok : A → Result A
  err : Error → Result A
