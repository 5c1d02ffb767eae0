-- ===== src/Budget.antt =====
-- internal/budget/budget.go: the query counter, the rate limiter and the semaphore. The mutexes
-- make each operation one step, so an interleaving of goroutines is a sequence of operations.
pub mod Counter
pub mod Limiter
pub mod Semaphore
use zone_lint.Common.{ℕ, ◌*◌, Bool, true, false, ◌==◌, if◌then◌else◌}

-- Budget. Durations are in milliseconds; a value that is not positive is 0 here.
pub record Budget : Type 0 where
  pub max_queries : ℕ
  pub max_qps : ℕ
  pub max_concurrency : ℕ
  pub per_timeout : ℕ
  pub recursion_limit : ℕ

-- Defaults
unfoldable pub defaults : Budget
defaults = record {
  max_queries = 400;
  max_qps = 50;
  max_concurrency = 16;
  per_timeout = 3000;
  recursion_limit = 8;
}

-- One test of Validated.
unfoldable pub positive_or : ℕ → ℕ → ℕ
positive_or n d = if n == 0 then d else n

-- Budget.Validated
unfoldable pub validated : Budget → Budget
unfolding positive_or
validated b = record {
  max_queries = positive_or b.max_queries 400;
  max_qps = positive_or b.max_qps 50;
  max_concurrency = positive_or b.max_concurrency 1;
  per_timeout = positive_or b.per_timeout 3000;
  recursion_limit = positive_or b.recursion_limit 8;
}
