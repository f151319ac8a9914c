-- ===== src/Common/Retry.antt =====
-- `async_run_with_retry` of common/utils.py, over the answers of the function that is retried: `inl` is the error that an
-- attempt raises.
pub mod Laws
mod Tests
use custom_scraper.Prelude.{if◌then◌else◌, inl, inr, suc, zero, ℕ, ◌+◌, ◌==◌, ◌⊎◌}

pub data Ending (Error Value : Type 0) : Type 0 where
  returned : Value → Ending Error Value
  reraised : Error → Ending Error Value
  unexpected : Ending Error Value

module _ {Error Value : Type 0} where
  -- The attempts from `attempt` on, `left` of which are left; the ending and the number of calls made.
  unfoldable pub attempts : (ℕ → Error ⊎ Value) → ℕ → ℕ → Ending Error Value × ℕ
  attempts func attempt zero = (unexpected, 0)
  attempts func attempt (suc left) =
      let (ending, calls) = attempts func (attempt + 1) left in
      elim (func attempt) [
        | inr value ↦ (returned value, 1)
        | inl error ↦ if left == 0 then (reraised error, 1) else (ending, calls + 1)
      ]

  unfoldable pub async_run_with_retry : (ℕ → Error ⊎ Value) → ℕ → Ending Error Value × ℕ
  unfolding attempts
  async_run_with_retry func max_retries = attempts func 1 max_retries
