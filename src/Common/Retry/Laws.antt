-- ===== src/Common/Retry/Laws.antt =====
-- What the retries answer.
use custom_scraper.Common.Retry.{Ending, async_run_with_retry, attempts, reraised, returned}
use custom_scraper.Prelude.{
  ap, arith, false, inl, inr, refl, suc, zero, ℕ, ◌+◌, ◌<◌, ◌==◌, ◌≡◌, ◌⊎◌,
}
use mathlib.Core.Path.{subst}

not_zero : (n : ℕ) → (suc n == 0) ≡ false
not_zero n = ground arith

module _ {Error Value : Type 0} where
  -- None of the `n` attempts from `attempt` on answers.
  abbrev pub AllFail : (ℕ → Error ⊎ Value) → ℕ → ℕ → Type 0
  AllFail func attempt zero = Unit
  AllFail func attempt (suc n) =
      ((error : Error) × (func attempt ≡ inl error)) × AllFail func (attempt + 1) n

  -- The attempt that answers, or that none of the `suc n` attempts does, with the error of the last one.
  abbrev pub Answers : (ℕ → Error ⊎ Value) → ℕ → ℕ → Ending Error Value × ℕ → Type 0
  Answers func attempt n end =
      ((i : ℕ) × (value : Value) × (i < suc n)
        × AllFail func attempt i
        × (func (attempt + i) ≡ inr value)
        × (end ≡ (returned value, i + 1)))
      ⊎ ((error : Error) × AllFail func attempt n
          × (func (attempt + n) ≡ inl error)
          × (end ≡ (reraised error, n + 1)))

  outcome_of :
      (func : ℕ → Error ⊎ Value) (attempt : ℕ)
      → ((value : Value) × (func attempt ≡ inr value))
        ⊎ ((error : Error) × (func attempt ≡ inl error))
  outcome_of func attempt = go (func attempt) refl
    where
      go :
          (o : Error ⊎ Value)
          → func attempt ≡ o
          → ((value : Value) × (func attempt ≡ inr value))
            ⊎ ((error : Error) × (func attempt ≡ inl error))
      go (inl error) e = inr (error, e)
      go (inr value) e = inl (value, e)

  attempts_lem :
      (func : ℕ → Error ⊎ Value) (attempt left : ℕ)
      → Answers func attempt left (attempts func attempt (suc left))
  unfolding attempts
  attempts_lem func attempt zero = elim (outcome_of func attempt) [
    | inl (value, e) ↦ inl (
      0,
      value,
      omega arith,
      tt,
      subst (λ k. func k ≡ inr value) (omega arith) e,
      rw (attempts, e) refl,
    )
    | inr (error, e) ↦
        inr (error, tt, subst (λ k. func k ≡ inl error) (omega arith) e, rw (attempts, e) refl)
  ]
  attempts_lem func attempt (suc left) = elim (outcome_of func attempt) [
    | inl (value, e) ↦ inl (
      0,
      value,
      omega arith,
      tt,
      subst (λ k. func k ≡ inr value) (omega arith) e,
      rw (attempts, e) refl,
    )
    | inr (first, e) ↦ elim (attempts_lem func (attempt + 1) left) [
      | inl (i, value, lt, fails, found, eq) ↦ inl (
        suc i,
        value,
        omega (arith, lt),
        ((first, e), fails),
        subst (λ k. func k ≡ inr value) (omega arith) found,
        rw (attempts, e, not_zero left, eq) (ap (λ k. (returned value, k)) (omega arith)),
      )
      | inr (error, fails, last, eq) ↦ inr (
        error,
        ((first, e), fails),
        subst (λ k. func k ≡ inl error) (omega arith) last,
        rw (attempts, e, not_zero left, eq) (ap (λ k. (reraised error, k)) (omega arith)),
      )
    ]
  ]

  -- With n + 1 attempts allowed, the call returns the answer of the first attempt that has one, after just the
  -- attempts up to it, and where none of them has one, it makes them all and raises the error of the last.
  pub async_run_with_retry_lem :
      (func : ℕ → Error ⊎ Value) (n : ℕ) → Answers func 1 n (async_run_with_retry func (suc n))
  unfolding async_run_with_retry
  async_run_with_retry_lem func n = attempts_lem func 1 n
