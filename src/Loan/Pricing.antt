-- ===== src/Loan/Pricing.antt =====
-- The two calculations of services/loan.service.ts and services/financial-math.ts's rounding.
use mduara_api.Prelude.{ℕ, ◌+◌, ◌*◌, ◌≤◌, ◌<◌, arith}
use mduara_api.Loan.Queries.{apply_multiplier, calculate_total_due}

-- What is due is the principal with its interest, rounded up to the next whole shilling: never
-- below the exact amount, less than one shilling above it, and never below the principal.
pub calculate_total_due_bounds :
    (principal rate : ℕ)
    → let exact = principal * (10000 + rate) in
      let due = calculate_total_due principal rate in
      (exact ≤ due * 10000) × (due * 10000 < exact + 10000) × (principal ≤ due)
unfolding calculate_total_due
calculate_total_due_bounds principal rate = (omega arith, omega arith, omega arith)

-- The capacity is rounded down.
pub apply_multiplier_bounds :
    (base m : ℕ)
    → (apply_multiplier base m * 100 ≤ base * m) × (base * m < apply_multiplier base m * 100 + 100)
unfolding apply_multiplier
apply_multiplier_bounds base m = (omega arith, omega arith)
