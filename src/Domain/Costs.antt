-- ===== src/Domain/Costs.antt =====
-- domain/costs.py: what a purchase costs in all, in minor units of the currency.
-- A negative amount, which the constructor refuses, is no value of the type.
pub mod Affordable
mod Tests
use homez.Prelude.{
  ℕ, ◌+◌, ◌-◌, Bool, ◌&&◌, Option, none, some, Result, ok, err, value_error, leb, if◌then◌else◌,
}

pub record CostEstimate : Type 0 where
  pub purchase_price_minor : ℕ
  pub mandatory_extras_minor : ℕ
  pub closing_costs_minor : ℕ
  pub renovation_low_minor : ℕ
  pub renovation_base_minor : ℕ
  pub renovation_high_minor : ℕ
  pub contingency_minor : ℕ
  pub financed_purchase_value_minor : Option ℕ
  pub monthly_installment_minor : Option ℕ

unfoldable pub acquisition_price_minor : CostEstimate → ℕ
acquisition_price_minor e = e.purchase_price_minor + e.mandatory_extras_minor

-- `CostEstimate(…)`
unfoldable pub make_estimate : CostEstimate → Result CostEstimate
make_estimate e = elim e.financed_purchase_value_minor [
  | none ↦ ok e
  | some financed ↦ if leb financed (acquisition_price_minor e) then ok e else err value_error
]

unfoldable pub effective_all_in_low_minor : CostEstimate → ℕ
effective_all_in_low_minor e =
    acquisition_price_minor e + e.closing_costs_minor + e.renovation_low_minor + e.contingency_minor

unfoldable pub effective_all_in_base_minor : CostEstimate → ℕ
effective_all_in_base_minor e =
    acquisition_price_minor e
    + e.closing_costs_minor
    + e.renovation_base_minor
    + e.contingency_minor

unfoldable pub effective_all_in_high_minor : CostEstimate → ℕ
effective_all_in_high_minor e =
    acquisition_price_minor e
    + e.closing_costs_minor
    + e.renovation_high_minor
    + e.contingency_minor

-- The difference is not negative for an estimate that the constructor accepts.
unfoldable pub acquisition_cash_high_minor : CostEstimate → Option ℕ
acquisition_cash_high_minor e = elim e.financed_purchase_value_minor [
  | none ↦ none
  | some financed ↦ some (effective_all_in_high_minor e - financed)
]

abbrev pub both_within : Option ℕ → Option ℕ → ℕ → ℕ → Option Bool
both_within none cash budget most = none
both_within (some installment) none budget most = none
both_within (some installment) (some cash) budget most =
    some (leb cash budget && leb installment most)

unfoldable pub affordability : CostEstimate → ℕ → ℕ → Option Bool
affordability e cash_budget_minor max_installment_minor =
    both_within e.monthly_installment_minor (acquisition_cash_high_minor e) cash_budget_minor
      max_installment_minor
