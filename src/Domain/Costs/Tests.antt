-- ===== src/Domain/Costs/Tests.antt =====
-- An estimate of domain/costs.py, and the theorem applied to it.
use homez.Prelude.{◌≡◌, refl, true, false, some, ok, err, value_error}
use homez.Domain.Costs.{
  CostEstimate, acquisition_price_minor, make_estimate, effective_all_in_low_minor,
  effective_all_in_high_minor, acquisition_cash_high_minor, affordability,
}

program : Unit {0}
unfolding acquisition_price_minor make_estimate effective_all_in_low_minor
    effective_all_in_high_minor acquisition_cash_high_minor affordability
program = tt

abbrev flat : CostEstimate
flat = record {
  purchase_price_minor = 500000;
  mandatory_extras_minor = 20000;
  closing_costs_minor = 10000;
  renovation_low_minor = 30000;
  renovation_base_minor = 50000;
  renovation_high_minor = 80000;
  contingency_minor = 5000;
  financed_purchase_value_minor = some 400000;
  monthly_installment_minor = some 2500;
}

flat_accepted : make_estimate flat ≡ ok flat
unfolding program
flat_accepted = refl

over_financed :
    make_estimate (record flat { financed_purchase_value_minor = some 520001 }) ≡ err value_error
unfolding program
over_financed = refl

flat_affordable : affordability flat 215000 2500 ≡ some true
unfolding program
flat_affordable = refl

flat_expensive : affordability flat 214999 2500 ≡ some false
unfolding program
flat_expensive = refl
