-- ===== src/Domain/Costs/Affordable.antt =====
-- What domain/costs.py promises of an affordable purchase.
use homez.Prelude.{
  ℕ, ◌+◌, ◌-◌, ◌≤◌, ◌≡◌, refl, sym, subst, true, Option, none, some, ok, leb, leb→le, Option-cases,
  Bool-cases, inl, inr, arith, ok-injective,
}
use homez.Domain.Costs.{
  CostEstimate, acquisition_price_minor, make_estimate, effective_all_in_high_minor,
  acquisition_cash_high_minor, both_within, affordability,
}

both_within-true :
    (installment cash : Option ℕ) (budget most : ℕ)
    → both_within installment cash budget most ≡ some true
    → (i : ℕ) × (c : ℕ) × (installment ≡ some i) × (cash ≡ some c) × (c ≤ budget) × (i ≤ most)
both_within-true none cash budget most h = absurd (ground arith)
both_within-true (some i) none budget most h = absurd (ground arith)
both_within-true (some i) (some c) budget most h = (i, c, refl, refl, ground arith, ground arith)

financed-le_price :
    (e f : CostEstimate) (financed : ℕ)
    → make_estimate e ≡ ok f
    → f.financed_purchase_value_minor ≡ some financed
    → (f ≡ e) × (financed ≤ acquisition_price_minor e)
unfolding make_estimate
financed-le_price e f financed made known = elim (Option-cases e.financed_purchase_value_minor) [
  | inl cash ↦
      (let same : e ≡ f = ok-injective (rw (make_estimate, cash) at made) in absurd (ground arith))
  | inr (v, loan) ↦ elim (Bool-cases (leb v (acquisition_price_minor e))) [
    | inl small ↦
        let same : e ≡ f = ok-injective (rw (make_estimate, loan, small) at made) in
        let value : v ≡ financed = ground arith in
        (
          sym same,
          subst (λ n. n ≤ acquisition_price_minor e) value
              (leb→le v (acquisition_price_minor e) small),
        )
    | inr large ↦ absurd (let e' = rw (make_estimate, loan, large) at made in cc)
  ]
]

-- An accepted estimate that is affordable is fully paid for: the budget of cash and the financed
-- value together cover the purchase price, the extras, the closing costs, the high renovation and
-- the contingency; the loan is no larger than the acquisition price; and the installment is within
-- its limit.
pub affordability-covers :
    (e f : CostEstimate) (budget most : ℕ)
    → make_estimate e ≡ ok f
    → affordability f budget most ≡ some true
    → (financed : ℕ) × (installment : ℕ) × (f.financed_purchase_value_minor ≡ some financed)
      × (f.monthly_installment_minor ≡ some installment)
      × (effective_all_in_high_minor f ≤ budget + financed)
      × (financed ≤ acquisition_price_minor f)
      × (installment ≤ most)
unfolding affordability acquisition_cash_high_minor
affordability-covers e f budget most made paid_for =
    let (i, c, installment, cash, paid, within) =
      both_within-true f.monthly_installment_minor (acquisition_cash_high_minor f) budget most
        paid_for in
    elim (Option-cases f.financed_purchase_value_minor) [
      | inl unknown ↦ absurd (let missing = rw (acquisition_cash_high_minor, unknown) at cash in cc)
      | inr (financed, known) ↦
          let value = rw (acquisition_cash_high_minor, known) at cash in
          let high : effective_all_in_high_minor f - financed ≡ c = ground arith in
          let (same, small) = financed-le_price e f financed made known in
          (
            financed,
            i,
            known,
            installment,
            omega (arith, high, paid),
            subst (λ (g : CostEstimate). financed ≤ acquisition_price_minor g) (sym same) small,
            within,
          )
    ]
