-- ===== src/Domain/Commute/Tests.antt =====
-- Routes of domain/routing.py, their evaluation, and the theorem applied to them.
use homez.Prelude.{ℕ, ◌≡◌, refl, true, false, List, [], ◌∷◌, some, where_rows, first}
use homez.Prelude.Decimal.{show_digits, show}
use homez.ScrapeQueue.Budget.Signed.{negsuc}
use homez.Domain.Commute.{
  drive, transit, walk, bicycle, pass, unknown, TravelMode, RoutingGoal, RouteObservation,
  has_allowed_mode, is_current, best_route, evaluate_commute,
}
use homez.Domain.Commute.Judged.{Within, evaluate_commute-Judges}

program : Unit {0}
unfolding where_rows first show_digits show has_allowed_mode is_current best_route evaluate_commute
program = tt

abbrev by : TravelMode → ℕ → ℕ → RouteObservation
by mode minutes at = record {
  mode = mode;
  duration_minutes = minutes;
  provider = "maps";
  observed_at = at;
  confidence = 900000;
  advisories = [];
}

abbrev goal : RoutingGoal
goal = record {
  max_minutes = 45;
  allowed_modes = λ mode. elim mode [ drive ↦ false | _ ↦ true ];
  stale_after = 604800;
}

abbrev morning : List RouteObservation
morning = by drive 10 1000 ∷ by transit 44 1000 ∷ by walk 60 1000 ∷ []

abbrev back : List RouteObservation
back = by bicycle 50 1000 ∷ by transit 40 1000 ∷ []

passes :
    ((evaluate_commute goal morning back 2000).status ≡ pass)
    × ((evaluate_commute goal morning back 2000).morning_mode ≡ some transit)
    × ((evaluate_commute goal morning back 2000).explanation ≡ "pass by 1 minutes")
unfolding program
passes = (refl, refl, refl)

goes_stale :
    ((evaluate_commute goal morning back 700000).status ≡ unknown)
    × ((evaluate_commute goal morning back 700000).stale ≡ true)
unfolding program
goes_stale = (refl, refl)

too_long :
    ((evaluate_commute goal morning (by walk 147 1000 ∷ []) 2000).margin_minutes
      ≡ some (negsuc 101))
    × ((evaluate_commute goal morning (by walk 147 1000 ∷ []) 2000).explanation
        ≡ "fail by 102 minutes")
unfolding program
too_long = (refl, refl)

evaluate_commute-Judges_example : Within goal 2000 morning × Within goal 2000 back
unfolding program
evaluate_commute-Judges_example = evaluate_commute-Judges goal morning back 2000
