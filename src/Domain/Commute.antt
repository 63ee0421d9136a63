-- ===== src/Domain/Commute.antt =====
-- domain/routing.py: the commute goal and its evaluation against routes.
-- Times are seconds; a confidence, a float between 0 and 1 of which the code takes minima only, is
-- a number of millionths. The margin, which may be negative, is an integer.
pub mod Judged
mod Tests
use Prim.Native.String.{◌++◌ as str_append}
use homez.Prelude.{
  ℕ, ◌+◌, ◌-◌, min, max, Bool, true, false, ◌||◌, String, List, [], ◌∷◌, Option, none, some,
  where_rows, first, ltb, leb, if◌then◌else◌,
}
use homez.Prelude.Decimal.{show}
use homez.ScrapeQueue.Budget.Signed.{ℤ, pos, negsuc}

pub data TravelMode : Type 0 where
  drive transit walk bicycle : TravelMode

pub data CommuteStatus : Type 0 where
  pass fail unknown : CommuteStatus

-- RoutingGoal, less its version, destination and `required`, which the evaluation does not read
pub record RoutingGoal : Type 0 where
  pub max_minutes : ℕ
  pub allowed_modes : TravelMode → Bool
  pub stale_after : ℕ

pub record RouteObservation : Type 0 where
  pub mode : TravelMode
  pub duration_minutes : ℕ
  pub provider : String
  pub observed_at : ℕ
  pub confidence : ℕ
  pub advisories : List String

pub record CommuteEvaluation : Type 0 where
  pub status : CommuteStatus
  pub morning_minutes : Option ℕ
  pub return_minutes : Option ℕ
  pub controlling_minutes : Option ℕ
  pub margin_minutes : Option ℤ
  pub morning_mode : Option TravelMode
  pub return_mode : Option TravelMode
  pub confidence : ℕ
  pub stale : Bool
  pub explanation : String

-- what `_best` returns
pub record Best : Type 0 where
  pub minutes : Option ℕ
  pub mode : Option TravelMode
  pub stale : Bool
  pub confidence : ℕ

unfoldable pub has_allowed_mode : RoutingGoal → RouteObservation → Bool
has_allowed_mode goal r = goal.allowed_modes r.mode

-- `evaluated_at - observed_at <= stale_after`
unfoldable pub is_current : RoutingGoal → ℕ → RouteObservation → Bool
is_current goal at r = leb at (r.observed_at + goal.stale_after)

abbrev pub allowed : RoutingGoal → List RouteObservation → List RouteObservation
allowed goal routes = where_rows (has_allowed_mode goal) routes

abbrev pub usable_routes : RoutingGoal → ℕ → List RouteObservation → List RouteObservation
usable_routes goal at routes = where_rows (is_current goal at) (allowed goal routes)

abbrev pub faster : RouteObservation → RouteObservation → Bool
faster a b = ltb a.duration_minutes b.duration_minutes

abbrev pub is_nonempty : List RouteObservation → Bool
is_nonempty [] = false
is_nonempty (r ∷ rs) = true

-- `min` takes the first of the shortest routes
abbrev pub best_of : Option RouteObservation → Bool → Best
best_of none any_allowed = record {
  minutes = none;
  mode = none;
  stale = any_allowed;
  confidence = 0;
}
best_of (some r) any_allowed = record {
  minutes = some r.duration_minutes;
  mode = some r.mode;
  stale = false;
  confidence = r.confidence;
}

-- `_best`
unfoldable pub best_route : RoutingGoal → List RouteObservation → ℕ → Best
best_route goal routes at =
    best_of (first faster (usable_routes goal at routes)) (is_nonempty (allowed goal routes))

-- `max_minutes - controlling`
abbrev pub margin_of : ℕ → ℕ → ℤ
margin_of most controlling =
    if leb controlling most then pos (most - controlling) else negsuc (controlling - most - 1)

abbrev pub distance_of : ℕ → ℕ → ℕ
distance_of most controlling =
    if leb controlling most then most - controlling else controlling - most

abbrev pub no_evaluation : Best → Best → CommuteEvaluation
no_evaluation morning back = record {
  status = unknown;
  morning_minutes = morning.minutes;
  return_minutes = back.minutes;
  controlling_minutes = none;
  margin_minutes = none;
  morning_mode = morning.mode;
  return_mode = back.mode;
  confidence = min morning.confidence back.confidence;
  stale = morning.stale || back.stale;
  explanation = "route data is stale or missing";
}

abbrev pub evaluation : RoutingGoal → Best → Best → ℕ → CommuteEvaluation
evaluation goal morning back controlling = record {
  status = if leb controlling goal.max_minutes then pass else fail;
  morning_minutes = morning.minutes;
  return_minutes = back.minutes;
  controlling_minutes = some controlling;
  margin_minutes = some (margin_of goal.max_minutes controlling);
  morning_mode = morning.mode;
  return_mode = back.mode;
  confidence = min morning.confidence back.confidence;
  stale = false;
  explanation =
      str_append (if leb controlling goal.max_minutes then "pass by " else "fail by ")
        (str_append (show (distance_of goal.max_minutes controlling)) " minutes");
}

abbrev pub judge_minutes : RoutingGoal → Best → Best → Option ℕ → Option ℕ → CommuteEvaluation
judge_minutes goal morning back none b = no_evaluation morning back
judge_minutes goal morning back (some a) none = no_evaluation morning back
judge_minutes goal morning back (some a) (some b) =
    if morning.stale || back.stale
    then no_evaluation morning back
    else evaluation goal morning back (max a b)

unfoldable pub evaluate_commute :
    RoutingGoal → List RouteObservation → List RouteObservation → ℕ → CommuteEvaluation
evaluate_commute goal morning back at =
    judge_minutes goal (best_route goal morning at) (best_route goal back at)
      (best_route goal morning at).minutes (best_route goal back at).minutes
