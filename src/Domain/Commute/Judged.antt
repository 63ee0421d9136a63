-- ===== src/Domain/Commute/Judged.antt =====
-- What the status of a commute of domain/routing.py says of the routes.
use homez.Prelude.{
  ℕ, ◌≤◌, ◌<◌, ◌≡◌, ◌⊎◌, refl, sym, ap, ◌∙◌, subst, max, true, false, List, [], ◌∷◌, Option, none,
  some, first, All, All-map, Bool-cases, Option-cases, inl, inr, arith, leb, if◌then◌else◌,
}
use homez.Prelude.Some.{Any, Any-map, Any-where_rows}
use homez.Prelude.Order.{IsOrder, first_nil, first_least, All-of_where_rows}
use homez.Domain.Commute.{
  CommuteStatus, pass, fail, unknown, RoutingGoal, RouteObservation, has_allowed_mode, is_current,
  allowed, usable_routes, faster, best_route, evaluate_commute,
}

-- The route is by an allowed mode, and was observed recently enough.
abbrev pub IsUsable : RoutingGoal → ℕ → RouteObservation → Type 0
IsUsable goal at r = (has_allowed_mode goal r ≡ true) × (is_current goal at r ≡ true)

-- Some usable route is within the goal, or there are usable routes and all take longer, or there
-- is no usable route.
abbrev pub Within : RoutingGoal → ℕ → List RouteObservation → Type 0
Within goal at routes =
    Any (λ r. IsUsable goal at r × (r.duration_minutes ≤ goal.max_minutes)) routes

abbrev pub Served : RoutingGoal → ℕ → List RouteObservation → Type 0
Served goal at routes = Any (λ r. IsUsable goal at r) routes

abbrev pub Beyond : RoutingGoal → ℕ → List RouteObservation → Type 0
Beyond goal at routes = All (λ r. IsUsable goal at r → goal.max_minutes < r.duration_minutes) routes

abbrev pub Unserved : RoutingGoal → ℕ → List RouteObservation → Type 0
Unserved goal at routes = All (λ r. IsUsable goal at r → ⊥) routes

-- What a status says of the routes of both ways.
abbrev pub Judges :
    RoutingGoal → ℕ → List RouteObservation → List RouteObservation → CommuteStatus → Type 0
Judges goal at morning back pass = Within goal at morning × Within goal at back
Judges goal at morning back fail =
    (Served goal at morning × Served goal at back) × (Beyond goal at morning ⊎ Beyond goal at back)
Judges goal at morning back unknown = Unserved goal at morning ⊎ Unserved goal at back

faster-IsOrder : IsOrder faster
faster-IsOrder = record {
  irrefl = λ x. ground arith;
  asym = λ x y h. ground arith;
  trans = λ x y z h k. ground arith;
}

-- The shortest usable route, and what it says of the others.
Any-first :
    (xs : List RouteObservation) (r : RouteObservation)
    → first faster xs ≡ some r
    → Any (λ x. x ≡ r) xs
unfolding first
Any-first [] r h = absurd (cc)
Any-first (x ∷ xs) r h = elim (Option-cases (first faster xs)) [
  | inl empty ↦ inl (ground arith)
  | inr (y, found) ↦ elim (Bool-cases (faster y x)) [
    | inl sooner ↦ (let same : y ≡ r = ground arith in inr (Any-first xs r (found ∙ ap some same)))
    | inr later ↦ inl (ground arith)
  ]
]

module _ (goal : RoutingGoal) (at : ℕ) (routes : List RouteObservation) where
  shortest : Option RouteObservation
  shortest = first faster (usable_routes goal at routes)

  Unserved-none : first faster (usable_routes goal at routes) ≡ none → Unserved goal at routes
  Unserved-none h =
      let empty : usable_routes goal at routes ≡ [] =
        first_nil faster (usable_routes goal at routes) h in
      All-map (λ r. has_allowed_mode goal r ≡ true → is_current goal at r ≡ true → ⊥)
        (λ r. IsUsable goal at r → ⊥) routes (λ r f u. f u.0 u.1)
        (All-of_where_rows (λ r. is_current goal at r ≡ true → ⊥) (has_allowed_mode goal) routes
          (All-of_where_rows (λ (r : RouteObservation). ⊥) (is_current goal at)
            (allowed goal routes)
            (subst (λ (l : List RouteObservation). All (λ (r : RouteObservation). ⊥) l) (sym empty)
              tt)))

  module _ (r : RouteObservation) (h : first faster (usable_routes goal at routes) ≡ some r) where
    Any-shortest :
        (P : RouteObservation → Type 0) → P r → Any (λ x. IsUsable goal at x × P x) routes
    Any-shortest P pr =
        Any-map (λ x. (has_allowed_mode goal x ≡ true) × ((is_current goal at x ≡ true) × (x ≡ r)))
          (λ x. IsUsable goal at x × P x) routes (λ x t. ((t.0, t.1.0), subst P (sym t.1.1) pr))
          (Any-where_rows (λ x. (is_current goal at x ≡ true) × (x ≡ r)) (has_allowed_mode goal)
            routes
            (Any-where_rows (λ x. x ≡ r) (is_current goal at) (allowed goal routes)
              (Any-first (usable_routes goal at routes) r h)))

    All-shortest :
        (P : RouteObservation → Type 0)
        → ((x : RouteObservation) → faster x r ≡ false → P x)
        → All (λ x. IsUsable goal at x → P x) routes
    All-shortest P f =
        All-map (λ x. has_allowed_mode goal x ≡ true → is_current goal at x ≡ true → P x)
          (λ x. IsUsable goal at x → P x) routes (λ x g u. g u.0 u.1)
          (All-of_where_rows (λ x. is_current goal at x ≡ true → P x) (has_allowed_mode goal) routes
            (All-of_where_rows P (is_current goal at) (allowed goal routes) (
              All-map (λ x. faster x r ≡ false) P (usable_routes goal at routes) f
                (first_least faster faster-IsOrder (usable_routes goal at routes) h))))

served :
    (goal : RoutingGoal) (at : ℕ) (routes : List RouteObservation) (r : RouteObservation)
    → first faster (usable_routes goal at routes) ≡ some r
    → Served goal at routes
served goal at routes r h =
    Any-map (λ x. IsUsable goal at x × (r ≡ r)) (λ x. IsUsable goal at x) routes (λ x t. t.0)
      (Any-shortest goal at routes r h (λ x. r ≡ r) refl)

beyond :
    (goal : RoutingGoal) (at : ℕ) (routes : List RouteObservation) (r : RouteObservation)
    → first faster (usable_routes goal at routes) ≡ some r
    → goal.max_minutes < r.duration_minutes
    → Beyond goal at routes
beyond goal at routes r h long =
    All-shortest goal at routes r h (λ x. goal.max_minutes < x.duration_minutes)
      (λ x slower. ground arith)

both_ways :
    (goal : RoutingGoal) (at : ℕ) (morning back : List RouteObservation) (r s : RouteObservation)
    → first faster (usable_routes goal at morning) ≡ some r
    → first faster (usable_routes goal at back) ≡ some s
    → Judges goal at morning back
        (if leb (max r.duration_minutes s.duration_minutes) goal.max_minutes then pass else fail)
both_ways goal at morning back r s hr hs =
    elim (Bool-cases (leb (max r.duration_minutes s.duration_minutes) goal.max_minutes)) [
      | inl within ↦ rw within (
        Any-shortest goal at morning r hr (λ x. x.duration_minutes ≤ goal.max_minutes)
            (ground arith),
        Any-shortest goal at back s hs (λ x. x.duration_minutes ≤ goal.max_minutes) (ground arith),
      )
      | inr over ↦ rw over (
        (served goal at morning r hr, served goal at back s hs),
        elim (Bool-cases (leb r.duration_minutes goal.max_minutes)) [
          | inl short ↦ inr (beyond goal at back s hs (ground arith))
          | inr long ↦ inl (beyond goal at morning r hr (ground arith))
        ],
      )
    ]

-- The status of a commute, at any time and for any routes, is "pass" if for both ways some route by
-- an allowed mode that is not stale takes at most the minutes of the goal; it is "fail" if there are
-- such routes for both ways, but for one way all of them take longer; and it is "unknown" if for one
-- way no route is by an allowed mode and not stale.
pub evaluate_commute-Judges :
    (goal : RoutingGoal) (morning back : List RouteObservation) (at : ℕ)
    → Judges goal at morning back (evaluate_commute goal morning back at).status
unfolding evaluate_commute best_route
evaluate_commute-Judges goal morning back at =
    elim (Option-cases (first faster (usable_routes goal at morning))) [
      | inl gone ↦ rw gone (inl (Unserved-none goal at morning gone))
      | inr (r, hr) ↦ elim (Option-cases (first faster (usable_routes goal at back))) [
        | inl gone ↦ rw (hr, gone) (inr (Unserved-none goal at back gone))
        | inr (s, hs) ↦ rw (hr, hs) (both_ways goal at morning back r s hr hs)
      ]
    ]
