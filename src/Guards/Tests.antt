-- ===== src/Guards/Tests.antt =====
-- Runs of apps/edge/src/middleware/rate-limit.ts: requests of one address, where two may pass.
use globaltracker.Prelude.{
  refl, ℕ, true, [], ◌∷◌, Option, none, some, Text, codes, decimal, number_from, false, arith, ◌≤◌,
  List, text_eq, All,
}
use globaltracker.Prelude.Kv.{memory}
use globaltracker.Guards.RateLimit.{Options, Request, RouteGroup, build_kv_key, rate_limit}
use globaltracker.Guards.Windows.{Visit, passes, Writes, rate_limit-passes}

abbrev two_only : Options
two_only = record { route_group = RouteGroup.lead; limit_override = some 2; window_ms = none }

abbrev at_time : ℕ → Request
at_time t = record {
  workspace_id = codes "w";
  ip_hash = codes "h";
  now = t;
  has_kv = true;
  get_fails = false;
  put_fails = false;
}

abbrev of_digits : Text → Option ℕ
of_digits s = some (number_from 0 s)

abbrev counted : ℕ → Text → Option Text
counted n = memory.put (codes "rl:lead:w:h:1") (decimal n) (some 120) (λ k. none)

-- The second request is shown an old store, so that three pass and not two.
abbrev visits : List (Visit memory of_digits two_only)
visits =
    (at_time 60000, λ k. none)
    ∷ (at_time 60001, λ k. none)
    ∷ (at_time 60002, counted 1)
    ∷ (at_time 119999, counted 2)
    ∷ []

rate_limit-passes_example :
    (passes memory of_digits two_only visits ≤ 3)
    × ((2 ≤ passes memory of_digits two_only visits)
        × All (Writes memory of_digits two_only (codes "rl:lead:w:h:1")) visits)
unfolding build_kv_key decimal rate_limit text_eq
rate_limit-passes_example =
    rate_limit-passes memory of_digits two_only 1 (codes "rl:lead:w:h:1") visits (
      (refl, (refl, (refl, (refl, refl)))),
      (
        omega arith,
        (
          omega arith,
          (
            (refl, (refl, (refl, (refl, refl)))),
            (
              omega arith,
              (
                omega arith,
                (
                  (refl, (refl, (refl, (refl, refl)))),
                  (
                    omega arith,
                    (
                      omega arith,
                      ((refl, (refl, (refl, (refl, refl)))), (omega arith, (omega arith, tt))),
                    ),
                  ),
                ),
              ),
            ),
          ),
        ),
      ),
    )
