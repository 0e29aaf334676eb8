-- ===== src/Guards/Windows.antt =====
-- How many requests of one address the middleware of apps/edge/src/middleware/rate-limit.ts lets pass,
-- over a store that may show each of them an old count, or none after the time to live.
use globaltracker.Prelude.{
  ◌≡◌, refl, ℕ, suc, ◌+◌, ◌≤◌, min, Bool, true, false, leb, List, [], ◌∷◌, Option, some, Text,
  is_empty, decimal, if◌then◌else◌, All, length, Bool-cases, inl, inr, arith, ap,
}
use globaltracker.Prelude.Kv.{Kv}
use globaltracker.Guards.RateLimit.{
  Options, Request, Verdict, limit, build_kv_key, stored_count, counted_request, rate_limit,
}

-- A verdict that lets the request pass.
abbrev pub lets_pass : Verdict → Bool
lets_pass (Verdict.rate_limited n) = false
lets_pass _ = true

-- The step of a count: from below the limit up, by a request that was shown `seen`.
step_upper :
    (n bound seen late : ℕ)
    → n ≤ bound + late
    → n ≤ seen + late
    → n + (if leb bound seen then 0 else 1) ≤ bound + late
step_upper n bound seen late h lag = ground arith

step_lower :
    (n m bound seen : ℕ)
    → seen ≤ n
    → min (n + suc m) bound ≤ min (n + (if leb bound seen then 0 else 1) + m) bound
step_lower n m bound seen h = ground arith

module _ {S : Type 0} (kv : Kv S) (parse_int : Text → Option ℕ) (options : Options) where
  -- A request, and the store as the platform shows it to that request.
  abbrev pub Visit : Type 0
  Visit = Request × S

  -- A request that is counted under a key: of a workspace, with a store that answers.
  abbrev pub IsCounted : Text → Request → Type 0
  IsCounted key r =
      (is_empty r.workspace_id ≡ false)
      × ((r.has_kv ≡ true)
          × ((r.get_fails ≡ false)
              × ((r.put_fails ≡ false) × (build_kv_key kv parse_int options r ≡ key))))

  abbrev pub count_at : Text → S → ℕ
  count_at key s = stored_count kv parse_int options (kv.get key s)

  abbrev pub passing : Visit → ℕ
  passing v = if lets_pass (rate_limit kv parse_int options v.0 v.1).0 then 1 else 0

  abbrev pub passes : List Visit → ℕ
  passes [] = 0
  passes (v ∷ vs) = passing v + passes vs

  -- After `n` requests have passed: each visit is counted under the key, and is shown a count that is
  -- not above the number of those that have passed by then, and at most `late` below it.
  abbrev pub Lags : ℕ → Text → ℕ → List Visit → Type 0
  Lags late key n [] = Unit
  Lags late key n (v ∷ vs) =
      IsCounted key v.0
      × ((count_at key v.1 ≤ n)
          × ((n ≤ count_at key v.1 + late) × Lags late key (n + passing v) vs))

  -- A request that passes writes the count that it was shown and one more, for two minutes; one that
  -- does not writes nothing.
  abbrev pub Writes : Text → Visit → Type 0
  Writes key v = (rate_limit kv parse_int options v.0 v.1).1 ≡ (
      if leb (limit kv parse_int options) (count_at key v.1)
      then v.1
      else kv.put key (decimal (count_at key v.1 + 1)) (some 120) v.1)

  run_counted :
      (key : Text) (r : Request) (s : S)
      → IsCounted key r
      → rate_limit kv parse_int options r s
        ≡ counted_request kv parse_int options r (count_at key s) s
  unfolding rate_limit
  run_counted key r s h =
      rw (h.0, h.1.0, h.1.1.0)
        (ap (λ k. counted_request kv parse_int options r (count_at k s) s) h.1.1.1.1)

  passing_counted :
      (key : Text) (v : Visit)
      → IsCounted key v.0
      → passing v ≡ (if leb (limit kv parse_int options) (count_at key v.1) then 0 else 1)
  unfolding counted_request
  passing_counted key v h =
      elim (Bool-cases (leb (limit kv parse_int options) (count_at key v.1))) [
        | inl e ↦ rw (run_counted key v.0 v.1 h, e) refl
        | inr e ↦ rw (run_counted key v.0 v.1 h, e) refl
      ]

  Writes-counted : (key : Text) (v : Visit) → IsCounted key v.0 → Writes key v
  unfolding counted_request
  Writes-counted key v h = elim (Bool-cases (leb (limit kv parse_int options) (count_at key v.1))) [
    | inl e ↦ rw (run_counted key v.0 v.1 h, e) refl
    | inr e ↦ rw (run_counted key v.0 v.1 h, e, h.1.1.1.0, h.1.1.1.1) refl
  ]

  bounded :
      (late : ℕ) (key : Text) (n : ℕ) (vs : List Visit)
      → Lags late key n vs
      → n ≤ limit kv parse_int options + late
      → (n + passes vs ≤ limit kv parse_int options + late)
        × (min (n + length vs) (limit kv parse_int options) ≤ n + passes vs)
  bounded late key n [] lags h = (omega (arith, h), omega arith)
  bounded late key n (v ∷ vs) lags h =
      let one = passing_counted key v lags.0 in
      let bound = limit kv parse_int options in
      let (high, low) =
        bounded late key (n + passing v) vs lags.1.1.1
          (rw one (step_upper n bound (count_at key v.1) late h lags.1.1.0)) in
      (
        omega (arith, high),
        omega (arith, low, one, step_lower n (length vs) bound (count_at key v.1) lags.1.0),
      )

  All-Writes :
      (late : ℕ) (key : Text) (n : ℕ) (vs : List Visit) → Lags late key n vs → All (Writes key) vs
  All-Writes late key n [] lags = tt
  All-Writes late key n (v ∷ vs) lags =
      (Writes-counted key v lags.0, All-Writes late key (n + passing v) vs lags.1.1.1)

  -- Requests one after the other that are counted under one key, of a workspace and with a store that
  -- answers, each of which is shown a count that is not above the number of those that have passed by
  -- then and at most `late` below it: at most the limit and `late` of them pass, and at least the limit,
  -- or all where they are fewer. Each that passes writes the count it was shown and one more under the
  -- key, for 120 seconds, and each that does not writes nothing.
  pub rate_limit-passes :
      (late : ℕ) (key : Text) (vs : List Visit)
      → Lags late key 0 vs
      → (passes vs ≤ limit kv parse_int options + late)
        × ((min (length vs) (limit kv parse_int options) ≤ passes vs) × All (Writes key) vs)
  rate_limit-passes late key vs lags =
      let (high, low) = bounded late key 0 vs lags (omega arith) in
      (omega (arith, high), (omega (arith, low), All-Writes late key 0 vs lags))
