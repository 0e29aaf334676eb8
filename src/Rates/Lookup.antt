-- ===== src/Rates/Lookup.antt =====
-- `getRateForPair` of apps/edge/src/lib/fx.ts. The provider's answers and the refusals of the writes
-- are functions of the attempt; the waits are recorded in milliseconds.
use globaltracker.Prelude.{
  ℕ, zero, suc, ◌-◌, Bool, List, [], ◌∷◌, ◌++◌, Option, none, some, Text, if◌then◌else◌,
}
use globaltracker.Prelude.Kv.{Kv}
use globaltracker.Rates.Cache.{Numbers, get_cached_rate, get_stale_cached_rate, set_cached_rate}

pub data FxResult (Rate : Type 0) : Type 0 where
  fresh : Rate → FxResult Rate
  stale : Rate → FxResult Rate
  unavailable : FxResult Rate

-- What a call has done: its result, the store, how often the provider was called, and the waits.
pub record Done (S Rate : Type 0) : Type 0 where
  pub result : FxResult Rate
  pub store : S
  pub calls : ℕ
  pub waits : List ℕ

pub record Attempts (Rate : Type 0) : Type 0 where
  pub answer : ℕ → Option Rate
  pub primary_fails : ℕ → Bool
  pub stale_fails : ℕ → Bool

abbrev pub max_retries : ℕ
max_retries = 3

-- `BACKOFF_MS`.
abbrev pub backoff_ms : ℕ → ℕ
backoff_ms zero = 1000
backoff_ms (suc zero) = 2000
backoff_ms (suc (suc n)) = 4000

module _ {S Rate : Type 0} (kv : Kv S) (numbers : Numbers Rate) (provider from to date : Text)
    (attempts : Attempts Rate) where
  -- After the last attempt: the last known rate.
  abbrev pub fall_back : Option Rate → S → ℕ → List ℕ → Done S Rate
  fall_back none s calls waits = record {
    result = FxResult.unavailable;
    store = s;
    calls = calls;
    waits = waits;
  }
  fall_back (some rate) s calls waits = record {
    result = FxResult.stale rate;
    store = s;
    calls = calls;
    waits = waits;
  }

  abbrev pub succeeded : Rate → S → ℕ → List ℕ → Done S Rate
  succeeded rate s calls waits = record {
    result = FxResult.fresh rate;
    store = s;
    calls = calls;
    waits = waits;
  }

  -- What an attempt makes of the provider's answer, given what follows a failure.
  abbrev pub attempt : Option Rate → ℕ → S → List ℕ → (S → Done S Rate) → Done S Rate
  attempt none n s waits onward = onward s
  attempt (some rate) n s waits onward =
      let written =
        set_cached_rate kv numbers provider from to date rate (attempts.primary_fails n)
          (attempts.stale_fails n) s in
      if written.0 then succeeded rate written.1 (suc n) waits else onward written.1

  -- The loop, by the attempts that are left after this one and the number of this one.
  unfoldable pub try_from : ℕ → ℕ → S → List ℕ → Done S Rate
  unfolding set_cached_rate get_stale_cached_rate
  try_from zero n s waits =
      attempt (attempts.answer n) n s waits
        (λ t. fall_back (get_stale_cached_rate kv numbers provider from to t) t (suc n) waits)
  try_from (suc left) n s waits =
      attempt (attempts.answer n) n s waits
        (λ t. try_from left (suc n) t (waits ++ backoff_ms n ∷ []))

  abbrev pub on_cache : Option Rate → S → Done S Rate
  on_cache none s = try_from (max_retries - 1) 0 s []
  on_cache (some rate) s = record { result = FxResult.fresh rate; store = s; calls = 0; waits = [] }

  unfoldable pub get_rate_for_pair : S → Done S Rate
  unfolding try_from get_cached_rate
  get_rate_for_pair s = on_cache (get_cached_rate kv numbers provider from to date s) s
