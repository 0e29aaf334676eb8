-- ===== src/Rates/Cache.antt =====
-- apps/edge/src/integrations/fx-rates/cache.ts. A rate is a value of a type `Rate`; `parse` is
-- `Number.parseFloat` with the test that follows it, `print` is `String`. A write may be refused.
use globaltracker.Prelude.{
  ℕ, ◌*◌, Bool, true, false, ◌++◌, Option, none, some, Text, codes, if◌then◌else◌,
}
use globaltracker.Prelude.Kv.{Kv}

-- What the module takes from outside: the type of the rates, their text, and `toUpperCase`.
pub record Numbers (Rate : Type 0) : Type 0 where
  pub parse : Text → Option Rate
  pub print : Rate → Text
  pub upper : Text → Text

abbrev pub fx_cache_ttl_seconds : ℕ
fx_cache_ttl_seconds = 25 * 60 * 60

module _ {S Rate : Type 0} (kv : Kv S) (numbers : Numbers Rate) (provider from to : Text) where
  unfoldable pub build_cache_key : Text → Text
  build_cache_key date =
      codes "fx:"
      ++ (provider
          ++ (codes ":"
              ++ (numbers.upper from ++ (codes "-" ++ (numbers.upper to ++ (codes ":" ++ date))))))

  unfoldable pub build_stale_cache_key : Text
  build_stale_cache_key =
      codes "fx_stale:"
      ++ (provider ++ (codes ":" ++ (numbers.upper from ++ (codes "-" ++ numbers.upper to))))

  abbrev pub parsed : Option Text → Option Rate
  parsed none = none
  parsed (some value) = numbers.parse value

  unfoldable pub get_cached_rate : Text → S → Option Rate
  unfolding build_cache_key
  get_cached_rate date s = parsed (kv.get (build_cache_key date) s)

  unfoldable pub get_stale_cached_rate : S → Option Rate
  unfolding build_stale_cache_key
  get_stale_cached_rate s = parsed (kv.get build_stale_cache_key s)

  -- The two writes, each of which may be refused; a refusal of either is an error.
  unfoldable pub set_cached_rate : Text → Rate → Bool → Bool → S → Bool × S
  unfolding build_cache_key build_stale_cache_key
  set_cached_rate date rate primary_fails stale_fails s =
      let first =
        if primary_fails
        then s
        else kv.put (build_cache_key date) (numbers.print rate) (some fx_cache_ttl_seconds) s in
      let both =
        if stale_fails
        then first
        else kv.put build_stale_cache_key (numbers.print rate) none first in
      (if primary_fails then false else if stale_fails then false else true, both)
