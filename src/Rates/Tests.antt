-- ===== src/Rates/Tests.antt =====
-- Runs of apps/edge/src/lib/fx.ts, with a store that is a function from keys, and with rates that are
-- printed as their digits.
use globaltracker.Prelude.{
  ◌≡◌, refl, ℕ, zero, suc, ◌<◌, true, false, [], ◌∷◌, Option, none, some, Text, codes, text_eq,
  arith,
}
use globaltracker.Prelude.Kv.{memory}
use globaltracker.Rates.Cache.{Numbers, get_cached_rate, get_stale_cached_rate}
use globaltracker.Rates.Lookup.{FxResult, Attempts, get_rate_for_pair}
use globaltracker.Rates.Answers.{written, get_rate_for_pair-recovers, get_rate_for_pair-refused}

abbrev Store : Type 0
Store = Text → Option Text

abbrev digits : Numbers ℕ
digits = record {
  parse = λ s. elim s [ [] ↦ none | c ∷ cs ↦ some c ];
  print = λ n. n ∷ [];
  upper = λ s. s;
}

-- The provider fails once, and answers 5 from then on.
abbrev second_time : Attempts ℕ
second_time = record {
  answer = λ n. elim n [ zero ↦ none | suc m ↦ some 5 ];
  primary_fails = λ n. false;
  stale_fails = λ n. false;
}

abbrev never : Attempts ℕ
never = record { answer = λ n. none; primary_fails = λ n. true; stale_fails = λ n. true }

abbrev refusing : Attempts ℕ
refusing = record { answer = λ n. some 5; primary_fails = λ n. true; stale_fails = λ n. true }

abbrev empty : Store
empty = λ k. none

silent_first : (m : ℕ) → m < 1 → second_time.answer m ≡ none
silent_first zero h = refl
silent_first (suc m) h = absurd (omega arith)

-- The store that the first call leaves, as it is once its writes are seen.
abbrev after_first : Store
after_first =
    written memory digits (codes "ecb") (codes "USD") (codes "BRL") (codes "2026-01-01") 5 empty

get_rate_for_pair-recovers_example :
    (get_rate_for_pair memory digits
        (codes "ecb")
        (codes "USD")
        (codes "BRL")
        (codes "2026-01-01")
        second_time
        empty
      ≡ record { result = FxResult.fresh 5; store = after_first; calls = 2; waits = 1000 ∷ [] })
    × (get_rate_for_pair memory digits
          (codes "ecb")
          (codes "USD")
          (codes "BRL")
          (codes "2026-01-01")
          never
          after_first
        ≡ record { result = FxResult.fresh 5; store = after_first; calls = 0; waits = [] })
unfolding get_cached_rate text_eq
get_rate_for_pair-recovers_example =
    get_rate_for_pair-recovers memory digits (codes "ecb") (codes "USD") (codes "BRL")
      (codes "2026-01-01") second_time never 5 1 empty after_first refl (omega arith) silent_first
      (refl, (refl, refl)) refl refl

get_rate_for_pair-refused_example :
    get_rate_for_pair memory digits
      (codes "ecb")
      (codes "USD")
      (codes "BRL")
      (codes "2026-01-01")
      refusing
      empty
    ≡ record { result = FxResult.unavailable; store = empty; calls = 3; waits = 1000 ∷ 2000 ∷ [] }
unfolding get_cached_rate get_stale_cached_rate
get_rate_for_pair-refused_example =
    get_rate_for_pair-refused memory digits (codes "ecb") (codes "USD") (codes "BRL")
      (codes "2026-01-01") refusing empty refl (λ m. refl) (λ m. refl)
