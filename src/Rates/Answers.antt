-- ===== src/Rates/Answers.antt =====
-- When `getRateForPair` of apps/edge/src/lib/fx.ts has an answer.
use globaltracker.Prelude.{
  append-nil, append_assoc, ◌≡◌, refl, sym, ◌∙◌, ap, subst, ℕ, zero, suc, ◌+◌, ◌≤◌, ◌<◌, true,
  false, List, [], ◌∷◌, ◌++◌, Option, none, some, Text, codes, arith,
}
use globaltracker.Prelude.Kv.{Kv}
use globaltracker.Rates.Cache.{
  Numbers, build_cache_key, build_stale_cache_key, parsed, get_cached_rate, get_stale_cached_rate,
  set_cached_rate,
}
use globaltracker.Rates.Lookup.{
  FxResult, Done, Attempts, backoff_ms, fall_back, succeeded, attempt, try_from, on_cache,
  get_rate_for_pair,
}

-- The waits before attempt `n + k`, from attempt `n` on.
abbrev pub waits_from : ℕ → ℕ → List ℕ
waits_from n zero = []
waits_from n (suc k) = backoff_ms n ∷ waits_from (suc n) k

module _ {S Rate : Type 0} (kv : Kv S) (numbers : Numbers Rate) (provider from to date : Text) where
  -- The two keys of a rate, with and without its date.
  abbrev pub dated_key : Text
  dated_key =
      codes "fx:"
      ++ (provider
          ++ (codes ":"
              ++ (numbers.upper from ++ (codes "-" ++ (numbers.upper to ++ (codes ":" ++ date))))))

  abbrev pub lasting_key : Text
  lasting_key =
      codes "fx_stale:"
      ++ (provider ++ (codes ":" ++ (numbers.upper from ++ (codes "-" ++ numbers.upper to))))

  -- The store after a rate is written: for 25 hours under its date, and for good without.
  abbrev pub written : Rate → S → S
  written rate s =
      kv.put lasting_key (numbers.print rate) none
        (kv.put dated_key (numbers.print rate) (some 90000) s)

  cached-shown :
      (rate : Rate) (s : S)
      → numbers.parse (numbers.print rate) ≡ some rate
      → kv.get dated_key s ≡ some (numbers.print rate)
      → get_cached_rate kv numbers provider from to date s ≡ some rate
  unfolding get_cached_rate build_cache_key
  cached-shown rate s back shown = ap (parsed kv numbers provider from to) shown ∙ back

  module _ (attempts : Attempts Rate) where
    attempt_works :
        (rate : Rate) (n : ℕ) (s : S) (waits : List ℕ) (onward : S → Done S Rate)
        → attempts.answer n ≡ some rate
        → attempts.primary_fails n ≡ false
        → attempts.stale_fails n ≡ false
        → attempt kv numbers provider from to date attempts (attempts.answer n) n s waits onward
          ≡ succeeded kv numbers provider from to date attempts rate (written rate s) (suc n) waits
    unfolding set_cached_rate build_cache_key build_stale_cache_key
    attempt_works rate n s waits onward answers first second =
        ap (λ o. attempt kv numbers provider from to date attempts o n s waits onward) answers
        ∙ rw (first, second) refl

    -- At attempt `i` the provider answers, and the writes are accepted.
    abbrev pub Works : ℕ → Rate → Type 0
    Works i rate =
        (attempts.answer i ≡ some rate)
        × ((attempts.primary_fails i ≡ false) × (attempts.stale_fails i ≡ false))

    Works-now :
        (rate : Rate) (n i : ℕ) (s : S) (waits : List ℕ) (onward : S → Done S Rate)
        → i ≡ n
        → Works i rate
        → attempt kv numbers provider from to date attempts (attempts.answer n) n s waits onward
          ≡ succeeded kv numbers provider from to date attempts rate
              (written rate s)
              (suc i)
              (waits ++ [])
    Works-now rate n i s waits onward e w =
        attempt_works rate n s waits onward (subst (λ j. attempts.answer j ≡ some rate) e w.0)
          (subst (λ j. attempts.primary_fails j ≡ false) e w.1.0)
          (subst (λ j. attempts.stale_fails j ≡ false) e w.1.1)
        ∙ (ap
              (λ j.
                succeeded kv numbers provider from to date attempts rate (written rate s) (suc j)
                  waits)
              (sym e)
            ∙ ap (succeeded kv numbers provider from to date attempts rate (written rate s) (suc i))
                (sym (append-nil waits)))

    try_from-recovers :
        (rate : Rate) (k left n i : ℕ) (s : S) (waits : List ℕ)
        → k ≤ left
        → n + k ≡ i
        → ((m : ℕ) → m < i → attempts.answer m ≡ none)
        → Works i rate
        → try_from kv numbers provider from to date attempts left n s waits
          ≡ succeeded kv numbers provider from to date attempts rate
              (written rate s)
              (suc i)
              (waits ++ waits_from n k)
    unfolding try_from
    try_from-recovers rate zero zero n i s waits le at silent w =
        Works-now rate n i s waits _ (omega arith) w
    try_from-recovers rate zero (suc left) n i s waits le at silent w =
        Works-now rate n i s waits _ (omega arith) w
    try_from-recovers rate (suc k) zero n i s waits le at silent w = absurd (omega arith)
    try_from-recovers rate (suc k) (suc left) n i s waits le at silent w =
        ap
          (λ o. attempt kv numbers provider from to date attempts o n s waits (λ t.
            try_from kv numbers provider from to date attempts left (suc n) t
              (waits ++ backoff_ms n ∷ [])))
          (silent n (omega arith))
        ∙ (try_from-recovers rate k left (suc n) i s (waits ++ backoff_ms n ∷ []) (omega arith)
              (omega arith) silent w
            ∙ ap (succeeded kv numbers provider from to date attempts rate (written rate s) (suc i))
                (append_assoc waits (backoff_ms n ∷ []) (waits_from (suc n) k)))

    -- Where the cache has no rate for the date, the provider does not answer before attempt `i`, which
    -- is one of three, and at that attempt it answers and the writes are accepted: the call returns that
    -- rate as fresh, after `i + 1` calls of the provider and the waits between them, and has written the
    -- rate's text under the key of the date, for 25 hours, and under the one without a date, for good.
    -- Where the rate can be read back from its text, a call to which the store shows that text under the
    -- key of the date returns the rate without calling the provider, whatever the provider would do.
    pub get_rate_for_pair-recovers :
        (again : Attempts Rate) (rate : Rate) (i : ℕ) (s shown : S)
        → get_cached_rate kv numbers provider from to date s ≡ none
        → i < 3
        → ((m : ℕ) → m < i → attempts.answer m ≡ none)
        → Works i rate
        → numbers.parse (numbers.print rate) ≡ some rate
        → kv.get dated_key shown ≡ some (numbers.print rate)
        → (get_rate_for_pair kv numbers provider from to date attempts s ≡ record {
          result = FxResult.fresh rate;
          store = written rate s;
          calls = suc i;
          waits = waits_from 0 i;
        })
          × (get_rate_for_pair kv numbers provider from to date again shown
              ≡ record { result = FxResult.fresh rate; store = shown; calls = 0; waits = [] })
    unfolding get_rate_for_pair
    get_rate_for_pair-recovers again rate i s shown miss few silent w back there = (
      ap (λ o. on_cache kv numbers provider from to date attempts o s) miss
          ∙ try_from-recovers rate i 2 0 i s [] (omega arith) (omega arith) silent w,
      ap (λ o. on_cache kv numbers provider from to date again o shown)
          (cached-shown rate shown back there),
    )

    attempt_refused :
        (o : Option Rate) (n : ℕ) (s : S) (waits : List ℕ) (onward : S → Done S Rate)
        → attempts.primary_fails n ≡ true
        → attempts.stale_fails n ≡ true
        → attempt kv numbers provider from to date attempts o n s waits onward ≡ onward s
    unfolding set_cached_rate
    attempt_refused none n s waits onward first second = refl
    attempt_refused (some rate) n s waits onward first second = rw (first, second) refl

    -- Where the cache has no rate for the date and the store refuses every write: whatever the provider
    -- answers, the call falls back on the last known rate, or has none, after three calls of the
    -- provider.
    pub get_rate_for_pair-refused :
        (s : S)
        → get_cached_rate kv numbers provider from to date s ≡ none
        → ((m : ℕ) → attempts.primary_fails m ≡ true)
        → ((m : ℕ) → attempts.stale_fails m ≡ true)
        → get_rate_for_pair kv numbers provider from to date attempts s
          ≡ fall_back kv numbers provider from to date attempts
              (get_stale_cached_rate kv numbers provider from to s)
              s
              3
              (1000 ∷ 2000 ∷ [])
    unfolding get_rate_for_pair try_from
    get_rate_for_pair-refused s miss first second =
        ap (λ o. on_cache kv numbers provider from to date attempts o s) miss
        ∙ (attempt_refused (attempts.answer 0) 0 s [] _ (first 0) (second 0)
            ∙ (attempt_refused (attempts.answer 1) 1 s (1000 ∷ []) _ (first 1) (second 1)
                ∙ attempt_refused (attempts.answer 2) 2 s (1000 ∷ 2000 ∷ []) _ (first 2)
                    (second 2)))
