-- ===== src/Prelude/Table.antt =====
-- A table of the database is the list of its rows in insertion order. `select`, `update` and
-- `find` are the SELECT, UPDATE ... SET and SELECT ... LIMIT 1 of the source, each with its WHERE
-- as a test on a row.
use mathlib.Core.Path.{◌≡◌, refl}
use mathlib.Core.Bool.{Bool, true, false}
use mathlib.Core.List.{List, [], ◌∷◌, ◌++◌}
use mathlib.Core.Option.{Option, none, some}
use mathlib.Core.Option
use mathlib.Core.Logic.{inl, inr}
use native.Mathlib.Omega.{arith}
use globaltracker.Prelude.Tests.{if◌then◌else◌, Bool-cases}
use globaltracker.Prelude.Lists.{head?}

module _ {ℓ} {R : Type ℓ} where
  abbrev pub select : (R → Bool) → List R → List R
  select p [] = []
  select p (r ∷ rs) = if p r then r ∷ select p rs else select p rs

  abbrev pub update : (R → Bool) → (R → R) → List R → List R
  update p f [] = []
  update p f (r ∷ rs) = (if p r then f r else r) ∷ update p f rs

  abbrev pub find : (R → Bool) → List R → Option R
  find p [] = none
  find p (r ∷ rs) = if p r then some r else find p rs

  pub head?-select : (p : R → Bool) (rs : List R) → head? (select p rs) ≡ find p rs
  head?-select p [] = refl
  head?-select p (r ∷ rs) = ground (arith, head?-select p rs)

  -- What is found fits.
  pub find_fits : (p : R → Bool) (rs : List R) (r : R) → find p rs ≡ some r → p r ≡ true
  find_fits p [] r h = cc
  find_fits p (x ∷ rs) r h = ground (arith, find_fits p rs r)

  -- An update that keeps the test changes what is found by `f`.
  pub find-update :
      (p : R → Bool) (f : R → R) (rs : List R)
      → ((r : R) → p (f r) ≡ p r)
      → find p (update p f rs) ≡ Option.map f (find p rs)
  find-update p f [] keep = refl
  find-update p f (r ∷ rs) keep = elim (Bool-cases (p r)) [
    | inl e ↦ rw (e, keep r, e)
    | inr e ↦ rw (e, e) (find-update p f rs keep)
  ]

  -- A search for other rows sees nothing of an update.
  pub find-update_other :
      (p q : R → Bool) (f : R → R) (rs : List R)
      → ((r : R) → p r ≡ true → q r ≡ false)
      → ((r : R) → q (f r) ≡ q r)
      → find q (update p f rs) ≡ find q rs
  find-update_other p q f [] apart keep = refl
  find-update_other p q f (r ∷ rs) apart keep = elim (Bool-cases (p r)) [
    | inl e ↦ rw (e, keep r, apart r e) (find-update_other p q f rs apart keep)
    | inr e ↦ rw (e, find-update_other p q f rs apart keep)
  ]

  pub find-append :
      (p : R → Bool) (rs ss : List R) (r : R) → find p rs ≡ some r → find p (rs ++ ss) ≡ some r
  find-append p [] ss r h = cc
  find-append p (x ∷ rs) ss r h = ground (arith, find-append p rs ss r)

  pub find-append_none :
      (p : R → Bool) (rs ss : List R) → find p rs ≡ none → find p (rs ++ ss) ≡ find p ss
  find-append_none p [] ss h = refl
  find-append_none p (x ∷ rs) ss h = ground (arith, find-append_none p rs ss)

  pub update-none : (p : R → Bool) (f : R → R) (rs : List R) → find p rs ≡ none → update p f rs ≡ rs
  update-none p f [] h = refl
  update-none p f (r ∷ rs) h = ground (arith, update-none p f rs)

  pub select-append :
      (p : R → Bool) (rs ss : List R) → select p (rs ++ ss) ≡ select p rs ++ select p ss
  select-append p [] ss = refl
  select-append p (r ∷ rs) ss = elim (Bool-cases (p r)) [
    | inl e ↦ rw (e, select-append p rs ss) refl
    | inr e ↦ rw (e, select-append p rs ss) refl
  ]
