-- ===== src/Prelude/Keyed.antt =====
-- Tables with a primary key: what an UPDATE does to the row that a key finds.
use mathlib.Core.Path.{◌≡◌, refl, sym, ◌∙◌, ap}
use mathlib.Core.Logic.{◌≢◌, inl, inr}
use mathlib.Core.Bool.{Bool, true, false, ◌&&◌}
use mathlib.Core.List.{List, [], ◌∷◌, ◌++◌}
use mathlib.Core.Option.{Option, none, some}
use mathlib.Core.Option
use native.Mathlib.Omega.{arith}
use globaltracker.Prelude.Tests.{if◌then◌else◌, Bool-cases}
use globaltracker.Prelude.Table.{update, find, find-update, find-update_other, find-append_none}
use globaltracker.Prelude.Texts.{Text, text_eq, text_eq-sym, eq_of_text_eq, text_eq_of_ne}

pub text_eq_apart : (a b c : Text) → text_eq a b ≡ true → c ≢ b → text_eq a c ≡ false
text_eq_apart a b c h ne = text_eq_of_ne a c (λ e. ne (sym e ∙ eq_of_text_eq a b h))

module _ {ℓ} {R : Type ℓ} (key : R → Text) where
  abbrev pub has : Text → R → Bool
  has k r = text_eq (key r) k

  -- No two rows have one key.
  abbrev pub IsUnique : List R → Type ℓ
  IsUnique [] = Unit
  IsUnique (r ∷ rs) = (find (has (key r)) rs ≡ none) × IsUnique rs

module _ {ℓ} {R : Type ℓ} (key : R → Text) (guard : R → Bool) (k : Text) where
  abbrev guarded : R → Bool
  guarded r = has key k r && guard r

  pub find-guarded-none : (rs : List R) → find (has key k) rs ≡ none → find guarded rs ≡ none
  find-guarded-none [] h = refl
  find-guarded-none (r ∷ rs) h = ground (arith, find-guarded-none rs)

  -- With a test beside the key, the row of the key is found or none is.
  pub find-guarded :
      (rs : List R) (j : R)
      → IsUnique key rs
      → find (has key k) rs ≡ some j
      → find guarded rs ≡ (if guard j then some j else none)
  find-guarded [] j u h = cc
  find-guarded (r ∷ rs) j u h =
      ground (arith, eq_of_text_eq (key r) k, find-guarded-none rs, find-guarded rs j u.1)

  -- An update beside a test that holds of the key's row.
  pub find-update-guarded :
      (f : R → R) (rs : List R) (j : R)
      → ((r : R) → key (f r) ≡ key r)
      → find (has key k) rs ≡ some j
      → guard j ≡ true
      → find (has key k) (update guarded f rs) ≡ some (f j)
  find-update-guarded f [] j keep h g = cc
  find-update-guarded f (r ∷ rs) j keep h g =
      ground (arith, keep r, find-update-guarded f rs j keep)

  -- An update at one key does not reach another.
  pub find-update-guarded_other :
      (f : R → R) (other : Text) (rs : List R)
      → ((r : R) → key (f r) ≡ key r)
      → other ≢ k
      → find (has key other) (update guarded f rs) ≡ find (has key other) rs
  find-update-guarded_other f other rs keep ne =
      find-update_other guarded (has key other) f rs
        (λ r h. text_eq_apart (key r) k other (ground arith) ne)
        (λ r. ap (λ t. text_eq t other) (keep r))

module _ {ℓ} {R : Type ℓ} (key : R → Text) where
  -- The row of a key after an update at that key.
  pub find-update_key :
      (k : Text) (f : R → R) (rs : List R) (j : R)
      → ((r : R) → key (f r) ≡ key r)
      → find (has key k) rs ≡ some j
      → find (has key k) (update (has key k) f rs) ≡ some (f j)
  find-update_key k f rs j keep h =
      find-update (has key k) f rs (λ r. ap (λ t. text_eq t k) (keep r)) ∙ ap (Option.map f) h

  pub find-update_key_other :
      (k other : Text) (f : R → R) (rs : List R)
      → ((r : R) → key (f r) ≡ key r)
      → other ≢ k
      → find (has key other) (update (has key k) f rs) ≡ find (has key other) rs
  find-update_key_other k other f rs keep ne =
      find-update_other (has key k) (has key other) f rs (λ r h. text_eq_apart (key r) k other h ne)
        (λ r. ap (λ t. text_eq t other) (keep r))

  find-update_any :
      (k : Text) (p : R → Bool) (f : R → R) (rs : List R)
      → ((r : R) → key (f r) ≡ key r)
      → find (has key k) rs ≡ none
      → find (has key k) (update p f rs) ≡ none
  find-update_any k p f [] keep h = refl
  find-update_any k p f (r ∷ rs) keep h = ground (arith, keep r, find-update_any k p f rs keep)

  -- An update that keeps the keys keeps them unique.
  pub update-IsUnique :
      (p : R → Bool) (f : R → R) (rs : List R)
      → ((r : R) → key (f r) ≡ key r)
      → IsUnique key rs
      → IsUnique key (update p f rs)
  update-IsUnique p f [] keep u = tt
  update-IsUnique p f (r ∷ rs) keep u = elim (Bool-cases (p r)) [
    | inl e ↦
        rw (e, keep r) (find-update_any (key r) p f rs keep u.0, update-IsUnique p f rs keep u.1)
    | inr e ↦ rw e (find-update_any (key r) p f rs keep u.0, update-IsUnique p f rs keep u.1)
  ]

  -- A row with a new key keeps them unique.
  pub append-IsUnique :
      (rs : List R) (j : R)
      → IsUnique key rs
      → find (has key (key j)) rs ≡ none
      → IsUnique key (rs ++ j ∷ [])
  append-IsUnique [] j u h = (refl, tt)
  append-IsUnique (r ∷ rs) j u h = ground (
    arith,
    append-IsUnique rs j u.1,
    text_eq-sym (key r) (key j),
    find-append_none (has key (key r)) rs (j ∷ []) u.0,
  )
