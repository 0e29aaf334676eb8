-- ===== src/Identity/Insertions.antt =====
-- The INSERT into `lead_aliases` of apps/edge/src/lib/lead-resolver.ts: all of its rows or none.
use mathlib.Core.List.{append-nil, append_assoc}
use globaltracker.Prelude.{
  ◌≡◌, refl, sym, ◌∙◌, ap, ◌⊎◌, inl, inr, ◌&&◌, List, [], ◌∷◌, ◌++◌, Option, none, some, any,
  Bool-cases, eq_of_some,
}
use globaltracker.Identity.Types.{Alias, Store, ok, err, db_error, is_active, same_identifier}
use globaltracker.Identity.Resolver.{add_aliases, inserted, insert_aliases}

pub add_aliases_append :
    (rows table out : List Alias) → add_aliases rows table ≡ some out → out ≡ table ++ rows
unfolding add_aliases
add_aliases_append [] table out h = sym (eq_of_some h) ∙ sym (append-nil table)
add_aliases_append (a ∷ rows) table out h =
    elim (Bool-cases (any (λ b. is_active b.status && same_identifier a b) table)) [
      | inl e ↦ let gone : none ≡ some out = rw e at h in cc
      | inr e ↦
          add_aliases_append rows (table ++ a ∷ []) out (rw e at h)
          ∙ append_assoc table (a ∷ []) rows
    ]

-- The insertion leaves the store alone or appends its rows.
pub insert_aliases_cases :
    (rows : List Alias) (s : Store)
    → (insert_aliases rows s ≡ (err db_error, s))
      ⊎ (insert_aliases rows s ≡ (ok tt, record s { aliases = s.aliases ++ rows }))
unfolding insert_aliases
insert_aliases_cases rows s = go (add_aliases rows s.aliases) refl
  where
    go :
        (o : Option (List Alias))
        → add_aliases rows s.aliases ≡ o
        → (inserted o s ≡ (err db_error, s))
          ⊎ (inserted o s ≡ (ok tt, record s { aliases = s.aliases ++ rows }))
    go none e = inl refl
    go (some out) e =
        inr (ap (λ t. (ok tt, record s { aliases = t })) (add_aliases_append rows s.aliases out e))
