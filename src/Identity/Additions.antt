-- ===== src/Identity/Additions.antt =====
-- The insertion of a request's new aliases, by `updateExistingLead` and `createNewLead` of
-- apps/edge/src/lib/lead-resolver.ts: which identifiers the lead owns afterwards.
use globaltracker.Prelude.{
  ℕ, ◌≡◌, refl, sym, subst, ap, ◌⊎◌, inl, inr, true, false, List, [], ◌∷◌, ◌++◌, Option, Text,
  text_eq_refl, any, All, select, update, arith, Bool-cases,
}
use globaltracker.Identity.Types.{IdentifierType, type_eq, Alias, Store, Resolved, ok}
use globaltracker.Identity.Resolver.{
  has_identifier, holds, is_for, superseded, submitted, missing, is_replaced, insert_aliases,
  add_new_aliases,
}
use globaltracker.Identity.Insertions.{insert_aliases_cases}
use globaltracker.Identity.Ownership.{
  Owned, Owns, TypesDistinct, type_eq-sym, type_eq_refl, has-append, same_as, has-submitted,
  has-replaced,
}

module _ (workspace_id lead_id : Text) (now : ℕ) (event_time : Option ℕ) where
  -- A submitted identifier is new, or it is there and no new one has its type.
  abbrev Fate : List Alias → List Resolved → Resolved → Type 0
  Fate existing new r =
      (any (same_as r) new ≡ true)
      ⊎ (has_identifier existing r.identifier_type r.identifier_hash ≡ true)
        × (any (is_for r.identifier_type) new ≡ false)

  none_missing :
      (existing : List Alias) (t : IdentifierType) (rs : List Resolved)
      → All (λ x. type_eq t x.identifier_type ≡ false) rs
      → any (is_for t) (missing workspace_id now event_time existing rs) ≡ false
  none_missing existing t [] h = refl
  none_missing existing t (r ∷ rs) h =
      ground (arith, type_eq-sym t r.identifier_type, none_missing existing t rs h.1)

  more_fates :
      (existing : List Alias) (new : List Resolved) (r : Resolved) (rs : List Resolved)
      → All (λ x. type_eq r.identifier_type x.identifier_type ≡ false) rs
      → All (Fate existing new) rs
      → All (Fate existing (r ∷ new)) rs
  more_fates existing new r [] h f = tt
  more_fates existing new r (x ∷ xs) h f = (fate f.0, more_fates existing new r xs h.1 f.1)
    where
      fate : Fate existing new x → Fate existing (r ∷ new) x
      fate (inl e) = inl (rw (h.0, e))
      fate (inr (e, n)) = inr (e, rw (h.0, n))

  missing_known :
      (existing : List Alias) (r : Resolved) (rs : List Resolved)
      → has_identifier existing r.identifier_type r.identifier_hash ≡ true
      → missing workspace_id now event_time existing (r ∷ rs)
        ≡ missing workspace_id now event_time existing rs
  missing_known existing r rs e = rw e

  missing_new :
      (existing : List Alias) (r : Resolved) (rs : List Resolved)
      → has_identifier existing r.identifier_type r.identifier_hash ≡ false
      → missing workspace_id now event_time existing (r ∷ rs)
        ≡ r ∷ missing workspace_id now event_time existing rs
  missing_new existing r rs e = rw e

  pub fates :
      (existing : List Alias) (rs : List Resolved)
      → TypesDistinct rs
      → All (Fate existing (missing workspace_id now event_time existing rs)) rs
  fates existing [] d = tt
  fates existing (r ∷ rs) d =
      elim (Bool-cases (has_identifier existing r.identifier_type r.identifier_hash)) [
        | inl e ↦
            subst (λ new. All (Fate existing new) (r ∷ rs)) (sym (missing_known existing r rs e))
              (inr (e, none_missing existing r.identifier_type rs d.0), fates existing rs d.1)
        | inr e ↦
            subst (λ new. All (Fate existing new) (r ∷ rs)) (sym (missing_new existing r rs e))
              (
                inl (rw (type_eq_refl r.identifier_type, text_eq_refl r.identifier_hash)),
                more_fates existing (missing workspace_id now event_time existing rs) r rs d.0
                    (fates existing rs d.1),
              )
      ]

  after-Fate :
      (new : List Resolved) (rows : List Alias) (r : Resolved)
      → Fate (select (holds lead_id workspace_id) rows) new r
      → Owned workspace_id lead_id
          (update (is_replaced workspace_id now event_time lead_id new) superseded rows
            ++ submitted workspace_id now lead_id new)
          r
  after-Fate new rows r (inl e) =
      rw
        (
          has-append (holds lead_id workspace_id)
              (update (is_replaced workspace_id now event_time lead_id new) superseded rows)
              (submitted workspace_id now lead_id new) r.identifier_type r.identifier_hash,
          has-submitted workspace_id lead_id now event_time new r e,
        )
        (ground arith)
  after-Fate new rows r (inr (e, n)) =
      rw
        (
          has-append (holds lead_id workspace_id)
              (update (is_replaced workspace_id now event_time lead_id new) superseded rows)
              (submitted workspace_id now lead_id new) r.identifier_type r.identifier_hash,
          has-replaced workspace_id lead_id now event_time new rows r n e,
        )
        (ground arith)

  after_fates :
      (new : List Resolved) (rows : List Alias) (rs : List Resolved)
      → All (Fate (select (holds lead_id workspace_id) rows) new) rs
      → Owns workspace_id lead_id rs (
          update (is_replaced workspace_id now event_time lead_id new) superseded rows
          ++ submitted workspace_id now lead_id new)
  after_fates new rows [] f = tt
  after_fates new rows (r ∷ rs) f = (after-Fate new rows r f.0, after_fates new rows rs f.1)

  -- With nothing new all are there already.
  nothing_missing :
      (existing : List Alias) (rs : List Resolved)
      → All (Fate existing []) rs
      → All (λ r. has_identifier existing r.identifier_type r.identifier_hash ≡ true) rs
  nothing_missing existing [] f = tt
  nothing_missing existing (r ∷ rs) f = (there f.0, nothing_missing existing rs f.1)
    where
      there :
          Fate existing [] r → has_identifier existing r.identifier_type r.identifier_hash ≡ true
      there (inl e) = cc e
      there (inr (e, n)) = e

  insert_aliases-ok :
      (rows : List Alias) (s : Store) (u : Unit {0})
      → (insert_aliases rows s).0 ≡ ok u
      → (insert_aliases rows s).1.aliases ≡ s.aliases ++ rows
  insert_aliases-ok rows s u h = elim (insert_aliases_cases rows s) [
    | inl e ↦ absurd (cc (h, e))
    | inr e ↦ ap (λ r. r.1.aliases) e
  ]

  -- What the insertion of the new identifiers leaves, where it succeeds.
  pub add_new_aliases-Owns :
      (resolved new : List Resolved) (s : Store) (u : Unit {0})
      → All (Fate (select (holds lead_id workspace_id) s.aliases) new) resolved
      → (add_new_aliases workspace_id now event_time lead_id new s).0 ≡ ok u
      → Owns workspace_id lead_id resolved
          (add_new_aliases workspace_id now event_time lead_id new s).1.aliases
  unfolding add_new_aliases
  add_new_aliases-Owns resolved [] s u f h =
      nothing_missing (select (holds lead_id workspace_id) s.aliases) resolved f
  add_new_aliases-Owns resolved (a ∷ rest) s u f h =
      let new = a ∷ rest in
      let rows =
        update (is_replaced workspace_id now event_time lead_id new) superseded s.aliases in
      subst (Owns workspace_id lead_id resolved)
        (sym (
          insert_aliases-ok (submitted workspace_id now lead_id new) (record s { aliases = rows }) u
            h))
        (after_fates new s.aliases resolved f)

  each_new : (rs : List Resolved) → All (λ r. any (same_as r) rs ≡ true) rs
  each_new rs = self rs rs (λ r h. h)
    where
      self :
          (rs new : List Resolved)
          → ((r : Resolved) → any (same_as r) rs ≡ true → any (same_as r) new ≡ true)
          → All (λ r. any (same_as r) new ≡ true) rs
      self [] new up = tt
      self (r ∷ rs) new up = (
        up r (rw (type_eq_refl r.identifier_type, text_eq_refl r.identifier_hash)),
        self rs new (λ x h. up x (ground (arith, h))),
      )

  -- What the insertion of all identifiers leaves, where it succeeds.
  pub inserted-Owns :
      (resolved : List Resolved) (s : Store) (u : Unit {0})
      → (insert_aliases (submitted workspace_id now lead_id resolved) s).0 ≡ ok u
      → Owns workspace_id lead_id resolved
          (insert_aliases (submitted workspace_id now lead_id resolved) s).1.aliases
  inserted-Owns resolved s u h =
      subst (Owns workspace_id lead_id resolved)
        (sym (insert_aliases-ok (submitted workspace_id now lead_id resolved) s u h))
        (go resolved (each_new resolved))
    where
      go :
          (rs : List Resolved)
          → All (λ r. any (same_as r) resolved ≡ true) rs
          → Owns workspace_id lead_id rs (s.aliases ++ submitted workspace_id now lead_id resolved)
      go [] f = tt
      go (r ∷ rs) f = (
        rw
            (
              has-append (holds lead_id workspace_id) s.aliases
                  (submitted workspace_id now lead_id resolved) r.identifier_type r.identifier_hash,
              has-submitted workspace_id lead_id now event_time resolved r f.0,
            )
            (ground arith),
        go rs f.1,
      )
