-- ===== src/Identity/Settling.antt =====
-- The three cases of `resolveLeadByAliases` of apps/edge/src/lib/lead-resolver.ts: what the lead that
-- each returns owns.
use globaltracker.Prelude.{
  ℕ, ◌≡◌, refl, sym, subst, inl, inr, ◌&&◌, List, [], ◌∷◌, ◌++◌, map, Option, Text, text_eq, select,
  update, leb, length, Bool-cases,
}
use globaltracker.Identity.Types.{
  Lead, Store, Resolved, ResolveResult, Result, ok, err, Db, then_run, ◌>>=◌, ◌>>◌, return, write,
}
use globaltracker.Identity.Resolver.{
  one_of, holds, is_lead, missing, touch, submitted, created_result, updated_result, new_lead,
  insert_aliases, add_new_aliases, create_new_lead, update_existing_lead,
}
use globaltracker.Identity.Merging.{
  merge_all, merge_sorted, merge_found, merge_leads, see_canonical, merged_result, first_or_empty,
  sort_by_age, matching_leads, dispatch_on, resolve_hashed,
}
use globaltracker.Identity.Ownership.{Owns, TypesDistinct}
use globaltracker.Identity.Additions.{fates, add_new_aliases-Owns, inserted-Owns}

-- A call that succeeds ends in a store that fits its value.
abbrev Ends : {A : Type 0} → (A → Store → Type 0) → Db A → Type 0
Ends {A} P m = (s : Store) (a : A) → (m s).0 ≡ ok a → P a (m s).1

Ends->>= :
    {A B : Type 0} (P : B → Store → Type 0) (m : Db A) (f : A → Db B)
    → ((a : A) → Ends P (f a))
    → Ends P (m >>= f)
Ends->>= {A} {B} P m f ends s b h = go (m s).0 h
  where
    go : (r : Result A) → (then_run r f (m s).1).0 ≡ ok b → P b (then_run r f (m s).1).1
    go (ok a) e = ends a (m s).1 b e
    go (err x) e = absurd (cc e)

module _ (workspace_id : Text) (now : ℕ) (event_time : Option ℕ) (resolved : List Resolved) where
  abbrev Settled : ResolveResult → Store → Type 0
  Settled r s = Owns workspace_id r.lead_id resolved s.aliases

  create_new_lead-Settled :
      (new_id : Text) → Ends Settled (create_new_lead workspace_id now event_time new_id resolved)
  unfolding create_new_lead
  create_new_lead-Settled new_id s r h =
      let t : Store = record s {
        leads = s.leads ++ new_lead workspace_id now event_time new_id resolved ∷ [];
      } in
      go t (insert_aliases (submitted workspace_id now new_id resolved) t).0 refl h
    where
      go :
          (t : Store) (o : Result (Unit {0}))
          → (insert_aliases (submitted workspace_id now new_id resolved) t).0 ≡ o
          → (then_run o
              (λ u. return (created_result new_id))
              (insert_aliases (submitted workspace_id now new_id resolved) t).1).0
            ≡ ok r
          → Settled r
              (then_run o
                (λ u. return (created_result new_id))
                (insert_aliases (submitted workspace_id now new_id resolved) t).1).1
      go t (ok u) e g =
          let same : r.lead_id ≡ new_id = cc g in
          let t' = (insert_aliases (submitted workspace_id now new_id resolved) t).1 in
          subst (λ id. Owns workspace_id id resolved t'.aliases) (sym same)
            (inserted-Owns workspace_id new_id now event_time resolved t u e)
      go t (err x) e g = absurd (cc g)

  update_existing_lead-Settled :
      TypesDistinct resolved
      → (id : Text) → (s : Store) (r : ResolveResult)
      → (update_existing_lead workspace_id now event_time id resolved s).0 ≡ ok r
      → Owns workspace_id id resolved
          (update_existing_lead workspace_id now event_time id resolved s).1.aliases
        × (r.lead_id ≡ id)
  unfolding update_existing_lead
  update_existing_lead-Settled distinct id s r h =
      let t : Store = record s {
        leads =
            update (is_lead id workspace_id) (touch workspace_id now event_time resolved) s.leads;
      } in
      go t (add_new_aliases workspace_id now event_time id (new t) t).0 refl h
    where
      new : Store → List Resolved
      new t =
          missing workspace_id now event_time (select (holds id workspace_id) t.aliases) resolved

      go :
          (t : Store) (o : Result (Unit {0}))
          → (add_new_aliases workspace_id now event_time id (new t) t).0 ≡ o
          → (then_run o
              (λ u. return (updated_result id))
              (add_new_aliases workspace_id now event_time id (new t) t).1).0
            ≡ ok r
          → Owns workspace_id id resolved
              (then_run o
                (λ u. return (updated_result id))
                (add_new_aliases workspace_id now event_time id (new t) t).1).1.aliases
            × (r.lead_id ≡ id)
      go t (ok u) e g = (
        add_new_aliases-Owns workspace_id id now event_time resolved (new t) t u
            (fates workspace_id id now event_time (select (holds id workspace_id) t.aliases)
              resolved distinct)
            e,
        cc g,
      )
      go t (err x) e g = absurd (cc g)

  settle_id :
      (id : Text) (r : ResolveResult) (s : Store)
      → Owns workspace_id id resolved s.aliases × (r.lead_id ≡ id)
      → Settled r s
  settle_id id r s (owns, same) =
      subst (λ i. Owns workspace_id i resolved s.aliases) (sym same) owns

  module _ (distinct : TypesDistinct resolved) where
    update_Settled :
        (id : Text) → Ends Settled (update_existing_lead workspace_id now event_time id resolved)
    update_Settled id s r h =
        settle_id id r (update_existing_lead workspace_id now event_time id resolved s).1
          (update_existing_lead-Settled distinct id s r h)

    merge_sorted-Settled :
        (rows : List Lead) → Ends Settled (merge_sorted workspace_id now event_time resolved rows)
    unfolding merge_sorted
    merge_sorted-Settled [] s r h = absurd (cc h)
    merge_sorted-Settled (canonical ∷ rest) s r h =
        Ends->>= Settled
          (merge_all workspace_id now event_time canonical (map (λ l. l.id) rest) rest)
          (λ u.
            write (see_canonical workspace_id now event_time canonical)
            >> (update_existing_lead workspace_id now event_time canonical.id resolved
                >> return (merged_result canonical rest)))
          (λ u t r h. last (see_canonical workspace_id now event_time canonical t) r h) s r h
      where
        last : Ends Settled (
            update_existing_lead workspace_id now event_time canonical.id resolved
            >> return (merged_result canonical rest))
        last t r h =
            go (update_existing_lead workspace_id now event_time canonical.id resolved t).0 refl h
          where
            t' : Store
            t' = (update_existing_lead workspace_id now event_time canonical.id resolved t).1

            go :
                (o : Result ResolveResult)
                → (update_existing_lead workspace_id now event_time canonical.id resolved t).0 ≡ o
                → (then_run o (λ u. return (merged_result canonical rest)) t').0 ≡ ok r
                → Settled r (then_run o (λ u. return (merged_result canonical rest)) t').1
            go (ok u) e g =
                settle_id canonical.id r t'
                  ((update_existing_lead-Settled distinct canonical.id t u e).0, cc g)
            go (err x) e g = absurd (cc g)

    merge_found-Settled :
        (ids : List Text) (rows : List Lead)
        → Ends Settled (merge_found workspace_id now event_time ids resolved rows)
    merge_found-Settled ids rows s r = elim (Bool-cases (leb 2 (length rows))) [
      | inl e ↦ rw e (λ h. merge_sorted-Settled (sort_by_age rows) s r h)
      | inr e ↦ rw e (λ h. update_Settled (first_or_empty ids) s r h)
    ]

    merge_leads-Settled :
        (ids : List Text) → Ends Settled (merge_leads workspace_id now event_time ids resolved)
    unfolding merge_leads
    merge_leads-Settled ids s r h =
        merge_found-Settled ids
          (select (λ l. one_of ids l.id && text_eq l.workspace_id workspace_id) s.leads) s r h

    dispatch_on-Settled :
        (new_id : Text) (ids : List Text)
        → Ends Settled (dispatch_on workspace_id now event_time new_id resolved ids)
    dispatch_on-Settled new_id [] = create_new_lead-Settled new_id
    dispatch_on-Settled new_id (id ∷ []) = update_Settled id
    dispatch_on-Settled new_id (id ∷ other ∷ rest) = merge_leads-Settled (id ∷ other ∷ rest)

    pub resolve_hashed-Settled :
        (new_id : Text) → Ends Settled (resolve_hashed workspace_id now event_time new_id resolved)
    unfolding resolve_hashed
    resolve_hashed-Settled new_id s r h =
        dispatch_on-Settled new_id (matching_leads workspace_id now event_time resolved s) s r h
