-- ===== src/Identity/Safety.antt =====
-- The database calls of apps/edge/src/lib/lead-resolver.ts one by one, and what they do to the rows
-- that stood, on every path, errors included.
use globaltracker.Prelude.{
  ℕ, ◌≡◌, refl, inl, inr, true, ◌&&◌, List, [], ◌∷◌, ◌++◌, map, select, Option, none, some, Text,
  text_eq, update, arith, Bool-cases, leb, length, is_empty,
}
use globaltracker.Identity.Types.{Lead, Store, Resolved, Db, Input, return, write, ◌>>◌}
use globaltracker.Identity.Resolver.{
  one_of, insert_aliases, holds, is_lead, superseded, create_new_lead, update_existing_lead,
  add_new_aliases, touch, is_replaced, missing, new_lead, submitted, created_result, updated_result,
}
use globaltracker.Identity.Merging.{
  merge_one, merge_all, merge_sorted, merge_found, merge_leads, dispatch_on, resolve_hashed,
  hash_identifiers, resolve_lead_by_aliases, resolve_valid, see_canonical, merged_result,
  first_or_empty, matching_leads, sort_by_age, mark_merged, move_row, absent,
}
use globaltracker.Identity.Evolution.{
  LeadStep, Evolves, Keeps, held, own_lead, insert_aliases-Keeps, write_leads, write_aliases,
  update_leads, update_aliases, Evolves-refl, Evolves-trans, Keeps->>=, leads_same,
}

module _ (workspace_id : Text) (now : ℕ) (event_time : Option ℕ) where
  abbrev Safe : {A : Type 0} → Db A → Type 0
  Safe m = Keeps workspace_id m

  create_new_lead-Keeps :
      (new_id : Text) (resolved : List Resolved)
      → Safe (create_new_lead workspace_id now event_time new_id resolved)
  unfolding create_new_lead
  create_new_lead-Keeps new_id resolved s =
      let t : Store = record s {
        leads = s.leads ++ new_lead workspace_id now event_time new_id resolved ∷ [];
      } in
      Evolves-trans workspace_id
        (write_leads workspace_id s t.leads (leads_same workspace_id s.leads _))
        (Keeps->>= workspace_id (insert_aliases (submitted workspace_id now new_id resolved))
          (λ u. return (created_result new_id)) (insert_aliases-Keeps workspace_id _)
          (λ u. Evolves-refl workspace_id) t)

  touch-LeadStep :
      (resolved : List Resolved) (id : Text) (l : Lead)
      → is_lead id workspace_id l ≡ true
      → LeadStep workspace_id l (touch workspace_id now event_time resolved l)
  touch-LeadStep resolved id l h = record {
    same_id = refl;
    same_workspace = refl;
    same_first = refl;
    last_grows = omega arith;
    isolated = inl (own_lead workspace_id id l h);
  }

  add_new_aliases-Keeps :
      (lead_id : Text) (new : List Resolved)
      → Safe (add_new_aliases workspace_id now event_time lead_id new)
  unfolding add_new_aliases
  add_new_aliases-Keeps lead_id [] s = Evolves-refl workspace_id s
  add_new_aliases-Keeps lead_id (a ∷ rest) s =
      let replaced = is_replaced workspace_id now event_time lead_id (a ∷ rest) in
      let rows = update replaced superseded s.aliases in
      Evolves-trans workspace_id
        (write_aliases workspace_id s rows (
          update_aliases workspace_id replaced s.aliases
            (λ x h. held workspace_id lead_id x (ground arith))))
        (insert_aliases-Keeps workspace_id (submitted workspace_id now lead_id (a ∷ rest))
          (record s { aliases = rows }))

  update_existing_lead-Keeps :
      (lead_id : Text) (resolved : List Resolved)
      → Safe (update_existing_lead workspace_id now event_time lead_id resolved)
  unfolding update_existing_lead
  update_existing_lead-Keeps lead_id resolved s =
      let ls =
        update (is_lead lead_id workspace_id) (touch workspace_id now event_time resolved)
          s.leads in
      let t : Store = record s { leads = ls } in
      let new =
        missing workspace_id now event_time (select (holds lead_id workspace_id) s.aliases)
          resolved in
      Evolves-trans workspace_id
        (write_leads workspace_id s ls
          (update_leads workspace_id _ _ s.leads (λ l h. touch-LeadStep resolved lead_id l h)))
        (Keeps->>= workspace_id (add_new_aliases workspace_id now event_time lead_id new)
          (λ u. return (updated_result lead_id)) (add_new_aliases-Keeps lead_id new)
          (λ u. Evolves-refl workspace_id) t)

  merge_one-Keeps :
      (canonical : Lead) (ids : List Text) (secondary : Lead)
      → Safe (merge_one workspace_id now event_time canonical ids secondary)
  unfolding merge_one
  merge_one-Keeps canonical ids secondary s =
      let mine = select (holds secondary.id workspace_id) s.aliases in
      let rows = update (holds secondary.id workspace_id) superseded s.aliases in
      let there = select (holds canonical.id workspace_id) rows in
      Evolves-trans workspace_id
        (write_aliases workspace_id s rows (
          update_aliases workspace_id (holds secondary.id workspace_id) s.aliases
            (λ x h. held workspace_id secondary.id x h)))
        (Keeps->>= workspace_id
          (insert_aliases (
            map (move_row workspace_id now event_time canonical.id)
              (absent workspace_id now event_time there mine)))
          (λ u. write (mark_merged workspace_id now event_time canonical ids secondary))
          (insert_aliases-Keeps workspace_id _) (λ u. marked) (record s { aliases = rows }))
    where
      marked :
          (t : Store)
          → Evolves workspace_id t
              (mark_merged workspace_id now event_time canonical ids secondary t)
      marked t = record {
        leads = update_leads workspace_id _ _ t.leads (λ l h. record {
          same_id = refl;
          same_workspace = refl;
          same_first = refl;
          last_grows = omega arith;
          isolated = inl (own_lead workspace_id secondary.id l h);
        });
        aliases = (Evolves-refl workspace_id t).aliases;
      }

  merge_all-Keeps :
      (canonical : Lead) (ids : List Text) (rest : List Lead)
      → Safe (merge_all workspace_id now event_time canonical ids rest)
  unfolding merge_all
  merge_all-Keeps canonical ids [] s = Evolves-refl workspace_id s
  merge_all-Keeps canonical ids (l ∷ ls) s =
      Keeps->>= workspace_id (merge_one workspace_id now event_time canonical ids l)
        (λ u. merge_all workspace_id now event_time canonical ids ls)
        (merge_one-Keeps canonical ids l) (λ u. merge_all-Keeps canonical ids ls) s

  merge_sorted-Keeps :
      (resolved : List Resolved) (rows : List Lead)
      → Safe (merge_sorted workspace_id now event_time resolved rows)
  unfolding merge_sorted
  merge_sorted-Keeps resolved [] s = Evolves-refl workspace_id s
  merge_sorted-Keeps resolved (canonical ∷ rest) s =
      Keeps->>= workspace_id
        (merge_all workspace_id now event_time canonical (map (λ l. l.id) rest) rest)
        (λ u.
          write (see_canonical workspace_id now event_time canonical)
          >> (update_existing_lead workspace_id now event_time canonical.id resolved
              >> return (merged_result canonical rest)))
        (merge_all-Keeps canonical (map (λ l. l.id) rest) rest)
        (λ u t. Evolves-trans workspace_id (seen t) (
          Keeps->>= workspace_id
            (update_existing_lead workspace_id now event_time canonical.id resolved)
            (λ u. return (merged_result canonical rest))
            (update_existing_lead-Keeps canonical.id resolved) (λ u. Evolves-refl workspace_id)
            (see_canonical workspace_id now event_time canonical t)))
        s
    where
      seen :
          (t : Store)
          → Evolves workspace_id t (see_canonical workspace_id now event_time canonical t)
      seen t = record {
        leads = update_leads workspace_id _ _ t.leads (λ l h. record {
          same_id = refl;
          same_workspace = refl;
          same_first = refl;
          last_grows = omega arith;
          isolated = inl (own_lead workspace_id canonical.id l h);
        });
        aliases = (Evolves-refl workspace_id t).aliases;
      }

  merge_found-Keeps :
      (ids : List Text) (resolved : List Resolved) (rows : List Lead)
      → Safe (merge_found workspace_id now event_time ids resolved rows)
  merge_found-Keeps ids resolved rows s = elim (Bool-cases (leb 2 (length rows))) [
    | inl e ↦ rw e (merge_sorted-Keeps resolved (sort_by_age rows) s)
    | inr e ↦ rw e (update_existing_lead-Keeps (first_or_empty ids) resolved s)
  ]

  merge_leads-Keeps :
      (ids : List Text) (resolved : List Resolved)
      → Safe (merge_leads workspace_id now event_time ids resolved)
  unfolding merge_leads
  merge_leads-Keeps ids resolved s =
      merge_found-Keeps ids resolved
        (select (λ l. one_of ids l.id && text_eq l.workspace_id workspace_id) s.leads) s

  dispatch_on-Keeps :
      (new_id : Text) (resolved : List Resolved) (ids : List Text)
      → Safe (dispatch_on workspace_id now event_time new_id resolved ids)
  dispatch_on-Keeps new_id resolved [] = create_new_lead-Keeps new_id resolved
  dispatch_on-Keeps new_id resolved (id ∷ []) = update_existing_lead-Keeps id resolved
  dispatch_on-Keeps new_id resolved (id ∷ other ∷ rest) =
      merge_leads-Keeps (id ∷ other ∷ rest) resolved

  resolve_hashed-Keeps :
      (new_id : Text) (resolved : List Resolved)
      → Safe (resolve_hashed workspace_id now event_time new_id resolved)
  unfolding resolve_hashed
  resolve_hashed-Keeps new_id resolved s =
      dispatch_on-Keeps new_id resolved (matching_leads workspace_id now event_time resolved s) s

-- Every call of the resolver, whatever its input and whether it succeeds or fails, keeps all leads
-- with their identifier, workspace and first sight, never lowers a last sight, leaves the leads of
-- other workspaces as they are, and changes an old alias only from active to superseded and only in
-- its own workspace; new rows come last.
pub resolve_lead_by_aliases-Evolves :
    (sha256 to_lower_case : Text → Text) (workspace_id : Text) (now : ℕ) (event_time : Option ℕ)
    (new_id : Text) (input : Input) (s : Store)
    → Evolves workspace_id s
        (resolve_lead_by_aliases sha256 to_lower_case workspace_id now event_time new_id input s).1
unfolding resolve_lead_by_aliases
resolve_lead_by_aliases-Evolves sha256 to_lower_case workspace_id now event_time new_id input s =
    elim (Bool-cases (is_empty input.email && (is_empty input.phone && is_empty input.external_id)))
      as (λ _.
        Evolves workspace_id s
          (resolve_lead_by_aliases sha256 to_lower_case workspace_id now event_time new_id input
            s).1) [
              | inl e ↦ rw e (Evolves-refl workspace_id s)
              | inr e ↦ rw e (hashed_run (hash_identifiers sha256 to_lower_case workspace_id input))
            ]
  where
    hashed_run :
        (r : Option (List Resolved))
        → Evolves workspace_id s (resolve_valid workspace_id now event_time new_id r s).1
    hashed_run none = Evolves-refl workspace_id s
    hashed_run (some resolved) = resolve_hashed-Keeps workspace_id now event_time new_id resolved s
