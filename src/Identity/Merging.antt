-- ===== src/Identity/Merging.antt =====
-- `mergeLeads` and the whole of `resolveLeadByAliases` of apps/edge/src/lib/lead-resolver.ts.
use globaltracker.Prelude.{
  ℕ, max, true, false, not, ◌&&◌, leb, List, [], ◌∷◌, ◌++◌, map, Option, none, some, Text, text_eq,
  is_empty, trim, or_else, select, update, if◌then◌else◌, length,
}
use globaltracker.Identity.Types.{
  IdentifierType, LeadStatus, AliasSource, Lead, Alias, Store, Input, Resolved, ResolveResult,
  db_error, invalid_input, Db, ◌>>=◌, ◌>>◌, return, raise, read, write, is_active,
}
use globaltracker.Identity.Normalize.{normalize_email, normalize_phone}
use globaltracker.Identity.Hashing.{hash_pii, hash_pii_external}
use globaltracker.Identity.Resolver.{
  one_of, distinct, resolve_canonical, insert_aliases, alias_row, holds, has_identifier, is_lead,
  superseded, create_new_lead, update_existing_lead,
}

-- The stable sort by `first_seen_at`.
unfoldable pub insert_by_age : Lead → List Lead → List Lead
insert_by_age l [] = l ∷ []
insert_by_age l (m ∷ ms) =
    if leb l.first_seen_at m.first_seen_at then l ∷ m ∷ ms else m ∷ insert_by_age l ms

unfoldable pub sort_by_age : List Lead → List Lead
unfolding insert_by_age
sort_by_age [] = []
sort_by_age (l ∷ ls) = insert_by_age l (sort_by_age ls)

abbrev pub first_or_empty : List Text → Text
first_or_empty [] = []
first_or_empty (t ∷ ts) = t

abbrev pub merged_result : Lead → List Lead → ResolveResult
merged_result canonical rest = record {
  lead_id = canonical.id;
  was_created = false;
  merge_executed = true;
  merged_lead_ids = map (λ l. l.id) rest;
}

module _ (workspace_id : Text) (now : ℕ) (event_time : Option ℕ) where
  abbrev pub move_row : Text → Alias → Alias
  move_row canonical_id a =
      alias_row workspace_id canonical_id AliasSource.merge now a.identifier_type a.identifier_hash

  abbrev pub absent : List Alias → List Alias → List Alias
  absent there = select (λ a. not (has_identifier there a.identifier_type a.identifier_hash))

  -- The secondary lead is marked, and the merge is recorded.
  abbrev pub mark_merged : Lead → List Text → Lead → Store → Store
  mark_merged canonical merged_ids secondary s = record s {
    leads =
        update (is_lead secondary.id workspace_id)
          (λ l. record l {
            status = LeadStatus.merged;
            merged_into = some canonical.id;
            updated_at = now;
          })
          s.leads;
    merges =
        s.merges
        ++ record {
          workspace_id = workspace_id;
          canonical_lead_id = canonical.id;
          merged_lead_id = secondary.id;
          canonical_first_seen_at = canonical.first_seen_at;
          merged_first_seen_at = secondary.first_seen_at;
          merged_ids = merged_ids;
          merged_at = now;
        }
          ∷ [];
  }

  -- One round of the loop over the leads that are merged away.
  unfoldable pub merge_one : Lead → List Text → Lead → Db (Unit {0})
  unfolding insert_aliases
  merge_one canonical merged_ids secondary = do
    mine ← read (λ s. select (holds secondary.id workspace_id) s.aliases)
    write
        (λ s. record s { aliases = update (holds secondary.id workspace_id) superseded s.aliases })
    there ← read (λ s. select (holds canonical.id workspace_id) s.aliases)
    insert_aliases (map (move_row canonical.id) (absent there mine))
    write (mark_merged canonical merged_ids secondary)

  unfoldable pub merge_all : Lead → List Text → List Lead → Db (Unit {0})
  unfolding merge_one
  merge_all canonical merged_ids [] = return tt
  merge_all canonical merged_ids (l ∷ ls) = do
    merge_one canonical merged_ids l
    merge_all canonical merged_ids ls

  abbrev pub see_canonical : Lead → Store → Store
  see_canonical canonical s = record s {
    leads =
        update (is_lead canonical.id workspace_id)
          (λ l. record l {
            last_seen_at = max l.last_seen_at (or_else event_time now);
            updated_at = now;
          })
          s.leads;
  }

  -- What follows the sort. The value of the inner update is dropped; where the database throws in
  -- it, the whole call ends in the error.
  unfoldable pub merge_sorted : List Resolved → List Lead → Db ResolveResult
  unfolding merge_all update_existing_lead
  merge_sorted resolved [] = raise db_error
  merge_sorted resolved (canonical ∷ rest) = do
    merge_all canonical (map (λ l. l.id) rest) rest
    write (see_canonical canonical)
    update_existing_lead workspace_id now event_time canonical.id resolved
    return (merged_result canonical rest)

  -- Case C. Where fewer than two leads are found the first identifier is updated alone.
  abbrev pub merge_found : List Text → List Resolved → List Lead → Db ResolveResult
  merge_found ids resolved rows =
      if leb 2 (length rows)
      then merge_sorted resolved (sort_by_age rows)
      else update_existing_lead workspace_id now event_time (first_or_empty ids) resolved

  unfoldable pub merge_leads : List Text → List Resolved → Db ResolveResult
  unfolding merge_sorted sort_by_age update_existing_lead
  merge_leads ids resolved = do
    rows ← read (λ s. select (λ l. one_of ids l.id && text_eq l.workspace_id workspace_id) s.leads)
    merge_found ids resolved rows

  -- Step 2 and the three cases.
  unfoldable pub matching_leads : List Resolved → Store → List Text
  matching_leads resolved s = distinct (
      map (λ id. resolve_canonical id s)
        (distinct (
          map (λ a. a.lead_id)
            (select
              (λ a.
                text_eq a.workspace_id workspace_id
                && (is_active a.status
                    && one_of (map (λ r. r.identifier_hash) resolved) a.identifier_hash))
              s.aliases))))

  abbrev pub dispatch_on : Text → List Resolved → List Text → Db ResolveResult
  dispatch_on new_id resolved [] = create_new_lead workspace_id now event_time new_id resolved
  dispatch_on new_id resolved (id ∷ []) =
      update_existing_lead workspace_id now event_time id resolved
  dispatch_on new_id resolved (id ∷ other ∷ rest) = merge_leads (id ∷ other ∷ rest) resolved

  unfoldable pub resolve_hashed : Text → List Resolved → Db ResolveResult
  unfolding matching_leads create_new_lead update_existing_lead merge_leads
  resolve_hashed new_id resolved = do
    ids ← read (matching_leads resolved)
    dispatch_on new_id resolved ids

  -- The rest of the call, where the identifiers could be hashed.
  abbrev pub resolve_valid : Text → Option (List Resolved) → Db ResolveResult
  resolve_valid new_id none = raise invalid_input
  resolve_valid new_id (some resolved) = resolve_hashed new_id resolved

module _ (sha256 to_lower_case : Text → Text) (workspace_id : Text) where
  abbrev pub hashed : IdentifierType → Text → Resolved
  hashed type value = record {
    identifier_type = type;
    identifier_hash = hash_pii sha256 value workspace_id;
    external_hash = some (hash_pii_external sha256 value);
  }

  abbrev pub hash_email : Text → List Resolved
  hash_email [] = []
  hash_email (c ∷ email) =
      hashed IdentifierType.email_hash (normalize_email to_lower_case (c ∷ email)) ∷ []

  abbrev pub hash_phone : Text → Option (List Resolved)
  hash_phone [] = some []
  hash_phone (c ∷ phone) = elim (normalize_phone (c ∷ phone)) [
    | none ↦ none
    | some normalized ↦ some (hashed IdentifierType.phone_hash normalized ∷ [])
  ]

  abbrev pub hash_external_id : Text → List Resolved
  hash_external_id [] = []
  hash_external_id (c ∷ id) =
      record {
        identifier_type = IdentifierType.external_id_hash;
        identifier_hash = hash_pii sha256 (trim (c ∷ id)) workspace_id;
        external_hash = none;
      }
      ∷ []

  -- Step 1; `none` where a phone was given that cannot be normalized.
  unfoldable pub hash_identifiers : Input → Option (List Resolved)
  unfolding normalize_email normalize_phone hash_pii hash_pii_external trim
  hash_identifiers input = elim (hash_phone input.phone) [
    | none ↦ none
    | some phone ↦ some (hash_email input.email ++ (phone ++ hash_external_id input.external_id))
  ]

  -- `resolveLeadByAliases`.
  unfoldable pub resolve_lead_by_aliases : ℕ → Option ℕ → Text → Input → Db ResolveResult
  unfolding hash_identifiers resolve_hashed
  resolve_lead_by_aliases now event_time new_id input =
      if is_empty input.email && (is_empty input.phone && is_empty input.external_id)
      then raise invalid_input
      else resolve_valid workspace_id now event_time new_id (hash_identifiers input)
