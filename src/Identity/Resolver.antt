-- ===== src/Identity/Resolver.antt =====
-- `resolveLeadByAliases` of apps/edge/src/lib/lead-resolver.ts. SHA-256, `toLowerCase`, the clock
-- and the identifier that the database generates for a new lead are parameters.
use globaltracker.Prelude.{
  ℕ, zero, suc, max, Bool, true, false, not, ◌&&◌, List, [], ◌∷◌, ◌++◌, map, Option, none, some,
  Text, text_eq, or_else, any, select, update, find, if◌then◌else◌,
}
use globaltracker.Identity.Types.{
  IdentifierType, type_eq, LeadStatus, AliasStatus, AliasSource, Lead, Alias, Store, Resolved,
  ResolveResult, db_error, ok, err, Db, ◌>>=◌, ◌>>◌, return, read, write, is_active,
  same_identifier,
}

abbrev pub one_of : List Text → Text → Bool
one_of ts t = any (text_eq t) ts

-- `[...new Set(xs)]`, the first of equal elements kept.
unfoldable pub distinct_from : List Text → List Text → List Text
distinct_from seen [] = []
distinct_from seen (t ∷ ts) =
    let rest = distinct_from (t ∷ seen) ts in
    let skipped = distinct_from seen ts in if one_of seen t then skipped else t ∷ rest

unfoldable pub distinct : List Text → List Text
unfolding distinct_from
distinct ts = distinct_from [] ts

-- `resolveCanonical`: at most `depth` redirections are followed.
abbrev pub next_lead : Option Lead → Option Text
next_lead none = none
next_lead (some l) = elim l.status [
  | LeadStatus.merged ↦ l.merged_into
  | LeadStatus.active ↦ none
  | LeadStatus.erased ↦ none
  | LeadStatus.archived ↦ none
]

unfoldable pub resolve_from : ℕ → Text → Store → Text
resolve_from zero current s = current
resolve_from (suc depth) current s = elim (next_lead (find (λ l. text_eq l.id current) s.leads)) [
  | none ↦ current
  | some next ↦ resolve_from depth next s
]

abbrev pub max_depth : ℕ
max_depth = 20

unfoldable pub resolve_canonical : Text → Store → Text
resolve_canonical lead_id s = resolve_from max_depth lead_id s

-- INSERT INTO lead_aliases, as one statement: a row that clashes with an active alias fails it.
unfoldable pub add_aliases : List Alias → List Alias → Option (List Alias)
add_aliases [] table = some table
add_aliases (a ∷ rows) table =
    if any (λ b. is_active b.status && same_identifier a b) table
    then none
    else add_aliases rows (table ++ a ∷ [])

abbrev pub inserted : Option (List Alias) → Db (Unit {0})
inserted none s = (err db_error, s)
inserted (some table) s = (ok tt, record s { aliases = table })

unfoldable pub insert_aliases : List Alias → Db (Unit {0})
unfolding add_aliases
insert_aliases rows s = inserted (add_aliases rows s.aliases) s

abbrev pub alias_row : Text → Text → AliasSource → ℕ → IdentifierType → Text → Alias
alias_row workspace_id lead_id source now type hash = record {
  workspace_id = workspace_id;
  identifier_type = type;
  identifier_hash = hash;
  lead_id = lead_id;
  source = source;
  status = AliasStatus.active;
  ts = now;
}

abbrev pub is_for : IdentifierType → Resolved → Bool
is_for type a = type_eq a.identifier_type type

abbrev pub hash_of : IdentifierType → List Resolved → Option Text
hash_of type resolved = elim (find (is_for type) resolved) [
  | none ↦ none
  | some a ↦ some a.identifier_hash
]

abbrev pub external_of : IdentifierType → List Resolved → Option Text
external_of type resolved = elim (find (is_for type) resolved) [
  | none ↦ none
  | some a ↦ a.external_hash
]

-- The active aliases of a lead in a workspace.
abbrev pub holds : Text → Text → Alias → Bool
holds lead_id workspace_id a =
    text_eq a.lead_id lead_id && (text_eq a.workspace_id workspace_id && is_active a.status)

abbrev pub has_identifier : List Alias → IdentifierType → Text → Bool
has_identifier table type hash =
    any (λ b. type_eq b.identifier_type type && text_eq b.identifier_hash hash) table

abbrev pub is_lead : Text → Text → Lead → Bool
is_lead lead_id workspace_id l = text_eq l.id lead_id && text_eq l.workspace_id workspace_id

abbrev pub superseded : Alias → Alias
superseded a = record a { status = AliasStatus.superseded }

abbrev pub created_result : Text → ResolveResult
created_result lead_id = record {
  lead_id = lead_id;
  was_created = true;
  merge_executed = false;
  merged_lead_ids = [];
}

abbrev pub updated_result : Text → ResolveResult
updated_result lead_id = record {
  lead_id = lead_id;
  was_created = false;
  merge_executed = false;
  merged_lead_ids = [];
}

-- The rows that are inserted for identifiers of a request.
abbrev pub submitted : Text → ℕ → Text → List Resolved → List Alias
submitted workspace_id now lead_id resolved =
    map
      (λ a.
        alias_row workspace_id lead_id AliasSource.form_submit now a.identifier_type
          a.identifier_hash)
      resolved

module _ (workspace_id : Text) (now : ℕ) (event_time : Option ℕ) where
  abbrev pub new_lead : Text → List Resolved → Lead
  new_lead new_id resolved = record {
    id = new_id;
    workspace_id = workspace_id;
    status = LeadStatus.active;
    merged_into = none;
    first_seen_at = or_else event_time now;
    last_seen_at = or_else event_time now;
    email_hash = hash_of IdentifierType.email_hash resolved;
    phone_hash = hash_of IdentifierType.phone_hash resolved;
    email_hash_external = external_of IdentifierType.email_hash resolved;
    phone_hash_external = external_of IdentifierType.phone_hash resolved;
    updated_at = now;
  }

  -- Case A.
  unfoldable pub create_new_lead : Text → List Resolved → Db ResolveResult
  unfolding insert_aliases
  create_new_lead new_id resolved = do
    write (λ s. record s { leads = s.leads ++ new_lead new_id resolved ∷ [] })
    insert_aliases (submitted workspace_id now new_id resolved)
    return (created_result new_id)

  -- A column is overwritten only by a value that was given.
  abbrev over : Option Text → Option Text → Option Text
  over none old = old
  over (some t) old = some t

  abbrev pub touch : List Resolved → Lead → Lead
  touch resolved l = record l {
    last_seen_at = max l.last_seen_at (or_else event_time now);
    updated_at = now;
    email_hash = over (hash_of IdentifierType.email_hash resolved) l.email_hash;
    phone_hash = over (hash_of IdentifierType.phone_hash resolved) l.phone_hash;
    email_hash_external =
        over (external_of IdentifierType.email_hash resolved) l.email_hash_external;
    phone_hash_external =
        over (external_of IdentifierType.phone_hash resolved) l.phone_hash_external;
  }

  -- The aliases of the lead that a new identifier of the same type replaces.
  abbrev pub is_replaced : Text → List Resolved → Alias → Bool
  is_replaced lead_id new a = holds lead_id workspace_id a && any (is_for a.identifier_type) new

  unfoldable pub add_new_aliases : Text → List Resolved → Db (Unit {0})
  unfolding insert_aliases
  add_new_aliases lead_id [] = return tt
  add_new_aliases lead_id (a ∷ rest) = do
    write (λ s. record s { aliases = update (is_replaced lead_id (a ∷ rest)) superseded s.aliases })
    insert_aliases (submitted workspace_id now lead_id (a ∷ rest))

  abbrev pub missing : List Alias → List Resolved → List Resolved
  missing existing resolved =
      select (λ a. not (has_identifier existing a.identifier_type a.identifier_hash)) resolved

  -- Case B.
  unfoldable pub update_existing_lead : Text → List Resolved → Db ResolveResult
  unfolding add_new_aliases
  update_existing_lead lead_id resolved = do
    write (λ s. record s { leads = update (is_lead lead_id workspace_id) (touch resolved) s.leads })
    existing ← read (λ s. select (holds lead_id workspace_id) s.aliases)
    add_new_aliases lead_id (missing existing resolved)
    return (updated_result lead_id)
