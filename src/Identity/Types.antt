-- ===== src/Identity/Types.antt =====
-- The rows, inputs and results of apps/edge/src/lib/lead-resolver.ts, with the columns of
-- packages/db/src/schema/lead.ts and lead_alias.ts that the resolver reads or writes, and the monad
-- of its database calls. Times are milliseconds.
use globaltracker.Prelude.{ℕ, Bool, true, false, ◌&&◌, List, Option, Text, text_eq}

pub data IdentifierType : Type 0 where
  email_hash phone_hash external_id_hash lead_token_id : IdentifierType

abbrev pub type_eq : IdentifierType → IdentifierType → Bool
type_eq IdentifierType.email_hash IdentifierType.email_hash = true
type_eq IdentifierType.phone_hash IdentifierType.phone_hash = true
type_eq IdentifierType.external_id_hash IdentifierType.external_id_hash = true
type_eq IdentifierType.lead_token_id IdentifierType.lead_token_id = true
type_eq _ _ = false

pub data LeadStatus : Type 0 where
  active merged erased archived : LeadStatus

pub data AliasStatus : Type 0 where
  active superseded revoked : AliasStatus

pub data AliasSource : Type 0 where
  form_submit merge manual hotmart stripe kiwify : AliasSource

pub record Lead : Type 0 where
  pub id : Text
  pub workspace_id : Text
  pub status : LeadStatus
  pub merged_into : Option Text
  pub first_seen_at : ℕ
  pub last_seen_at : ℕ
  pub email_hash : Option Text
  pub phone_hash : Option Text
  pub email_hash_external : Option Text
  pub phone_hash_external : Option Text
  pub updated_at : ℕ

pub record Alias : Type 0 where
  pub workspace_id : Text
  pub identifier_type : IdentifierType
  pub identifier_hash : Text
  pub lead_id : Text
  pub source : AliasSource
  pub status : AliasStatus
  pub ts : ℕ

-- A row of `lead_merges`, less the constants `reason` and `performed_by`.
pub record Merge : Type 0 where
  pub workspace_id : Text
  pub canonical_lead_id : Text
  pub merged_lead_id : Text
  pub canonical_first_seen_at : ℕ
  pub merged_first_seen_at : ℕ
  pub merged_ids : List Text
  pub merged_at : ℕ

pub record Store : Type 0 where
  pub leads : List Lead
  pub aliases : List Alias
  pub merges : List Merge

-- The identifiers of a request; an empty one counts as missing.
pub record Input : Type 0 where
  pub email : Text
  pub phone : Text
  pub external_id : Text

-- `ResolvedAlias`.
pub record Resolved : Type 0 where
  pub identifier_type : IdentifierType
  pub identifier_hash : Text
  pub external_hash : Option Text

pub record ResolveResult : Type 0 where
  pub lead_id : Text
  pub was_created : Bool
  pub merge_executed : Bool
  pub merged_lead_ids : List Text

pub data ResolveError : Type 0 where
  db_error invalid_input : ResolveError

pub data Result {ℓ} (A : Type ℓ) : Type ℓ where
  ok : A → Result A
  err : ResolveError → Result A

-- A call on the database. There is no transaction, so what was written before an error stays.
abbrev pub Db : Type 0 → Type 0
Db A = Store → Result A × Store

-- The rest of a call is skipped after an error.
abbrev pub then_run : {A B : Type 0} → Result A → (A → Db B) → Db B
then_run (ok a) f = f a
then_run (err e) f = λ s. (err e, s)

infixl 5 ◌>>=◌ ◌>>◌
abbrev pub ◌>>=◌ : {A B : Type 0} → Db A → (A → Db B) → Db B
◌>>=◌ m f s = then_run (m s).0 f (m s).1

abbrev pub ◌>>◌ : {A B : Type 0} → Db A → Db B → Db B
m >> k = m >>= λ _. k

abbrev pub return : {A : Type 0} → A → Db A
return a s = (ok a, s)

abbrev pub raise : {A : Type 0} → ResolveError → Db A
raise e s = (err e, s)

abbrev pub read : {A : Type 0} → (Store → A) → Db A
read f s = (ok (f s), s)

abbrev pub write : (Store → Store) → Db (Unit {0})
write f s = (ok tt, f s)

abbrev pub is_active : AliasStatus → Bool
is_active AliasStatus.active = true
is_active AliasStatus.superseded = false
is_active AliasStatus.revoked = false

-- The key of the partial unique index on active aliases.
abbrev pub same_identifier : Alias → Alias → Bool
same_identifier a b =
    text_eq a.workspace_id b.workspace_id
    && (type_eq a.identifier_type b.identifier_type && text_eq a.identifier_hash b.identifier_hash)
