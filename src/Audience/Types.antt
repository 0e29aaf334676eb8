-- ===== src/Audience/Types.antt =====
-- The tables that apps/edge/src/lib/audience.ts reads and writes, with the columns it uses, of
-- packages/db/src/schema/audience.ts, audience_snapshot.ts, audience_snapshot_member.ts,
-- audience_sync_job.ts, lead_stage.ts and lead_icp_score.ts. Times are milliseconds.
use globaltracker.Prelude.{◌≡◌, refl, ℕ, Bool, List, Option, Text}
use globaltracker.Payload.Json.{Json}
use globaltracker.Identity.Types.{Lead}
use globaltracker.Consent.Records.{LeadConsent}

-- A condition of a query: all of its fields must hold of a lead.
pub record Condition : Type 0 where
  pub stage_eq : Option Text
  pub stage_not : Option Text
  pub stage_gte : Option Text
  pub stage : Option Text
  pub not_stage : Option Text
  pub is_icp : Option Bool
  pub purchased : Option Bool

pub record QueryDefinition : Type 0 where
  pub launch_id : Option Text
  pub launch_public_id : Option Text
  pub conditions : List Condition

pub data AudienceStatus : Type 0 where
  draft active paused archived : AudienceStatus

pub data Platform : Type 0 where
  meta google : Platform

pub data DestinationStrategy : Type 0 where
  meta_custom_audience google_data_manager google_ads_api_allowlisted disabled_not_eligible :
      DestinationStrategy

pub record Audience : Type 0 where
  pub id : Text
  pub workspace_id : Text
  pub public_id : Text
  pub platform : Platform
  pub destination_strategy : DestinationStrategy
  pub query_definition : Json
  pub consent_policy : Json
  pub status : AudienceStatus

pub record LeadStage : Type 0 where
  pub lead_id : Text
  pub stage : Text

pub record LeadIcpScore : Type 0 where
  pub lead_id : Text
  pub is_icp : Bool

pub record Launch : Type 0 where
  pub id : Text
  pub funnel_blueprint : Json

-- What an evaluation reads.
pub record Sources : Type 0 where
  pub audiences : List Audience
  pub leads : List Lead
  pub lead_stages : List LeadStage
  pub lead_icp_scores : List LeadIcpScore
  pub lead_consents : List LeadConsent
  pub launches : List Launch

pub data RetentionStatus : Type 0 where
  active archived purged : RetentionStatus

pub record Snapshot : Type 0 where
  pub id : Text
  pub workspace_id : Text
  pub audience_id : Text
  pub snapshot_hash : Text
  pub generated_at : ℕ
  pub member_count : ℕ
  pub retention_status : RetentionStatus

pub record SnapshotMember : Type 0 where
  pub snapshot_id : Text
  pub lead_id : Text

pub data SyncStatus : Type 0 where
  pending processing succeeded failed : SyncStatus

pub record SyncJob : Type 0 where
  pub id : Text
  pub workspace_id : Text
  pub audience_id : Text
  pub snapshot_id : Text
  pub prev_snapshot_id : Option Text
  pub status : SyncStatus
  pub planned_additions : ℕ
  pub planned_removals : ℕ
  pub sent_additions : ℕ
  pub sent_removals : ℕ
  pub platform_resource_id : Option Text
  pub error_code : Option Text
  pub started_at : Option ℕ
  pub finished_at : Option ℕ
  pub next_attempt_at : Option ℕ

-- What snapshots and jobs write.
pub record SnapshotTables : Type 0 where
  pub snapshots : List Snapshot
  pub members : List SnapshotMember
  pub sync_jobs : List SyncJob

-- The errors that the functions throw.
pub data AudienceError : Type 0 where
  audience_not_found : AudienceError
  invalid_query_definition : AudienceError
  stage_gte_without_launch : AudienceError
  funnel_blueprint_not_loadable : AudienceError
  stage_not_in_funnel : AudienceError
  insert_failed : AudienceError

pub data Result {ℓ} (A : Type ℓ) : Type ℓ where
  ok : A → Result A
  err : AudienceError → Result A

abbrev pub return {ℓ} : {A : Type ℓ} → A → Result A
return a = Result.ok a

infixl 1 ◌>>=◌
abbrev pub ◌>>=◌ {ℓ κ} : {A : Type ℓ} {B : Type κ} → Result A → (A → Result B) → Result B
Result.ok a >>= f = f a
Result.err e >>= f = Result.err e

-- What a call that succeeds has gone through.
pub bind_ok {ℓ κ} :
    {A : Type ℓ} {B : Type κ} (r : Result A) (f : A → Result B) (b : B)
    → (r >>= f) ≡ Result.ok b
    → (a : A) × (r ≡ Result.ok a) × (f a ≡ Result.ok b)
bind_ok (Result.ok a) f b h = (a, refl, h)
bind_ok (Result.err e) f b h = cc

pub eq_of_ok {ℓ} : {A : Type ℓ} {a b : A} → Result.ok a ≡ Result.ok b → a ≡ b
eq_of_ok h = cc
