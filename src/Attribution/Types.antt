-- ===== src/Attribution/Types.antt =====
-- The inputs, rows and results of apps/edge/src/lib/attribution.ts, with the table of
-- packages/db/src/schema/lead_attribution.ts. Times are milliseconds; the generated `id` of a row,
-- which nothing reads, is left out.
use globaltracker.Prelude.{ℕ, Bool, true, false, ◌&&◌, Option, Text, text_eq}

pub data TouchType : Type 0 where
  first last all : TouchType

abbrev pub touch_eq : TouchType → TouchType → Bool
touch_eq TouchType.first TouchType.first = true
touch_eq TouchType.last TouchType.last = true
touch_eq TouchType.all TouchType.all = true
touch_eq _ _ = false

pub record AttributionParams : Type 0 where
  pub utm_source : Option Text
  pub utm_medium : Option Text
  pub utm_campaign : Option Text
  pub utm_content : Option Text
  pub utm_term : Option Text
  pub fbclid : Option Text
  pub gclid : Option Text
  pub gbraid : Option Text
  pub wbraid : Option Text
  pub fbc : Option Text
  pub fbp : Option Text
  pub gcl_au : Option Text
  pub ga : Option Text
  pub referrer_domain : Option Text
  pub link_id : Option Text
  pub ad_account_id : Option Text
  pub campaign_id : Option Text
  pub adset_id : Option Text
  pub ad_id : Option Text
  pub creative_id : Option Text

-- The columns that `attributionParamsToRow` fills.
pub record AttributionColumns : Type 0 where
  pub source : Option Text
  pub medium : Option Text
  pub campaign : Option Text
  pub content : Option Text
  pub term : Option Text
  pub link_id : Option Text
  pub ad_account_id : Option Text
  pub campaign_id : Option Text
  pub adset_id : Option Text
  pub ad_id : Option Text
  pub creative_id : Option Text
  pub fbclid : Option Text
  pub gclid : Option Text
  pub gbraid : Option Text
  pub wbraid : Option Text
  pub fbc : Option Text
  pub fbp : Option Text

pub record RecordTouchesInput : Type 0 where
  pub lead_id : Text
  pub launch_id : Text
  pub workspace_id : Text
  pub attribution : AttributionParams
  pub event_time : ℕ

-- A row of `lead_attributions`.
pub record Touch : Type 0 where
  pub workspace_id : Text
  pub launch_id : Text
  pub lead_id : Text
  pub touch_type : TouchType
  pub columns : AttributionColumns
  pub ts : ℕ
  pub created_at : ℕ
  pub updated_at : ℕ

pub record RecordTouchesResult : Type 0 where
  pub first_created : Bool
  pub last_updated : Bool

pub data RecordTouchesOutcome : Type 0 where
  ok : RecordTouchesResult → RecordTouchesOutcome
  db_error invalid_input : RecordTouchesOutcome

-- The rows of one touch type for a lead in a launch.
abbrev pub in_scope : TouchType → Text → Text → Text → Touch → Bool
in_scope type workspace_id launch_id lead_id t =
    touch_eq t.touch_type type
    && (text_eq t.workspace_id workspace_id
        && (text_eq t.launch_id launch_id && text_eq t.lead_id lead_id))
