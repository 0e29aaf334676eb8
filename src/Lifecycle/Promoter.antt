-- ===== src/Lifecycle/Promoter.antt =====
-- `promoteLeadLifecycle` of apps/edge/src/lib/lifecycle-promoter.ts, in its two statements: a SELECT
-- with the decision on it, and an UPDATE by identifier.
use globaltracker.Prelude.{
  ℕ, Bool, true, false, List, Option, none, some, Text, text_eq, find, update, ◌==◌, if◌then◌else◌,
}
use globaltracker.Lifecycle.Rules.{
  LifecycleStatus, lifecycle_rank, status_text, promote, as_lifecycle_status,
}

-- The columns of `leads` that the promoter reads or writes.
pub record Row : Type 0 where
  pub id : Text
  pub lifecycle_status : Text
  pub updated_at : ℕ

pub record PromoteResult : Type 0 where
  pub updated : Bool
  pub previous : LifecycleStatus
  pub current : LifecycleStatus

-- What the call returns, or the error that it throws.
pub data Outcome : Type 0 where
  returned : PromoteResult → Outcome
  lead_not_found non_canonical : Outcome

abbrev pub row_at : Text → List Row → Option Row
row_at id rows = find (λ r. text_eq r.id id) rows

-- `next === previous`: two statuses are one string where they have one rank.
abbrev pub same_status : LifecycleStatus → LifecycleStatus → Bool
same_status a b = lifecycle_rank a == lifecycle_rank b

abbrev pub decide : LifecycleStatus → LifecycleStatus → PromoteResult
decide previous next = record {
  updated = if same_status next previous then false else true;
  previous = previous;
  current = if same_status next previous then previous else next;
}

abbrev pub decided : LifecycleStatus → Option LifecycleStatus → Outcome
decided candidate none = Outcome.non_canonical
decided candidate (some previous) = Outcome.returned (decide previous (promote previous candidate))

abbrev pub decide_row : LifecycleStatus → Option Row → Outcome
decide_row candidate none = Outcome.lead_not_found
decide_row candidate (some row) = decided candidate (as_lifecycle_status row.lifecycle_status)

-- The SELECT and what follows it, up to the UPDATE.
unfoldable pub read_lifecycle : Text → LifecycleStatus → List Row → Outcome
unfolding promote as_lifecycle_status
read_lifecycle id candidate rows = decide_row candidate (row_at id rows)

abbrev pub set_status : ℕ → LifecycleStatus → Row → Row
set_status now next row = record row { lifecycle_status = status_text next; updated_at = now }

-- The UPDATE, where the decision asks for it.
unfoldable pub write_lifecycle : ℕ → Text → Outcome → List Row → List Row
write_lifecycle now id (Outcome.returned r) rows =
    if r.updated then update (λ x. text_eq x.id id) (set_status now r.current) rows else rows
write_lifecycle now id Outcome.lead_not_found rows = rows
write_lifecycle now id Outcome.non_canonical rows = rows

-- The whole call, with nothing between its two statements.
unfoldable pub promote_lead_lifecycle : ℕ → Text → LifecycleStatus → List Row → Outcome × List Row
unfolding read_lifecycle write_lifecycle
promote_lead_lifecycle now id candidate rows =
    let outcome = read_lifecycle id candidate rows in (outcome, write_lifecycle now id outcome rows)
