-- ===== src/Dispatch/OnePerDelivery.antt =====
-- INV-DISPATCH-001 for `createDispatchJobs` of apps/edge/src/lib/dispatch.ts: one row for each thing to
-- be delivered, told by the row's own columns and not by its key.
use globaltracker.Prelude.{◌≡◌, true, Text, text_eq, List, any}
use globaltracker.Dispatch.Types.{Job, JobInput}
use globaltracker.Dispatch.Keys.{key_text}

-- What a row delivers, and what an input asks for: the text of its event, destination and resource.
abbrev pub delivered : Job → Text
delivered j = key_text (record {
  workspace_id = j.workspace_id;
  event_id = j.event_id;
  destination = j.destination;
  destination_resource_id = j.destination_resource_id;
  destination_subresource = j.destination_subresource;
})

abbrev pub asked : JobInput → Text
asked input = key_text (record {
  workspace_id = input.workspace_id;
  event_id = input.event_id;
  destination = input.destination;
  destination_resource_id = input.destination_resource_id;
  destination_subresource = input.destination_subresource;
})

-- The key of a row is the hash of what it delivers.
abbrev pub IsKeyed : (Text → Text) → Job → Type 0
IsKeyed sha256 j = j.idempotency_key ≡ sha256 (delivered j)

-- Some row delivers what the input asks for.
abbrev pub Served : List Job → JobInput → Type 0
Served rows input = any (λ j. text_eq (delivered j) (asked input)) rows ≡ true
