-- ===== src/Dispatch/Keys.antt =====
-- `computeIdempotencyKey` and `computeReplayIdempotencyKey` of apps/edge/src/lib/dispatch.ts. The
-- hash is the platform's SHA-256, printed in hexadecimal: a parameter.
use globaltracker.Prelude.{[], ◌∷◌, Text, codes, join, or_else}
use globaltracker.Dispatch.Types.{KeyParams, destination_text}

abbrev pub bar : Text
bar = codes "|"

-- The text that is hashed.
unfoldable pub key_text : KeyParams → Text
key_text params = join bar (
    params.workspace_id
    ∷ params.event_id
    ∷ destination_text params.destination
    ∷ params.destination_resource_id
    ∷ or_else params.destination_subresource []
    ∷ [])

unfoldable pub compute_idempotency_key : (Text → Text) → KeyParams → Text
unfolding key_text
compute_idempotency_key sha256 params = sha256 (key_text params)

unfoldable pub replay_text : Text → Text → Text
replay_text original_job_id replayed_at =
    join bar (original_job_id ∷ codes "replay" ∷ replayed_at ∷ [])

unfoldable pub compute_replay_idempotency_key : (Text → Text) → Text → Text → Text
unfolding replay_text
compute_replay_idempotency_key sha256 original_job_id replayed_at =
    sha256 (replay_text original_job_id replayed_at)
