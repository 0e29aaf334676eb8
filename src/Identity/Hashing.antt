-- ===== src/Identity/Hashing.antt =====
-- `hashPii` and `hashPiiExternal` of apps/edge/src/lib/pii.ts, over the platform's SHA-256 in
-- hexadecimal.
use globaltracker.Prelude.{◌++◌, ◌∷◌, Text}

unfoldable pub hash_pii : (Text → Text) → Text → Text → Text
hash_pii sha256 value workspace_id = sha256 (workspace_id ++ (b':' ∷ value))

unfoldable pub hash_pii_external : (Text → Text) → Text → Text
hash_pii_external sha256 value = sha256 value
