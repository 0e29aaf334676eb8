-- ===== src/Payload/Sanitize.antt =====
-- `sanitizeDispatchPayload` of apps/edge/src/lib/dispatch-payload-sanitize.ts.
use globaltracker.Prelude.{◌≡◌, Bool, ◌||◌, [], ◌∷◌, Text, text_eq, codes, if◌then◌else◌}
use globaltracker.Payload.Json.{
  Json, Items, Fields, null, undefined, bool, num, str, arr, obj, nil, cons, end, field,
}

abbrev pub ip_redacted : Text
ip_redacted = codes "[REDACTED]"

unfoldable pub is_ip_key : Text → Bool
is_ip_key key = text_eq key (codes "client_ip_address") || text_eq key (codes "ip")

-- What is written under an IP key: a marker for a non-empty string, all else as it is.
abbrev pub redact_ip : Json → Json
redact_ip (str []) = str []
redact_ip (str (c ∷ s)) = str ip_redacted
redact_ip null = null
redact_ip undefined = undefined
redact_ip (bool b) = bool b
redact_ip (num n) = num n
redact_ip (arr xs) = arr xs
redact_ip (obj fs) = obj fs

unfoldable mutual
  pub sanitize : Json → Json
  sanitize null = null
  sanitize undefined = undefined
  sanitize (bool b) = bool b
  sanitize (num n) = num n
  sanitize (str s) = str s
  sanitize (arr xs) = arr (sanitize_items xs)
  sanitize (obj fs) = obj (sanitize_fields fs)

  pub sanitize_items : Items → Items
  sanitize_items nil = nil
  sanitize_items (cons x xs) = cons (sanitize x) (sanitize_items xs)

  pub sanitize_fields : Fields → Fields
  sanitize_fields end = end
  sanitize_fields (field key value fs) =
      field key (if is_ip_key key then redact_ip value else sanitize value) (sanitize_fields fs)

-- No text stands in clear under an IP key, at any depth that the code walks into. What is not a
-- text under an IP key is kept as it is and not walked into.
abbrev pub IsMasked : Json → Type 0
IsMasked (str []) = Unit
IsMasked (str (c ∷ s)) = str (c ∷ s) ≡ str ip_redacted
IsMasked null = Unit
IsMasked undefined = Unit
IsMasked (bool b) = Unit
IsMasked (num n) = Unit
IsMasked (arr xs) = Unit
IsMasked (obj fs) = Unit

abbrev mutual
  pub IsClean : Json → Type 0
  IsClean null = Unit
  IsClean undefined = Unit
  IsClean (bool b) = Unit
  IsClean (num n) = Unit
  IsClean (str s) = Unit
  IsClean (arr xs) = IsCleanItems xs
  IsClean (obj fs) = IsCleanFields fs

  pub IsCleanItems : Items → Type 0
  IsCleanItems nil = Unit
  IsCleanItems (cons x xs) = IsClean x × IsCleanItems xs

  pub IsCleanFields : Fields → Type 0
  IsCleanFields end = Unit
  IsCleanFields (field key value fs) =
      (if is_ip_key key then IsMasked value else IsClean value) × IsCleanFields fs
