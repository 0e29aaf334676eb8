-- ===== src/Payload/Clean.antt =====
-- What the redaction of apps/edge/src/lib/dispatch-payload-sanitize.ts promises.
use globaltracker.Prelude.{◌≡◌, refl, ap, Bool, true, false, [], ◌∷◌, if◌then◌else◌}
use globaltracker.Payload.Json.{
  Json, Items, Fields, null, undefined, bool, num, str, arr, obj, nil, cons, end, field,
}
use globaltracker.Payload.Sanitize.{
  is_ip_key, redact_ip, sanitize, sanitize_items, sanitize_fields, IsMasked, IsClean, IsCleanItems,
  IsCleanFields,
}

redact_ip-IsMasked : (j : Json) → IsMasked (redact_ip j)
redact_ip-IsMasked null = tt
redact_ip-IsMasked undefined = tt
redact_ip-IsMasked (bool b) = tt
redact_ip-IsMasked (num n) = tt
redact_ip-IsMasked (str []) = tt
redact_ip-IsMasked (str (c ∷ s)) = refl
redact_ip-IsMasked (arr xs) = tt
redact_ip-IsMasked (obj fs) = tt

redact_ip_idem : (j : Json) → redact_ip (redact_ip j) ≡ redact_ip j
redact_ip_idem null = refl
redact_ip_idem undefined = refl
redact_ip_idem (bool b) = refl
redact_ip_idem (num n) = refl
redact_ip_idem (str []) = refl
redact_ip_idem (str (c ∷ s)) = refl
redact_ip_idem (arr xs) = refl
redact_ip_idem (obj fs) = refl

field-IsClean :
    (b : Bool) (j : Json)
    → IsClean (sanitize j)
    → (if b
        then IsMasked (if b then redact_ip j else sanitize j)
        else IsClean (if b then redact_ip j else sanitize j))
field-IsClean true j h = redact_ip-IsMasked j
field-IsClean false j h = h

mutual
  unfolding sanitize

  clean : (j : Json) → IsClean (sanitize j)
  clean null = tt
  clean undefined = tt
  clean (bool b) = tt
  clean (num n) = tt
  clean (str s) = tt
  clean (arr xs) = clean_items xs
  clean (obj fs) = clean_fields fs

  clean_items : (xs : Items) → IsCleanItems (sanitize_items xs)
  clean_items nil = tt
  clean_items (cons x xs) = (clean x, clean_items xs)

  clean_fields : (fs : Fields) → IsCleanFields (sanitize_fields fs)
  clean_fields end = tt
  clean_fields (field key value fs) =
      (field-IsClean (is_ip_key key) value (clean value), clean_fields fs)

-- A sanitized payload holds no text in clear under an IP key, wherever the walk reaches.
pub sanitize-IsClean : (j : Json) → IsClean (sanitize j)
sanitize-IsClean j = clean j

field_idem :
    (b : Bool) (j : Json)
    → sanitize (sanitize j) ≡ sanitize j
    → (if b
        then redact_ip (if b then redact_ip j else sanitize j)
        else sanitize (if b then redact_ip j else sanitize j))
      ≡ (if b then redact_ip j else sanitize j)
field_idem true j h = redact_ip_idem j
field_idem false j h = h

mutual
  unfolding sanitize

  idem : (j : Json) → sanitize (sanitize j) ≡ sanitize j
  idem null = refl
  idem undefined = refl
  idem (bool b) = refl
  idem (num n) = refl
  idem (str s) = refl
  idem (arr xs) = ap arr (idem_items xs)
  idem (obj fs) = ap obj (idem_fields fs)

  idem_items : (xs : Items) → sanitize_items (sanitize_items xs) ≡ sanitize_items xs
  idem_items nil = refl
  idem_items (cons x xs) = cc (idem x, idem_items xs)

  idem_fields : (fs : Fields) → sanitize_fields (sanitize_fields fs) ≡ sanitize_fields fs
  idem_fields end = refl
  idem_fields (field key value fs) =
      cc (field_idem (is_ip_key key) value (idem value), idem_fields fs)

-- Sanitizing a payload twice is sanitizing it once, so the last layer is harmless where a
-- dispatcher has redacted already.
pub sanitize_idem : (j : Json) → sanitize (sanitize j) ≡ sanitize j
sanitize_idem j = idem j
