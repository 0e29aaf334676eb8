-- ===== src/Identity/Normalize.antt =====
-- `normalizeEmail` and `normalizePhone` of apps/edge/src/lib/lead-resolver.ts. The platform's
-- `toLowerCase` is a parameter.
use globaltracker.Prelude.{
  ℕ, Bool, false, ◌&&◌, ◌==◌, leb, [], ◌∷◌, ◌++◌, Option, none, some, Text, trim, trim_start,
  length, take, drop, select, if◌then◌else◌,
}

unfoldable pub normalize_email : (Text → Text) → Text → Text
unfolding trim
normalize_email to_lower_case email = trim (to_lower_case email)

abbrev pub is_digit : ℕ → Bool
is_digit c = leb b'0' c && leb c b'9'

-- `phone.replace(/\D/g, '')`.
abbrev pub keep_digits : Text → Text
keep_digits s = select is_digit s

-- `s.startsWith('+')`.
abbrev pub starts_with_plus : Text → Bool
starts_with_plus [] = false
starts_with_plus (c ∷ s) = c == b'+'

-- `digits.startsWith('55')`.
abbrev pub starts_with_55 : Text → Bool
starts_with_55 [] = false
starts_with_55 (a ∷ []) = false
starts_with_55 (a ∷ b ∷ s) = (a == b'5') && (b == b'5')

-- `/^[6-9]/.test(local)`.
abbrev pub is_mobile_start : Text → Bool
is_mobile_start [] = false
is_mobile_start (c ∷ s) = leb b'6' c && leb c b'9'

abbrev pub plus_55 : Text → Text
plus_55 rest = b'+' ∷ b'5' ∷ b'5' ∷ rest

unfoldable pub reconcile_br : Text → Text → Text
reconcile_br dd local =
    if (length local == 8) && is_mobile_start local
    then plus_55 (dd ++ (b'9' ∷ local))
    else plus_55 (dd ++ local)

-- The branch of a number that was written with a `+`.
unfoldable pub normalize_international : Text → Text
unfolding reconcile_br
normalize_international digits =
    let rest = drop 2 digits in
    if starts_with_55 digits
    then if length rest == 11
      then plus_55 rest
      else if length rest == 10
      then reconcile_br (take 2 rest) (drop 2 rest)
      else b'+' ∷ digits
    else b'+' ∷ digits

-- The branch without a `+`: Brazil is assumed, and other lengths are refused.
unfoldable pub normalize_local : Text → Option Text
unfolding reconcile_br
normalize_local digits =
    let rest = drop 2 digits in
    if (length digits == 13) && starts_with_55 digits
    then some (b'+' ∷ digits)
    else if (length digits == 12) && starts_with_55 digits
    then some (reconcile_br (take 2 rest) (drop 2 rest))
    else if length digits == 11
    then some (plus_55 digits)
    else if length digits == 10
    then some (reconcile_br (take 2 digits) (drop 2 digits))
    else none

unfoldable pub normalize_phone : Text → Option Text
unfolding trim_start
normalize_phone phone =
    let has_plus = starts_with_plus (trim_start phone) in
    let digits = keep_digits phone in
    if length digits == 0
    then none
    else if has_plus
    then some (normalize_international digits)
    else normalize_local digits
