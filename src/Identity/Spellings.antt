-- ===== src/Identity/Spellings.antt =====
-- The mandatory 9 of Brazilian mobiles: the spellings of one number in `normalizePhone` of
-- apps/edge/src/lib/lead-resolver.ts.
use globaltracker.Prelude.{
  ◌≡◌, ◌∙◌, true, false, [], ◌∷◌, some, Text, trim_start, length, arith, inl, inr, ◌⊎◌, ℕ,
}
use globaltracker.Identity.Normalize.{
  keep_digits, starts_with_plus, is_mobile_start, plus_55, reconcile_br, normalize_international,
  normalize_local, normalize_phone,
}

written_with_plus :
    (phone : Text) {c : ℕ} {d : Text}
    → starts_with_plus (trim_start phone) ≡ true
    → keep_digits phone ≡ c ∷ d
    → normalize_phone phone ≡ some (normalize_international (c ∷ d))
unfolding normalize_phone
written_with_plus phone p e = ground arith

written_without_plus :
    (phone : Text) {c : ℕ} {d : Text}
    → starts_with_plus (trim_start phone) ≡ false
    → keep_digits phone ≡ c ∷ d
    → normalize_phone phone ≡ normalize_local (c ∷ d)
unfolding normalize_phone
written_without_plus phone p e = ground arith

-- The phone is written with an area code and the number, or the same behind the country code,
-- which a `+` requires; other characters may stand between the digits.
abbrev pub IsWritten : Text → Text → Type 0
IsWritten phone number =
    ((starts_with_plus (trim_start phone) ≡ true) × (keep_digits phone ≡ b'5' ∷ b'5' ∷ number))
    ⊎ (starts_with_plus (trim_start phone) ≡ false)
      × ((keep_digits phone ≡ number) ⊎ (keep_digits phone ≡ b'5' ∷ b'5' ∷ number))

module _ (a b : ℕ) (local : Text) (eight : length local ≡ 8) where
  eleven :
      (phone : Text)
      → IsWritten phone (a ∷ b ∷ b'9' ∷ local)
      → normalize_phone phone ≡ some (plus_55 (a ∷ b ∷ b'9' ∷ local))
  unfolding normalize_international normalize_local
  eleven phone (inl (p, e)) = written_with_plus phone p e ∙ ground arith
  eleven phone (inr (p, inl e)) = written_without_plus phone p e ∙ ground arith
  eleven phone (inr (p, inr e)) = written_without_plus phone p e ∙ ground arith

  ten :
      (phone : Text)
      → IsWritten phone (a ∷ b ∷ local)
      → normalize_phone phone ≡ some (reconcile_br (a ∷ b ∷ []) local)
  unfolding normalize_international normalize_local
  ten phone (inl (p, e)) = written_with_plus phone p e ∙ ground arith
  ten phone (inr (p, inl e)) = written_without_plus phone p e ∙ ground arith
  ten phone (inr (p, inr e)) = written_without_plus phone p e ∙ ground arith

-- A mobile, whose eight local digits begin with 6 to 9, has one normal form whether it is written
-- with the 9 or without, with the country code or without, and with a `+` or without.
pub mobile_spellings :
    (a b : ℕ) (local phone : Text)
    → length local ≡ 8
    → is_mobile_start local ≡ true
    → IsWritten phone (a ∷ b ∷ local) ⊎ IsWritten phone (a ∷ b ∷ b'9' ∷ local)
    → normalize_phone phone ≡ some (plus_55 (a ∷ b ∷ b'9' ∷ local))
unfolding reconcile_br
mobile_spellings a b local phone eight m (inl w) = ten a b local eight phone w ∙ ground arith
mobile_spellings a b local phone eight m (inr w) = eleven a b local eight phone w

-- A landline, whose local digits begin with another digit, gets no 9 in any of its spellings.
pub landline_spellings :
    (a b : ℕ) (local phone : Text)
    → length local ≡ 8
    → is_mobile_start local ≡ false
    → IsWritten phone (a ∷ b ∷ local)
    → normalize_phone phone ≡ some (plus_55 (a ∷ b ∷ local))
unfolding reconcile_br
landline_spellings a b local phone eight m w = ten a b local eight phone w ∙ ground arith
