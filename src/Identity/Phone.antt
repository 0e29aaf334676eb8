-- ===== src/Identity/Phone.antt =====
-- What `normalizePhone` of apps/edge/src/lib/lead-resolver.ts makes of the spellings of one number.
use globaltracker.Prelude.{
  ℕ, zero, suc, ◌≡◌, refl, sym, subst, ◌∙◌, ap, ◌≢◌, true, false, ◌&&◌, ◌==◌, [], ◌∷◌, ◌++◌, none,
  some, Text, is_space, length, take, drop, All, arith, eq_of_some, Bool-cases, inl, inr, ◌⊎◌,
}
use globaltracker.Identity.Normalize.{
  is_digit, keep_digits, starts_with_55, is_mobile_start, plus_55, reconcile_br,
  normalize_international, normalize_local, normalize_phone,
}

abbrev pub AllDigits : Text → Type 0
AllDigits = All (λ c. is_digit c ≡ true)

keep_digits-AllDigits : (s : Text) → AllDigits (keep_digits s)
keep_digits-AllDigits [] = tt
keep_digits-AllDigits (c ∷ s) = elim (Bool-cases (is_digit c)) [
  | inl e ↦ rw e (e, keep_digits-AllDigits s)
  | inr e ↦ rw e (keep_digits-AllDigits s)
]

keep_digits_same : (s : Text) → AllDigits s → keep_digits s ≡ s
keep_digits_same [] h = refl
keep_digits_same (c ∷ s) h = ground (arith, keep_digits_same s h.1)

take-append-drop : (n : ℕ) (s : Text) → take n s ++ drop n s ≡ s
take-append-drop zero s = refl
take-append-drop (suc n) [] = refl
take-append-drop (suc n) (c ∷ s) = rw (take-append-drop n s)

All-take : (P : ℕ → Type 0) (n : ℕ) (s : Text) → All P s → All P (take n s)
All-take P zero s h = tt
All-take P (suc n) [] h = tt
All-take P (suc n) (c ∷ s) h = (h.0, All-take P n s h.1)

All-drop : (P : ℕ → Type 0) (n : ℕ) (s : Text) → All P s → All P (drop n s)
All-drop P zero s h = h
All-drop P (suc n) [] h = tt
All-drop P (suc n) (c ∷ s) h = All-drop P n s h.1

-- A number that the international branch leaves as it is.
record IsStable (q : Text) : Type 0 where
  digits : Text
  written : q ≡ b'+' ∷ digits
  are_digits : AllDigits digits
  some_digit : length digits ≢ 0
  fixed : normalize_international digits ≡ q

-- Thirteen digits: the canonical mobile.
IsStable-11 : (rest : Text) → AllDigits rest → length rest ≡ 11 → IsStable (plus_55 rest)
unfolding normalize_international
IsStable-11 rest h n = record {
  digits = b'5' ∷ b'5' ∷ rest;
  written = refl;
  are_digits = (refl, (refl, h));
  some_digit = omega arith;
  fixed = ground arith;
}

reconciled_mobile :
    (dd local : Text)
    → length local ≡ 8
    → is_mobile_start local ≡ true
    → reconcile_br dd local ≡ plus_55 (dd ++ (b'9' ∷ local))
unfolding reconcile_br
reconciled_mobile dd local n m = ground arith

reconciled_landline :
    (dd local : Text)
    → is_mobile_start local ≡ false
    → reconcile_br dd local ≡ plus_55 (dd ++ local)
unfolding reconcile_br
reconciled_landline dd local m = ground arith

IsStable-landline :
    (a b : ℕ) (local : Text)
    → AllDigits (a ∷ b ∷ local)
    → length local ≡ 8
    → is_mobile_start local ≡ false
    → IsStable (plus_55 (a ∷ b ∷ local))
unfolding normalize_international
IsStable-landline a b local h n m = record {
  digits = b'5' ∷ b'5' ∷ a ∷ b ∷ local;
  written = refl;
  are_digits = (refl, (refl, h));
  some_digit = omega arith;
  fixed = ground arith;
}

IsStable-reconciled :
    (dd local : Text)
    → AllDigits dd
    → AllDigits local
    → length dd ≡ 2
    → length local ≡ 8
    → IsStable (reconcile_br dd local)
IsStable-reconciled [] local hd hl nd nl = absurd (omega arith)
IsStable-reconciled (a ∷ []) local hd hl nd nl = absurd (omega arith)
IsStable-reconciled (a ∷ b ∷ []) local hd hl nd nl = elim (Bool-cases (is_mobile_start local)) [
  | inl m ↦
      subst IsStable (sym (reconciled_mobile (a ∷ b ∷ []) local nl m))
        (IsStable-11 (a ∷ b ∷ b'9' ∷ local) (hd.0, (hd.1.0, (refl, hl))) (omega arith))
  | inr m ↦
      subst IsStable (sym (reconciled_landline (a ∷ b ∷ []) local m))
        (IsStable-landline a b local (hd.0, (hd.1.0, hl)) nl m)
]
IsStable-reconciled (a ∷ b ∷ c ∷ dd) local hd hl nd nl = absurd (omega arith)

length-take_2 : (s : Text) → length s ≡ 10 → (length (take 2 s) ≡ 2) × (length (drop 2 s) ≡ 8)
length-take_2 [] h = absurd (omega arith)
length-take_2 (a ∷ []) h = absurd (omega arith)
length-take_2 (a ∷ b ∷ s) h = (refl, omega arith)

IsStable-10 :
    (s : Text) → AllDigits s → length s ≡ 10 → IsStable (reconcile_br (take 2 s) (drop 2 s))
IsStable-10 s h n =
    IsStable-reconciled (take 2 s) (drop 2 s) (All-take _ 2 s h) (All-drop _ 2 s h)
      (length-take_2 s n).0 (length-take_2 s n).1

-- Any other number with a `+` keeps its digits.
IsStable-other :
    (digits : Text)
    → AllDigits digits
    → length digits ≢ 0
    → normalize_international digits ≡ b'+' ∷ digits
    → IsStable (b'+' ∷ digits)
IsStable-other digits h n e = record {
  digits = digits;
  written = refl;
  are_digits = h;
  some_digit = n;
  fixed = e;
}

starts_with_55_eq : (d : Text) → starts_with_55 d ≡ true → d ≡ b'5' ∷ b'5' ∷ drop 2 d
starts_with_55_eq [] h = cc
starts_with_55_eq (a ∷ []) h = cc
starts_with_55_eq (a ∷ b ∷ s) h = ground arith

-- The branches of a number with a `+`.
data International (d : Text) : Type 0 where
  mobile : length (drop 2 d) ≡ 11 → normalize_international d ≡ plus_55 (drop 2 d) → International d
  short :
      length (drop 2 d) ≡ 10
      → normalize_international d ≡ reconcile_br (take 2 (drop 2 d)) (drop 2 (drop 2 d))
      → International d
  kept : normalize_international d ≡ b'+' ∷ d → International d

International-branch : (d : Text) → International d
unfolding normalize_international
International-branch d = elim (Bool-cases (starts_with_55 d)) [
  | inr e ↦ kept (rw e)
  | inl e ↦ elim (Bool-cases (length (drop 2 d) == 11)) [
    | inl n ↦ mobile (ground arith) (rw (e, n))
    | inr n ↦ elim (Bool-cases (length (drop 2 d) == 10)) [
      | inl m ↦ short (ground arith) (rw (e, n, m))
      | inr m ↦ kept (rw (e, n, m))
    ]
  ]
]

international-IsStable :
    (digits : Text)
    → AllDigits digits
    → length digits ≢ 0
    → IsStable (normalize_international digits)
international-IsStable digits h n = elim (International-branch digits) [
  | mobile l e ↦ subst IsStable (sym e) (IsStable-11 (drop 2 digits) (All-drop _ 2 digits h) l)
  | short l e ↦ subst IsStable (sym e) (IsStable-10 (drop 2 digits) (All-drop _ 2 digits h) l)
  | kept e ↦ subst IsStable (sym e) (IsStable-other digits h n e)
]

-- The branches of a number without one.
data Local (d : Text) : Type 0 where
  full : length (drop 2 d) ≡ 11 → normalize_local d ≡ some (plus_55 (drop 2 d)) → Local d
  full_short :
      length (drop 2 d) ≡ 10
      → normalize_local d ≡ some (reconcile_br (take 2 (drop 2 d)) (drop 2 (drop 2 d)))
      → Local d
  mobile : length d ≡ 11 → normalize_local d ≡ some (plus_55 d) → Local d
  short : length d ≡ 10 → normalize_local d ≡ some (reconcile_br (take 2 d) (drop 2 d)) → Local d
  refused : normalize_local d ≡ none → Local d

length-drop_2 : (n : ℕ) (d : Text) → length d ≡ suc (suc n) → length (drop 2 d) ≡ n
length-drop_2 n [] h = absurd (omega arith)
length-drop_2 n (a ∷ []) h = absurd (omega arith)
length-drop_2 n (a ∷ b ∷ d) h = omega arith

Local-branch : (d : Text) → Local d
unfolding normalize_local
Local-branch d = elim (Bool-cases ((length d == 13) && starts_with_55 d)) [
  | inl a ↦
      full (length-drop_2 11 d (ground arith))
        (rw a (ap (λ s. some (b'+' ∷ s)) (starts_with_55_eq d (ground arith))))
  | inr a ↦ elim (Bool-cases ((length d == 12) && starts_with_55 d)) [
    | inl b ↦ full_short (length-drop_2 10 d (ground arith)) (rw (a, b))
    | inr b ↦ elim (Bool-cases (length d == 11)) [
      | inl c ↦ mobile (ground arith) (rw (a, b, c))
      | inr c ↦ elim (Bool-cases (length d == 10)) [
        | inl e ↦ short (ground arith) (rw (a, b, c, e))
        | inr e ↦ refused (rw (a, b, c, e))
      ]
    ]
  ]
]

local-IsStable : (digits q : Text) → AllDigits digits → normalize_local digits ≡ some q → IsStable q
local-IsStable digits q h e = elim (Local-branch digits) [
  | full l p ↦
      subst IsStable (eq_of_some (sym p ∙ e))
        (IsStable-11 (drop 2 digits) (All-drop _ 2 digits h) l)
  | full_short l p ↦
      subst IsStable (eq_of_some (sym p ∙ e))
        (IsStable-10 (drop 2 digits) (All-drop _ 2 digits h) l)
  | mobile l p ↦ subst IsStable (eq_of_some (sym p ∙ e)) (IsStable-11 digits h l)
  | short l p ↦ subst IsStable (eq_of_some (sym p ∙ e)) (IsStable-10 digits h l)
  | refused p ↦ cc
]

-- A stable number is a normal form of the whole function.
IsStable-normalize : (q : Text) → IsStable q → normalize_phone q ≡ some q
unfolding normalize_phone is_space
IsStable-normalize q h =
    subst (λ t. normalize_phone t ≡ some t) (sym h.written)
      (go h.digits h.are_digits h.some_digit (h.fixed ∙ h.written))
  where
    go :
        (d : Text)
        → AllDigits d
        → length d ≢ 0
        → normalize_international d ≡ b'+' ∷ d
        → normalize_phone (b'+' ∷ d) ≡ some (b'+' ∷ d)
    go d hd n e = rw (keep_digits_same d hd) (ground arith)

phone_branch :
    (phone q : Text)
    → normalize_phone phone ≡ some q
    → (length (keep_digits phone) ≢ 0)
      × ((normalize_international (keep_digits phone) ≡ q)
          ⊎ (normalize_local (keep_digits phone) ≡ some q))
unfolding normalize_phone
phone_branch phone q h = ground arith

normalized-IsStable : (phone q : Text) → normalize_phone phone ≡ some q → IsStable q
normalized-IsStable phone q h =
    let digits = keep_digits phone in
    let (n, branch) = phone_branch phone q h in
    elim branch [
      | inl e ↦ subst IsStable e (international-IsStable digits (keep_digits-AllDigits phone) n)
      | inr e ↦ local-IsStable digits q (keep_digits-AllDigits phone) e
    ]

-- A number that is normalized is a normal form: normalizing it again changes nothing.
pub normalize_phone_idem :
    (phone q : Text) → normalize_phone phone ≡ some q → normalize_phone q ≡ some q
normalize_phone_idem phone q h = IsStable-normalize q (normalized-IsStable phone q h)

-- What is normalized is a `+` and then digits, at least one.
pub normalize_phone_shape :
    (phone q : Text)
    → normalize_phone phone ≡ some q
    → (digits : Text) × (q ≡ b'+' ∷ digits) × AllDigits digits × (length digits ≢ 0)
normalize_phone_shape phone q h =
    let s = normalized-IsStable phone q h in (s.digits, s.written, s.are_digits, s.some_digit)
