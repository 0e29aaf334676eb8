-- ===== src/Prelude/Texts.antt =====
-- Strings as lists of code units. Equality, `trim`, `join` and decimal printing as in JavaScript.
use Prim.Native.Nat.{ℕ, zero, suc, ◌+◌, ◌-◌, ◌*◌, ◌/◌, ◌%◌, ◌≤◌, ◌<◌}
use Prim.Native.Char.{code}
use Prim.Native.String.{String}
use mathlib.Core.Path.{◌≡◌, refl, ap, ◌∙◌}
use mathlib.Core.Logic.{◌≢◌, inl, inr}
use mathlib.Core.Bool.{Bool, true, false, ◌&&◌, ◌||◌}
use mathlib.Core.List.{List, [], ◌∷◌, ◌++◌, reverse}
use native.Mathlib.Omega.{arith}
use globaltracker.Prelude.Tests.{ltb, leb, ◌==◌, if◌then◌else◌, Bool-cases}

abbrev pub Text : Type 0
Text = List ℕ

abbrev pub codes : String → Text
codes String.[] = []
codes (String.◌∷◌ c s) = code c ∷ codes s

-- `a === b` on strings.
unfoldable pub text_eq : Text → Text → Bool
text_eq [] [] = true
text_eq [] (b ∷ t) = false
text_eq (a ∷ s) [] = false
text_eq (a ∷ s) (b ∷ t) = (a == b) && text_eq s t

pub text_eq_refl : (s : Text) → text_eq s s ≡ true
unfolding text_eq
text_eq_refl [] = refl
text_eq_refl (a ∷ s) = ground (arith, text_eq_refl s)

pub eq_of_text_eq : (s t : Text) → text_eq s t ≡ true → s ≡ t
unfolding text_eq
eq_of_text_eq [] [] h = refl
eq_of_text_eq [] (b ∷ t) h = cc
eq_of_text_eq (a ∷ s) [] h = cc
eq_of_text_eq (a ∷ s) (b ∷ t) h = ground (arith, eq_of_text_eq s t)

pub text_eq_of_ne : (s t : Text) → s ≢ t → text_eq s t ≡ false
text_eq_of_ne s t h = ground (arith, eq_of_text_eq s t)

pub text_eq-sym : (s t : Text) → text_eq s t ≡ text_eq t s
unfolding text_eq
text_eq-sym [] [] = refl
text_eq-sym [] (b ∷ t) = refl
text_eq-sym (a ∷ s) [] = refl
text_eq-sym (a ∷ s) (b ∷ t) = ground (arith, text_eq-sym s t)

-- The empty string is the falsy one.
abbrev pub is_empty : Text → Bool
is_empty [] = true
is_empty (c ∷ s) = false

-- White space and line ends, which `trim` removes.
unfoldable pub is_space : ℕ → Bool
is_space c =
    (leb 9 c && leb c 13)
    || (c == 32)
    || (c == 160)
    || (c == 5760)
    || (leb 8192 c && leb c 8202)
    || (c == 8232)
    || (c == 8233)
    || (c == 8239)
    || (c == 8287)
    || (c == 12288)
    || (c == 65279)

unfoldable pub trim_start : Text → Text
trim_start [] = []
trim_start (c ∷ s) = if is_space c then trim_start s else c ∷ s

unfoldable pub trim : Text → Text
unfolding trim_start is_space
trim s = reverse (trim_start (reverse (trim_start s)))

-- `parts.join(sep)`.
abbrev pub join : Text → List Text → Text
join sep [] = []
join sep (s ∷ []) = s
join sep (s ∷ t ∷ rest) = s ++ (sep ++ join sep (t ∷ rest))

-- The decimal digits of a number, in front of `acc`; `n + 1` rounds are more than it has digits.
abbrev decimal_from : ℕ → ℕ → Text → Text
decimal_from zero n acc = acc
decimal_from (suc f) n acc =
    let rest = decimal_from f (n / 10) ((b'0' + n % 10) ∷ acc) in
    if ltb n 10 then (b'0' + n) ∷ acc else rest

-- `${n}`.
unfoldable pub decimal : ℕ → Text
decimal n = decimal_from (suc n) n []

abbrev pub is_digit : ℕ → Bool
is_digit c = leb 48 c && leb c 57

abbrev pub all_digits : Text → Bool
all_digits [] = true
all_digits (c ∷ s) = is_digit c && all_digits s

digit_of_rest : (n : ℕ) → is_digit (48 + n % 10) ≡ true
digit_of_rest n = ground arith

decimal_from-digits :
    (f n : ℕ) (acc : Text) → all_digits acc ≡ true → all_digits (decimal_from f n acc) ≡ true
decimal_from-digits zero n acc h = h
decimal_from-digits (suc f) n acc h = elim (Bool-cases (ltb n 10)) [
  | inl e ↦ rw e (ground arith)
  | inr e ↦ rw e (decimal_from-digits f (n / 10) ((48 + n % 10) ∷ acc) (rw (digit_of_rest n) h))
]

-- A printed number has digits only.
pub decimal-digits : (n : ℕ) → all_digits (decimal n) ≡ true
unfolding decimal
decimal-digits n = decimal_from-digits (suc n) n [] refl

-- Reading digits, after a number that is read already.
abbrev pub number_from : ℕ → Text → ℕ
number_from n [] = n
number_from n (c ∷ s) = number_from (n * 10 + (c - 48)) s

digit_value : (n : ℕ) → 0 * 10 + (48 + n - 48) ≡ n
digit_value n = omega arith

put_together : (n : ℕ) → n / 10 * 10 + (48 + n % 10 - 48) ≡ n
put_together n = omega arith

number_from-decimal_from :
    (f n : ℕ) (acc : Text) → n < f → number_from 0 (decimal_from f n acc) ≡ number_from n acc
number_from-decimal_from zero n acc h = absurd (omega arith)
number_from-decimal_from (suc f) n acc h = elim (Bool-cases (ltb n 10)) [
  | inl e ↦ rw e (ap (λ m. number_from m acc) (digit_value n))
  | inr e ↦
      let large : (10 ≤ n) = ground arith in
      rw e (
        number_from-decimal_from f (n / 10) ((48 + n % 10) ∷ acc) (omega arith)
        ∙ ap (λ m. number_from m acc) (put_together n))
]

-- A printed number is read back.
pub number_from-decimal : (n : ℕ) → number_from 0 (decimal n) ≡ n
unfolding decimal
number_from-decimal n = number_from-decimal_from (suc n) n [] (omega arith)

decimal_status : decimal 503 ≡ codes "503"
unfolding decimal
decimal_status = refl

trim_example : trim (codes "  a b ") ≡ codes "a b"
unfolding trim
trim_example = refl
