-- ===== src/Dispatch/Blank.antt =====
-- What the tests of apps/edge/src/lib/dispatch.ts on a skip reason make sure of.
use mathlib.Core.List.{reverse-cons}
use globaltracker.Prelude.{
  any-append, ℕ, ◌≡◌, refl, sym, ◌∙◌, ap, Bool, true, false, not, Text, is_empty, trim, trim_start,
  is_space, Bool-cases, inl, inr, ◌⊎◌, [], ◌∷◌, reverse, any, arith,
}

-- A text that is not blank: some character of it is not white space.
abbrev pub HasVisible : Text → Type 0
HasVisible s = any (λ c. not (is_space c)) s ≡ true

apart : true ≡ false → ⊥
apart h = cc

any-reverse : (p : ℕ → Bool) (s : Text) → any p s ≡ true → any p (reverse s) ≡ true
any-reverse p [] h = h
any-reverse p (c ∷ s) h = elim (Bool-cases (p c)) [
  | inl e ↦ ap (any p) (reverse-cons c s) ∙ (any-append p (reverse s) (c ∷ []) ∙ ground (arith, e))
  | inr e ↦
      ap (any p) (reverse-cons c s)
      ∙ (any-append p (reverse s) (c ∷ [])
          ∙ ground (arith, e, any-reverse p s (ground (arith, e, h))))
]

trim_start-visible :
    (s : Text) → (trim_start s ≡ []) ⊎ (any (λ c. not (is_space c)) (trim_start s) ≡ true)
unfolding trim_start
trim_start-visible [] = inl refl
trim_start-visible (c ∷ s) = elim (Bool-cases (is_space c)) [
  | inl e ↦ rw e (trim_start-visible s)
  | inr e ↦ rw e (inr (rw e))
]

-- What is left of a text that is not blank is not blank.
pub trim-HasVisible : (s : Text) → is_empty (trim s) ≡ false → HasVisible (trim s)
unfolding trim
trim-HasVisible s h = elim (trim_start-visible (reverse (trim_start s))) [
  | inl e ↦ absurd (apart (sym (ap (λ t. is_empty (reverse t)) e) ∙ h))
  | inr v ↦ any-reverse (λ c. not (is_space c)) (trim_start (reverse (trim_start s))) v
]
