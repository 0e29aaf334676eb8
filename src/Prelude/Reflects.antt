-- ===== src/Prelude/Reflects.antt =====
-- What the Boolean tests decide: each lemma says that a test is true exactly where a statement holds.
use mathlib.Core.Path.{◌≡◌, refl, sym, ◌∙◌, ap, subst}
use mathlib.Core.Logic.{◌↔◌, inl, inr}
use mathlib.Core.Bool.{Bool, true, false, not, ◌&&◌}
use mathlib.Core.List.{List, [], ◌∷◌, Memᴰ}
use mathlib.Core.List.Memᴰ
use native.Mathlib.Omega.{arith}
use globaltracker.Prelude.Tests.{Bool-cases}
use globaltracker.Prelude.Lists.{any, all, All}
use globaltracker.Prelude.Table.{select}
use globaltracker.Prelude.Texts.{Text, text_eq, text_eq_refl, eq_of_text_eq}

pub text_eq_iff : (s t : Text) → (text_eq s t ≡ true) ↔ (s ≡ t)
text_eq_iff s t = (eq_of_text_eq s t, λ e. subst (λ u. text_eq s u ≡ true) e (text_eq_refl s))

pub and_iff :
    {P Q : Type 0} (a b : Bool) → (a ≡ true) ↔ P → (b ≡ true) ↔ Q → (a && b ≡ true) ↔ (P × Q)
and_iff true b f g = (λ h. (f.0 refl, g.0 h), λ h. g.1 h.1)
and_iff false b f g = (λ h. cc, λ h. f.1 h.0)

pub false_of : false ≡ true → ⊥
false_of h = cc

pub not_iff : {P : Type 0} (a : Bool) → (a ≡ true) ↔ P → (not a ≡ true) ↔ (¬ P)
not_iff true f = (λ h. cc, λ h. absurd (h (f.0 refl)))
not_iff false f = (λ h p. false_of (f.1 p), λ h. refl)

module _ {R : Type 0} (p : R → Bool) where
  pub any_iff :
      {P : R → Type 0}
      → ((r : R) → (p r ≡ true) ↔ P r)
      → (rs : List R) → (any p rs ≡ true) ↔ ((r : R) × Memᴰ r rs × P r)
  any_iff f [] = (λ h. cc, λ h. absurd (Memᴰ.not-nil h.1))
  any_iff {P} f (r ∷ rs) = (
    λ h. elim (Bool-cases (p r)) [
      | inl e ↦ (r, Memᴰ.head refl, (f r).0 e)
      | inr e ↦ let t = (any_iff f rs).0 (ground arith) in (t.0, Memᴰ.tail t.1, t.2)
    ],
    λ h. elim (Memᴰ.cases_cons h.1) [
      | inl e ↦ ground (arith, (f r).1 (subst P e h.2))
      | inr m ↦ ground (arith, (any_iff f rs).1 (h.0, m, h.2))
    ],
  )

  pub all_iff :
      {P : R → Type 0}
      → ((r : R) → (p r ≡ true) ↔ P r)
      → (rs : List R) → (all p rs ≡ true) ↔ All P rs
  all_iff f [] = (λ h. tt, λ h. refl)
  all_iff f (r ∷ rs) = and_iff (p r) (all p rs) (f r) (all_iff f rs)

  pub mem_select : (rs : List R) (x : R) → Memᴰ x (select p rs) ↔ (Memᴰ x rs × (p x ≡ true))
  mem_select [] x = (λ h. absurd (Memᴰ.not-nil h), λ h. absurd (Memᴰ.not-nil h.0))
  mem_select (r ∷ rs) x = elim (Bool-cases (p r)) [
    | inl e ↦ rw e (
      λ h. elim (Memᴰ.cases_cons h) [
        | inl q ↦ (Memᴰ.head q, ap p q ∙ e)
        | inr m ↦ let t = (mem_select rs x).0 m in (Memᴰ.tail t.0, t.1)
      ],
      λ h. elim (Memᴰ.cases_cons h.0) [
        | inl q ↦ Memᴰ.head q
        | inr m ↦ Memᴰ.tail ((mem_select rs x).1 (m, h.1))
      ],
    )
    | inr e ↦ rw e (
      λ h. let t = (mem_select rs x).0 h in (Memᴰ.tail t.0, t.1),
      λ h. elim (Memᴰ.cases_cons h.0) [
        | inl q ↦ absurd (false_of (sym e ∙ (sym (ap p q) ∙ h.1)))
        | inr m ↦ (mem_select rs x).1 (m, h.1)
      ],
    )
  ]
