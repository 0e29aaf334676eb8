-- ===== src/Identity/Ownership.antt =====
-- Which identifiers are active aliases of a lead, in the tables of apps/edge/src/lib/lead-resolver.ts,
-- and what inserting and superseding rows makes of it.
use globaltracker.Prelude.{
  ℕ, ◌≡◌, refl, ap, inl, inr, Bool, true, false, ◌&&◌, ◌||◌, List, [], ◌∷◌, ◌++◌, Option, Text,
  text_eq, text_eq_refl, any, All, select, update, arith, Bool-cases,
}
use globaltracker.Identity.Types.{IdentifierType, type_eq, Alias, Resolved}
use globaltracker.Identity.Resolver.{
  has_identifier, holds, is_for, superseded, submitted, is_replaced,
}

pub type_eq-sym : (a b : IdentifierType) → type_eq a b ≡ type_eq b a
type_eq-sym IdentifierType.email_hash IdentifierType.email_hash = refl
type_eq-sym IdentifierType.email_hash IdentifierType.phone_hash = refl
type_eq-sym IdentifierType.email_hash IdentifierType.external_id_hash = refl
type_eq-sym IdentifierType.email_hash IdentifierType.lead_token_id = refl
type_eq-sym IdentifierType.phone_hash IdentifierType.email_hash = refl
type_eq-sym IdentifierType.phone_hash IdentifierType.phone_hash = refl
type_eq-sym IdentifierType.phone_hash IdentifierType.external_id_hash = refl
type_eq-sym IdentifierType.phone_hash IdentifierType.lead_token_id = refl
type_eq-sym IdentifierType.external_id_hash IdentifierType.email_hash = refl
type_eq-sym IdentifierType.external_id_hash IdentifierType.phone_hash = refl
type_eq-sym IdentifierType.external_id_hash IdentifierType.external_id_hash = refl
type_eq-sym IdentifierType.external_id_hash IdentifierType.lead_token_id = refl
type_eq-sym IdentifierType.lead_token_id IdentifierType.email_hash = refl
type_eq-sym IdentifierType.lead_token_id IdentifierType.phone_hash = refl
type_eq-sym IdentifierType.lead_token_id IdentifierType.external_id_hash = refl
type_eq-sym IdentifierType.lead_token_id IdentifierType.lead_token_id = refl

eq_of_type_eq : (a b : IdentifierType) → type_eq a b ≡ true → a ≡ b
eq_of_type_eq IdentifierType.email_hash IdentifierType.email_hash h = refl
eq_of_type_eq IdentifierType.email_hash IdentifierType.phone_hash h = cc h
eq_of_type_eq IdentifierType.email_hash IdentifierType.external_id_hash h = cc h
eq_of_type_eq IdentifierType.email_hash IdentifierType.lead_token_id h = cc h
eq_of_type_eq IdentifierType.phone_hash IdentifierType.email_hash h = cc h
eq_of_type_eq IdentifierType.phone_hash IdentifierType.phone_hash h = refl
eq_of_type_eq IdentifierType.phone_hash IdentifierType.external_id_hash h = cc h
eq_of_type_eq IdentifierType.phone_hash IdentifierType.lead_token_id h = cc h
eq_of_type_eq IdentifierType.external_id_hash IdentifierType.email_hash h = cc h
eq_of_type_eq IdentifierType.external_id_hash IdentifierType.phone_hash h = cc h
eq_of_type_eq IdentifierType.external_id_hash IdentifierType.external_id_hash h = refl
eq_of_type_eq IdentifierType.external_id_hash IdentifierType.lead_token_id h = cc h
eq_of_type_eq IdentifierType.lead_token_id IdentifierType.email_hash h = cc h
eq_of_type_eq IdentifierType.lead_token_id IdentifierType.phone_hash h = cc h
eq_of_type_eq IdentifierType.lead_token_id IdentifierType.external_id_hash h = cc h
eq_of_type_eq IdentifierType.lead_token_id IdentifierType.lead_token_id h = refl

pub type_eq_refl : (a : IdentifierType) → type_eq a a ≡ true
type_eq_refl IdentifierType.email_hash = refl
type_eq_refl IdentifierType.phone_hash = refl
type_eq_refl IdentifierType.external_id_hash = refl
type_eq_refl IdentifierType.lead_token_id = refl

-- An identifier is an active alias of the lead.
abbrev pub Owned : Text → Text → List Alias → Resolved → Type 0
Owned workspace_id lead_id rows r =
    has_identifier (select (holds lead_id workspace_id) rows) r.identifier_type r.identifier_hash
    ≡ true

abbrev pub Owns : Text → Text → List Resolved → List Alias → Type 0
Owns workspace_id lead_id resolved rows = All (Owned workspace_id lead_id rows) resolved

-- No two identifiers have one type.
abbrev pub TypesDistinct : List Resolved → Type 0
TypesDistinct [] = Unit
TypesDistinct (r ∷ rs) =
    All (λ x. type_eq r.identifier_type x.identifier_type ≡ false) rs × TypesDistinct rs

pub has-append :
    (p : Alias → Bool) (xs ys : List Alias) (t : IdentifierType) (h : Text)
    → has_identifier (select p (xs ++ ys)) t h
      ≡ (has_identifier (select p xs) t h || has_identifier (select p ys) t h)
has-append p [] ys t h = refl
has-append p (x ∷ xs) ys t h = elim (Bool-cases (p x)) [
  | inl e ↦ rw (e, has-append p xs ys t h) (ground arith)
  | inr e ↦ rw (e, has-append p xs ys t h)
]

abbrev pub same_as : Resolved → Resolved → Bool
same_as r x =
    type_eq x.identifier_type r.identifier_type && text_eq x.identifier_hash r.identifier_hash

module _ (workspace_id lead_id : Text) (now : ℕ) (event_time : Option ℕ) where
  pub has-submitted :
      (new : List Resolved) (r : Resolved)
      → any (same_as r) new ≡ true
      → Owned workspace_id lead_id (submitted workspace_id now lead_id new) r
  has-submitted [] r h = cc h
  has-submitted (x ∷ xs) r h =
      rw (text_eq_refl lead_id, text_eq_refl workspace_id)
        (elim (Bool-cases (same_as r x)) [
          | inl e ↦ rw e
          | inr e ↦ rw e (has-submitted xs r (ground (arith, h, e)))
        ])

  abbrev hit : Resolved → Alias → Bool
  hit r x =
      type_eq x.identifier_type r.identifier_type && text_eq x.identifier_hash r.identifier_hash

  missed :
      (new : List Resolved) (r : Resolved) (x : Alias)
      → any (is_for r.identifier_type) new ≡ false
      → any (is_for x.identifier_type) new ≡ true
      → hit r x ≡ false
  missed new r x n y = elim (Bool-cases (type_eq x.identifier_type r.identifier_type)) [
    | inl e ↦
        let same = ap (λ t. any (is_for t) new) (eq_of_type_eq _ _ e) in absurd (cc (same, n, y))
    | inr e ↦ rw e
  ]

  unheld : (x : Alias) → holds lead_id workspace_id (superseded x) ≡ false
  unheld x = ground arith

  -- What is owned with a row is owned by the row or by the rest.
  rest_has :
      (rows : List Alias) (r : Resolved) (x : Alias)
      → hit r x ≡ false
      → Owned workspace_id lead_id (x ∷ rows) r
      → Owned workspace_id lead_id rows r
  rest_has rows r x m h = elim (Bool-cases (holds lead_id workspace_id x)) [
    | inl e ↦ ground (arith, h, e, m)
    | inr e ↦ ground (arith, h, e)
  ]

  past_unheld :
      (rows : List Alias) (r : Resolved) (x : Alias)
      → holds lead_id workspace_id x ≡ false
      → Owned workspace_id lead_id rows r
      → Owned workspace_id lead_id (x ∷ rows) r
  past_unheld rows r x e h = rw e h

  -- An alias whose type no new identifier has outlives the replacement.
  pub has-replaced :
      (new : List Resolved) (rows : List Alias) (r : Resolved)
      → any (is_for r.identifier_type) new ≡ false
      → Owned workspace_id lead_id rows r
      → Owned workspace_id lead_id
          (update (is_replaced workspace_id now event_time lead_id new) superseded rows)
          r
  has-replaced new [] r n h = h
  has-replaced new (x ∷ xs) r n h = elim (Bool-cases (holds lead_id workspace_id x)) [
    | inl e ↦ elim (Bool-cases (any (is_for x.identifier_type) new)) [
      | inl y ↦
          rw (e, y)
            (past_unheld _ r (superseded x) (unheld x)
              (has-replaced new xs r n (rest_has xs r x (missed new r x n y) h)))
      | inr y ↦ elim (Bool-cases (hit r x)) [
        | inl g ↦ rw (e, y, e, g)
        | inr g ↦ rw (e, y, e, g) (has-replaced new xs r n (rest_has xs r x g h))
      ]
    ]
    | inr e ↦ rw (e, e) (has-replaced new xs r n (ground (arith, h, e)))
  ]
