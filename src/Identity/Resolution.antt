-- ===== src/Identity/Resolution.antt =====
-- `resolveLeadByAliases` of apps/edge/src/lib/lead-resolver.ts as a whole: the identifiers of the
-- request and the lead that the call returns.
use globaltracker.Prelude.{
  ℕ, ◌≡◌, refl, subst, inl, inr, false, ◌&&◌, List, [], ◌∷◌, ◌++◌, Option, none, some, Text,
  is_empty, Bool-cases, eq_of_some,
}
use globaltracker.Identity.Types.{
  IdentifierType, type_eq, Store, Resolved, ResolveResult, ok, Input,
}
use globaltracker.Identity.Merging.{
  hash_email, hash_phone, hash_external_id, hashed, resolve_valid, hash_identifiers,
  resolve_lead_by_aliases,
}
use globaltracker.Identity.Normalize.{normalize_phone}
use globaltracker.Identity.Ownership.{Owns, TypesDistinct}
use globaltracker.Identity.Settling.{resolve_hashed-Settled}

-- At most one identifier, and that of the type.
abbrev Only : IdentifierType → List Resolved → Type 0
Only t [] = Unit
Only t (a ∷ []) = a.identifier_type ≡ t
Only t (a ∷ b ∷ rest) = ⊥

types_apart :
    (a b : Resolved) (t u : IdentifierType)
    → type_eq t u ≡ false
    → a.identifier_type ≡ t
    → b.identifier_type ≡ u
    → type_eq a.identifier_type b.identifier_type ≡ false
types_apart a b t u n h k = rw (h, k, n)

parts-TypesDistinct :
    (es ps xs : List Resolved)
    → Only IdentifierType.email_hash es
    → Only IdentifierType.phone_hash ps
    → Only IdentifierType.external_id_hash xs
    → TypesDistinct (es ++ (ps ++ xs))
parts-TypesDistinct [] [] [] he hp hx = tt
parts-TypesDistinct [] [] (x ∷ []) he hp hx = (tt, tt)
parts-TypesDistinct [] (p ∷ []) [] he hp hx = (tt, tt)
parts-TypesDistinct [] (p ∷ []) (x ∷ []) he hp hx = (
  (types_apart p x IdentifierType.phone_hash IdentifierType.external_id_hash refl hp hx, tt),
  (tt, tt),
)
parts-TypesDistinct (e ∷ []) [] [] he hp hx = (tt, tt)
parts-TypesDistinct (e ∷ []) [] (x ∷ []) he hp hx = (
  (types_apart e x IdentifierType.email_hash IdentifierType.external_id_hash refl he hx, tt),
  (tt, tt),
)
parts-TypesDistinct (e ∷ []) (p ∷ []) [] he hp hx =
    ((types_apart e p IdentifierType.email_hash IdentifierType.phone_hash refl he hp, tt), (tt, tt))
parts-TypesDistinct (e ∷ []) (p ∷ []) (x ∷ []) he hp hx = (
  (
    types_apart e p IdentifierType.email_hash IdentifierType.phone_hash refl he hp,
    (types_apart e x IdentifierType.email_hash IdentifierType.external_id_hash refl he hx, tt),
  ),
  (
    (types_apart p x IdentifierType.phone_hash IdentifierType.external_id_hash refl hp hx, tt),
    (tt, tt),
  ),
)
parts-TypesDistinct (a ∷ b ∷ rest) ps xs hs hp hx = absurd hs
parts-TypesDistinct [] (a ∷ b ∷ rest) xs he hs hx = absurd hs
parts-TypesDistinct (e ∷ []) (a ∷ b ∷ rest) xs he hs hx = absurd hs
parts-TypesDistinct [] [] (c ∷ d ∷ rest) he hp hs = absurd hs
parts-TypesDistinct [] (p ∷ []) (c ∷ d ∷ rest) he hp hs = absurd hs
parts-TypesDistinct (e ∷ []) [] (c ∷ d ∷ rest) he hp hs = absurd hs
parts-TypesDistinct (e ∷ []) (p ∷ []) (c ∷ d ∷ rest) he hp hs = absurd hs

module _ (sha256 to_lower_case : Text → Text) (workspace_id : Text) where
  email_Only :
      (email : Text)
      → Only IdentifierType.email_hash (hash_email sha256 to_lower_case workspace_id email)
  email_Only [] = tt
  email_Only (c ∷ email) = refl

  external_id_Only :
      (id : Text)
      → Only IdentifierType.external_id_hash (hash_external_id sha256 to_lower_case workspace_id id)
  external_id_Only [] = tt
  external_id_Only (c ∷ id) = refl

  phone_Only :
      (phone : Text) (ps : List Resolved)
      → hash_phone sha256 to_lower_case workspace_id phone ≡ some ps
      → Only IdentifierType.phone_hash ps
  phone_Only [] ps h = subst (Only IdentifierType.phone_hash) (eq_of_some h) tt
  phone_Only (c ∷ phone) ps h = go (normalize_phone (c ∷ phone)) h
    where
      go :
          (o : Option Text)
          → (elim o as (λ _. Option (List Resolved)) [
            | none ↦ none
            | some q ↦
                some (hashed sha256 to_lower_case workspace_id IdentifierType.phone_hash q ∷ [])
          ])
            ≡ some ps
          → Only IdentifierType.phone_hash ps
      go none e = absurd (cc e)
      go (some q) e = subst (Only IdentifierType.phone_hash) (eq_of_some e) refl

  hash_identifiers-TypesDistinct :
      (input : Input) (resolved : List Resolved)
      → hash_identifiers sha256 to_lower_case workspace_id input ≡ some resolved
      → TypesDistinct resolved
  unfolding hash_identifiers
  hash_identifiers-TypesDistinct input resolved h =
      go (hash_phone sha256 to_lower_case workspace_id input.phone) refl h
    where
      es : List Resolved
      es = hash_email sha256 to_lower_case workspace_id input.email

      xs : List Resolved
      xs = hash_external_id sha256 to_lower_case workspace_id input.external_id

      go :
          (o : Option (List Resolved))
          → hash_phone sha256 to_lower_case workspace_id input.phone ≡ o
          → (elim o as (λ _. Option (List Resolved)) [
            | none ↦ none
            | some ps ↦ some (es ++ (ps ++ xs))
          ])
            ≡ some resolved
          → TypesDistinct resolved
      go none e g = absurd (cc g)
      go (some ps) e g = subst TypesDistinct (eq_of_some g) (
          parts-TypesDistinct es ps xs (email_Only input.email) (phone_Only input.phone ps e)
            (external_id_Only input.external_id))

  -- Where a call succeeds, the identifiers of the request are hashed, and each of them is an active
  -- alias of the lead that the call returns: created, updated or merged.
  pub resolve_lead_by_aliases-Owns :
      (now : ℕ) (event_time : Option ℕ) (new_id : Text) (input : Input) (s : Store)
      (r : ResolveResult)
      → (resolve_lead_by_aliases sha256 to_lower_case workspace_id now event_time new_id input s).0
        ≡ ok r
      → (resolved : List Resolved) × (hash_identifiers sha256 to_lower_case workspace_id input
          ≡ some resolved)
        × Owns workspace_id r.lead_id resolved
            (resolve_lead_by_aliases sha256 to_lower_case workspace_id now event_time new_id input
              s).1.aliases
  unfolding resolve_lead_by_aliases
  resolve_lead_by_aliases-Owns now event_time new_id input s r =
      elim (Bool-cases
        (is_empty input.email && (is_empty input.phone && is_empty input.external_id))) [
          | inl e ↦ rw e (λ h. absurd (cc h))
          | inr e ↦
              rw e (hashed_run (hash_identifiers sha256 to_lower_case workspace_id input) refl)
        ]
    where
      hashed_run :
          (o : Option (List Resolved))
          → hash_identifiers sha256 to_lower_case workspace_id input ≡ o
          → (resolve_valid workspace_id now event_time new_id o s).0 ≡ ok r
          → (resolved : List Resolved) × (o ≡ some resolved)
            × Owns workspace_id r.lead_id resolved
                (resolve_valid workspace_id now event_time new_id o s).1.aliases
      hashed_run none e h = absurd (cc h)
      hashed_run (some resolved) e h = (
        resolved,
        refl,
        resolve_hashed-Settled workspace_id now event_time resolved
            (hash_identifiers-TypesDistinct input resolved e) new_id s r h,
      )
