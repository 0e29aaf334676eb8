-- ===== src/Identity/Evolution.antt =====
-- What the calls of apps/edge/src/lib/lead-resolver.ts may do to the tables: a relation of the store
-- before and after, and its rules for the database calls.
use globaltracker.Prelude.{
  ◌≡◌, refl, subst, ◌∙◌, ap, sym, ◌⊎◌, inl, inr, Bool, true, ◌≤◌, List, [], ◌∷◌, ◌++◌, Text,
  text_eq, update, arith, Bool-cases,
}
use globaltracker.Identity.Types.{
  Lead, Alias, Store, Result, ok, err, Db, ◌>>=◌, then_run, is_active,
}
use globaltracker.Identity.Insertions.{insert_aliases_cases}
use globaltracker.Identity.Resolver.{insert_aliases, holds, is_lead, superseded}

module _ (workspace_id : Text) where
  -- A lead keeps its identifier, its workspace and its first sight, is never seen earlier than
  -- before, and is not touched from another workspace.
  pub record LeadStep (x y : Lead) : Type 0 where
    pub same_id : y.id ≡ x.id
    pub same_workspace : y.workspace_id ≡ x.workspace_id
    pub same_first : y.first_seen_at ≡ x.first_seen_at
    pub last_grows : x.last_seen_at ≤ y.last_seen_at
    pub isolated : (text_eq x.workspace_id workspace_id ≡ true) ⊎ (y ≡ x)

  -- An alias stays as it is, or an active one of the workspace is superseded.
  abbrev pub AliasStep : Alias → Alias → Type 0
  AliasStep x y =
      (y ≡ x)
      ⊎ (text_eq x.workspace_id workspace_id ≡ true)
        × (is_active x.status ≡ true)
        × (y ≡ superseded x)

  -- The old rows, each after a step, and then the new ones.
  abbrev pub LeadsEvolve : List Lead → List Lead → Type 0
  LeadsEvolve [] ys = Unit
  LeadsEvolve (x ∷ xs) [] = ⊥
  LeadsEvolve (x ∷ xs) (y ∷ ys) = LeadStep x y × LeadsEvolve xs ys

  abbrev pub AliasesEvolve : List Alias → List Alias → Type 0
  AliasesEvolve [] ys = Unit
  AliasesEvolve (x ∷ xs) [] = ⊥
  AliasesEvolve (x ∷ xs) (y ∷ ys) = AliasStep x y × AliasesEvolve xs ys

  pub record Evolves (s t : Store) : Type 0 where
    pub leads : LeadsEvolve s.leads t.leads
    pub aliases : AliasesEvolve s.aliases t.aliases

  pub lead_same : (x : Lead) → LeadStep x x
  lead_same x = record {
    same_id = refl;
    same_workspace = refl;
    same_first = refl;
    last_grows = omega arith;
    isolated = inr refl;
  }

  lead_trans : (x y z : Lead) → LeadStep x y → LeadStep y z → LeadStep x z
  lead_trans x y z p q = record {
    same_id = q.same_id ∙ p.same_id;
    same_workspace = q.same_workspace ∙ p.same_workspace;
    same_first = q.same_first ∙ p.same_first;
    last_grows = omega (arith, p.last_grows, q.last_grows);
    isolated = isolated_trans p.isolated q.isolated;
  }
    where
      isolated_trans :
          (text_eq x.workspace_id workspace_id ≡ true) ⊎ (y ≡ x)
          → (text_eq y.workspace_id workspace_id ≡ true) ⊎ (z ≡ y)
          → (text_eq x.workspace_id workspace_id ≡ true) ⊎ (z ≡ x)
      isolated_trans (inl e) r = inl e
      isolated_trans (inr e) (inl f) =
          inl (ap (λ t. text_eq t workspace_id) (sym p.same_workspace) ∙ f)
      isolated_trans (inr e) (inr f) = inr (f ∙ e)

  alias_trans : (x y z : Alias) → AliasStep x y → AliasStep y z → AliasStep x z
  alias_trans x y z (inl p) (inl q) = inl (q ∙ p)
  alias_trans x y z (inl p) (inr (w, a, q)) = inr (
    ap (λ v. text_eq v.workspace_id workspace_id) (sym p) ∙ w,
    ap (λ v. is_active v.status) (sym p) ∙ a,
    q ∙ ap superseded p,
  )
  alias_trans x y z (inr (w, a, p)) (inl q) = inr (w, a, q ∙ p)
  alias_trans x y z (inr (w, a, p)) (inr (w', a', q)) = inr (w, a, q ∙ ap superseded p)

  pub leads_same : (xs ys : List Lead) → LeadsEvolve xs (xs ++ ys)
  leads_same [] ys = tt
  leads_same (x ∷ xs) ys = (lead_same x, leads_same xs ys)

  leads_trans : (xs ys zs : List Lead) → LeadsEvolve xs ys → LeadsEvolve ys zs → LeadsEvolve xs zs
  leads_trans [] ys zs p q = tt
  leads_trans (x ∷ xs) [] zs p q = absurd p
  leads_trans (x ∷ xs) (y ∷ ys) [] p q = absurd q
  leads_trans (x ∷ xs) (y ∷ ys) (z ∷ zs) p q =
      (lead_trans x y z p.0 q.0, leads_trans xs ys zs p.1 q.1)

  pub aliases_same : (xs ys : List Alias) → AliasesEvolve xs (xs ++ ys)
  aliases_same [] ys = tt
  aliases_same (x ∷ xs) ys = (inl refl, aliases_same xs ys)

  aliases_trans :
      (xs ys zs : List Alias) → AliasesEvolve xs ys → AliasesEvolve ys zs → AliasesEvolve xs zs
  aliases_trans [] ys zs p q = tt
  aliases_trans (x ∷ xs) [] zs p q = absurd p
  aliases_trans (x ∷ xs) (y ∷ ys) [] p q = absurd q
  aliases_trans (x ∷ xs) (y ∷ ys) (z ∷ zs) p q =
      (alias_trans x y z p.0 q.0, aliases_trans xs ys zs p.1 q.1)

  pub Evolves-refl : (s : Store) → Evolves s s
  Evolves-refl s = record { leads = leads_self s.leads; aliases = aliases_self s.aliases }
    where
      leads_self : (xs : List Lead) → LeadsEvolve xs xs
      leads_self [] = tt
      leads_self (x ∷ xs) = (lead_same x, leads_self xs)

      aliases_self : (xs : List Alias) → AliasesEvolve xs xs
      aliases_self [] = tt
      aliases_self (x ∷ xs) = (inl refl, aliases_self xs)

  pub Evolves-trans : {s t u : Store} → Evolves s t → Evolves t u → Evolves s u
  Evolves-trans {s} {t} {u} p q = record {
    leads = leads_trans s.leads t.leads u.leads p.leads q.leads;
    aliases = aliases_trans s.aliases t.aliases u.aliases p.aliases q.aliases;
  }

  -- Every run of the call is an evolution.
  abbrev pub Keeps : {A : Type 0} → Db A → Type 0
  Keeps m = (s : Store) → Evolves s (m s).1

  pub Keeps->>= :
      {A B : Type 0} (m : Db A) (f : A → Db B) → Keeps m → ((a : A) → Keeps (f a)) → Keeps (m >>= f)
  Keeps->>= {A} {B} m f p q s = go (m s).0 (p s)
    where
      go : (r : Result A) → Evolves s (m s).1 → Evolves s (then_run r f (m s).1).1
      go (ok a) e = Evolves-trans e (q a (m s).1)
      go (err x) e = e

  pub update_leads :
      (p : Lead → Bool) (f : Lead → Lead) (xs : List Lead)
      → ((x : Lead) → p x ≡ true → LeadStep x (f x))
      → LeadsEvolve xs (update p f xs)
  update_leads p f [] step = tt
  update_leads p f (x ∷ xs) step = elim (Bool-cases (p x)) [
    | inl e ↦ rw e (step x e, update_leads p f xs step)
    | inr e ↦ rw e (lead_same x, update_leads p f xs step)
  ]

  pub update_aliases :
      (p : Alias → Bool) (xs : List Alias)
      → ((x : Alias)
          → p x ≡ true
          → (text_eq x.workspace_id workspace_id ≡ true) × (is_active x.status ≡ true))
      → AliasesEvolve xs (update p superseded xs)
  update_aliases p [] step = tt
  update_aliases p (x ∷ xs) step = elim (Bool-cases (p x)) [
    | inl e ↦ rw e (inr ((step x e).0, (step x e).1, refl), update_aliases p xs step)
    | inr e ↦ rw e (inl refl, update_aliases p xs step)
  ]

  pub held :
      (lead_id : Text) (a : Alias)
      → holds lead_id workspace_id a ≡ true
      → (text_eq a.workspace_id workspace_id ≡ true) × (is_active a.status ≡ true)
  held lead_id a h = ground arith

  pub own_lead :
      (id : Text) (l : Lead)
      → is_lead id workspace_id l ≡ true
      → text_eq l.workspace_id workspace_id ≡ true
  own_lead id l h = ground arith

  pub insert_aliases-Keeps : (rows : List Alias) → Keeps (insert_aliases rows)
  insert_aliases-Keeps rows s = elim (insert_aliases_cases rows s) [
    | inl e ↦ subst (λ r. Evolves s r.1) (sym e) (Evolves-refl s)
    | inr e ↦
        subst (λ r. Evolves s r.1) (sym e)
          (record { leads = (Evolves-refl s).leads; aliases = aliases_same s.aliases rows })
  ]

  -- A write to the leads alone.
  pub write_leads :
      (s : Store) (ls : List Lead) → LeadsEvolve s.leads ls → Evolves s (record s { leads = ls })
  write_leads s ls h = record { leads = h; aliases = (Evolves-refl s).aliases }

  pub write_aliases :
      (s : Store) (rows : List Alias)
      → AliasesEvolve s.aliases rows
      → Evolves s (record s { aliases = rows })
  write_aliases s rows h = record { leads = (Evolves-refl s).leads; aliases = h }
