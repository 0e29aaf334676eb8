-- ===== src/Audience/Satisfaction.antt =====
-- What a query of apps/edge/src/lib/audience.ts asks of a lead, said without fragments of SQL.
use globaltracker.Prelude.{
  ◌≡◌, refl, sym, subst, inl, inr, Bool-cases, ◌↔◌, ◌≤◌, Bool, true, false, ◌&&◌, List, [], ◌∷◌,
  ◌++◌, Option, none, some, Text, codes, text_eq, any, all, All, select, text_eq_iff, and_iff,
  not_iff, any_iff, false_of, ◌∙◌, ◌⊎◌, all_iff, leb→le, le→leb, if◌then◌else◌, arith,
}
use mathlib.Core.List.{Memᴰ}
use mathlib.Core.List.Memᴰ
use globaltracker.Consent.Records.{LeadConsent, ConsentValue}
use globaltracker.Payload.Json.{Json}
use globaltracker.Audience.Types.{
  Condition, LeadStage, LeadIcpScore, Sources, Result, bind_ok, eq_of_ok,
}
use globaltracker.Audience.Evaluate.{
  Fragment, in_stages, is_icp_score, is_granted, is_of_lead, is_latest_grant, holds, first_of,
  eq_fragments, not_fragments, icp_fragments, purchased_fragments, from_stage, stage_in_fragments,
  gte_fragments, condition_fragments, query_fragments, requires_customer_match, consent_fragments,
}

-- In the order of a funnel, a stage is the target or comes after it.
pub Follows : List Text → Text → Text → Type 0
Follows [] target s = ⊥
Follows (x ∷ xs) target s =
    ((x ≡ target) × Memᴰ s (x ∷ xs)) ⊎ ((¬ (x ≡ target)) × Follows xs target s)

Follows-iff :
    (order : List Text) (target s : Text)
    → Memᴰ s (from_stage target order) ↔ Follows order target s
unfolding from_stage Follows
Follows-iff [] target s = (λ m. absurd (Memᴰ.not-nil m), λ h. absurd h)
Follows-iff (x ∷ xs) target s = elim (Bool-cases (text_eq x target)) [
  | inl e ↦ rw e (
    λ m. inl ((text_eq_iff x target).0 e, m),
    λ h. elim h [ inl t ↦ t.1 | inr t ↦ absurd (t.0 ((text_eq_iff x target).0 e)) ],
  )
  | inr e ↦
      let apart : (¬ (x ≡ target)) = λ q. false_of (sym e ∙ (text_eq_iff x target).1 q) in
      rw e (
        λ m. inr (apart, (Follows-iff xs target s).0 m),
        λ h. elim h [ inl t ↦ absurd (apart t.0) | inr t ↦ (Follows-iff xs target s).1 t.1 ],
      )
]

module _ (src : Sources) (lead_id : Text) where
  pub HasStageIn : List Text → Type 0
  HasStageIn names =
      (r : LeadStage) × Memᴰ r src.lead_stages
      × ((r.lead_id ≡ lead_id) × ((s : Text) × Memᴰ s names × (r.stage ≡ s)))

  abbrev pub HasStage : Text → Type 0
  HasStage s = HasStageIn (s ∷ [])

  abbrev pub Wants : Option Text → Type 0
  Wants none = Unit
  Wants (some s) = HasStage s

  abbrev pub Refuses : Option Text → Type 0
  Refuses none = Unit
  Refuses (some s) = ¬ HasStage s

  -- The target is a stage of the funnel, and the lead has it or a later one.
  abbrev pub Reaches : List Text → Option Text → Type 0
  Reaches order none = Unit
  Reaches order (some target) =
      (r : LeadStage) × Memᴰ r src.lead_stages
      × ((r.lead_id ≡ lead_id) × ((s : Text) × Follows order target s × (r.stage ≡ s)))

  abbrev pub IsIcp : Option Bool → Type 0
  IsIcp (some true) =
      (r : LeadIcpScore) × Memᴰ r src.lead_icp_scores × ((r.lead_id ≡ lead_id) × (r.is_icp ≡ true))
  IsIcp _ = Unit

  abbrev pub Purchased : Option Bool → Type 0
  Purchased none = Unit
  Purchased (some true) = HasStage (codes "purchased")
  Purchased (some false) = ¬ HasStage (codes "purchased")

  pub Satisfies : List Text → Condition → Type 0
  Satisfies order c =
      Wants (first_of c.stage_eq c.stage)
      × (Refuses (first_of c.stage_not c.not_stage)
          × (Reaches order c.stage_gte × (IsIcp c.is_icp × Purchased c.purchased)))

  -- Of the latest records of the lead, one grants customer match.
  pub Consents : Json → Type 0
  Consents policy =
      if requires_customer_match policy
      then ((r : LeadConsent) × Memᴰ r src.lead_consents
          × (((r.lead_id ≡ lead_id) × (r.consent_customer_match ≡ ConsentValue.granted))
              × All (λ (q : LeadConsent). q.ts ≤ r.ts)
                  (select (is_of_lead src lead_id) src.lead_consents)))
      else Unit

  in_stages_iff : (names : List Text) → (in_stages src lead_id names ≡ true) ↔ HasStageIn names
  unfolding HasStageIn
  in_stages_iff names =
      any_iff _
        (λ r.
          and_iff (text_eq r.lead_id lead_id) (any (text_eq r.stage) names)
            (text_eq_iff r.lead_id lead_id) (any_iff (text_eq r.stage) (text_eq_iff r.stage) names))
        src.lead_stages

  abbrev pub AllHold : List Fragment → Type 0
  AllHold fs = all (holds src lead_id) fs ≡ true

  pub all_append :
      (fs gs : List Fragment)
      → all (holds src lead_id) (fs ++ gs)
        ≡ (all (holds src lead_id) fs && all (holds src lead_id) gs)
  all_append [] gs = refl
  all_append (f ∷ fs) gs = ground (arith, all_append fs gs)

  pub append_iff :
      {P Q : Type 0} (fs gs : List Fragment)
      → AllHold fs ↔ P
      → AllHold gs ↔ Q
      → AllHold (fs ++ gs) ↔ (P × Q)
  append_iff {P} {Q} fs gs f g =
      subst (λ b. (b ≡ true) ↔ (P × Q)) (sym (all_append fs gs)) (and_iff _ _ f g)

  true_iff : {P : Type 0} (b : Bool) → (b ≡ true) ↔ P → (b && true ≡ true) ↔ P
  true_iff true f = f
  true_iff false f = f

  eq_iff : (o : Option Text) → AllHold (eq_fragments o) ↔ Wants o
  unfolding holds
  eq_iff none = (λ h. tt, λ h. refl)
  eq_iff (some s) = true_iff _ (in_stages_iff (s ∷ []))

  not_fragments_iff : (o : Option Text) → AllHold (not_fragments o) ↔ Refuses o
  unfolding holds
  not_fragments_iff none = (λ h. tt, λ h. refl)
  not_fragments_iff (some s) = true_iff _ (not_iff _ (in_stages_iff (s ∷ [])))

  IsIcp-iff : (o : Option Bool) → AllHold (icp_fragments o) ↔ IsIcp o
  unfolding holds
  IsIcp-iff none = (λ h. tt, λ h. refl)
  IsIcp-iff (some false) = (λ h. tt, λ h. refl)
  IsIcp-iff (some true) = true_iff _ (
      any_iff (is_icp_score src lead_id)
        (λ r.
          and_iff (text_eq r.lead_id lead_id) r.is_icp (text_eq_iff r.lead_id lead_id)
            (λ h. h, λ h. h))
        src.lead_icp_scores)

  Purchased-iff : (o : Option Bool) → AllHold (purchased_fragments o) ↔ Purchased o
  Purchased-iff none = (λ h. tt, λ h. refl)
  Purchased-iff (some true) = eq_iff (some (codes "purchased"))
  Purchased-iff (some false) = not_fragments_iff (some (codes "purchased"))

  stage_in_iff :
      (ss : List Text) (fs : List Fragment)
      → stage_in_fragments ss ≡ Result.ok fs
      → AllHold fs ↔ HasStageIn ss
  unfolding holds
  stage_in_iff [] fs h = cc
  stage_in_iff (s ∷ ss) fs h =
      subst (λ gs. AllHold gs ↔ HasStageIn (s ∷ ss)) (eq_of_ok h)
        (true_iff _ (in_stages_iff (s ∷ ss)))

  gte_iff :
      (order : List Text) (o : Option Text) (fs : List Fragment)
      → gte_fragments order o ≡ Result.ok fs
      → AllHold fs ↔ Reaches order o
  unfolding HasStageIn
  gte_iff order none fs h = subst (λ gs. AllHold gs ↔ Unit) (eq_of_ok h) (λ q. tt, λ q. refl)
  gte_iff order (some target) fs h =
      let g = stage_in_iff (from_stage target order) fs h in
      let f = Follows-iff order target in
      (
        λ q. let (r, m, (of, (s, n, is))) = g.0 q in (r, m, (of, (s, (f s).0 n, is))),
        λ t. let (r, m, (of, (s, n, is))) = t in g.1 (r, m, (of, (s, (f s).1 n, is))),
      )

  condition_iff :
      (order : List Text) (c : Condition) (fs : List Fragment)
      → condition_fragments order c ≡ Result.ok fs
      → AllHold fs ↔ Satisfies order c
  unfolding condition_fragments Satisfies
  condition_iff order c fs h =
      let (gte, is_gte, rest) = bind_ok (gte_fragments order c.stage_gte) _ fs h in
      subst (λ gs. AllHold gs ↔ Satisfies order c) (eq_of_ok rest)
        (append_iff (eq_fragments (first_of c.stage_eq c.stage)) _
          (eq_iff (first_of c.stage_eq c.stage))
          (append_iff (not_fragments (first_of c.stage_not c.not_stage)) _
            (not_fragments_iff (first_of c.stage_not c.not_stage))
            (append_iff gte _ (gte_iff order c.stage_gte gte is_gte) (
              append_iff (icp_fragments c.is_icp) _ (IsIcp-iff c.is_icp)
                (Purchased-iff c.purchased)))))

  pub query_iff :
      (order : List Text) (cs : List Condition) (fs : List Fragment)
      → query_fragments order cs ≡ Result.ok fs
      → AllHold fs ↔ All (Satisfies order) cs
  unfolding query_fragments
  query_iff order [] fs h = subst (λ gs. AllHold gs ↔ Unit) (eq_of_ok h) (λ q. tt, λ q. refl)
  query_iff order (c ∷ cs) fs h =
      let (first, is_first, below) = bind_ok (condition_fragments order c) _ fs h in
      let (rest, is_rest, whole) = bind_ok (query_fragments order cs) _ fs below in
      subst (λ gs. AllHold gs ↔ (Satisfies order c × All (Satisfies order) cs)) (eq_of_ok whole)
        (append_iff first rest (condition_iff order c first is_first)
          (query_iff order cs rest is_rest))

  is_granted_iff :
      (v : ConsentValue) → (is_granted src lead_id v ≡ true) ↔ (v ≡ ConsentValue.granted)
  is_granted_iff ConsentValue.granted = (λ h. refl, λ h. refl)
  is_granted_iff ConsentValue.denied = (λ h. cc, λ h. cc)
  is_granted_iff ConsentValue.unknown = (λ h. cc, λ h. cc)

  pub consent_iff : (policy : Json) → AllHold (consent_fragments policy) ↔ Consents policy
  unfolding holds Consents
  consent_iff policy = elim (Bool-cases (requires_customer_match policy)) [
    | inl e ↦ rw e (
        true_iff _ (
          any_iff (is_latest_grant src lead_id)
            (λ r.
              and_iff _ _
                (and_iff _ _ (text_eq_iff r.lead_id lead_id)
                  (is_granted_iff r.consent_customer_match))
                (all_iff _ (λ q. (leb→le q.ts r.ts, le→leb q.ts r.ts))
                  (select (is_of_lead src lead_id) src.lead_consents)))
            src.lead_consents))
    | inr e ↦ rw e (λ q. tt, λ q. refl)
  ]
