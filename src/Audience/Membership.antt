-- ===== src/Audience/Membership.antt =====
-- Who is a member of an audience, by `evaluateAudience` of apps/edge/src/lib/audience.ts.
use globaltracker.Prelude.{
  ◌≡◌, refl, sym, ◌∙◌, ap, subst, inl, inr, ◌↔◌, Bool, true, List, [], ◌∷◌, ◌++◌, map, some, Text,
  text_eq_iff, and_iff, mem_select, All, select, find, Bool-cases,
}
use mathlib.Core.List.{Memᴰ}
use mathlib.Core.List.Memᴰ
use globaltracker.Identity.Types.{Lead, LeadStatus}
use globaltracker.Audience.Types.{
  QueryDefinition, Audience, Sources, Result, ◌>>=◌, bind_ok, eq_of_ok,
}
use globaltracker.Audience.Schema.{parse_definition}
use globaltracker.Audience.Evaluate.{
  Outside, Fragment, query_fragments, consent_fragments, text_leb, insert_text, sort_texts,
  EvalResult, is_active_lead, stage_order, selects, evaluate_definition, checked, is_audience,
  audience_found, evaluate_audience,
}
use globaltracker.Audience.Satisfaction.{Satisfies, Consents, append_iff, query_iff, consent_iff}

mem_insert : (t x : Text) (us : List Text) → Memᴰ x (insert_text t us) ↔ Memᴰ x (t ∷ us)
unfolding insert_text
mem_insert t x [] = (λ m. m, λ m. m)
mem_insert t x (u ∷ us) = elim (Bool-cases (text_leb t u)) [
  | inl e ↦ rw e (λ m. m, λ m. m)
  | inr e ↦ rw e (
    λ m. elim (Memᴰ.cases_cons m) [
      | inl q ↦ Memᴰ.tail (Memᴰ.head q)
      | inr n ↦ elim (Memᴰ.cases_cons ((mem_insert t x us).0 n)) [
        | inl q ↦ Memᴰ.head q
        | inr o ↦ Memᴰ.tail (Memᴰ.tail o)
      ]
    ],
    λ m. elim (Memᴰ.cases_cons m) [
      | inl q ↦ Memᴰ.tail ((mem_insert t x us).1 (Memᴰ.head q))
      | inr n ↦ elim (Memᴰ.cases_cons n) [
        | inl q ↦ Memᴰ.head q
        | inr o ↦ Memᴰ.tail ((mem_insert t x us).1 (Memᴰ.tail o))
      ]
    ],
  )
]

mem_sort : (x : Text) (ts : List Text) → Memᴰ x (sort_texts ts) ↔ Memᴰ x ts
unfolding sort_texts
mem_sort x [] = (λ m. m, λ m. m)
mem_sort x (t ∷ ts) = (
  λ m. elim (Memᴰ.cases_cons ((mem_insert t x (sort_texts ts)).0 m)) [
    | inl q ↦ Memᴰ.head q
    | inr n ↦ Memᴰ.tail ((mem_sort x ts).0 n)
  ],
  λ m.
      (mem_insert t x (sort_texts ts)).1 (elim (Memᴰ.cases_cons m) [
        | inl q ↦ Memᴰ.head q
        | inr n ↦ Memᴰ.tail ((mem_sort x ts).1 n)
      ]),
)

is_active_lead_iff : (s : LeadStatus) → (is_active_lead s ≡ true) ↔ (s ≡ LeadStatus.active)
is_active_lead_iff LeadStatus.active = (λ h. refl, λ h. refl)
is_active_lead_iff LeadStatus.merged = (λ h. cc, λ h. cc)
is_active_lead_iff LeadStatus.erased = (λ h. cc, λ h. cc)
is_active_lead_iff LeadStatus.archived = (λ h. cc, λ h. cc)

-- A lead that an audience is to contain: of the workspace, active, with all conditions satisfied and,
-- where the policy asks for it, with consent.
pub Qualifies : Sources → Text → List Text → Audience → QueryDefinition → Lead → Type 0
Qualifies src workspace_id order audience q l =
    ((l.workspace_id ≡ workspace_id) × (l.status ≡ LeadStatus.active))
    × (All (Satisfies src l.id order) q.conditions × Consents src l.id audience.consent_policy)

module _ (out : Outside) (src : Sources) (workspace_id : Text) where
  selects_iff :
      (order : List Text) (audience : Audience) (q : QueryDefinition) (fragments : List Fragment)
      (l : Lead)
      → query_fragments order q.conditions ≡ Result.ok fragments
      → (selects out src workspace_id (fragments ++ consent_fragments audience.consent_policy) l
          ≡ true)
        ↔ Qualifies src workspace_id order audience q l
  unfolding selects Qualifies
  selects_iff order audience q fragments l h =
      and_iff _ _
        (and_iff _ _ (text_eq_iff l.workspace_id workspace_id) (is_active_lead_iff l.status))
        (append_iff src l.id fragments (consent_fragments audience.consent_policy)
          (query_iff src l.id order q.conditions fragments h)
          (consent_iff src l.id audience.consent_policy))

  mem_ids :
      (p : Lead → Bool) (P : Lead → Type 0) (x : Text)
      → ((l : Lead) → (p l ≡ true) ↔ P l)
      → Memᴰ x (sort_texts (map (λ (l : Lead). l.id) (select p src.leads)))
        ↔ ((l : Lead) × Memᴰ l src.leads × ((l.id ≡ x) × P l))
  mem_ids p P x f = (
    λ m.
        let (l, n, e) =
          Memᴰ.of_map (λ (l : Lead). l.id) (select p src.leads) ((mem_sort x _).0 m) in
        let t = (mem_select p src.leads l).0 n in (l, t.0, (e, (f l).0 t.1)),
    λ t. (mem_sort x _).1 (
        Memᴰ.cast (sym t.2.0)
          (Memᴰ.map (λ (l : Lead). l.id) ((mem_select p src.leads t.0).1 (t.1, (f t.0).1 t.2.1)))),
  )

  evaluation_run :
      (audience_id : Text) (audience : Audience) (q : QueryDefinition)
      → find (is_audience out src workspace_id audience_id) src.audiences ≡ some audience
      → parse_definition audience.query_definition ≡ some q
      → evaluate_audience out src workspace_id audience_id
        ≡ evaluate_definition out src workspace_id audience q
  unfolding evaluate_audience audience_found
  evaluation_run audience_id audience q found valid =
      ap (audience_found out src workspace_id) found
      ∙ ap
          (λ o.
            checked out src workspace_id o >>= evaluate_definition out src workspace_id audience)
          valid

  pub members_of_definition :
      (audience : Audience) (q : QueryDefinition) (order : List Text) (e : EvalResult) (x : Text)
      → stage_order out src workspace_id q ≡ Result.ok order
      → evaluate_definition out src workspace_id audience q ≡ Result.ok e
      → Memᴰ x e.members ↔ (
          (l : Lead) × Memᴰ l src.leads
          × ((l.id ≡ x) × Qualifies src workspace_id order audience q l))
  unfolding evaluate_definition
  members_of_definition audience q order e x staged h =
      let (given, is_given, run) = bind_ok (stage_order out src workspace_id q) _ e h in
      let (fragments, is_fragments, done) = bind_ok (query_fragments given q.conditions) _ e run in
      let same : (given ≡ order) = eq_of_ok (sym is_given ∙ staged) in
      subst
        (λ r. Memᴰ x r.members ↔ (
          (l : Lead) × Memᴰ l src.leads
          × ((l.id ≡ x) × Qualifies src workspace_id order audience q l)))
        (eq_of_ok done)
        (mem_ids
          (selects out src workspace_id (fragments ++ consent_fragments audience.consent_policy))
          (Qualifies src workspace_id order audience q) x
          (λ l.
            selects_iff order audience q fragments l (
              subst (λ o. query_fragments o q.conditions ≡ Result.ok fragments) same is_fragments)))

  -- Where the audience is in the workspace, its stored query is valid, the stages of its launch could
  -- be read as far as the query needs them, and the evaluation succeeds: the members are the leads that
  -- qualify, no more and no fewer.
  pub evaluate_audience-Qualifies :
      (audience_id : Text) (audience : Audience) (q : QueryDefinition) (order : List Text)
      (e : EvalResult) (x : Text)
      → find (is_audience out src workspace_id audience_id) src.audiences ≡ some audience
      → parse_definition audience.query_definition ≡ some q
      → stage_order out src workspace_id q ≡ Result.ok order
      → evaluate_audience out src workspace_id audience_id ≡ Result.ok e
      → Memᴰ x e.members ↔ (
          (l : Lead) × Memᴰ l src.leads
          × ((l.id ≡ x) × Qualifies src workspace_id order audience q l))
  evaluate_audience-Qualifies audience_id audience q order e x found valid staged h =
      members_of_definition audience q order e x staged
        (sym (evaluation_run audience_id audience q found valid) ∙ h)
