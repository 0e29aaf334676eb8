-- ===== src/Lifecycle/Tests.antt =====
-- Runs of apps/edge/src/lib/lifecycle-promoter.ts.
use globaltracker.Prelude.{◌≡◌, refl, max, List, [], ◌∷◌, Text, codes, text_eq, arith}
use mathlib.Core.List.{Permᴰ}
use globaltracker.Lifecycle.Rules.{LifecycleStatus, lifecycle_rank, promote}
use globaltracker.Lifecycle.Promoter.{
  Row, Outcome, decide, read_lifecycle, write_lifecycle, promote_lead_lifecycle,
}
use globaltracker.Lifecycle.Order.{promote_all, promote_all-perm}
use globaltracker.Lifecycle.Promotion.{Stands, promote_lead_lifecycle-Stands, promotions_race}

abbrev id : Text
id = 1 ∷ []

abbrev other_id : Text
other_id = 2 ∷ []

abbrev new_lead : Text → Row
new_lead lead_id = record { id = lead_id; lifecycle_status = codes "lead"; updated_at = 1 }

abbrev rows : List Row
rows = new_lead id ∷ new_lead other_id ∷ []

stands : Stands id LifecycleStatus.lead rows
unfolding text_eq
stands = (new_lead id, refl, refl)

promote_lead_lifecycle-Stands_example :
    Stands id LifecycleStatus.aluno (promote_lead_lifecycle 2 id LifecycleStatus.aluno rows).1
    × ((promote_lead_lifecycle 2 id LifecycleStatus.aluno rows).0
        ≡ Outcome.returned (decide LifecycleStatus.lead LifecycleStatus.aluno))
    × (lifecycle_rank LifecycleStatus.aluno
        ≡ max (lifecycle_rank LifecycleStatus.lead) (lifecycle_rank LifecycleStatus.aluno))
unfolding promote
promote_lead_lifecycle-Stands_example =
    promote_lead_lifecycle-Stands 2 id LifecycleStatus.lead LifecycleStatus.aluno rows stands

-- A webinar and a mentoring, bought in either order.
promote_all-perm_example :
    promote_all LifecycleStatus.lead (LifecycleStatus.cliente ∷ LifecycleStatus.mentorado ∷ [])
    ≡ promote_all LifecycleStatus.lead (LifecycleStatus.mentorado ∷ LifecycleStatus.cliente ∷ [])
promote_all-perm_example =
    promote_all-perm LifecycleStatus.lead (LifecycleStatus.cliente ∷ LifecycleStatus.mentorado ∷ [])
      (LifecycleStatus.mentorado ∷ LifecycleStatus.cliente ∷ []) (Permᴰ.swap refl refl)

-- The mentoring is bought, and the lead ends as a customer.
promotions_race_example : Stands id LifecycleStatus.cliente (
    write_lifecycle 3 id
      (read_lifecycle id LifecycleStatus.cliente rows)
      (write_lifecycle 2 id (read_lifecycle id LifecycleStatus.mentorado rows) rows))
promotions_race_example =
    promotions_race 2 3 id LifecycleStatus.lead LifecycleStatus.mentorado LifecycleStatus.cliente
      rows stands (omega arith) (omega arith)
