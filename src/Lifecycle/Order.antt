-- ===== src/Lifecycle/Order.antt =====
-- The order of the statuses of apps/edge/src/lib/lifecycle-rules.ts, and `promote` in it.
use globaltracker.Prelude.{ℕ, zero, suc, max, ◌≡◌, refl, sym, ap, ◌∙◌, List, [], ◌∷◌, some, arith}
use mathlib.Core.List.{Permᴰ}
use globaltracker.Lifecycle.Rules.{
  LifecycleStatus, lifecycle_rank, status_text, promote, as_lifecycle_status,
}

-- The status of a rank.
abbrev of_rank : ℕ → LifecycleStatus
of_rank zero = LifecycleStatus.contato
of_rank (suc zero) = LifecycleStatus.lead
of_rank (suc (suc zero)) = LifecycleStatus.cliente
of_rank (suc (suc (suc zero))) = LifecycleStatus.aluno
of_rank (suc (suc (suc (suc n)))) = LifecycleStatus.mentorado

of_rank-lifecycle_rank : (s : LifecycleStatus) → of_rank (lifecycle_rank s) ≡ s
of_rank-lifecycle_rank LifecycleStatus.contato = refl
of_rank-lifecycle_rank LifecycleStatus.lead = refl
of_rank-lifecycle_rank LifecycleStatus.cliente = refl
of_rank-lifecycle_rank LifecycleStatus.aluno = refl
of_rank-lifecycle_rank LifecycleStatus.mentorado = refl

pub lifecycle_rank-injective : (s t : LifecycleStatus) → lifecycle_rank s ≡ lifecycle_rank t → s ≡ t
lifecycle_rank-injective s t h =
    sym (of_rank-lifecycle_rank s) ∙ ap of_rank h ∙ of_rank-lifecycle_rank t

pub lifecycle_rank-promote :
    (s t : LifecycleStatus)
    → lifecycle_rank (promote s t) ≡ max (lifecycle_rank s) (lifecycle_rank t)
unfolding promote
lifecycle_rank-promote s t = ground arith

-- Several purchases, one after the other.
abbrev pub promote_all : LifecycleStatus → List LifecycleStatus → LifecycleStatus
promote_all current [] = current
promote_all current (c ∷ cs) = promote_all (promote current c) cs

promote-swap :
    (current a b : LifecycleStatus) → promote (promote current a) b ≡ promote (promote current b) a
promote-swap current a b = lifecycle_rank-injective _ _ (
    rw
      (
        lifecycle_rank-promote (promote current a) b,
        lifecycle_rank-promote current a,
        lifecycle_rank-promote (promote current b) a,
        lifecycle_rank-promote current b,
      )
      (omega arith))

-- The status that a lead reaches does not depend on the order in which its purchases are promoted.
pub promote_all-perm :
    (current : LifecycleStatus) (cs ds : List LifecycleStatus)
    → Permᴰ cs ds
    → promote_all current cs ≡ promote_all current ds
promote_all-perm current _ _ Permᴰ.nil = refl
promote_all-perm current (c ∷ cs) (d ∷ ds) (Permᴰ.cons e p) =
    ap (λ x. promote_all (promote current x) cs) e ∙ promote_all-perm (promote current d) cs ds p
promote_all-perm current (a ∷ b ∷ _) (c ∷ d ∷ l) (Permᴰ.swap e f) =
    ap (λ x. promote_all (promote (promote current x) b) l) e
    ∙ ap (λ x. promote_all (promote (promote current d) x) l) f
    ∙ ap (λ x. promote_all x l) (promote-swap current d c)
promote_all-perm current cs ds (Permᴰ.trans {l₂} p q) =
    promote_all-perm current cs l₂ p ∙ promote_all-perm current l₂ ds q

-- What is stored for a status is read back as it.
pub as_lifecycle_status-status_text :
    (s : LifecycleStatus) → as_lifecycle_status (status_text s) ≡ some s
unfolding as_lifecycle_status
as_lifecycle_status-status_text LifecycleStatus.contato = refl
as_lifecycle_status-status_text LifecycleStatus.lead = refl
as_lifecycle_status-status_text LifecycleStatus.cliente = refl
as_lifecycle_status-status_text LifecycleStatus.aluno = refl
as_lifecycle_status-status_text LifecycleStatus.mentorado = refl
