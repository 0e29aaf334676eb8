-- ===== src/Lifecycle/Rules.antt =====
-- apps/edge/src/lib/lifecycle-rules.ts: the statuses, the categories of products, and `promote`.
use globaltracker.Prelude.{
  ℕ, List, [], ◌∷◌, Option, none, some, Text, codes, text_eq, ltb, if◌then◌else◌,
}

pub data LifecycleStatus : Type 0 where
  contato lead cliente aluno mentorado : LifecycleStatus

pub data ProductCategory : Type 0 where
  ebook workshop_online webinar curso_online curso_presencial pos_graduacao : ProductCategory
  treinamento_online evento_fisico mentoria_individual mentoria_grupo : ProductCategory
  acompanhamento_individual extensao : ProductCategory

abbrev pub lifecycle_statuses : List LifecycleStatus
lifecycle_statuses =
    LifecycleStatus.contato ∷ LifecycleStatus.lead ∷ LifecycleStatus.cliente ∷ LifecycleStatus.aluno
    ∷ LifecycleStatus.mentorado ∷ []

-- `LIFECYCLE_RANK`.
abbrev pub lifecycle_rank : LifecycleStatus → ℕ
lifecycle_rank LifecycleStatus.contato = 0
lifecycle_rank LifecycleStatus.lead = 1
lifecycle_rank LifecycleStatus.cliente = 2
lifecycle_rank LifecycleStatus.aluno = 3
lifecycle_rank LifecycleStatus.mentorado = 4

-- The string of a status, which the database holds.
abbrev pub status_text : LifecycleStatus → Text
status_text LifecycleStatus.contato = codes "contato"
status_text LifecycleStatus.lead = codes "lead"
status_text LifecycleStatus.cliente = codes "cliente"
status_text LifecycleStatus.aluno = codes "aluno"
status_text LifecycleStatus.mentorado = codes "mentorado"

-- `CATEGORY_TO_LIFECYCLE`.
abbrev pub category_to_lifecycle : ProductCategory → LifecycleStatus
category_to_lifecycle ProductCategory.ebook = LifecycleStatus.cliente
category_to_lifecycle ProductCategory.workshop_online = LifecycleStatus.cliente
category_to_lifecycle ProductCategory.webinar = LifecycleStatus.cliente
category_to_lifecycle ProductCategory.curso_online = LifecycleStatus.aluno
category_to_lifecycle ProductCategory.curso_presencial = LifecycleStatus.aluno
category_to_lifecycle ProductCategory.pos_graduacao = LifecycleStatus.aluno
category_to_lifecycle ProductCategory.treinamento_online = LifecycleStatus.aluno
category_to_lifecycle ProductCategory.evento_fisico = LifecycleStatus.aluno
category_to_lifecycle ProductCategory.mentoria_individual = LifecycleStatus.mentorado
category_to_lifecycle ProductCategory.mentoria_grupo = LifecycleStatus.mentorado
category_to_lifecycle ProductCategory.acompanhamento_individual = LifecycleStatus.mentorado
category_to_lifecycle ProductCategory.extensao = LifecycleStatus.aluno

-- A product without a category makes a customer.
abbrev pub lifecycle_for_category : Option ProductCategory → LifecycleStatus
lifecycle_for_category none = LifecycleStatus.cliente
lifecycle_for_category (some category) = category_to_lifecycle category

unfoldable pub promote : LifecycleStatus → LifecycleStatus → LifecycleStatus
promote current candidate =
    if ltb (lifecycle_rank current) (lifecycle_rank candidate) then candidate else current

-- The type guard at the database, with the value that it guards.
abbrev as_one_of : List LifecycleStatus → Text → Option LifecycleStatus
as_one_of [] t = none
as_one_of (s ∷ rest) t = if text_eq (status_text s) t then some s else as_one_of rest t

unfoldable pub as_lifecycle_status : Text → Option LifecycleStatus
unfolding text_eq
as_lifecycle_status t = as_one_of lifecycle_statuses t
