-- ===== src/Dispatch/Exclusion.antt =====
-- Consumers and operators side by side, over apps/edge/src/lib/dispatch.ts. `processDispatchJob`
-- is two steps, the lock and the settling, with the external call in between; a consumer may also
-- die while it calls, or throw. `requeueDeadLetter` is one step here.
use globaltracker.Prelude.{
  ℕ, ◌≡◌, refl, sym, subst, ◌⊎◌, inl, inr, Bool-cases, ◌≢◌, ◌∙◌, ap, Bool, true, false, Option,
  none, some, List, [], ◌∷◌, Text, All, head?, Bool-cases, inl, inr,
}
use globaltracker.Dispatch.Types.{Status, Job, Store, DispatchResult, is_open, is_dead_letter}
use globaltracker.Dispatch.Process.{Call, take_job, lock, settle, set_job}
use globaltracker.Dispatch.DeadLetter.{requeue_dead_letter, requeue_found, reset_job}
use globaltracker.Dispatch.Rows.{
  UniqueIds, job_at, lock_open, lock_closed, lock_missing, lock_other, lock-UniqueIds,
  job_at-set_job_other, set_job-UniqueIds,
}
use globaltracker.Dispatch.Processing.{settle-UniqueIds, settle_other}

-- The tables, and the identifiers of the jobs whose dispatcher is being called, once for each call.
pub record System : Type 0 where
  pub store : Store
  pub calling : List Text

pub data Removes (x : Text) : List Text → List Text → Type 0 where
  here : {xs : List Text} → Removes x (x ∷ xs) xs
  there : {y : Text} {xs ys : List Text} → Removes x xs ys → Removes x (y ∷ xs) (y ∷ ys)

pub data Step (a : System) : System → Type 0 where
  take :
      (id : Text) (now : ℕ) (job : Job)
      → head? (lock id now a.store).1 ≡ some job
      → Step a (record { store = (lock id now a.store).0; calling = id ∷ a.calling })
  finish :
      (job : Job) (c : Call) (r : DispatchResult) (rest : List Text)
      → Removes c.job_id a.calling rest
      → Step a (record { store = (settle job c r a.store).0; calling = rest })
  crash :
      (id : Text) (rest : List Text)
      → Removes id a.calling rest
      → Step a (record { store = a.store; calling = rest })
  requeue :
      (id : Text) (now : ℕ)
      → Step a (record { store = (requeue_dead_letter id now a.store).0; calling = a.calling })

pub data Reach (a : System) : System → Type 0 where
  start : Reach a a
  next : {b c : System} → Reach a b → Step b c → Reach a c

abbrev pub Distinct : List Text → Type 0
Distinct [] = Unit
Distinct (x ∷ xs) = All (λ y. y ≢ x) xs × Distinct xs

-- The row of a job that is being called is marked as such.
abbrev pub IsCalled : Store → Text → Type 0
IsCalled s id = (j : Job) × (job_at id s ≡ some j) × (j.status ≡ Status.processing)

pub record IsExclusive (a : System) : Type 0 where
  pub unique : UniqueIds a.store
  pub distinct : Distinct a.calling
  pub called : All (IsCalled a.store) a.calling

All-Removes :
    (P : Text → Type 0) {x : Text} {xs ys : List Text} → Removes x xs ys → All P xs → P x × All P ys
All-Removes P here h = h
All-Removes P (there r) h = let (p, q) = All-Removes P r h.1 in (p, (h.0, q))

Distinct-Removes :
    {x : Text} {xs ys : List Text}
    → Removes x xs ys
    → Distinct xs
    → All (λ y. y ≢ x) ys × Distinct ys
Distinct-Removes here h = h
Distinct-Removes (there r) h =
    let (apart, distinct) = Distinct-Removes r h.1 in
    let (new, rest) = All-Removes _ r h.0 in (((λ e. new (sym e)), apart), (rest, distinct))

-- What keeps the rows of all identifiers but one keeps the calls of the others.
All-IsCalled :
    (s t : Store) (id : Text) (ids : List Text)
    → ((other : Text) → other ≢ id → job_at other t ≡ job_at other s)
    → All (λ y. y ≢ id) ids
    → All (IsCalled s) ids
    → All (IsCalled t) ids
All-IsCalled s t id [] keep apart h = tt
All-IsCalled s t id (x ∷ ids) keep apart ((j, e, p), h) =
    ((j, keep x apart.0 ∙ e, p), All-IsCalled s t id ids keep apart.1 h)

-- An open or a dead row is not the row of a call.
apart_of_status :
    (s : Store) (id : Text) (j : Job) (ids : List Text)
    → job_at id s ≡ some j
    → j.status ≢ Status.processing
    → All (IsCalled s) ids
    → All (λ y. y ≢ id) ids
apart_of_status s id j [] h ne called = tt
apart_of_status s id j (x ∷ ids) h ne ((k, e, p), called) = (
  (λ x_is_id.
      let same : k ≡ j = cc (e, h, ap (λ t. job_at t s) x_is_id) in
      ne (ap (λ r. r.status) (sym same) ∙ p)),
  apart_of_status s id j ids h ne called,
)

-- A lock that returns a row has found it open.
lock_inverse :
    (id : Text) (now : ℕ) (s : Store) (job : Job)
    → UniqueIds s
    → head? (lock id now s).1 ≡ some job
    → (j : Job) × (job_at id s ≡ some j) × (is_open j.status ≡ true)
lock_inverse id now s job u h = go (job_at id s) refl
  where
    of_row :
        (j : Job)
        → job_at id s ≡ some j
        → (b : Bool) → is_open j.status ≡ b
        → (j : Job) × (job_at id s ≡ some j) × (is_open j.status ≡ true)
    of_row j e true o = (j, e, o)
    of_row j e false o = cc (h, (lock_closed id now s j u e o).0)

    go :
        (o : Option Job)
        → job_at id s ≡ o
        → (j : Job) × (job_at id s ≡ some j) × (is_open j.status ≡ true)
    go none e = cc (h, (lock_missing id now s e).0)
    go (some j) e = of_row j e (is_open j.status) refl

take-IsExclusive :
    (a : System) (id : Text) (now : ℕ) (job : Job)
    → head? (lock id now a.store).1 ≡ some job
    → IsExclusive a
    → IsExclusive (record { store = (lock id now a.store).0; calling = id ∷ a.calling })
take-IsExclusive a id now job h v =
    let (j, e, o) = lock_inverse id now a.store job v.unique h in
    let apart = apart_of_status a.store id j a.calling e (λ p. cc (p, o)) v.called in
    record {
      unique = lock-UniqueIds id now a.store v.unique;
      distinct = (apart, v.distinct);
      called = (
        (take_job now j, (lock_open id now a.store j v.unique e o).1, refl),
        All-IsCalled a.store (lock id now a.store).0 id a.calling (lock_other id now a.store) apart
            v.called,
      );
    }

finish-IsExclusive :
    (a : System) (job : Job) (c : Call) (r : DispatchResult) (rest : List Text)
    → Removes c.job_id a.calling rest
    → IsExclusive a
    → IsExclusive (record { store = (settle job c r a.store).0; calling = rest })
finish-IsExclusive a job c r rest rem v =
    let (apart, distinct) = Distinct-Removes rem v.distinct in
    record {
      unique = settle-UniqueIds job c r a.store v.unique;
      distinct = distinct;
      called =
          All-IsCalled a.store (settle job c r a.store).0 c.job_id rest
            (settle_other job c r a.store) apart (All-Removes _ rem v.called).1;
    }

crash-IsExclusive :
    (a : System) (id : Text) (rest : List Text)
    → Removes id a.calling rest
    → IsExclusive a
    → IsExclusive (record { store = a.store; calling = rest })
crash-IsExclusive a id rest rem v = record {
  unique = v.unique;
  distinct = (Distinct-Removes rem v.distinct).1;
  called = (All-Removes _ rem v.called).1;
}

reset-IsExclusive :
    (a : System) (id : Text) (now : ℕ) (j : Job)
    → job_at id a.store ≡ some j
    → is_dead_letter j.status ≡ true
    → IsExclusive a
    → IsExclusive (record { store = set_job id (reset_job now) a.store; calling = a.calling })
reset-IsExclusive a id now j e d v = record {
  unique = set_job-UniqueIds id (reset_job now) a.store (λ r. refl) v.unique;
  distinct = v.distinct;
  called =
      All-IsCalled a.store (set_job id (reset_job now) a.store) id a.calling
        (job_at-set_job_other id (reset_job now) a.store (λ r. refl))
        (apart_of_status a.store id j a.calling e (λ p. cc (p, d)) v.called) v.called;
}

-- A requeue changes nothing, or resets a dead row.
requeue_cases :
    (s : Store) (id : Text) (now : ℕ)
    → ((requeue_dead_letter id now s).0 ≡ s)
      ⊎ ((j : Job) × (job_at id s ≡ some j)
          × (is_dead_letter j.status ≡ true)
          × ((requeue_dead_letter id now s).0 ≡ set_job id (reset_job now) s))
unfolding requeue_dead_letter
requeue_cases s id now = go (job_at id s) refl
  where
    go :
        (o : Option Job)
        → job_at id s ≡ o
        → ((requeue_found id now o s).0 ≡ s)
          ⊎ ((j : Job) × (job_at id s ≡ some j)
              × (is_dead_letter j.status ≡ true)
              × ((requeue_found id now o s).0 ≡ set_job id (reset_job now) s))
    go none e = inl refl
    go (some j) e = elim (Bool-cases (is_dead_letter j.status)) [
      | inl d ↦ inr (j, e, d, rw d)
      | inr d ↦ inl (rw d)
    ]

requeue-IsExclusive :
    (a : System) (id : Text) (now : ℕ)
    → IsExclusive a
    → IsExclusive (record { store = (requeue_dead_letter id now a.store).0; calling = a.calling })
requeue-IsExclusive a id now v = elim (requeue_cases a.store id now) [
  | inl same ↦ subst (λ t. IsExclusive (record { store = t; calling = a.calling })) (sym same) v
  | inr (j, e, d, changed) ↦
      subst (λ t. IsExclusive (record { store = t; calling = a.calling })) (sym changed)
        (reset-IsExclusive a id now j e d v)
]

Step-IsExclusive : {a b : System} → Step a b → IsExclusive a → IsExclusive b
Step-IsExclusive (take id now job h) v = take-IsExclusive _ id now job h v
Step-IsExclusive (finish job c r rest rem) v = finish-IsExclusive _ job c r rest rem v
Step-IsExclusive (crash id rest rem) v = crash-IsExclusive _ id rest rem v
Step-IsExclusive (requeue id now) v = requeue-IsExclusive _ id now v

-- Every interleaving of locks, settlings, crashes and requeues keeps the exclusion.
pub Reach-IsExclusive : {a b : System} → Reach a b → IsExclusive a → IsExclusive b
Reach-IsExclusive start v = v
Reach-IsExclusive (next r st) v = Step-IsExclusive st (Reach-IsExclusive r v)

-- From tables with unique identifiers and with no call under way, no interleaving of locks,
-- settlings, crashes and requeues, each taken as one step, has two calls of the dispatcher for one
-- job under way.
pub at_most_one_call :
    {a b : System} → UniqueIds a.store → a.calling ≡ [] → Reach a b → Distinct b.calling
at_most_one_call {a} u none_yet r =
    (Reach-IsExclusive r
      (record { unique = u; distinct = rw none_yet tt; called = rw none_yet tt })).distinct
