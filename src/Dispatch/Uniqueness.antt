-- ===== src/Dispatch/Uniqueness.antt =====
-- The idempotency of `createDispatchJobs` and the keys of apps/edge/src/lib/dispatch.ts.
use globaltracker.Prelude.{
  any-append, ℕ, suc, ◌≡◌, refl, ◌∙◌, ap, Bool, true, false, ◌||◌, none, Text, text_eq_refl, arith,
  if◌then◌else◌, Bool-cases, inl, inr, List, [], ◌∷◌, ◌++◌, map, All, any, find, select, IsUnique,
  append-IsUnique,
}
use globaltracker.Dispatch.Types.{Job, JobInput, Store}
use globaltracker.Dispatch.Create.{
  has_key, input_key, is_one_of, insert_new, pending_rows, create_dispatch_jobs,
}

any-find : (p : Job → Bool) (js : List Job) → any p js ≡ false → find p js ≡ none
any-find p [] h = refl
any-find p (j ∷ js) h = ground (arith, any-find p js)

-- Unique keys stay unique.
pub insert_new-IsUnique :
    (js jobs : List Job)
    → IsUnique (λ (j : Job). j.idempotency_key) jobs
    → IsUnique (λ (j : Job). j.idempotency_key) (insert_new js jobs)
unfolding insert_new
insert_new-IsUnique [] jobs u = u
insert_new-IsUnique (j ∷ js) jobs u = elim (Bool-cases (any (has_key j.idempotency_key) jobs)) [
  | inl e ↦ rw e (insert_new-IsUnique js jobs u)
  | inr e ↦ rw e (
      insert_new-IsUnique js (jobs ++ j ∷ [])
        (append-IsUnique (λ r. r.idempotency_key) jobs j u (any-find _ jobs e)))
]

-- A key that is there stays there.
insert_new_mono :
    (key : Text) (js jobs : List Job)
    → any (has_key key) jobs ≡ true
    → any (has_key key) (insert_new js jobs) ≡ true
unfolding insert_new
insert_new_mono key [] jobs h = h
insert_new_mono key (j ∷ js) jobs h = elim (Bool-cases (any (has_key j.idempotency_key) jobs)) [
  | inl e ↦ rw e (insert_new_mono key js jobs h)
  | inr e ↦ rw e (
      insert_new_mono key js (jobs ++ j ∷ [])
        (any-append (has_key key) jobs (j ∷ []) ∙ ap (λ b. b || any (has_key key) (j ∷ [])) h))
]

abbrev pub Known : List Job → Job → Type 0
Known jobs j = any (has_key j.idempotency_key) jobs ≡ true

-- After one row of an insertion its key is there, inserted now or before.
any-insert :
    (p : Job → Bool) (j : Job) (jobs : List Job)
    → p j ≡ true
    → any p (if any p jobs then jobs else jobs ++ j ∷ []) ≡ true
any-insert p j jobs h = elim (Bool-cases (any p jobs)) [
  | inl e ↦ rw (e, e)
  | inr e ↦ rw (e, any-append p jobs (j ∷ []), e, h)
]

pub insert_new-Known : (js jobs : List Job) → All (Known (insert_new js jobs)) js
unfolding insert_new
insert_new-Known [] jobs = tt
insert_new-Known (j ∷ js) jobs =
    let jobs' = if any (has_key j.idempotency_key) jobs then jobs else jobs ++ j ∷ [] in
    (
      insert_new_mono j.idempotency_key js jobs'
          (any-insert (has_key j.idempotency_key) j jobs (text_eq_refl j.idempotency_key)),
      insert_new-Known js jobs',
    )

insert-Known : (js jobs : List Job) → All (Known jobs) js → insert_new js jobs ≡ jobs
unfolding insert_new
insert-Known [] jobs h = refl
insert-Known (j ∷ js) jobs h = rw h.0 (insert-Known js jobs h.1)

module _ (sha256 : Text → Text) where
  -- The keys of the rows depend on the inputs alone.
  Known-rows :
      (id id' : ℕ → Text) (now now' n n' : ℕ) (jobs : List Job) (inputs : List JobInput)
      → All (Known jobs) (pending_rows sha256 id now n inputs)
      → All (Known jobs) (pending_rows sha256 id' now' n' inputs)
  unfolding pending_rows
  Known-rows id id' now now' n n' jobs [] h = tt
  Known-rows id id' now now' n n' jobs (input ∷ rest) h =
      (h.0, Known-rows id id' now now' (suc n) (suc n') jobs rest h.1)

  -- BR-DISPATCH-001: creating the same jobs again, at any later time and with whatever identifiers
  -- the database would draw, inserts nothing and returns the rows that stand there.
  pub create_dispatch_jobs_again :
      (id id' : ℕ → Text) (now now' : ℕ) (inputs : List JobInput) (s : Store)
      → create_dispatch_jobs sha256 id' now' inputs (create_dispatch_jobs sha256 id now inputs s).0
        ≡ create_dispatch_jobs sha256 id now inputs s
  unfolding create_dispatch_jobs
  create_dispatch_jobs_again id id' now now' [] s = refl
  create_dispatch_jobs_again id id' now now' (input ∷ rest) s =
      let inputs = input ∷ rest in
      let jobs = insert_new (pending_rows sha256 id now 0 inputs) s.jobs in
      let known = insert_new-Known (pending_rows sha256 id now 0 inputs) s.jobs in
      ap (λ js. (record s { jobs = js }, select (is_one_of (map (input_key sha256) inputs)) js))
        (insert-Known (pending_rows sha256 id' now' 0 inputs) jobs
          (Known-rows id id' now now' 0 0 jobs inputs known))
