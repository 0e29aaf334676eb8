-- ===== src/Dispatch/Rows.antt =====
-- The table of jobs under its primary key, and the two ways in which apps/edge/src/lib/dispatch.ts
-- changes it: the lock and the updates by identifier.
use mathlib.Core.Option
use globaltracker.Prelude.{
  ℕ, ◌≡◌, refl, ◌≢◌, ◌∙◌, ap, true, false, List, [], ◌∷◌, map, Option, none, some, Text, head?,
  find, head?-select, update-none, select, IsUnique, find-guarded, find-update-guarded,
  find-update-guarded_other, find-update_key, find-update_key_other, update-IsUnique,
  find-guarded-none, if◌then◌else◌,
}
use globaltracker.Dispatch.Types.{Job, Store, has_id, is_open}
use globaltracker.Dispatch.Process.{is_lockable, take_job, lock, set_job}

abbrev pub UniqueIds : Store → Type 0
UniqueIds s = IsUnique (λ (j : Job). j.id) s.jobs

-- The row with this identifier.
abbrev pub job_at : Text → Store → Option Job
job_at id s = find (has_id id) s.jobs

head?-map : (f : Job → Job) (js : List Job) → head? (map f js) ≡ Option.map f (head? js)
head?-map f [] = refl
head?-map f (j ∷ js) = refl

locked_rows :
    (id : Text) (now : ℕ) (s : Store)
    → head? (lock id now s).1 ≡ Option.map (take_job now) (find (is_lockable id) s.jobs)
unfolding lock
locked_rows id now s =
    head?-map (take_job now) (select (is_lockable id) s.jobs)
    ∙ ap (Option.map (take_job now)) (head?-select (is_lockable id) s.jobs)

module _ (id : Text) (now : ℕ) (s : Store) where
  -- The lock returns the row with the identifier, marked as taken, if that row is open.
  pub lock_open :
      (j : Job)
      → UniqueIds s
      → job_at id s ≡ some j
      → is_open j.status ≡ true
      → (head? (lock id now s).1 ≡ some (take_job now j))
        × (job_at id (lock id now s).0 ≡ some (take_job now j))
  lock_open j u h o =
      let read : find (is_lockable id) s.jobs ≡ some j =
        find-guarded (λ r. r.id) (λ r. is_open r.status) id s.jobs j u h
        ∙ ap (λ b. if b then some j else none) o in
      (
        locked_rows id now s ∙ ap (Option.map (take_job now)) read,
        unfold lock in
            find-update-guarded (λ r. r.id) (λ r. is_open r.status) id (take_job now) s.jobs j
              (λ r. refl) h o,
      )

  -- It returns nothing and changes nothing if the row is not open.
  pub lock_closed :
      (j : Job)
      → UniqueIds s
      → job_at id s ≡ some j
      → is_open j.status ≡ false
      → (head? (lock id now s).1 ≡ none) × ((lock id now s).0 ≡ s)
  lock_closed j u h o =
      let unread : find (is_lockable id) s.jobs ≡ none =
        find-guarded (λ r. r.id) (λ r. is_open r.status) id s.jobs j u h
        ∙ ap (λ b. if b then some j else none) o in
      (
        locked_rows id now s ∙ ap (Option.map (take_job now)) unread,
        unfold lock in
            λ i. record s { jobs = update-none (is_lockable id) (take_job now) s.jobs unread i },
      )

  pub lock_missing : job_at id s ≡ none → (head? (lock id now s).1 ≡ none) × ((lock id now s).0 ≡ s)
  lock_missing h =
      let unread : find (is_lockable id) s.jobs ≡ none =
        find-guarded-none (λ r. r.id) (λ r. is_open r.status) id s.jobs h in
      (
        locked_rows id now s ∙ ap (Option.map (take_job now)) unread,
        unfold lock in
            λ i. record s { jobs = update-none (is_lockable id) (take_job now) s.jobs unread i },
      )

  pub lock_other : (other : Text) → other ≢ id → job_at other (lock id now s).0 ≡ job_at other s
  unfolding lock
  lock_other other ne =
      find-update-guarded_other (λ r. r.id) (λ r. is_open r.status) id (take_job now) other s.jobs
        (λ r. refl) ne

  pub lock-UniqueIds : UniqueIds s → UniqueIds (lock id now s).0
  unfolding lock
  lock-UniqueIds = update-IsUnique (λ r. r.id) (is_lockable id) (take_job now) s.jobs (λ r. refl)

module _ (id : Text) (f : Job → Job) (s : Store) (keep : (j : Job) → (f j).id ≡ j.id) where
  pub job_at-set_job : (j : Job) → job_at id s ≡ some j → job_at id (set_job id f s) ≡ some (f j)
  unfolding set_job
  job_at-set_job j = find-update_key (λ r. r.id) id f s.jobs j keep

  pub job_at-set_job_other :
      (other : Text) → other ≢ id → job_at other (set_job id f s) ≡ job_at other s
  unfolding set_job
  job_at-set_job_other other = find-update_key_other (λ r. r.id) id other f s.jobs keep

  pub set_job-UniqueIds : UniqueIds s → UniqueIds (set_job id f s)
  unfolding set_job
  set_job-UniqueIds = update-IsUnique (λ r. r.id) (has_id id) f s.jobs keep
