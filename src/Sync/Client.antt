-- ===== src/Sync/Client.antt =====
-- `callUsersEndpoint` of apps/edge/src/dispatchers/audience-sync/meta/client.ts. Every request that is
-- made is put down in `made`, and the platform's answers are a function of how many were made before.
use globaltracker.Prelude.{
  ℕ, zero, suc, Bool, true, false, ◌&&◌, ◌||◌, leb, ◌==◌, Option, none, some, Text, codes, text_eq,
  or_else, if◌then◌else◌, List, [], ◌∷◌, ◌++◌, length,
}

pub data Reply : Type 0 where
  network_failure : Reply
  answered : ℕ → Option ℕ → Option Text → Reply
  -- A body that is no JSON.
  unreadable : ℕ → Reply

-- `MetaAudienceError`, with its code and whether it may be tried again.
pub data SyncError : Type 0 where
  audience_error : Text → Bool → SyncError
  not_allowlisted : SyncError
  unexpected : SyncError

pub data Outcome {ℓ} (A : Type ℓ) : Type ℓ where
  ok : A → Outcome A
  err : SyncError → Outcome A

abbrev pub is_ok_status : ℕ → Bool
is_ok_status status = leb 200 status && leb status 299

abbrev pub is_retried_status : ℕ → Bool
is_retried_status status = (status == 429) || leb 500 status

abbrev pub last_error : ℕ → Text → SyncError
last_error status code =
    if status == 429
    then SyncError.audience_error (codes "RATE_LIMIT") true
    else SyncError.audience_error code (leb 500 status)

module _ {B : Type 0} (fetch : ℕ → Reply) (size : ℕ) (body : B) where
  -- What an answer that is no success means, given what another attempt would give, if one is left.
  abbrev pub refused : Option (Outcome ℕ × List B) → ℕ → Text → List B → Outcome ℕ × List B
  refused again status code made =
      if (status == 400) && text_eq code (codes "INVALID_PARAMETER")
      then (Outcome.err (SyncError.audience_error (codes "INVALID_PARAMETER") false), made)
      else if is_retried_status status
      then or_else again (Outcome.err (last_error status code), made)
      else (Outcome.err (last_error status code), made)

  abbrev pub settle_reply : Option (Outcome ℕ × List B) → Reply → List B → Outcome ℕ × List B
  settle_reply again Reply.network_failure made =
      or_else again (Outcome.err (SyncError.audience_error (codes "NETWORK_ERROR") true), made)
  settle_reply again (Reply.answered status received code) made =
      if is_ok_status status
      then (Outcome.ok (or_else received size), made)
      else refused again status (or_else code (codes "UNKNOWN")) made
  settle_reply again (Reply.unreadable status) made =
      if is_ok_status status
      then (Outcome.err SyncError.unexpected, made)
      else refused again status (codes "UNKNOWN") made

  -- The attempts that are left, and the requests made so far.
  unfoldable pub attempts : ℕ → List B → Outcome ℕ × List B
  attempts zero made = (Outcome.err (SyncError.audience_error (codes "RETRY_EXHAUSTED") true), made)
  attempts (suc zero) made = settle_reply none (fetch (length made)) (made ++ body ∷ [])
  attempts (suc (suc left)) made =
      let again = attempts (suc left) (made ++ body ∷ []) in
      settle_reply (some again) (fetch (length made)) (made ++ body ∷ [])

  abbrev pub max_attempts : ℕ
  max_attempts = 3

  unfoldable pub call_users_endpoint : List B → Outcome ℕ × List B
  unfolding attempts
  call_users_endpoint made = attempts max_attempts made
