-- ===== src/Guards/Seen.antt =====
-- apps/edge/src/lib/replay-protection.ts and apps/edge/src/lib/idempotency.ts, over the key-value store.
-- The faults say which of its calls throw.
use globaltracker.Prelude.{
  ℕ, ◌*◌, Bool, true, false, ◌++◌, Option, none, some, Text, codes, if◌then◌else◌,
}
use globaltracker.Prelude.Kv.{Kv}

abbrev pub default_replay_ttl_seconds : ℕ
default_replay_ttl_seconds = 7 * 24 * 60 * 60

pub data KvResult : Type 0 where
  ok : Bool → KvResult
  kv_error : KvResult

module _ {S : Type 0} (kv : Kv S) where
  unfoldable pub build_replay_key : Text → Text → Text
  build_replay_key event_id workspace_id =
      codes "replay:" ++ (workspace_id ++ (codes ":" ++ event_id))

  abbrev pub is_there : Option Text → Bool
  is_there none = false
  is_there (some v) = true

  unfoldable pub is_replay : Text → Text → S → Bool
  unfolding build_replay_key
  is_replay event_id workspace_id s = is_there (kv.get (build_replay_key event_id workspace_id) s)

  unfoldable pub mark_seen : Bool → Text → Text → ℕ → S → Bool × S
  unfolding build_replay_key
  mark_seen put_fails event_id workspace_id ttl_seconds s =
      if put_fails
      then (false, s)
      else (true, kv.put (build_replay_key event_id workspace_id) (codes "1") (some ttl_seconds) s)

  unfoldable pub make_idempotency_key : Text → Text → Text
  make_idempotency_key workspace_id event_id =
      codes "idmp:" ++ (workspace_id ++ (codes ":" ++ event_id))

  abbrev pub set_if_new : Bool → Text → ℕ → Option Text → S → KvResult × S
  set_if_new put_fails key ttl_seconds (some v) s = (KvResult.ok false, s)
  set_if_new put_fails key ttl_seconds none s =
      if put_fails
      then (KvResult.kv_error, s)
      else (KvResult.ok true, kv.put key (codes "1") (some ttl_seconds) s)

  unfoldable pub check_and_set : Bool → Bool → Text → ℕ → S → KvResult × S
  check_and_set get_fails put_fails key ttl_seconds s =
      if get_fails
      then (KvResult.kv_error, s)
      else set_if_new put_fails key ttl_seconds (kv.get key s) s
