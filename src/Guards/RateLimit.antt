-- ===== src/Guards/RateLimit.antt =====
-- apps/edge/src/middleware/rate-limit.ts. `parse_int` is `Number.parseInt`, none where it gives NaN; the
-- request carries what the middleware reads, with the hash of the address, and the faults of the store;
-- the stored counts are the middleware's own, so never negative.
use globaltracker.Prelude.{
  ℕ, suc, ◌+◌, ◌-◌, ◌*◌, ◌/◌, max, Bool, leb, ◌++◌, Option, none, some, Text, codes, decimal,
  is_empty, or_else, if◌then◌else◌,
}
use globaltracker.Prelude.Kv.{Kv}

pub data RouteGroup : Type 0 where
  events lead config default : RouteGroup

abbrev pub route_limits : RouteGroup → ℕ
route_limits RouteGroup.events = 100
route_limits RouteGroup.lead = 20
route_limits RouteGroup.config = 60
route_limits RouteGroup.default = 60

abbrev pub route_text : RouteGroup → Text
route_text RouteGroup.events = codes "events"
route_text RouteGroup.lead = codes "lead"
route_text RouteGroup.config = codes "config"
route_text RouteGroup.default = codes "default"

pub record Options : Type 0 where
  pub route_group : RouteGroup
  pub limit_override : Option ℕ
  pub window_ms : Option ℕ

pub record Request : Type 0 where
  pub workspace_id : Text
  pub ip_hash : Text
  pub now : ℕ
  pub has_kv : Bool
  pub get_fails : Bool
  pub put_fails : Bool

-- The request goes on, with the remaining count in the headers where it was counted, or is refused with
-- the seconds to wait.
pub data Verdict : Type 0 where
  passed : Verdict
  counted : ℕ → Verdict
  rate_limited : ℕ → Verdict

abbrev pub kv_ttl_seconds : ℕ
kv_ttl_seconds = 120

module _ {S : Type 0} (kv : Kv S) (parse_int : Text → Option ℕ) (options : Options) where
  abbrev pub window : ℕ
  window = or_else options.window_ms 60000

  abbrev pub limit : ℕ
  limit = or_else options.limit_override (route_limits options.route_group)

  unfoldable pub build_kv_key : Request → Text
  build_kv_key r =
      codes "rl:"
      ++ (route_text options.route_group
          ++ (codes ":"
              ++ (r.workspace_id
                  ++ (codes ":" ++ (r.ip_hash ++ (codes ":" ++ decimal (r.now / window)))))))

  abbrev pub window_reset_epoch : ℕ → ℕ
  window_reset_epoch now = suc (now / window) * window / 1000

  -- The count that is stored; nothing, an empty text and a NaN count as none.
  abbrev pub stored_count : Option Text → ℕ
  stored_count none = 0
  stored_count (some v) = if is_empty v then 0 else or_else (parse_int v) 0

  unfoldable pub counted_request : Request → ℕ → S → Verdict × S
  unfolding build_kv_key
  counted_request r current s =
      if leb limit current
      then (Verdict.rate_limited (max 1 (window_reset_epoch r.now - r.now / 1000)), s)
      else (
        Verdict.counted (limit - current - 1),
        if r.put_fails
            then s
            else kv.put (build_kv_key r) (decimal (current + 1)) (some kv_ttl_seconds) s,
      )

  unfoldable pub rate_limit : Request → S → Verdict × S
  unfolding counted_request build_kv_key
  rate_limit r s =
      if is_empty r.workspace_id
      then (Verdict.passed, s)
      else if r.has_kv
      then (if r.get_fails
          then (Verdict.passed, s)
          else counted_request r (stored_count (kv.get (build_kv_key r) s)) s)
      else (Verdict.passed, s)
