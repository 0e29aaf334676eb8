-- ===== src/Guards/EventTime.antt =====
-- apps/edge/src/lib/event-time-clamp.ts. Times are milliseconds.
use globaltracker.Prelude.{ℕ, ◌+◌, ◌-◌, ◌≤◌, Bool, true, false, ltb, if◌then◌else◌, arith}

abbrev pub default_max_drift_ms : ℕ
default_max_drift_ms = 300000

pub record ClampResult : Type 0 where
  pub event_time : ℕ
  pub was_clamped : Bool

-- `Math.abs(a - b)`.
abbrev pub distance : ℕ → ℕ → ℕ
distance a b = (a - b) + (b - a)

unfoldable pub clamp_event_time : ℕ → ℕ → ℕ → ClampResult
clamp_event_time client_ts server_ts max_drift_ms =
    if ltb max_drift_ms (distance client_ts server_ts)
    then record { event_time = server_ts; was_clamped = true }
    else record { event_time = client_ts; was_clamped = false }

-- The time of an event is never further from the server's than the drift that is allowed.
pub clamp_event_time_bound :
    (client_ts server_ts max_drift_ms : ℕ)
    → distance (clamp_event_time client_ts server_ts max_drift_ms).event_time server_ts
      ≤ max_drift_ms
unfolding clamp_event_time
clamp_event_time_bound client_ts server_ts max_drift_ms = ground arith
