-- ===== src/Payload/Tests.antt =====
-- A run of apps/edge/src/lib/dispatch-payload-sanitize.ts.
use globaltracker.Prelude.{codes}
use globaltracker.Payload.Json.{Json, str, obj, arr, field, end, cons, nil, num}
use globaltracker.Payload.Sanitize.{sanitize, IsClean}
use globaltracker.Payload.Clean.{sanitize-IsClean}

abbrev event : Json
event = obj (
    field (codes "data")
      (arr (cons (obj (field (codes "client_ip_address") (str (codes "10.0.0.1")) end)) nil))
      (field (codes "n") (num 3) end))

sanitize-IsClean_example : IsClean (sanitize event)
sanitize-IsClean_example = sanitize-IsClean event
