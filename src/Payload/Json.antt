-- ===== src/Payload/Json.antt =====
-- The values that a dispatcher may attach as request or response. An array and an object are chains
-- of their members, in order.
use globaltracker.Prelude.{ℕ, Bool, Text}

mutual
  pub data Json : Type 0 where
    null : Json
    undefined : Json
    bool : Bool → Json
    num : ℕ → Json
    str : Text → Json
    arr : Items → Json
    obj : Fields → Json

  pub data Items : Type 0 where
    nil : Items
    cons : Json → Items → Items

  pub data Fields : Type 0 where
    end : Fields
    field : Text → Json → Fields → Fields
