-- ===== src/Dispatch/Separation.antt =====
-- What the text under the idempotency key of apps/edge/src/lib/dispatch.ts tells apart.
use globaltracker.Prelude.{◌≡◌, refl, ◌≢◌, Text, arith, [], ◌∷◌, ◌++◌, All, or_else}
use globaltracker.Dispatch.Types.{Destination, KeyParams, destination_text}
use globaltracker.Dispatch.Keys.{key_text}

-- The text has no separator, as no UUID has.
abbrev pub HasNoBar : Text → Type 0
HasNoBar t = All (λ c. c ≢ 124) t

split_at_bar :
    (a b s t : Text) → HasNoBar a → HasNoBar b → a ++ (124 ∷ s) ≡ b ++ (124 ∷ t) → (a ≡ b) × (s ≡ t)
split_at_bar [] [] s t na nb e = (refl, cc)
split_at_bar [] (y ∷ b) s t na nb e = ground arith
split_at_bar (x ∷ a) [] s t na nb e = ground arith
split_at_bar (x ∷ a) (y ∷ b) s t na nb e =
    let (same, rest) = split_at_bar a b s t na.1 nb.1 (cc) in (ground arith, rest)

destination-HasNoBar : (d : Destination) → HasNoBar (destination_text d)
unfolding destination_text
destination-HasNoBar Destination.meta_capi = omega arith
destination-HasNoBar Destination.ga4_mp = omega arith
destination-HasNoBar Destination.google_ads_conversion = omega arith
destination-HasNoBar Destination.google_enhancement = omega arith
destination-HasNoBar Destination.audience_sync = omega arith

destination_text-injective : (d e : Destination) → destination_text d ≡ destination_text e → d ≡ e
unfolding destination_text
destination_text-injective d e h = ground arith

-- Two sets of parameters with one text are the same five fields, a missing subresource counting as
-- the empty one, where the workspace, event and resource identifiers have no separator.
pub key_text-injective :
    (p q : KeyParams)
    → HasNoBar p.workspace_id
    → HasNoBar q.workspace_id
    → HasNoBar p.event_id
    → HasNoBar q.event_id
    → HasNoBar p.destination_resource_id
    → HasNoBar q.destination_resource_id
    → key_text p ≡ key_text q
    → (p.workspace_id ≡ q.workspace_id)
      × (p.event_id ≡ q.event_id)
      × (p.destination ≡ q.destination)
      × (p.destination_resource_id ≡ q.destination_resource_id)
      × (or_else p.destination_subresource [] ≡ or_else q.destination_subresource [])
unfolding key_text
key_text-injective p q pw qw pe qe pr qr h =
    let (w, h1) = split_at_bar _ _ _ _ pw qw h in
    let (v, h2) = split_at_bar _ _ _ _ pe qe h1 in
    let (d, h3) =
      split_at_bar _ _ _ _ (destination-HasNoBar p.destination) (destination-HasNoBar q.destination)
        h2 in
    let (r, h4) = split_at_bar _ _ _ _ pr qr h3 in
    (w, v, destination_text-injective p.destination q.destination d, r, h4)
