-- ===== src/Sync/Sending.antt =====
-- What Meta has answered with success when a plan is sent without an error, by `processMetaSyncJob` of
-- apps/edge/src/dispatchers/audience-sync/meta/index.ts.
use globaltracker.Prelude.{
  append-nil, append_assoc, ◌≡◌, refl, sym, ◌∙◌, ap, ℕ, ◌≤◌, Bool, true, false, List, [], ◌∷◌, ◌++◌,
  map, Text, All, select, subst, length, if◌then◌else◌,
}
use globaltracker.Audience.Jobs.{Plan}
use globaltracker.Sync.Client.{SyncError, Outcome, call_users_endpoint}
use globaltracker.Sync.Accepted.{
  acknowledged, IsSmall, Accepted, Accepted-none, Accepted-append, call_users_endpoint-Accepted,
}
use globaltracker.Sync.Batches.{batch_members, flatten, flatten-batch_members, batch_members-bound}
use globaltracker.Sync.Store.{Member, Direction, Delivery, Reads, SyncStore, to_members}
use globaltracker.Sync.Process.{
  World, meta_batch_size, batch_done, delivery, both_sent, send_batches, send_members, send_plan,
}

abbrev pub is_addition : Delivery → Bool
is_addition d = elim d.direction [ Direction.addition ↦ true | Direction.removal ↦ false ]

abbrev pub is_removal : Delivery → Bool
is_removal d = elim d.direction [ Direction.addition ↦ false | Direction.removal ↦ true ]

abbrev pub delivered : Delivery → List Member
delivered d = d.members

-- Everybody who was sent in one direction, in order.
unfoldable pub people : (Delivery → Bool) → List Delivery → List Member
people p ds = flatten (map delivered (select p ds))

-- The requests for a plan: one direction after the other, in batches.
abbrev requests_of : Direction → Text → List Member → List Delivery
requests_of direction resource members =
    map (delivery direction resource) (batch_members meta_batch_size members)

no_error : {A : Type 0} {e : SyncError} {a : A} → Outcome.err e ≡ Outcome.ok a → ⊥
no_error h = cc

of_ok : {A : Type 0} {a b : A} → Outcome.ok a ≡ Outcome.ok b → a ≡ b
of_ok h = cc

module _ (world : World) (reads : Reads) (direction : Direction) (resource : Text) where
  batch_done-ok :
      (o : Outcome ℕ) (onward : Outcome ℕ × List Delivery) (r after : List Delivery) (n : ℕ)
      → batch_done o onward r ≡ (Outcome.ok n, after)
      → (k m : ℕ) × (o ≡ Outcome.ok k) × (onward ≡ (Outcome.ok m, after))
  batch_done-ok (Outcome.err e) onward r after n h = absurd (no_error (ap (λ t. t.0) h))
  batch_done-ok (Outcome.ok k) (Outcome.err e, q) r after n h = absurd (no_error (ap (λ t. t.0) h))
  batch_done-ok (Outcome.ok k) (Outcome.ok m, q) r after n h =
      (k, m, refl, ap (λ t. (Outcome.ok m, t.1)) h)

  send_batches-Accepted :
      (bs : List (List Member)) (made after : List Delivery) (n : ℕ)
      → All (λ b. length b ≤ meta_batch_size) bs
      → send_batches world reads direction resource bs made ≡ (Outcome.ok n, after)
      → Accepted world.fetch made after (map (delivery direction resource) bs)
  unfolding send_batches
  send_batches-Accepted [] made after n small h =
      subst (λ t. Accepted world.fetch made t []) (ap (λ r. r.1) h) (Accepted-none world.fetch made)
  send_batches-Accepted (b ∷ bs) made after n small h =
      let body : Delivery = delivery direction resource b in
      let r = call_users_endpoint world.fetch (length b) body made in
      let onward = send_batches world reads direction resource bs r.1 in
      let (k, m, first, rest) = batch_done-ok r.0 onward r.1 after n h in
      Accepted-append world.fetch made r.1 after (body ∷ []) (map (delivery direction resource) bs)
        (call_users_endpoint-Accepted world.fetch (length b) body small.0 made r.1 k
          (ap (λ o. (o, r.1)) first))
        (send_batches-Accepted bs r.1 after m small.1 rest)

both_sent-ok :
    (a b : Outcome ℕ × List Delivery) (st after : SyncStore) (counts : ℕ × ℕ)
    → both_sent a b st ≡ (Outcome.ok counts, after)
    → (a ≡ (Outcome.ok counts.0, a.1)) × (b ≡ (Outcome.ok counts.1, after.requests))
both_sent-ok (Outcome.err e, r) b st after counts h = absurd (no_error (ap (λ t. t.0) h))
both_sent-ok (Outcome.ok n, r) (Outcome.err e, q) st after counts h =
    absurd (no_error (ap (λ t. t.0) h))
both_sent-ok (Outcome.ok n, r) (Outcome.ok m, q) st after counts h =
    let same : ((n, m) ≡ counts) = of_ok (ap (λ t. t.0) h) in
    (
      ap (λ c. (Outcome.ok c.0, r)) same,
      ap (λ c. (Outcome.ok c.1, q)) same ∙ ap (λ t. (Outcome.ok counts.1, t.1.requests)) h,
    )

select-requests :
    (p : Delivery → Bool) (direction : Direction) (resource : Text) (b : Bool)
    → ((ms : List Member) → p (delivery direction resource ms) ≡ b)
    → (bs : List (List Member)) (ds : List Delivery)
    → people p (map (delivery direction resource) bs ++ ds)
      ≡ (if b then flatten bs ++ people p ds else people p ds)
unfolding people
select-requests p direction resource true is [] ds = refl
select-requests p direction resource false is [] ds = refl
select-requests p direction resource true is (b ∷ bs) ds = rw (is b) (
    ap (λ t. b ++ t) (select-requests p direction resource true is bs ds)
    ∙ sym (append_assoc b (flatten bs) (people p ds)))
select-requests p direction resource false is (b ∷ bs) ds =
    rw (is b) (select-requests p direction resource false is bs ds)

people_alone :
    (p : Delivery → Bool) (direction : Direction) (resource : Text) (b : Bool)
    → ((ms : List Member) → p (delivery direction resource ms) ≡ b)
    → (bs : List (List Member))
    → people p (map (delivery direction resource) bs) ≡ (if b then flatten bs else [])
unfolding people
people_alone p direction resource true is bs =
    ap (people p) (sym (append-nil (map (delivery direction resource) bs)))
    ∙ (select-requests p direction resource true is bs [] ∙ append-nil (flatten bs))
people_alone p direction resource false is bs =
    ap (people p) (sym (append-nil (map (delivery direction resource) bs)))
    ∙ select-requests p direction resource false is bs []

-- Where sending a plan ends without an error: of the requests that were made since, those that Meta
-- answered with success carry exactly the leads of the additions, and exactly those of the removals, in
-- their order, and no request has more than 10,000. A request whose answer was lost does not count here,
-- and is made again.
pub send_plan-people :
    (world : World) (reads : Reads) (resource : Text) (plan : Plan) (st after : SyncStore)
    (counts : ℕ × ℕ)
    → send_plan world reads resource plan st ≡ (Outcome.ok counts, after)
    → (new : List Delivery) × (after.requests ≡ st.requests ++ new)
      × (people is_addition (acknowledged world.fetch (length st.requests) new)
          ≡ to_members plan.additions reads.leads)
      × (people is_removal (acknowledged world.fetch (length st.requests) new)
          ≡ to_members plan.removals reads.leads)
      × All IsSmall new
unfolding send_plan send_members
send_plan-people world reads resource plan st after counts h =
    let adds = send_members world reads Direction.addition resource plan.additions st.requests in
    let removes = send_members world reads Direction.removal resource plan.removals adds.1 in
    let a = to_members plan.additions reads.leads in
    let r = to_members plan.removals reads.leads in
    let as_ = batch_members meta_batch_size a in
    let rs = batch_members meta_batch_size r in
    let (first, second) = both_sent-ok adds removes st after counts h in
    let (new, from, acks, small) =
      Accepted-append world.fetch st.requests adds.1 after.requests
        (requests_of Direction.addition resource a) (requests_of Direction.removal resource r)
        (send_batches-Accepted world reads Direction.addition resource as_ st.requests adds.1
          counts.0 (batch_members-bound meta_batch_size a) first)
        (send_batches-Accepted world reads Direction.removal resource rs adds.1 after.requests
          counts.1 (batch_members-bound meta_batch_size r) second) in
    (
      new,
      from,
      ap (people is_addition) acks
          ∙ (select-requests is_addition Direction.addition resource true (λ ms. refl) as_
                (requests_of Direction.removal resource r)
              ∙ (ap (λ t. flatten as_ ++ t)
                    (people_alone is_addition Direction.removal resource false (λ ms. refl) rs)
                  ∙ (append-nil _ ∙ flatten-batch_members 9999 a))),
      ap (people is_removal) acks
          ∙ (select-requests is_removal Direction.addition resource false (λ ms. refl) as_
                (requests_of Direction.removal resource r)
              ∙ (people_alone is_removal Direction.removal resource true (λ ms. refl) rs
                  ∙ flatten-batch_members 9999 r)),
      small,
    )
