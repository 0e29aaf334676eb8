-- ===== src/Audience/Planning.antt =====
-- What a sync plan of apps/edge/src/lib/audience.ts does to a platform, and the key of the lock.
use globaltracker.Prelude.{
  ◌≡◌, refl, sym, ◌∙◌, ap, inl, inr, ℕ, ◌+◌, ◌*◌, ◌%◌, ◌^◌, ◌<◌, ◌≤◌, Bool, true, false, not, ◌&&◌,
  ◌||◌, List, [], ◌∷◌, Option, none, some, Text, text_eq, eq_of_text_eq, select, Bool-cases, arith,
}
use globaltracker.Audience.Types.{SnapshotMember}
use globaltracker.Audience.Jobs.{
  is_in, members_of, distinct_texts, except, Plan, sync_plan, djb2_bits, djb2,
}

-- What a platform that holds `before` holds once the removals and the additions are sent.
unfoldable pub holds_after : Text → List Text → Plan → Bool
holds_after x before plan =
    (is_in x before && not (is_in x plan.removals)) || is_in x plan.additions

-- The members that the platform got by the previous snapshot.
abbrev pub previous_members : Option Text → List SnapshotMember → List Text
previous_members none rows = []
previous_members (some prev_id) rows = members_of prev_id rows

is_in-same : (x t : Text) (ts : List Text) → text_eq x t ≡ true → is_in x ts ≡ is_in t ts
is_in-same x t ts h = ap (λ u. is_in u ts) (eq_of_text_eq x t h)

-- What equals a text of the list is in it.
repeated :
    (x t : Text) (ts : List Text) → is_in t ts ≡ true → (text_eq x t || is_in x ts) ≡ is_in x ts
repeated x t ts h = elim (Bool-cases (text_eq x t)) [
  | inl e ↦ rw e (sym (is_in-same x t ts e ∙ h))
  | inr e ↦ rw e refl
]

in-distinct_texts : (x : Text) (ts : List Text) → is_in x (distinct_texts ts) ≡ is_in x ts
unfolding distinct_texts
in-distinct_texts x [] = refl
in-distinct_texts x (t ∷ ts) = elim (Bool-cases (is_in t ts)) [
  | inl e ↦ rw e (ground (arith, in-distinct_texts x ts, repeated x t ts e))
  | inr e ↦ rw e (ap (λ b. text_eq x t || b) (in-distinct_texts x ts))
]

in-select :
    (x : Text) (p : Text → Bool) (ts : List Text) → is_in x (select p ts) ≡ (is_in x ts && p x)
in-select x p [] = refl
in-select x p (t ∷ ts) = elim (Bool-cases (text_eq x t)) [
  | inl e ↦ ground (arith, in-select x p ts, ap p (eq_of_text_eq x t e))
  | inr e ↦ ground (arith, in-select x p ts)
]

in-except :
    (x : Text) (xs ys : List Text) → is_in x (except xs ys) ≡ (is_in x xs && not (is_in x ys))
unfolding except
in-except x xs ys =
    in-distinct_texts x (select (λ t. not (is_in t ys)) xs) ∙ in-select x (λ t. not (is_in t ys)) xs

carried_out :
    (now before : Bool) → ((before && not (before && not now)) || (now && not before)) ≡ now
carried_out true true = refl
carried_out true false = refl
carried_out false true = refl
carried_out false false = refl

-- BR-AUDIENCE-003: a platform that holds the members of the previous snapshot (none, where there is no
-- previous snapshot) holds those of the current one, and no others, once a plan is carried out.
pub sync_plan-holds_after :
    (x : Text) (snapshot_id : Text) (prev_id : Option Text) (rows : List SnapshotMember)
    → holds_after x (previous_members prev_id rows) (sync_plan snapshot_id prev_id rows)
      ≡ is_in x (members_of snapshot_id rows)
unfolding holds_after sync_plan
sync_plan-holds_after x snapshot_id none rows = refl
sync_plan-holds_after x snapshot_id (some prev_id) rows =
    rw
      (
        in-except x (members_of snapshot_id rows) (members_of prev_id rows),
        in-except x (members_of prev_id rows) (members_of snapshot_id rows),
      )
      (carried_out (is_in x (members_of snapshot_id rows)) (is_in x (members_of prev_id rows)))

djb2_bits_bound : (hash : ℕ) (s : Text) → hash < 2 ^ 32 → djb2_bits hash s < 2 ^ 32
unfolding djb2_bits
djb2_bits_bound hash [] h = h
djb2_bits_bound hash (c ∷ s) h = djb2_bits_bound ((hash * 33 + c) % 2 ^ 32) s (omega arith)

-- The key of a lock is at most 2 ^ 31, which a bigint holds.
pub djb2_bound : (s : Text) → djb2 s ≤ 2 ^ 31
unfolding djb2
djb2_bound s = ground (arith, djb2_bits_bound 5381 s (omega arith))
