-- ===== src/Sync/Accepted.antt =====
-- Which of the requests of apps/edge/src/dispatchers/audience-sync/meta/client.ts the platform has
-- answered with success, and that a call which returns has made one of them.
use globaltracker.Prelude.{
  append-nil, append_assoc, ◌≡◌, refl, sym, ◌∙◌, ap, subst, ℕ, zero, suc, ◌+◌, ◌≤◌, Bool, true,
  false, ◌&&◌, leb, List, [], ◌∷◌, ◌++◌, Option, none, some, Text, text_eq, codes, ◌==◌, or_else,
  eq_of_some, All, All-append, length, length-append, if◌then◌else◌, Bool-cases, inl, inr, arith,
}
use globaltracker.Sync.Client.{
  Reply, SyncError, Outcome, is_ok_status, is_retried_status, refused, settle_reply, attempts,
  call_users_endpoint,
}
use globaltracker.Sync.Store.{Delivery}
use globaltracker.Sync.Process.{meta_batch_size}

-- An answer whose status is between 200 and 299.
abbrev pub is_success : Reply → Bool
is_success Reply.network_failure = false
is_success (Reply.answered status received code) = leb 200 status && leb status 299
is_success (Reply.unreadable status) = leb 200 status && leb status 299

-- Of requests in order, the first with the number `n`: those that are answered with success.
unfoldable pub acknowledged : (ℕ → Reply) → ℕ → List Delivery → List Delivery
acknowledged fetch n [] = []
acknowledged fetch n (d ∷ ds) =
    let rest = acknowledged fetch (suc n) ds in if is_success (fetch n) then d ∷ rest else rest

-- Nobody in a request is more than the platform takes.
abbrev pub IsSmall : Delivery → Type 0
IsSmall d = length d.members ≤ meta_batch_size

acknowledged_append :
    (fetch : ℕ → Reply) (n : ℕ) (ds es : List Delivery)
    → acknowledged fetch n (ds ++ es)
      ≡ acknowledged fetch n ds ++ acknowledged fetch (n + length ds) es
unfolding acknowledged
acknowledged_append fetch n [] es = ap (λ m. acknowledged fetch m es) (omega arith)
acknowledged_append fetch n (d ∷ ds) es =
    let onward : (acknowledged fetch (suc n) (ds ++ es)
        ≡ acknowledged fetch (suc n) ds ++ acknowledged fetch (n + suc (length ds)) es) =
      acknowledged_append fetch (suc n) ds es
      ∙ ap (λ m. acknowledged fetch (suc n) ds ++ acknowledged fetch m es) (omega arith) in
    elim (Bool-cases (is_success (fetch n))) [
      | inl e ↦ rw e (ap (λ t. d ∷ t) onward)
      | inr e ↦ rw e onward
    ]

no_error : {A : Type 0} {e : SyncError} {a : A} → Outcome.err e ≡ Outcome.ok a → ⊥
no_error h = cc

-- The branch that was taken.
if_true : {C : Type 0} (b : Bool) (x y : C) {z : C} → b ≡ true → (if b then x else y) ≡ z → x ≡ z
if_true true x y e h = h
if_true false x y e h = absurd (cc e)

if_false : {C : Type 0} (b : Bool) (x y : C) {z : C} → b ≡ false → (if b then x else y) ≡ z → y ≡ z
if_false true x y e h = absurd (cc e)
if_false false x y e h = h

or_else-ok :
    {B : Type 0} (again : Option (Outcome ℕ × B)) (e : SyncError) (made after : B) (n : ℕ)
    → or_else again (Outcome.err e, made) ≡ (Outcome.ok n, after)
    → again ≡ some (Outcome.ok n, after)
or_else-ok none e made after n h = absurd (no_error (ap (λ r. r.0) h))
or_else-ok (some r) e made after n h = ap some h

pick :
    {B : Type 0} (a b : Bool) (e f g : SyncError) (again : Option (Outcome ℕ × B)) (made after : B)
    (n : ℕ)
    → (if a
        then (Outcome.err e, made)
        else if b
        then or_else again (Outcome.err f, made)
        else (Outcome.err g, made))
      ≡ (Outcome.ok n, after)
    → again ≡ some (Outcome.ok n, after)
pick true b e f g again made after n h = absurd (no_error (ap (λ r. r.0) h))
pick false true e f g again made after n h = or_else-ok again f made after n h
pick false false e f g again made after n h = absurd (no_error (ap (λ r. r.0) h))

module _ (fetch : ℕ → Reply) where
  -- After the requests of `made`, more were made up to `after`; those of them that were answered with
  -- success are `ds`, and none is too large.
  abbrev pub Accepted : List Delivery → List Delivery → List Delivery → Type 0
  Accepted made after ds =
      (new : List Delivery) × (after ≡ made ++ new)
      × (acknowledged fetch (length made) new ≡ ds)
      × All IsSmall new

  pub Accepted-none : (made : List Delivery) → Accepted made made []
  unfolding acknowledged
  Accepted-none made = ([], sym (append-nil made), refl, tt)

  pub Accepted-append :
      (made middle after ds es : List Delivery)
      → Accepted made middle ds
      → Accepted middle after es
      → Accepted made after (ds ++ es)
  Accepted-append made middle after ds es (new, from, acks, small) (more, from', acks', small') = (
    new ++ more,
    from' ∙ (ap (λ t. t ++ more) from ∙ append_assoc made new more),
    acknowledged_append fetch (length made) new more
        ∙ (ap (λ t. t ++ acknowledged fetch (length made + length new) more) acks
            ∙ ap (λ t. ds ++ t)
                (ap (λ m. acknowledged fetch m more) (sym (ap length from ∙ length-append made new))
                  ∙ acks')),
    All-append IsSmall new more small small',
  )

  module _ (size : ℕ) (body : Delivery) (small : IsSmall body) where
    here :
        (made : List Delivery)
        → is_success (fetch (length made)) ≡ true
        → Accepted made (made ++ body ∷ []) (body ∷ [])
    unfolding acknowledged
    here made e = (body ∷ [], refl, rw e refl, (small, tt))

    missed :
        (made : List Delivery)
        → is_success (fetch (length made)) ≡ false
        → Accepted made (made ++ body ∷ []) []
    unfolding acknowledged
    missed made e = (body ∷ [], refl, rw e refl, (small, tt))

    -- A refusal is a success only where another attempt is.
    refused-ok :
        (again : Option (Outcome ℕ × List Delivery)) (status : ℕ) (code : Text)
        (made after : List Delivery) (n : ℕ)
        → refused fetch size body again status code made ≡ (Outcome.ok n, after)
        → again ≡ some (Outcome.ok n, after)
    refused-ok again status code made after n h =
        pick ((status == 400) && text_eq code (codes "INVALID_PARAMETER"))
          (is_retried_status status) _ _ _ again made after n h

    -- A reply that makes the call return: it is a success, or one of a later attempt is.
    settled :
        (again : Option (Outcome ℕ × List Delivery)) (made after : List Delivery) (n : ℕ)
        (reply : Reply)
        → fetch (length made) ≡ reply
        → settle_reply fetch size body again reply (made ++ body ∷ []) ≡ (Outcome.ok n, after)
        → (again ≡ some (Outcome.ok n, after) → Accepted (made ++ body ∷ []) after (body ∷ []))
        → Accepted made after (body ∷ [])
    settled again made after n Reply.network_failure is h onward =
        Accepted-append made (made ++ body ∷ []) after [] (body ∷ [])
          (missed made (ap is_success is))
          (onward (or_else-ok again _ (made ++ body ∷ []) after n h))
    settled again made after n (Reply.answered status received code) is h onward =
        elim (Bool-cases (is_ok_status status)) [
          | inl e ↦
              let done : (made ++ body ∷ [] ≡ after) =
                ap (λ r. r.1) (if_true (is_ok_status status) _ _ e h) in
              subst (λ t. Accepted made t (body ∷ [])) done (here made (ap is_success is ∙ e))
          | inr e ↦
              Accepted-append made (made ++ body ∷ []) after [] (body ∷ [])
                (missed made (ap is_success is ∙ e))
                (onward (
                  refused-ok again status _ (made ++ body ∷ []) after n
                    (if_false (is_ok_status status) _ _ e h)))
        ]
    settled again made after n (Reply.unreadable status) is h onward =
        elim (Bool-cases (is_ok_status status)) [
          | inl e ↦ absurd (no_error (ap (λ r. r.0) (if_true (is_ok_status status) _ _ e h)))
          | inr e ↦
              Accepted-append made (made ++ body ∷ []) after [] (body ∷ [])
                (missed made (ap is_success is ∙ e))
                (onward (
                  refused-ok again status _ (made ++ body ∷ []) after n
                    (if_false (is_ok_status status) _ _ e h)))
        ]

    attempts-Accepted :
        (left : ℕ) (made after : List Delivery) (n : ℕ)
        → attempts fetch size body left made ≡ (Outcome.ok n, after)
        → Accepted made after (body ∷ [])
    unfolding attempts
    attempts-Accepted zero made after n h = absurd (no_error (ap (λ r. r.0) h))
    attempts-Accepted (suc zero) made after n h =
        settled none made after n (fetch (length made)) refl h (λ e. absurd (cc e))
    attempts-Accepted (suc (suc left)) made after n h =
        settled (some (attempts fetch size body (suc left) (made ++ body ∷ []))) made after n
          (fetch (length made)) refl h
          (λ e. attempts-Accepted (suc left) (made ++ body ∷ []) after n (eq_of_some e))

    -- A call that returns has made requests of which just one was answered with success, and that one
    -- carries the body.
    pub call_users_endpoint-Accepted :
        (made after : List Delivery) (n : ℕ)
        → call_users_endpoint fetch size body made ≡ (Outcome.ok n, after)
        → Accepted made after (body ∷ [])
    unfolding call_users_endpoint
    call_users_endpoint-Accepted made after n h = attempts-Accepted 3 made after n h
