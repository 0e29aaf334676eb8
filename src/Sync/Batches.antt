-- ===== src/Sync/Batches.antt =====
-- `batchMembers` of apps/edge/src/dispatchers/audience-sync/meta/batcher.ts: slices of at most `size`
-- members. The rounds are at most as many as there are members.
use globaltracker.Prelude.{
  ◌≡◌, refl, ◌∙◌, ap, ℕ, zero, suc, ◌≤◌, List, [], ◌∷◌, ◌++◌, All, take, drop, length, arith,
}

module _ {R : Type 0} (size : ℕ) where
  unfoldable pub batches : ℕ → List R → List (List R)
  batches zero xs = []
  batches (suc fuel) [] = []
  batches (suc fuel) (x ∷ xs) = take size (x ∷ xs) ∷ batches fuel (drop size (x ∷ xs))

  unfoldable pub batch_members : List R → List (List R)
  unfolding batches
  batch_members xs = batches (length xs) xs

abbrev pub flatten : {R : Type 0} → List (List R) → List R
flatten [] = []
flatten (b ∷ bs) = b ++ flatten bs

take-drop : {R : Type 0} (n : ℕ) (xs : List R) → take n xs ++ drop n xs ≡ xs
take-drop zero xs = refl
take-drop (suc n) [] = refl
take-drop (suc n) (x ∷ xs) = ap (λ t. x ∷ t) (take-drop n xs)

length-take : {R : Type 0} (n : ℕ) (xs : List R) → length (take n xs) ≤ n
length-take zero xs = omega arith
length-take (suc n) [] = omega arith
length-take (suc n) (x ∷ xs) = omega (arith, length-take n xs)

length-drop : {R : Type 0} (n : ℕ) (xs : List R) → length (drop n xs) ≤ length xs
length-drop zero xs = omega arith
length-drop (suc n) [] = omega arith
length-drop (suc n) (x ∷ xs) = omega (arith, length-drop n xs)

flatten-batches :
    {R : Type 0} (size fuel : ℕ) (xs : List R)
    → length xs ≤ fuel
    → flatten (batches (suc size) fuel xs) ≡ xs
unfolding batches
flatten-batches size zero [] h = refl
flatten-batches size zero (x ∷ xs) h = absurd (omega arith)
flatten-batches size (suc fuel) [] h = refl
flatten-batches size (suc fuel) (x ∷ xs) h =
    ap (λ t. x ∷ (take size xs ++ t))
      (flatten-batches size fuel (drop size xs) (omega (arith, length-drop size xs)))
    ∙ ap (λ t. x ∷ t) (take-drop size xs)

-- Nothing is lost or sent twice, in batches of a size that is not zero.
pub flatten-batch_members :
    {R : Type 0} (size : ℕ) (xs : List R) → flatten (batch_members (suc size) xs) ≡ xs
unfolding batch_members
flatten-batch_members size xs = flatten-batches size (length xs) xs (omega arith)

batches-bound :
    {R : Type 0} (size fuel : ℕ) (xs : List R) → All (λ b. length b ≤ size) (batches size fuel xs)
unfolding batches
batches-bound size zero xs = tt
batches-bound size (suc fuel) [] = tt
batches-bound size (suc fuel) (x ∷ xs) =
    (length-take size (x ∷ xs), batches-bound size fuel (drop size (x ∷ xs)))

pub batch_members-bound :
    {R : Type 0} (size : ℕ) (xs : List R) → All (λ b. length b ≤ size) (batch_members size xs)
unfolding batch_members
batch_members-bound size xs = batches-bound size (length xs) xs
