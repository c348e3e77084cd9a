-- ===== src/Observability/Batches/Slices.antt =====
-- Consecutive shares of a list make up the list again, and each keeps within its limit.
use voxbench.Base.{
  ℕ, suc, ◌+◌, ◌*◌, ◌≤◌, ◌≡◌, ap, List, ◌++◌, length, take, drop, arith, take-add, drop-add,
  length-take,
}
use voxbench.Observability.Batches.{slice, share, batches_for}

share-take :
    {A : Type 0} (limit index : ℕ) (xs : List A)
    → share limit index xs ≡ take limit (drop (index * limit) xs)
unfolding share slice
share-take limit index xs = ap (λ n. take n (drop (index * limit) xs)) (omega arith)

pub length-share :
    {A : Type 0} (limit index : ℕ) (xs : List A) → length (share limit index xs) ≤ limit
length-share limit index xs =
    rw (share-take limit index xs) (omega (arith, length-take limit (drop (index * limit) xs)))

-- A share, and what the next ones make up.
pub share-append :
    {A : Type 0} (limit index n : ℕ) (xs : List A)
    → share limit index xs ++ take (n * limit) (drop ((index + 1) * limit) xs)
      ≡ take (suc n * limit) (drop (index * limit) xs)
share-append limit index n xs =
    let next : (index + 1) * limit ≡ index * limit + limit = omega arith in
    let all : suc n * limit ≡ limit + n * limit = omega arith in
    rw (share-take limit index xs, next, all, drop-add (index * limit) limit xs)
      (take-add limit (n * limit) (drop (index * limit) xs))

pub batches_for_enough : (l n : ℕ) → n ≤ batches_for (suc l) n * suc l
unfolding batches_for
batches_for_enough l n = omega arith
