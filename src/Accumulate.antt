-- ===== src/Accumulate.antt =====
-- m5-mt-async/include/parallel_accumulate.h: a sum in blocks of 25. The thread pool is outside this
-- file: a future gives the result of the task that was enqueued for it.
mod Tests
use stud_stuff.Base.{
  ℕ, zero, suc, ◌+◌, ◌-◌, ◌/◌, List, [], ◌∷◌, ◌++◌, Option, none, some, ◌>>=◌, ◌≡◌, length,
}

-- the type that is summed: `operator+=` and `T()`, with the laws of a sum in any grouping
pub record Sum {ℓ} (A : Type ℓ) : Type ℓ where
  pub plus : A → A → A
  pub nought : A
  pub plus_assoc : (a b c : A) → plus (plus a b) c ≡ plus a (plus b c)
  pub plus_nought : (a : A) → plus a nought ≡ a
  pub nought_plus : (a : A) → plus nought a ≡ a

abbrev pub block_size : ℕ
block_size = 25

module _ {ℓ} {A : Type ℓ} ⦃s : Sum A⦄ where
  -- `std::accumulate`, and the loop that adds the results of the futures
  unfoldable pub accumulate : List A → A → A
  accumulate [] a = a
  accumulate (x ∷ xs) a = accumulate xs (s.plus a x)

  unfoldable pub accumulate_block : List A → A
  accumulate_block xs = accumulate xs s.nought

  -- `std::advance`: the elements that are passed over and those behind them; `none` past the end,
  -- where it is undefined
  unfoldable pub advance : ℕ → List A → Option (List A × List A)
  advance zero xs = some ([], xs)
  advance (suc n) [] = none
  advance (suc n) (x ∷ xs) = advance n xs >>= λ (block, rest). some (x ∷ block, rest)

  -- the results of the tasks, and the rest from `block_start`
  unfoldable pub enqueue_blocks : ℕ → List A → Option (List A × List A)
  enqueue_blocks zero xs = some ([], xs)
  enqueue_blocks (suc n) xs = do
    (block, block_start) ← advance block_size xs
    (futures, rest) ← enqueue_blocks n block_start
    some (accumulate_block block ∷ futures, rest)

  -- `none` where it is undefined
  unfoldable pub parallel_accumulate : List A → A → Option A
  parallel_accumulate [] init = some init
  parallel_accumulate (x ∷ xs) init =
      let num_blocks = (length (x ∷ xs) + block_size - 1) / block_size in
      enqueue_blocks (num_blocks - 1) (x ∷ xs) >>= λ (futures, rest).
      some (s.plus (accumulate futures init) (accumulate_block rest))

  -- What `advance` gives: so many elements, and all of them in order.
  record Advanced (n : ℕ) (xs : List A) : Type ℓ where
    block : List A
    rest : List A
    runs : advance n xs ≡ some (block, rest)
    whole : block ++ rest ≡ xs
    left : n + length rest ≡ length xs
