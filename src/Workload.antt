-- ===== src/Workload.antt =====
-- core/workload/workload.go: the transactions of a premade workload, by secondary, thread and interval.
-- Indices count from zero; a negative one panics.
pub mod Add
use diablo.Prelude.{ℕ, zero, suc, ◌-◌, List, [], ◌∷◌, ◌++◌, Bytes, length}

abbrev pub WorkloadInterval : Type 0
WorkloadInterval = List Bytes

abbrev pub ThreadWorkload : Type 0
ThreadWorkload = List WorkloadInterval

abbrev pub SecondaryWorkload : Type 0
SecondaryWorkload = List ThreadWorkload

abbrev pub Workload : Type 0
Workload = List SecondaryWorkload

module _ {A : Type 0} (empty : A) where
  -- The loop of `getInterval`, `getThread` and `getSecondary`, in its number of rounds.
  unfoldable pub grow : ℕ → List A → List A
  grow zero xs = xs
  grow (suc rounds) xs = grow rounds (xs ++ empty ∷ [])

  -- `for len(this.array) <= index`
  unfoldable pub grow_to : ℕ → List A → List A
  grow_to index xs = grow (suc index - length xs) xs

-- A change through the pointer to the element at the index.
unfoldable pub modify : {A : Type 0} → ℕ → (A → A) → List A → List A
modify index f [] = []
modify zero f (x ∷ xs) = f x ∷ xs
modify (suc index) f (x ∷ xs) = x ∷ modify index f xs

unfoldable pub interval_add : Bytes → WorkloadInterval → WorkloadInterval
interval_add tx xs = xs ++ tx ∷ []

unfoldable pub thread_add : ℕ → Bytes → ThreadWorkload → ThreadWorkload
thread_add interval tx t = modify interval (interval_add tx) (grow_to [] interval t)

unfoldable pub secondary_add : ℕ → ℕ → Bytes → SecondaryWorkload → SecondaryWorkload
secondary_add thread interval tx s = modify thread (thread_add interval tx) (grow_to [] thread s)

-- `Add`
unfoldable pub workload_add : ℕ → ℕ → ℕ → Bytes → Workload → Workload
workload_add secondary thread interval tx w =
    modify secondary (secondary_add thread interval tx) (grow_to [] secondary w)
