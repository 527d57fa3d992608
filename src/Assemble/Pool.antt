-- ===== src/Assemble/Pool.antt =====
-- internal/zchunk/download.go: the goroutines of `AssembleBody`, one for each run, and the
-- semaphore that bounds them, as a step relation over their interleavings.
pub mod Schedules
pub mod Progress
pub mod Refines
use zchunk.Prelude.{
  ℕ, zero, suc, ◌+◌, ◌-◌, ◌<◌, ◌≡◌, Option, none, some, List, [], ◌∷◌, ◌++◌, length, get_elem?,
}
use zchunk.Go.Result.{Result, panic, stuck}
use zchunk.Go.Reader.{Bytes}
use zchunk.Assemble.{RemoteRun}

-- defaultFetchConcurrency
abbrev pub default_fetch_concurrency : ℕ
default_fetch_concurrency = 4

-- A worker waits for the semaphore, fetches, has stored its result and closed `ready[k]`, or has
-- given the semaphore back.
pub data Phase : Type 0 where
  waiting fetching stored gone : Phase

-- `results[k]` is unset until the worker stores it.
pub record Worker : Type 0 where
  pub phase : Phase
  pub result : Option (Result Bytes)

-- `in_use` is the number of elements in the channel `sem`.
pub record Pool : Type 0 where
  pub workers : List Worker
  pub in_use : ℕ

-- `for k := range runs { wg.Add(1); go … }`
unfoldable pub start : List RemoteRun → List Worker
start [] = []
start (r ∷ rs) = record { phase = waiting; result = none } ∷ start rs

abbrev pub start_pool : List RemoteRun → Pool
start_pool runs = record { workers = start runs; in_use = 0 }

-- Worker number `length front` moves; `answer` is what `ReadRange` and its check give each worker.
pub data Step (answer : ℕ → Result Bytes) (s t : Pool) : Type 0 where
  acquire :
      (front back : List Worker) (k : Worker)
      → s.workers ≡ front ++ k ∷ back
      → k.phase ≡ waiting
      → s.in_use < default_fetch_concurrency
      → t
        ≡ record { workers = front ++ record k { phase = fetching } ∷ back; in_use = s.in_use + 1 }
      → Step answer s t
  store :
      (front back : List Worker) (k : Worker)
      → s.workers ≡ front ++ k ∷ back
      → k.phase ≡ fetching
      → t ≡ record {
        workers = front ++ record { phase = stored; result = some (answer (length front)) } ∷ back;
        in_use = s.in_use;
      }
      → Step answer s t
  release :
      (front back : List Worker) (k : Worker)
      → s.workers ≡ front ++ k ∷ back
      → k.phase ≡ stored
      → t ≡ record { workers = front ++ record k { phase = gone } ∷ back; in_use = s.in_use - 1 }
      → Step answer s t

pub data Reach (answer : ℕ → Result Bytes) (s : Pool) : Pool → Type 0 where
  here : Reach answer s s
  later : {t u : Pool} → Reach answer s t → Step answer t u → Reach answer s u

-- What the loop reads behind `<-ready[k]`: a result that is not stored blocks it.
abbrev pub received : Option Worker → Result Bytes
received none = panic
received (some k) = elim k.result [ none ↦ stuck | some r ↦ r ]

unfoldable pub results_of : Pool → ℕ → Result Bytes
results_of s k = received (get_elem? s.workers k)
