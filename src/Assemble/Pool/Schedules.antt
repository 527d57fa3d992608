-- ===== src/Assemble/Pool/Schedules.antt =====
-- What holds of the workers under every interleaving.
use mathlib.Core.Path.{subst}
use zchunk.Prelude.{
  ℕ, suc, ◌+◌, ◌-◌, ◌≤◌, ◌<◌, ◌≡◌, sym, ap, refl, ◌⊎◌, inl, some, List, [], ◌∷◌, ◌++◌, length,
  length-append, arith,
}
use zchunk.Go.Result.{Result}
use zchunk.Go.Reader.{Bytes}
use zchunk.Assemble.{RemoteRun}
use zchunk.Assemble.Pool.{
  default_fetch_concurrency, Phase, waiting, fetching, stored, gone, Worker, Pool, start,
  start_pool, Step, acquire, store, release, Reach, here, later,
}

-- A place in the semaphore is held while a worker fetches, and until it has left.
abbrev pub held : Phase → ℕ
held fetching = 1
held stored = 1
held _ = 0

-- The moves that a worker has left.
abbrev pub moves : Phase → ℕ
moves waiting = 3
moves fetching = 2
moves stored = 1
moves gone = 0

unfoldable pub total : (Phase → ℕ) → List Worker → ℕ
total f [] = 0
total f (k ∷ ks) = f k.phase + total f ks

pub total-append :
    (f : Phase → ℕ) (front : List Worker) (k : Worker) (back : List Worker)
    → total f (front ++ k ∷ back) ≡ f k.phase + (total f front + total f back)
unfolding total
total-append f [] k back = omega arith
total-append f (q ∷ front) k back = omega (arith, total-append f front k back)

-- A result is stored when the worker says so, and it is the answer to this worker.
abbrev pub Honest : Result Bytes → Worker → Type 0
Honest r k = ((k.phase ≡ stored) ⊎ (k.phase ≡ gone)) → k.result ≡ some r

abbrev pub AllHonest : (ℕ → Result Bytes) → ℕ → List Worker → Type 0
AllHonest answer i [] = Unit
AllHonest answer i (k ∷ ks) = Honest (answer i) k × AllHonest answer (i + 1) ks

AllHonest-change :
    (answer : ℕ → Result Bytes) (i : ℕ) (front : List Worker) (k k' : Worker) (back : List Worker)
    → (Honest (answer (i + length front)) k → Honest (answer (i + length front)) k')
    → AllHonest answer i (front ++ k ∷ back)
    → AllHonest answer i (front ++ k' ∷ back)
AllHonest-change answer i [] k k' back keep (h, hs) =
    let here : i + 0 ≡ i = omega arith in
    (subst (λ j. Honest (answer j) k → Honest (answer j) k') here keep h, hs)
AllHonest-change answer i (q ∷ front) k k' back keep (h, hs) =
    let there : i + suc (length front) ≡ i + 1 + length front = omega arith in
    (
      h,
      AllHonest-change answer (i + 1) front k k' back
          (subst (λ j. Honest (answer j) k → Honest (answer j) k') there keep) hs,
    )

-- At most four workers hold the semaphore, it counts them, and what is stored is right.
pub record Inv (answer : ℕ → Result Bytes) (n : ℕ) (s : Pool) : Type 0 where
  pub counted : s.in_use ≡ total held s.workers
  pub bounded : s.in_use ≤ default_fetch_concurrency
  pub honest : AllHonest answer 0 s.workers
  pub size : length s.workers ≡ n

-- One worker changes, and the semaphore with it.
change-Inv :
    (answer : ℕ → Result Bytes) (n m : ℕ) (s : Pool) (front back : List Worker) (k k' : Worker)
    → s.workers ≡ front ++ k ∷ back
    → m + held k.phase ≡ s.in_use + held k'.phase
    → m ≤ default_fetch_concurrency
    → (Honest (answer (length front)) k → Honest (answer (length front)) k')
    → Inv answer n s
    → Inv answer n (record { workers = front ++ k' ∷ back; in_use = m })
change-Inv answer n m s front back k k' e balance room keep inv = record {
  counted = omega (
    arith,
    inv.counted,
    ap (total held) e,
    total-append held front k back,
    total-append held front k' back,
  );
  bounded = room;
  honest =
      AllHonest-change answer 0 front k k' back
        (subst (λ j. Honest (answer j) k → Honest (answer j) k') (omega arith) keep)
        (subst (AllHonest answer 0) e inv.honest);
  size = omega (
    arith,
    inv.size,
    ap length e,
    length-append front (k ∷ back),
    length-append front (k' ∷ back),
  );
}

Step-Inv :
    {answer : ℕ → Result Bytes} {n : ℕ} {s t : Pool}
    → Step answer s t
    → Inv answer n s
    → Inv answer n t
Step-Inv {answer} {n} {s} (acquire front back k e waits room u) inv = rw u (
    change-Inv answer n (s.in_use + 1) s front back k (record k { phase = fetching }) e
      (ground arith) (ground arith) (λ _ h. ground arith) inv)
Step-Inv {answer} {n} {s} (store front back k e fetches u) inv = rw u (
    change-Inv answer n s.in_use s front back k
      (record { phase = stored; result = some (answer (length front)) }) e (ground arith)
      inv.bounded (λ _ _. refl) inv)
Step-Inv {answer} {n} {s} (release front back k e has_stored u) inv =
    let some_held : 0 < s.in_use =
      ground (arith, inv.counted, ap (total held) e, total-append held front k back) in
    rw u (
      change-Inv answer n (s.in_use - 1) s front back k (record k { phase = gone }) e (ground arith)
        (omega (arith, inv.bounded)) (λ honest _. honest (inl has_stored)) inv)

pub start-Inv :
    (answer : ℕ → Result Bytes) (runs : List RemoteRun) → Inv answer (length runs) (start_pool runs)
unfolding start total
start-Inv answer runs = record {
  counted = sym (none_held runs);
  bounded = omega arith;
  honest = none_stored 0 runs;
  size = same_length runs;
}
  where
    none_held : (rs : List RemoteRun) → total held (start rs) ≡ 0
    none_held [] = refl
    none_held (r ∷ rs) = omega (arith, none_held rs)

    none_stored : (i : ℕ) (rs : List RemoteRun) → AllHonest answer i (start rs)
    none_stored i [] = tt
    none_stored i (r ∷ rs) = (λ h. ground arith, none_stored (i + 1) rs)

    same_length : (rs : List RemoteRun) → length (start rs) ≡ length rs
    same_length [] = refl
    same_length (r ∷ rs) = ap suc (same_length rs)

pub Reach-Inv :
    {answer : ℕ → Result Bytes} {n : ℕ} {s t : Pool}
    → Inv answer n s
    → Reach answer s t
    → Inv answer n t
Reach-Inv inv here = inv
Reach-Inv inv (later r step) = Step-Inv step (Reach-Inv inv r)

-- Under every interleaving of the workers, whatever they are answered: the semaphore counts the
-- workers between taking it and giving it back, and these are at most four at any time.
pub in_flight_bounded :
    (answer : ℕ → Result Bytes) (runs : List RemoteRun) {s : Pool}
    → Reach answer (start_pool runs) s
    → (total held s.workers ≡ s.in_use) × (total held s.workers ≤ default_fetch_concurrency)
in_flight_bounded answer runs r =
    let inv = Reach-Inv (start-Inv answer runs) r in
    (sym inv.counted, omega (arith, inv.counted, inv.bounded))
