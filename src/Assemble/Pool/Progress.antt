-- ===== src/Assemble/Pool/Progress.antt =====
-- The workers never block each other for good.
use zchunk.Prelude.{
  ℕ, zero, suc, ◌+◌, ◌<◌, ◌≡◌, ap, refl, ◌⊎◌, inl, inr, some, List, [], ◌∷◌, ◌++◌, length, arith,
}
use zchunk.Go.Result.{Result}
use zchunk.Go.Reader.{Bytes}
use zchunk.Assemble.{RemoteRun}
use zchunk.Assemble.Pool.{
  Phase, waiting, fetching, stored, gone, Worker, Pool, start_pool, Step, acquire, store, release,
  Reach, later,
}
use zchunk.Assemble.Pool.Schedules.{held, moves, total, total-append, Inv, start-Inv, Reach-Inv}

-- A worker that can move, or, when none holds the semaphore, one that waits for it.
abbrev Ready : List Worker → Worker → Type 0
Ready ks k =
    (k.phase ≡ fetching) ⊎ ((k.phase ≡ stored) ⊎ ((k.phase ≡ waiting) × (total held ks ≡ 0)))

record Next (ks : List Worker) : Type 0 where
  front : List Worker
  back : List Worker
  worker : Worker
  there : ks ≡ front ++ worker ∷ back
  ready : Ready ks worker

now : (k : Worker) (ks : List Worker) → Ready (k ∷ ks) k → Next (k ∷ ks)
now k ks r = record { front = []; back = ks; worker = k; there = refl; ready = r }

behind : (k : Worker) (ks : List Worker) → held k.phase ≡ 0 → Next ks → Next (k ∷ ks)
unfolding total
behind k ks free n = record {
  front = k ∷ n.front;
  back = n.back;
  worker = n.worker;
  there = ap (λ l. k ∷ l) n.there;
  ready = elim n.ready [
    | inl f ↦ inl f
    | inr (inl s) ↦ inr (inl s)
    | inr (inr (w, none_held)) ↦ inr (inr (w, omega (arith, none_held, free)))
  ];
}

held-moves : (p : Phase) → moves p ≡ 0 → held p ≡ 0
held-moves waiting e = refl
held-moves fetching e = ground arith
held-moves stored e = ground arith
held-moves gone e = refl

none_held : (ks : List Worker) → total moves ks ≡ 0 → total held ks ≡ 0
unfolding total
none_held [] e = refl
none_held (k ∷ ks) e =
    omega (arith, none_held ks (omega (arith, e)), held-moves k.phase (omega (arith, e)))

-- By the first worker's phase, when the workers behind it give one as long as they have moves left.
by_phase :
    (k : Worker) (ks : List Worker) (p : Phase)
    → k.phase ≡ p
    → 0 < total moves (k ∷ ks)
    → (0 < total moves ks → Next ks)
    → Next (k ∷ ks)
unfolding total
by_phase k ks fetching e left rest = now k ks (inl e)
by_phase k ks stored e left rest = now k ks (inr (inl e))
by_phase k ks gone e left rest = behind k ks (ap held e) (rest (omega (arith, left, ap moves e)))
by_phase k ks waiting e left rest = elim (zero_or_more (total moves ks)) [
  | inr more ↦ behind k ks (ap held e) (rest more)
  | inl no_more ↦ now k ks (inr (inr (e, omega (arith, ap held e, none_held ks no_more))))
]
  where
    zero_or_more : (n : ℕ) → (n ≡ 0) ⊎ (0 < n)
    zero_or_more zero = inl refl
    zero_or_more (suc n) = inr (omega arith)

some_worker : (ks : List Worker) → 0 < total moves ks → Next ks
unfolding total
some_worker [] left = ground arith
some_worker (k ∷ ks) left = by_phase k ks k.phase refl left (some_worker ks)

Step-moves :
    {answer : ℕ → Result Bytes} {s t : Pool}
    → Step answer s t
    → total moves t.workers + 1 ≡ total moves s.workers
Step-moves (acquire front back k e waits room u) = omega (
  arith,
  ap (total moves) e,
  ap moves waits,
  ap (λ (p : Pool). total moves p.workers) u,
  total-append moves front k back,
  total-append moves front (record k { phase = fetching }) back,
)
Step-moves {answer} (store front back k e fetches u) = omega (
  arith,
  ap (total moves) e,
  ap moves fetches,
  ap (λ (p : Pool). total moves p.workers) u,
  total-append moves front k back,
  total-append moves front (record { phase = stored; result = some (answer (length front)) }) back,
)
Step-moves (release front back k e has_stored u) = omega (
  arith,
  ap (total moves) e,
  ap moves has_stored,
  ap (λ (p : Pool). total moves p.workers) u,
  total-append moves front k back,
  total-append moves front (record k { phase = gone }) back,
)

Inv-Step :
    {answer : ℕ → Result Bytes} {n : ℕ} {s : Pool}
    → Inv answer n s
    → 0 < total moves s.workers
    → (t : Pool) × Step answer s t
Inv-Step {s = s} inv left =
    let n = some_worker s.workers left in
    elim n.ready [
      | inl f ↦ (_, store n.front n.back n.worker n.there f refl)
      | inr (inl d) ↦ (_, release n.front n.back n.worker n.there d refl)
      | inr (inr (w, none_held)) ↦ (
        _,
        acquire n.front n.back n.worker n.there w (omega (arith, none_held, inv.counted)) refl,
      )
    ]

finish :
    {answer : ℕ → Result Bytes} (runs : List RemoteRun) (fuel : ℕ) {s : Pool}
    → Reach answer (start_pool runs) s
    → total moves s.workers ≡ fuel
    → (t : Pool) × Reach answer (start_pool runs) t × (total moves t.workers ≡ 0)
finish runs zero {s} r e = (s, r, e)
finish {answer} runs (suc fuel) {s} r e =
    let (t, step) = Inv-Step (Reach-Inv (start-Inv answer runs) r) (omega (arith, e)) in
    finish runs fuel (later r step) (omega (arith, Step-moves step, e))

-- No schedule of the workers deadlocks or runs for ever: every reachable pool can be run on until
-- all workers have left, while a worker is there some step is possible, and each step leaves
-- exactly one move fewer than before.
pub workers_finish :
    (answer : ℕ → Result Bytes) (runs : List RemoteRun) {s : Pool}
    → Reach answer (start_pool runs) s
    → ((t : Pool) × Reach answer (start_pool runs) t × (total moves t.workers ≡ 0))
      × (0 < total moves s.workers → (t : Pool) × Step answer s t)
      × ((t : Pool) → Step answer s t → total moves t.workers + 1 ≡ total moves s.workers)
workers_finish answer runs {s} r = (
  finish runs (total moves s.workers) r refl,
  Inv-Step (Reach-Inv (start-Inv answer runs) r),
  λ t step. Step-moves step,
)
