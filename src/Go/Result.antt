-- ===== src/Go/Result.antt =====
-- What a Go call that returns `(T, error)` can do.
use zchunk.Prelude.{◌≢◌, ℕ, ◌^◌, ◌-◌, ◌≡◌, refl, Bool, true, false, leb, le→leb, ◌≤◌, if◌then◌else◌}
use zchunk.Go.Error.{Context, Error, wrap}

-- `panic` is a run-time panic. `stuck` is no Go outcome: a loop of the model ran out of fuel.
pub data Result {ℓ} (A : Type ℓ) : Type ℓ where
  ok : A → Result A
  err : Error → Result A
  panic stuck : Result A

-- The largest `int`: `make` panics at a length above it.
abbrev pub max_int : ℕ
max_int = 2 ^ 63 - 1

abbrev pub u64_mod : ℕ
u64_mod = 2 ^ 64

-- `if bad { return err }`, stated by the condition under which the code goes on.
abbrev pub guard : Bool → Error → Result (Unit {0})
guard good why = if good then ok tt else err why

-- `make([]T, n)` and `make([]T, 0, n)` for an `n` that is read from the input.
abbrev pub make : ℕ → Result (Unit {0})
make n = if leb n max_int then ok tt else panic

infixl 5 ◌>>=◌ ◌>>◌
abbrev pub ◌>>=◌ {ℓ κ} : {A : Type ℓ} {B : Type κ} → Result A → (A → Result B) → Result B
panic >>= next = panic
stuck >>= next = stuck
err why >>= next = err why
ok value >>= next = next value

abbrev pub in_context {ℓ} : {A : Type ℓ} → Context → Result A → Result A
in_context c (ok a) = ok a
in_context c (err e) = err (wrap c e)
in_context c panic = panic
in_context c stuck = stuck

abbrev pub ◌>>◌ {ℓ} : {B : Type ℓ} → Result (Unit {0}) → Result B → Result B
first >> second = first >>= λ _. second

-- A chain that succeeds has succeeded in its first step.
pub >>=-eq-ok {ℓ κ} :
    {A : Type ℓ} {B : Type κ} (r : Result A) (next : A → Result B) {last : B}
    → (r >>= next) ≡ ok last
    → (value : A) × (r ≡ ok value) × (next value ≡ ok last)
>>=-eq-ok panic next h = cc
>>=-eq-ok stuck next h = cc
>>=-eq-ok (err why) next h = cc
>>=-eq-ok (ok value) next h = (value, refl, h)

pub in_context-eq-ok {ℓ} :
    {A : Type ℓ} (c : Context) (m : Result A) {a : A} → in_context c m ≡ ok a → m ≡ ok a
in_context-eq-ok c (ok a) h = h
in_context-eq-ok c (err e) h = cc
in_context-eq-ok c panic h = cc
in_context-eq-ok c stuck h = cc

pub guard-eq-ok {ℓ} :
    {B : Type ℓ} (c : Bool) (e : Error) (k : Result B) {b : B}
    → (guard c e >> k) ≡ ok b
    → (c ≡ true) × (k ≡ ok b)
guard-eq-ok true e k h = (refl, h)
guard-eq-ok false e k h = cc

pub ok-injective {ℓ} : {A : Type ℓ} {a b : A} → ok a ≡ ok b → a ≡ b
ok-injective h = cc

pub guard-true : (c : Bool) (e : Error) → c ≡ true → guard c e ≡ ok tt
guard-true c e h = rw h

-- Where a guard lets the code go on, and where it does not.
module _ {ℓ} {B : Type ℓ} where
  pub guard_goes : (c : Bool) (e : Error) (r : Result B) → c ≡ true → (guard c e >> r) ≡ r
  guard_goes c e r h = rw h refl

  pub guard_stops : (c : Bool) (e : Error) (r : Result B) → c ≡ false → (guard c e >> r) ≡ err e
  guard_stops c e r h = rw h refl

pub make_fits : (n : ℕ) → n ≤ max_int → make n ≡ ok tt
make_fits n h = rw (le→leb n max_int h)

pub map-ne-stuck {ℓ κ} :
    {A : Type ℓ} {B : Type κ} (m : Result A) (g : A → B) → m ≢ stuck → (m >>= λ a. ok (g a)) ≢ stuck
map-ne-stuck (ok a) g h e = cc
map-ne-stuck (err x) g h e = cc
map-ne-stuck panic g h e = cc
map-ne-stuck stuck g h e = h refl
