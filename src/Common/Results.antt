-- ===== src/Common/Results.antt =====
-- What a kernel function gives: a value, or the reason why it does not return.
use mathlib.Core.Bool.{Bool, true, false}
use mathlib.Core.Path.{◌≡◌, refl}

-- `deadlock` is the panic of `spinlock_acquire`, `spinning` a wait for another processor,
-- `assertion` a failed `KASSERT`, `out_of_bounds` an access outside an array, which C leaves
-- undefined; the others are the panics of the functions that name them.
pub data Panic : Type 0 where
  deadlock spinning assertion out_of_bounds : Panic
  out_of_swap_space bad_vaddr bad_pid read_error write_error short_transfer : Panic
  tlb_shootdown exit_thread proc_table_full endless ran_out_of_buffers too_large invalid_free :
      Panic

pub data Result {ℓ} (A : Type ℓ) : Type ℓ where
  err : Panic → Result A
  ok : A → Result A

-- `KASSERT` and the explicit panics.
abbrev pub require : Bool → Panic → Result (Unit {0})
require false panic = err panic
require true panic = ok tt

-- The calls of a C function one after the other: the first panic ends it.
infixl 5 ◌>>=◌ ◌>>◌
abbrev pub ◌>>=◌ {ℓ κ} :
    {Before : Type ℓ} {After : Type κ} → Result Before → (Before → Result After) → Result After
err panic >>= next = err panic
ok value >>= next = next value

abbrev pub ◌>>◌ {ℓ} : {After : Type ℓ} → Result (Unit {0}) → Result After → Result After
check >> rest = check >>= λ _. rest

-- The postcondition of a call that must return.
abbrev pub Returns {ℓ} : {A : Type ℓ} → Result A → (A → Type 0) → Type 0
Returns (err panic) P = ⊥
Returns (ok value) P = P value

-- A weaker postcondition.
pub Returns-map {ℓ} :
    {A : Type ℓ} (P Q : A → Type 0) (m : Result A)
    → ((a : A) → P a → Q a)
    → Returns m P
    → Returns m Q
Returns-map P Q (err panic) weaken holds = holds
Returns-map P Q (ok value) weaken holds = weaken value holds

-- A postcondition through the next call.
pub Returns-bind {ℓ κ} :
    {A : Type ℓ} {B : Type κ} (P : A → Type 0) (Q : B → Type 0) (m : Result A) (next : A → Result B)
    → Returns m P
    → ((a : A) → P a → Returns (next a) Q)
    → Returns (m >>= next) Q
Returns-bind P Q (err panic) next holds then_holds = holds
Returns-bind P Q (ok value) next holds then_holds = then_holds value holds

-- What a call that must return gives.
pub Returns-exists {ℓ} :
    {A : Type ℓ} (P : A → Type 0) (m : Result A) → Returns m P → (a : A) × (m ≡ ok a) × P a
Returns-exists P (err panic) holds = elim holds [ ]
Returns-exists P (ok value) holds = (value, refl, holds)
