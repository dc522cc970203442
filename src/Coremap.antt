-- ===== src/Coremap.antt =====
-- kern/vm/coremap.c, with `ram_stealmem` and `ram_getsize` of kern/arch/mips/vm/ram.c.
use sdp_project_c.Common.{
  ℕ, zero, suc, ◌+◌, ◌-◌, ◌*◌, ◌/◌, Bool, true, false, not, ◌&&◌, ◌||◌, Option, none, some, Result,
  ok, err, ◌>>=◌, ◌>>◌, require, assertion, out_of_bounds, ltb, leb, ◌==◌, if◌then◌else◌, update,
  sweep, fill, u32, page_size,
}
use sdp_project_c.Spinlock.{Spinlock, spinlock_acquire, spinlock_release}
pub mod Search
pub mod Alloc
pub mod Free
pub mod Boot
mod Tests

-- The statics of coremap.c and of ram.c. `allocated` says whether `freeRamFrames` and `allocSize`
-- have been allocated.
pub record Coremap : Type 0 where
  pub free_ram_frames : ℕ → Bool
  pub alloc_size : ℕ → ℕ
  pub n_ram_frames : ℕ
  pub alloc_table_active : Bool
  pub freemem_lock : Spinlock
  pub stealmem_lock : Spinlock
  pub firstpaddr : ℕ
  pub lastpaddr : ℕ

pub ram_getsize : Coremap → ℕ
ram_getsize c = c.lastpaddr

-- `ram_stealmem`: the address, 0 if memory has run out; all arithmetic is on 32 bits.
pub ram_stealmem : ℕ → Coremap → ℕ × Coremap
ram_stealmem npages c =
    let size = u32 (npages * page_size) in
    if ltb c.lastpaddr (u32 (c.firstpaddr + size))
    then (0, c)
    else (c.firstpaddr, record c { firstpaddr = u32 (c.firstpaddr + size) })

-- `coremap_bootstrap`: no frame is free yet, and no run is recorded. `memory` says whether both
-- calls of `kmalloc` succeed.
pub coremap_bootstrap : Bool → Coremap → Result Coremap
unfolding ram_getsize
coremap_bootstrap memory c = do
  require memory assertion
  let n = ram_getsize c / page_size
  lock ← spinlock_acquire c.freemem_lock
  lock' ← spinlock_release lock
  ok (record c {
    free_ram_frames = sweep n (λ _ _. false) c.free_ram_frames;
    alloc_size = sweep n (λ _ _. 0) c.alloc_size;
    n_ram_frames = n;
    alloc_table_active = true;
    freemem_lock = lock';
  })

-- `isTableActive`
pub is_table_active : Coremap → Result (Bool × Coremap)
unfolding spinlock_acquire spinlock_release
is_table_active c = do
  lock ← spinlock_acquire c.freemem_lock
  lock' ← spinlock_release lock
  ok (c.alloc_table_active, record c { freemem_lock = lock' })

-- How many frames the run `i - first + 1` has; `first` is -1, here `none`, before the first run.
abbrev pub run_length : ℕ → Option ℕ → ℕ
run_length i none = i + 2
run_length i (some first) = i + 1 - first

-- `if (i == 0 || !freeRamFrames[i-1]) first = i;`
abbrev pub run_start : (ℕ → Bool) → ℕ → Option ℕ → Option ℕ
run_start free i first = if i == 0 || not (free (i - 1)) then some i else first

-- The search loop of `getfreeppages` from round `i` on: the value of `found`.
pub find_run : (ℕ → Bool) → ℕ → ℕ → ℕ → Option ℕ → Option ℕ
find_run free np zero i first = none
find_run free np (suc left) i first =
    let first' = if free i then run_start free i first else first in
    let rest = find_run free np left (i + 1) first' in
    if free i && leb np (run_length i first') then first' else rest

-- `getfreeppages`, behind its test `isTableActive()`.
pub take_run : ℕ → Coremap → ℕ × Coremap
unfolding find_run
take_run np c = elim (find_run c.free_ram_frames np c.n_ram_frames 0 none) [
  | none ↦ (0, c)
  | some found ↦ (
    u32 (found * page_size),
    record c {
      free_ram_frames = fill np found false c.free_ram_frames;
      alloc_size = update c.alloc_size found np;
    },
  )
]

pub getfreeppages : ℕ → Coremap → Result (ℕ × Coremap)
unfolding is_table_active take_run spinlock_acquire spinlock_release
getfreeppages np c = do
  (active, c₁) ← is_table_active c
  if not active then ok (0, c₁) else do
    lock ← spinlock_acquire c₁.freemem_lock
    let (addr, c₂) = take_run np (record c₁ { freemem_lock = lock })
    lock' ← spinlock_release c₂.freemem_lock
    ok (addr, record c₂ { freemem_lock = lock' })

-- `freeppages`: 1, or 0 before the table is active. A run that goes on past the last frame is an
-- access outside `freeRamFrames`.
pub freeppages : ℕ → Coremap → Result (ℕ × Coremap)
unfolding is_table_active
freeppages addr c = do
  (active, c₁) ← is_table_active c
  if not active then ok (0, c₁) else do
    let first = addr / page_size
    require (ltb first c₁.n_ram_frames) assertion
    let np = c₁.alloc_size first
    require (leb (first + np) c₁.n_ram_frames) out_of_bounds
    lock ← spinlock_acquire c₁.freemem_lock
    lock' ← spinlock_release lock
    ok (
      1,
      record c₁ { free_ram_frames = fill np first true c₁.free_ram_frames; freemem_lock = lock' },
    )

-- The calls of `ram_stealmem` that `getppages` makes under its lock.
pub steal_locked : ℕ → Coremap → Result (ℕ × Coremap)
unfolding ram_stealmem
steal_locked npages c = do
  lock ← spinlock_acquire c.stealmem_lock
  let (addr, c₁) = ram_stealmem npages (record c { stealmem_lock = lock })
  lock' ← spinlock_release c₁.stealmem_lock
  ok (addr, record c₁ { stealmem_lock = lock' })

-- `getppages`: a freed run, or else memory that was never used; the length of the run is recorded.
unfoldable pub getppages : ℕ → Coremap → Result (ℕ × Coremap)
unfolding getfreeppages steal_locked is_table_active spinlock_acquire spinlock_release
getppages npages c = do
  (freed, c₁) ← getfreeppages npages c
  (addr, c₂) ← (if freed == 0 then steal_locked npages c₁ else ok (freed, c₁))
  if addr == 0 then ok (addr, c₂) else do
    (active, c₃) ← is_table_active c₂
    if not active then ok (addr, c₃) else do
      require (ltb (addr / page_size) c₃.n_ram_frames) out_of_bounds
      lock ← spinlock_acquire c₃.freemem_lock
      lock' ← spinlock_release lock
      ok (
        addr,
        record c₃ {
          alloc_size = update c₃.alloc_size (addr / page_size) npages;
          freemem_lock = lock';
        },
      )
