-- ===== src/Synch.antt =====
-- kern/thread/synch.c: semaphores over the wait channels of kern/thread/thread.c. Without option `synch`
-- the functions for locks do nothing, and are left out with those for condition variables.
use sdp_project_c.Common.{
  ℕ, ◌+◌, ◌-◌, Bool, true, false, not, Option, none, some, Result, ok, err, ◌>>=◌, ◌>>◌, require,
  assertion, ltb, ◌==◌, if◌then◌else◌, u32, List, [], ◌∷◌, ◌++◌,
}
use sdp_project_c.Spinlock.{
  Spinlock, spinlock_init, spinlock_cleanup, spinlock_acquire, spinlock_release,
}
use sdp_project_c.Thread.{Cpu, wchan_destroy, wchan_sleep, wchan_wakeone}
pub mod Rounds
pub mod Steps
pub mod Wakeups
mod Tests

-- `struct semaphore`, without its name: the threads on its wait channel, its lock and its count.
pub record Semaphore : Type 0 where
  pub sem_wchan : List ℕ
  pub sem_lock : Spinlock
  pub sem_count : ℕ

-- `sem_create`; `kmalloc`, `kstrdup` and `wchan_create` say whether they have memory.
pub sem_create : Bool → Bool → Bool → ℕ → Option Semaphore
sem_create kmalloc kstrdup wchan_create initial_count =
    if not kmalloc
    then none
    else if not kstrdup
    then none
    else if not wchan_create
    then none
    else some (record { sem_wchan = []; sem_lock = spinlock_init; sem_count = initial_count })

-- `sem_destroy`
pub sem_destroy : Semaphore → Result (Unit {0})
sem_destroy sem = do spinlock_cleanup sem.sem_lock; wchan_destroy sem.sem_wchan

-- A round of `P`, from where it acquires the lock, first or in `wchan_sleep`: whether `P` returns, or
-- another thread runs while this one sleeps.
pub p_round : Semaphore → Cpu → Result (Bool × Semaphore × Cpu)
p_round sem cpu = do
  require (not (cpu.t_in_interrupt cpu.c_curthread)) assertion
  lock ← spinlock_acquire sem.sem_lock
  if sem.sem_count == 0
      then (do
        (wc_threads, lock', cpu') ←
            wchan_sleep sem.sem_wchan lock (record cpu { c_spinlocks = cpu.c_spinlocks + 1 })
        ok (false, record sem { sem_wchan = wc_threads; sem_lock = lock' }, cpu'))
      else (do
        lock' ← spinlock_release lock
        ok (true, record sem { sem_lock = lock'; sem_count = sem.sem_count - 1 }, cpu))

-- `V`
pub v : Semaphore → Cpu → Result (Semaphore × Cpu)
v sem cpu = do
  lock ← spinlock_acquire sem.sem_lock
  let sem_count = u32 (sem.sem_count + 1)
  require (ltb 0 sem_count) assertion
  (wc_threads, cpu') ← wchan_wakeone sem.sem_wchan lock cpu
  lock' ← spinlock_release lock
  ok (record { sem_wchan = wc_threads; sem_lock = lock'; sem_count = sem_count }, cpu')
