-- ===== src/Thread.antt =====
-- kern/thread/thread.c on one processor: the threads that run, wait to run, sleep on a wait channel or have
-- exited. A list of threads is its sequence, as ThreadList refines it. Stacks, names and interrupt levels are
-- left out.
use sdp_project_c.Common.{
  ℕ, ◌+◌, ◌-◌, ◌≡◌, ◌≢◌, Bool, true, false, not, ◌&&◌, Result, ok, err, ◌>>=◌, ◌>>◌, require,
  assertion, deadlock, ◌==◌, if◌then◌else◌, update, List, [], ◌∷◌, ◌++◌,
}
use sdp_project_c.Spinlock.{Spinlock, spinlock_acquire, spinlock_release, spinlock_do_i_hold}
pub mod Turns
pub mod Wakes
pub mod Sleeps
mod Tests

-- `threadstate_t`
pub data ThreadState : Type 0 where
  s_run s_ready s_sleep s_zombie : ThreadState

-- `struct cpu`, with `t_state` and `t_in_interrupt` of the threads, and whether `as_activate` returns for the
-- process of a thread, which AddrSpace models. `c_spinlocks` leaves out the lock of the run queue, which each
-- function gives back.
pub record Cpu : Type 0 where
  pub c_curthread : ℕ
  pub c_zombies : List ℕ
  pub c_isidle : Bool
  pub c_runqueue : List ℕ
  pub c_runqueue_lock : Spinlock
  pub c_spinlocks : ℕ
  pub t_state : ℕ → ThreadState
  pub t_in_interrupt : ℕ → Bool
  pub activates : ℕ → Bool

-- `thread_make_runnable`; the processor of the thread is this one, which gets no interrupt from itself.
unfoldable pub thread_make_runnable : ℕ → Bool → Cpu → Result Cpu
thread_make_runnable target already_have_lock cpu =
    let queued = record cpu {
      t_state = update cpu.t_state target s_ready;
      c_runqueue = cpu.c_runqueue ++ (target ∷ []);
    } in
    if already_have_lock
    then (do require (spinlock_do_i_hold cpu.c_runqueue_lock) assertion; ok queued)
    else (do
      lock ← spinlock_acquire cpu.c_runqueue_lock
      lock' ← spinlock_release lock
      ok (record queued { c_runqueue_lock = lock' }))

abbrev pub is_zombie : ThreadState → Bool
is_zombie s_run = false
is_zombie s_ready = false
is_zombie s_sleep = false
is_zombie s_zombie = true

-- The loop of `exorcise` over the zombies.
pub all_dead : List ℕ → Cpu → Result (Unit {0})
all_dead [] cpu = ok tt
all_dead (z ∷ zs) cpu = do
  require (not (z == cpu.c_curthread)) assertion
  require (is_zombie (cpu.t_state z)) assertion
  all_dead zs cpu

-- `exorcise`
pub exorcise : Cpu → Result Cpu
unfolding all_dead
exorcise cpu = do all_dead cpu.c_zombies cpu; ok (record cpu { c_zombies = [] })

-- The end of `thread_switch`, once the thread `next` has been taken off the run queue: it is current, and
-- comes back from its own call of `thread_switch`, or starts in `thread_startup`.
pub switch_to : ℕ → List ℕ → Cpu → Result Cpu
unfolding exorcise
switch_to next runqueue cpu = do
  lock ← spinlock_release cpu.c_runqueue_lock
  require (cpu.activates next) deadlock
  exorcise (record cpu {
    c_curthread = next;
    c_runqueue = runqueue;
    c_isidle = false;
    t_state = update cpu.t_state next s_run;
    c_runqueue_lock = lock;
  })

-- A round of the loop of `thread_switch`, under the lock: a thread is taken off the run queue and switched
-- to, or the processor is left idle, with the lock free.
pub choose_next : List ℕ → Cpu → Result Cpu
unfolding switch_to
choose_next [] cpu = do
  lock ← spinlock_release cpu.c_runqueue_lock
  ok (record cpu { c_isidle = true; c_runqueue_lock = lock })
choose_next (next ∷ runqueue) cpu = switch_to next runqueue cpu

-- What follows `cpu_idle` in the loop, after an interrupt.
pub after_idle : Cpu → Result Cpu
unfolding choose_next
after_idle cpu = do
  lock ← spinlock_acquire cpu.c_runqueue_lock
  choose_next cpu.c_runqueue (record cpu { c_runqueue_lock = lock })

abbrev pub isempty : List ℕ → Bool
isempty [] = true
isempty (t ∷ ts) = false

-- `thread_switch` to S_READY, which is `thread_yield`.
pub thread_yield : Cpu → Result Cpu
unfolding thread_make_runnable choose_next
thread_yield cpu = if cpu.c_isidle then ok cpu else (do
  lock ← spinlock_acquire cpu.c_runqueue_lock
  if isempty cpu.c_runqueue
      then (do lock' ← spinlock_release lock; ok (record cpu { c_runqueue_lock = lock' }))
      else (do
        cpu' ← thread_make_runnable cpu.c_curthread true (record cpu { c_runqueue_lock = lock })
        choose_next cpu'.c_runqueue cpu'))

-- `thread_switch` to S_SLEEP: the threads on the wait channel, its lock, and the processor.
pub switch_sleep : List ℕ → Spinlock → Cpu → Result (List ℕ × Spinlock × Cpu)
unfolding choose_next
switch_sleep wc_threads lk cpu = if cpu.c_isidle then ok (wc_threads, lk, cpu) else (do
  lock ← spinlock_acquire cpu.c_runqueue_lock
  lk' ← spinlock_release lk
  cpu' ← choose_next cpu.c_runqueue (record cpu {
    c_runqueue_lock = lock;
    c_spinlocks = cpu.c_spinlocks - 1;
    t_state = update cpu.t_state cpu.c_curthread s_sleep;
  })
  ok (wc_threads ++ (cpu.c_curthread ∷ []), lk', cpu'))

-- `thread_switch` to S_ZOMBIE, the end of `thread_exit`.
pub switch_zombie : Cpu → Result Cpu
unfolding choose_next
switch_zombie cpu = if cpu.c_isidle then ok cpu else (do
  lock ← spinlock_acquire cpu.c_runqueue_lock
  choose_next cpu.c_runqueue (record cpu {
    c_runqueue_lock = lock;
    c_zombies = cpu.c_zombies ++ (cpu.c_curthread ∷ []);
    t_state = update cpu.t_state cpu.c_curthread s_zombie;
  }))

-- `wchan_destroy`, with the assertion of `threadlist_cleanup`.
pub wchan_destroy : List ℕ → Result (Unit {0})
wchan_destroy wc_threads = require (isempty wc_threads) assertion

-- `wchan_sleep`, up to the point where the thread runs again and acquires the lock.
unfoldable pub wchan_sleep : List ℕ → Spinlock → Cpu → Result (List ℕ × Spinlock × Cpu)
unfolding switch_sleep
wchan_sleep wc_threads lk cpu = do
  require (not (cpu.t_in_interrupt cpu.c_curthread)) assertion
  require (spinlock_do_i_hold lk) assertion
  require (cpu.c_spinlocks == 1) assertion
  switch_sleep wc_threads lk cpu

-- The part of `wchan_wakeone` after its test: the threads that still sleep, and the processor.
pub wake_first : List ℕ → Cpu → Result (List ℕ × Cpu)
unfolding thread_make_runnable
wake_first [] cpu = ok ([], cpu)
wake_first (target ∷ wc_threads) cpu = do
  cpu' ← thread_make_runnable target false cpu
  ok (wc_threads, cpu')

-- `wchan_wakeone`
unfoldable pub wchan_wakeone : List ℕ → Spinlock → Cpu → Result (List ℕ × Cpu)
unfolding wake_first
wchan_wakeone wc_threads lk cpu = do
  require (spinlock_do_i_hold lk) assertion
  wake_first wc_threads cpu

-- The second loop of `wchan_wakeall`.
pub wake_each : List ℕ → Cpu → Result Cpu
unfolding thread_make_runnable
wake_each [] cpu = ok cpu
wake_each (target ∷ list) cpu = do cpu' ← thread_make_runnable target false cpu; wake_each list cpu'

-- The first loop of `wchan_wakeall`: the threads go from the head of the channel to the tail of `list`. What
-- is left on the channel, and `list`.
pub move_each : List ℕ → List ℕ → List ℕ × List ℕ
move_each [] list = ([], list)
move_each (target ∷ wc_threads) list = move_each wc_threads (list ++ (target ∷ []))

-- `wchan_wakeall`
pub wchan_wakeall : List ℕ → Spinlock → Cpu → Result (List ℕ × Cpu)
unfolding move_each wake_each
wchan_wakeall wc_threads lk cpu = do
  require (spinlock_do_i_hold lk) assertion
  let (wc_threads', list) = move_each wc_threads []
  cpu' ← wake_each list cpu
  ok (wc_threads', cpu')

-- `wchan_isempty`
pub wchan_isempty : List ℕ → Spinlock → Result Bool
wchan_isempty wc_threads lk = do require (spinlock_do_i_hold lk) assertion; ok (isempty wc_threads)
