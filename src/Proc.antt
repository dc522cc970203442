-- ===== src/Proc.antt =====
-- kern/proc/proc.c and kern/syscall/proc_syscalls.c: processes, the table of process numbers, and the end
-- of a process, with the semaphore for `waitpid`. Threads are numbers; `kproc` is process 0 of the heap.
use sdp_project_c.Common.{
  ℕ, zero, suc, ◌+◌, ◌-◌, ◌*◌, ◌%◌, Bool, true, false, not, ◌&&◌, ◌||◌, Option, none, some, Result,
  ok, err, ◌>>=◌, ◌>>◌, require, assertion, out_of_bounds, exit_thread, proc_table_full, endless,
  ltb, leb, ◌==◌, if◌then◌else◌, update, u32, sub_u32,
}
use sdp_project_c.Machine.{Machine}
use sdp_project_c.AddrSpace.{Process, as_destroy}
use sdp_project_c.Spinlock.{
  Spinlock, unheld, spinlock_init, spinlock_cleanup, spinlock_acquire, spinlock_release,
}
pub mod Numbers
pub mod Table
pub mod Threads
pub mod Exit
mod Tests

abbrev pub max_proc : ℕ
max_proc = 100

-- `struct _processTable`; `proc` holds the numbers of processes in the heap.
pub record ProcessTable : Type 0 where
  pub active : Bool
  pub proc : ℕ → Option ℕ
  pub last_i : ℕ
  pub lk : Spinlock

-- `struct proc`, without its name, directory and descriptors. `p_addrspace` says whether it has an
-- address space, and `sem_count` is the count of `p_sem`.
pub record Proc : Type 0 where
  pub p_lock : Spinlock
  pub p_numthreads : ℕ
  pub p_addrspace : Bool
  pub p_status : ℕ
  pub p_pid : ℕ
  pub sem_count : ℕ

-- The processes, the table, and `t_proc` of every thread.
pub record Processes : Type 0 where
  pub heap : ℕ → Option Proc
  pub table : ProcessTable
  pub t_proc : ℕ → Option ℕ

-- A pointer to a process that is followed.
unfoldable pub deref : ℕ → Processes → Result Proc
deref q s = elim (s.heap q) [ none ↦ err out_of_bounds | some p ↦ ok p ]

abbrev pub store : ℕ → Proc → Processes → Processes
store q p s = record s { heap = update s.heap q (some p) }

-- `proc_search_pid`: a process; the slot is read as a process before anything else.
pub proc_search_pid : ℕ → Processes → Result ℕ
unfolding deref
proc_search_pid pid s = do
  require (ltb pid max_proc) assertion
  elim (s.table.proc pid) [
    | none ↦ err out_of_bounds
    | some q ↦ do p ← deref q s; require (p.p_pid == pid) assertion; ok q
  ]

-- `i++; if (i>MAX_PROC) i=1;`
abbrev pub after : ℕ → ℕ
after i = if ltb max_proc (i + 1) then 1 else i + 1

abbrev pub is_null : Option ℕ → Bool
is_null none = true
is_null (some q) = false

-- The search of `proc_init_waitpid` from `i` on, in at most `rounds` rounds: `none` if they do not suffice,
-- and otherwise the slot that is free, if one is.
pub find_slot : ℕ → ℕ → ℕ → (ℕ → Option ℕ) → Option (Option ℕ)
find_slot zero i last_i proc = none
find_slot (suc rounds) i last_i proc =
    let rest = find_slot rounds (after i) last_i proc in
    if i == last_i then some none else (if is_null (proc i) then some (some i) else rest)

-- `proc_init_waitpid` of the process `q`, with `p` as its contents.
pub proc_init_waitpid : ℕ → Proc → Processes → Result Processes
unfolding find_slot
proc_init_waitpid q p s = do
  lock ← spinlock_acquire s.table.lk
  found ← (elim (find_slot (max_proc + 1) (after s.table.last_i) s.table.last_i s.table.proc) [
    | none ↦ err endless
    | some o ↦ ok o
  ])
  lock' ← spinlock_release lock
  elim found [
    | none ↦ err proc_table_full
    | some i ↦ ok (
        store q (record p { p_pid = i; p_status = 0; sem_count = 0 })
          (record s {
            table = record (s.table) {
              proc = update s.table.proc i (some q);
              last_i = i;
              lk = lock';
            };
          }))
  ]

-- `proc_end_waitpid`
unfoldable pub proc_end_waitpid : Proc → Processes → Result Processes
proc_end_waitpid p s = do
  lock ← spinlock_acquire s.table.lk
  require (ltb 0 p.p_pid && leb p.p_pid max_proc) assertion
  lock' ← spinlock_release lock
  ok (record s { table = record (s.table) { proc = update s.table.proc p.p_pid none; lk = lock' } })

-- `proc_create` where memory is left, as process `q` of the heap.
unfoldable pub proc_create : ℕ → Processes → Result Processes
unfolding proc_init_waitpid
proc_create q s =
    proc_init_waitpid q
      (record {
        p_lock = spinlock_init;
        p_numthreads = 0;
        p_addrspace = false;
        p_status = 0;
        p_pid = 0;
        sem_count = 0;
      })
      s

abbrev pub kproc : ℕ
kproc = 0

-- `proc_destroy` of a process that is not current, but for its directory; `as_destroy` goes by the process
-- `curproc` of the memory system.
unfoldable pub proc_destroy : Process → ℕ → Processes → Machine → Result (Processes × Machine)
unfolding deref proc_end_waitpid
proc_destroy curproc q s m = do
  require (not (q == kproc)) assertion
  p ← deref q s
  m' ← if p.p_addrspace then as_destroy curproc m else ok m
  require (p.p_numthreads == 0) assertion
  spinlock_cleanup p.p_lock
  s' ← proc_end_waitpid p s
  ok (record s' { heap = update s'.heap q none }, m')

-- `proc_bootstrap`
pub proc_bootstrap : Processes → Result Processes
unfolding proc_create
proc_bootstrap s = do
  s' ← proc_create kproc s
  ok (record s' { table = record (s'.table) { lk = spinlock_init; active = true } })

-- `proc_addthread`
unfoldable pub proc_addthread : ℕ → ℕ → Processes → Result Processes
unfolding deref
proc_addthread q t s = do
  require (is_null (s.t_proc t)) assertion
  p ← deref q s
  lock ← spinlock_acquire p.p_lock
  lock' ← spinlock_release lock
  ok (record (store q (record p { p_numthreads = u32 (p.p_numthreads + 1); p_lock = lock' }) s) {
    t_proc = update s.t_proc t (some q);
  })

-- `proc_remthread`
pub proc_remthread : ℕ → Processes → Result Processes
unfolding deref
proc_remthread t s = elim (s.t_proc t) [
  | none ↦ err assertion
  | some q ↦ do
    p ← deref q s
    lock ← spinlock_acquire p.p_lock
    require (ltb 0 p.p_numthreads) assertion
    lock' ← spinlock_release lock
    ok (record (store q (record p { p_numthreads = p.p_numthreads - 1; p_lock = lock' }) s) {
      t_proc = update s.t_proc t none;
    })
]

-- `proc_signal_end`
pub proc_signal_end : ℕ → Processes → Result Processes
unfolding deref
proc_signal_end q s = do
  p ← deref q s
  require (ltb 0 (u32 (p.sem_count + 1))) assertion
  ok (store q (record p { sem_count = u32 (p.sem_count + 1) }) s)

-- `thread_exit` of kern/thread/thread.c, up to the switch to another thread.
pub thread_exit : ℕ → Processes → Result Processes
unfolding proc_remthread
thread_exit cur s = do s' ← proc_remthread cur s; require (is_null (s'.t_proc cur)) assertion; ok s'

-- `sys__exit` of the thread `cur`. It does not return; what it gives is the state that it leaves.
pub sys__exit : ℕ → ℕ → Processes → Result Processes
unfolding deref proc_remthread proc_signal_end thread_exit
sys__exit cur status s = elim (s.t_proc cur) [
  | none ↦ err out_of_bounds
  | some q ↦ do
    p ← deref q s
    s₁ ← proc_remthread cur (store q (record p { p_status = status % 256 }) s)
    s₂ ← proc_signal_end q s₁
    thread_exit cur s₂
]

-- What `proc_wait` comes to: it sleeps until the semaphore is raised, or gives the status and the state
-- after `proc_destroy`.
pub data Waited : Type 0 where
  sleeps : Waited
  ended : ℕ → Processes → Machine → Waited

-- `proc_wait`
pub proc_wait : Process → ℕ → Processes → Machine → Result Waited
unfolding deref proc_destroy
proc_wait curproc q s m = do
  require (not (q == kproc)) assertion
  p ← deref q s
  if p.sem_count == 0 then ok sleeps else (do
    let s₁ = store q (record p { sem_count = p.sem_count - 1 }) s
    (s₂, m') ← proc_destroy curproc q s₁ m
    ok (ended p.p_status s₂ m'))

-- `sys_waitpid`, without the store of the status.
pub sys_waitpid : Process → ℕ → Processes → Machine → Result Waited
unfolding proc_search_pid proc_wait
sys_waitpid curproc pid s m = do q ← proc_search_pid pid s; proc_wait curproc q s m

-- `sys_getpid`
pub sys_getpid : ℕ → Processes → Result ℕ
unfolding deref
sys_getpid cur s = elim (s.t_proc cur) [
  | none ↦ err assertion
  | some q ↦ do p ← deref q s; ok p.p_pid
]
