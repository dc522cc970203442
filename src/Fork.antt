-- ===== src/Fork.antt =====
-- `sys_fork` of kern/syscall/proc_syscalls.c and `thread_fork` of kern/thread/thread.c, over the processes, the
-- descriptors, the threads and the memory system. The current directory, the trapframe and the stack of the
-- new thread, which starts in `enter_forked_process`, are left out.
use sdp_project_c.Common.{
  ℕ, Bool, true, false, not, Option, none, some, Result, ok, err, ◌>>=◌, ◌>>◌, require, assertion,
  ◌==◌, if◌then◌else◌, update,
}
use sdp_project_c.Spinlock.{spinlock_acquire, spinlock_release}
use sdp_project_c.Machine.{Machine}
use sdp_project_c.AddrSpace.{Process, enomem}
use sdp_project_c.Files.{Files, proc_file_table_copy}
use sdp_project_c.Proc.{
  Proc, Processes, deref, store, proc_create, proc_destroy, proc_addthread, is_null,
}
use sdp_project_c.Thread.{ThreadState, s_run, s_ready, s_sleep, s_zombie, Cpu, thread_make_runnable}
pub mod Child
pub mod Denied
mod Tests

pub record System : Type 0 where
  pub processes : Processes
  pub files : Files
  pub cpu : Cpu
  pub machine : Machine

-- The calls of `kmalloc`, with the copy into what they give, and of `kfree`.
pub data HeapCall : Type 0 where
  new_process new_space new_trapframe new_thread new_stack end_process end_thread : HeapCall

-- Whether `kmalloc` has memory for a process with its name, an address space, a trapframe, a thread with its
-- name, and a stack; and what the calls do to frames and memory.
pub record Memory : Type 0 where
  pub process : Bool
  pub space : Bool
  pub trapframe : Bool
  pub thread : Bool
  pub stack : Bool
  pub heap : HeapCall → Machine → Machine

abbrev pub on_heap : Memory → HeapCall → System → System
on_heap memory call s = record s { machine = memory.heap call s.machine }

-- `proc_create_runprogram` in the process `cur`, as process `newp` of the heap.
unfoldable pub proc_create_runprogram : Bool → ℕ → ℕ → Processes → Result (Option Processes)
unfolding proc_create deref
proc_create_runprogram memory newp cur s = if not memory then ok none else (do
  s' ← proc_create newp s
  p ← deref cur s'
  lock ← spinlock_acquire p.p_lock
  lock' ← spinlock_release lock
  ok (some (store cur (record p { p_lock = lock' }) s')))

-- The `bzero` of `fileTable` in `proc_create`.
abbrev pub no_descriptors : ℕ → Files → Files
no_descriptors newp f = record f { table = update f.table newp (λ fd. none) }

-- `thread_create` of the thread `t`.
pub thread_create : ℕ → System → System
thread_create t s = record s {
  cpu = record (s.cpu) {
    t_state = update s.cpu.t_state t s_ready;
    t_in_interrupt = update s.cpu.t_in_interrupt t false;
  };
  processes = record (s.processes) { t_proc = update s.processes.t_proc t none };
}

abbrev pub runs : ThreadState → Bool
runs s_run = true
runs s_ready = false
runs s_sleep = false
runs s_zombie = false

-- `thread_destroy`: its assertions.
pub thread_destroy : ℕ → System → Result (Unit {0})
thread_destroy t s = do
  require (not (t == s.cpu.c_curthread)) assertion
  require (not (runs (s.cpu.t_state t))) assertion
  require (is_null (s.processes.t_proc t)) assertion

-- `thread_fork` of the thread `t` in the process `q`: the error number.
unfoldable pub thread_fork : Memory → ℕ → ℕ → System → Result (ℕ × System)
unfolding thread_create thread_destroy proc_addthread thread_make_runnable
thread_fork memory q t s = if not memory.thread then ok (enomem, s) else (do
  let s₁ = thread_create t (on_heap memory new_thread s)
  if not memory.stack
      then (do thread_destroy t s₁; ok (enomem, on_heap memory end_thread s₁))
      else (do
        processes ← proc_addthread q t s₁.processes
        cpu ← thread_make_runnable t false s₁.cpu
        ok (0, record (on_heap memory new_stack s₁) { processes = processes; cpu = cpu })))

-- `proc_destroy` of the new process.
unfoldable pub end_child : Memory → Process → ℕ → System → Result System
unfolding proc_destroy
end_child memory curproc newp s = do
  (processes, machine) ← proc_destroy curproc newp s.processes s.machine
  ok (on_heap memory end_process (record s { processes = processes; machine = machine }))

-- `sys_fork` once the new process has its address space.
unfoldable pub fork_thread : Memory → Process → ℕ → ℕ → System → Result (ℕ × Option ℕ × System)
unfolding thread_fork end_child deref
fork_thread memory curproc newp t s =
    if not memory.trapframe
    then (do s' ← end_child memory curproc newp s; ok (enomem, none, s'))
    else (do
      (result, s₁) ← thread_fork memory newp t (on_heap memory new_trapframe s)
      if not (result == 0)
          then (do s' ← end_child memory curproc newp s₁; ok (enomem, none, s'))
          else (do p ← deref newp s₁.processes; ok (0, some p.p_pid, s₁)))

-- `sys_fork` with `newp` and `t` as the places of the new process and thread: the error number, and `*retval`.
unfoldable pub sys_fork : Memory → Process → ℕ → ℕ → System → Result (ℕ × Option ℕ × System)
unfolding proc_create_runprogram fork_thread
sys_fork memory curproc newp t s = elim (s.processes.t_proc s.cpu.c_curthread) [
  | none ↦ err assertion
  | some cur ↦ do
    created ← proc_create_runprogram memory.process newp cur s.processes
    elim created [
      | none ↦ ok (enomem, none, s)
      | some processes ↦ do
        p ← deref newp processes
        let s₁ = record (on_heap memory new_process s) {
          processes = store newp (record p { p_addrspace = memory.space }) processes;
          files = no_descriptors newp s.files;
        }
        if not memory.space
            then (do s' ← end_child memory curproc newp s₁; ok (enomem, none, s'))
            else fork_thread memory curproc newp t (record (on_heap memory new_space s₁) {
              files = proc_file_table_copy newp cur s₁.files;
            })
    ]
]
