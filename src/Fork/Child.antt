-- ===== src/Fork/Child.antt =====
-- What `sys_fork` makes where memory is left.
use sdp_project_c.Common.{
  ℕ, ◌≤◌, ◌<◌, ◌≡◌, refl, sym, ◌∙◌, ◌≢◌, ◌⊎◌, inl, inr, true, false, Option, none, some, ok, err,
  arith, update, [], ◌∷◌, ◌++◌, ℕ_discrete, proc_table_full,
}
use sdp_project_c.Spinlock.{unheld, spinlock_acquire, spinlock_release}
use sdp_project_c.AddrSpace.{Process}
use sdp_project_c.Files.{open_max, Files, proc_file_table_copy}
use sdp_project_c.Files.Copy.{proc_file_table_copy-Copied}
use sdp_project_c.Proc.{max_proc, Proc, Processes, deref, store, proc_create, proc_addthread}
use sdp_project_c.Proc.Table.{IsValid, fresh_proc, Creates, proc_create-Creates}
use sdp_project_c.Proc.Threads.{
  store-IsValid, threads-IsValid, joined, joined-IsValid, proc_addthread-joined,
}
use sdp_project_c.Thread.{s_ready, thread_make_runnable}
use sdp_project_c.Machine.{Machine}
use sdp_project_c.Fork.{
  HeapCall, new_process, new_space, new_trapframe, new_thread, new_stack, System, Memory,
  proc_create_runprogram, no_descriptors, thread_create, thread_fork, fork_thread, sys_fork,
}

-- Enough memory for all.
abbrev pub plenty : (HeapCall → Machine → Machine) → Memory
plenty heap = record {
  process = true;
  space = true;
  trapframe = true;
  thread = true;
  stack = true;
  heap = heap;
}

-- What is done to frames and memory by the calls of `kmalloc` alone, in their order.
abbrev pub all_made : (HeapCall → Machine → Machine) → Machine → Machine
all_made heap m =
    heap new_stack (heap new_thread (heap new_trapframe (heap new_space (heap new_process m))))

-- The process `newp` with number `i`, its address space, and its one thread.
abbrev pub child : ℕ → Proc
child i = record (fresh_proc i) { p_addrspace = true; p_numthreads = 1 }

-- The child is a process of its own, which nothing else changes for: its one thread, `t`, is the last on the
-- run queue. The descriptors are gone: neither the child nor the parent has any.
pub record Forks (heap : HeapCall → Machine → Machine) (cur newp t i : ℕ) (s : System)
    (r : ℕ × Option ℕ × System) : Type 0 where
  pub result : (r.0 ≡ 0) × (r.1 ≡ some i)
  pub number : (0 < i) × (i ≤ max_proc) × (s.processes.table.proc i ≡ none)
  pub process : r.2.processes.heap newp ≡ some (child i)
  pub others : (q : ℕ) → q ≢ newp → r.2.processes.heap q ≡ s.processes.heap q
  pub table : IsValid r.2.processes
  pub thread : r.2.processes.t_proc t ≡ some newp
  pub threads : (u : ℕ) → u ≢ t → r.2.processes.t_proc u ≡ s.processes.t_proc u
  pub runqueue : r.2.cpu.c_runqueue ≡ s.cpu.c_runqueue ++ (t ∷ [])
  pub ready : r.2.cpu.t_state t ≡ s_ready
  pub running : r.2.cpu.c_curthread ≡ s.cpu.c_curthread
  pub descriptors :
      (fd : ℕ) → fd < open_max → (r.2.files.table cur fd ≡ none) × (r.2.files.table newp fd ≡ none)
  pub memory : r.2.machine ≡ all_made heap s.machine

-- The new process in the heap, after `proc_create_runprogram` and with its address space.
module _ (cur newp t i : ℕ) (p : Proc) (s : System) (s' : Processes)
    (e : proc_create newp s.processes ≡ ok s') (c : Creates newp i s.processes s')
    (parent : s.processes.heap cur ≡ some p) (free : p.p_lock ≡ unheld) (ne : cur ≢ newp) where
  abbrev pub unlocked : Processes
  unlocked = store cur (record p { p_lock = unheld }) s'

  parent' : s'.heap cur ≡ some p
  parent' = c.others cur ne ∙ parent

  at_parent : deref cur s' ≡ ok p
  unfolding deref
  at_parent = rw (parent', deref) refl

  pub proc_create_runprogram_lem :
      proc_create_runprogram true newp cur s.processes ≡ ok (some unlocked)
  unfolding proc_create_runprogram spinlock_acquire spinlock_release
  proc_create_runprogram_lem = ground (arith, e, at_parent, free)

  pub unlocked-IsValid : IsValid unlocked
  unlocked-IsValid = store-IsValid cur p (record p { p_lock = unheld }) s' c.valid parent' refl

  pub found : unlocked.heap newp ≡ some (fresh_proc i)
  found = ground (arith, c.number, ne)

  same_parent : unlocked.heap cur ≡ some p
  same_parent = ground (arith, free)

  -- With the address space, and the thread on its way.
  abbrev pub with_space : Processes
  with_space = store newp (record (fresh_proc i) { p_addrspace = true }) unlocked

  pub spaced_child : with_space.heap newp ≡ some (record (fresh_proc i) { p_addrspace = true })
  spaced_child = ground arith

  abbrev before_thread : Processes
  before_thread = record with_space { t_proc = update with_space.t_proc t none }

  before_thread-IsValid : IsValid before_thread
  before_thread-IsValid = threads-IsValid (update with_space.t_proc t none) with_space (
      store-IsValid newp (fresh_proc i) (record (fresh_proc i) { p_addrspace = true }) unlocked
        unlocked-IsValid found refl)

  alone : before_thread.t_proc t ≡ none
  alone = ground arith

  in_heap : before_thread.heap newp ≡ some (record (fresh_proc i) { p_addrspace = true })
  in_heap = ground arith

  abbrev with_child : Processes
  with_child = joined newp t (record (fresh_proc i) { p_addrspace = true }) before_thread

  added : proc_addthread newp t before_thread ≡ ok with_child
  added =
      proc_addthread-joined newp t (record (fresh_proc i) { p_addrspace = true }) before_thread
        in_heap alone refl (omega arith)

  with_child-IsValid : IsValid with_child
  with_child-IsValid =
      joined-IsValid newp t (record (fresh_proc i) { p_addrspace = true }) before_thread in_heap
        alone refl before_thread-IsValid

  child_there : with_child.heap newp ≡ some (child i)
  child_there = ground arith

  others_there : (q : ℕ) → q ≢ newp → with_child.heap q ≡ s.processes.heap q
  others_there q no_child = elim (ℕ_discrete cur q) [
    | yes same ↦ ground (arith, no_child, same, free, parent)
    | no other ↦ ground (arith, no_child, other, c.others q no_child)
  ]

  pub at_child : deref newp unlocked ≡ ok (fresh_proc i)
  unfolding deref
  at_child = rw (found, deref) refl

  at_new : deref newp with_child ≡ ok (child i)
  unfolding deref
  at_new = rw (child_there, deref) refl

  abbrev pub copied_files : Files
  copied_files = proc_file_table_copy newp cur (no_descriptors newp s.files)

  abbrev pub before : (HeapCall → Machine → Machine) → System
  before heap = record s {
    machine = heap new_trapframe (heap new_space (heap new_process s.machine));
    processes = with_space;
    files = copied_files;
  }

  abbrev after_fork : (HeapCall → Machine → Machine) → System
  after_fork heap = record s {
    machine = all_made heap s.machine;
    processes = with_child;
    files = copied_files;
    cpu = record (s.cpu) {
      t_state = update (update s.cpu.t_state t s_ready) t s_ready;
      t_in_interrupt = update s.cpu.t_in_interrupt t false;
      c_runqueue = s.cpu.c_runqueue ++ (t ∷ []);
    };
  }

  module _ (queue : s.cpu.c_runqueue_lock ≡ unheld) (heap : HeapCall → Machine → Machine) where
    thread_fork_lem : thread_fork (plenty heap) newp t (before heap) ≡ ok (0, after_fork heap)
    unfolding thread_fork thread_create thread_make_runnable spinlock_acquire spinlock_release
    thread_fork_lem = ground (arith, added, queue)

    sys_fork_lem :
        (curproc : Process)
        → s.processes.t_proc s.cpu.c_curthread ≡ some cur
        → sys_fork (plenty heap) curproc newp t s ≡ ok (0, some i, after_fork heap)
    unfolding sys_fork fork_thread
    sys_fork_lem curproc current =
        ground (arith, current, proc_create_runprogram_lem, at_child, thread_fork_lem, at_new)

    none_left :
        (fd : ℕ)
        → fd < open_max
        → (copied_files.table cur fd ≡ none) × (copied_files.table newp fd ≡ none)
    none_left fd lt =
        let copy =
          proc_file_table_copy-Copied newp cur (no_descriptors newp s.files) (λ e. ne (sym e)) in
        (ground (arith, copy.to fd, lt), ground (arith, copy.apart newp (λ e. ne (sym e))))

    sys_fork-Child : Forks heap cur newp t i s (0, some i, after_fork heap)
    sys_fork-Child = record {
      result = (refl, refl);
      number = (c.range.0, c.range.1, c.free);
      process = child_there;
      others = others_there;
      table = with_child-IsValid;
      thread = ground arith;
      threads = λ u other. ground (arith, other, c.threads);
      runqueue = refl;
      ready = ground arith;
      running = refl;
      descriptors = none_left;
      memory = refl;
    }

-- `sys_fork` in a process whose lock is free, with the lock of the run queue free and memory for all it wants, ends
-- in every case. It makes a child with a number of its own, an address space and one thread, which is the last on
-- the run queue, and changes no other process; frames and memory change by the calls of `kmalloc` alone, whatever
-- those do. But neither the child nor the parent has any descriptor then. Or it panics since every process number
-- but that of the last allocation is taken.
pub sys_fork-Forks :
    (heap : HeapCall → Machine → Machine) (curproc : Process) (cur newp t : ℕ) (p : Proc)
    (s : System)
    → IsValid s.processes
    → s.processes.t_proc s.cpu.c_curthread ≡ some cur
    → s.processes.heap cur ≡ some p
    → p.p_lock ≡ unheld
    → s.cpu.c_runqueue_lock ≡ unheld
    → s.processes.heap newp ≡ none
    → ((i : ℕ) × (r : ℕ × Option ℕ × System) × (sys_fork (plenty heap) curproc newp t s ≡ ok r)
        × Forks heap cur newp t i s r)
      ⊎ ((sys_fork (plenty heap) curproc newp t s ≡ err proc_table_full)
          × ((j : ℕ)
              → 0 < j
              → j ≤ max_proc
              → j ≢ s.processes.table.last_i
              → s.processes.table.proc j ≢ none))
unfolding sys_fork proc_create_runprogram
sys_fork-Forks heap curproc cur newp t p s v current parent free queue vacant =
    elim (proc_create-Creates newp s.processes v vacant) [
      | inl (i, s', e, c) ↦ inl (
        i,
        (0, some i, after_fork cur newp t i p s s' e c parent free apart heap),
        sys_fork_lem cur newp t i p s s' e c parent free apart queue heap curproc current,
        sys_fork-Child cur newp t i p s s' e c parent free apart queue heap,
      )
      | inr (full, taken) ↦ inr (refused full, taken)
    ]
  where
    apart : cur ≢ newp
    apart e = absurd (cc)

    refused :
        proc_create newp s.processes ≡ err proc_table_full
        → sys_fork (plenty heap) curproc newp t s ≡ err proc_table_full
    refused full = ground (arith, current, full)
