-- ===== src/Fork/Denied.antt =====
-- What `sys_fork` does where memory runs out.
use sdp_project_c.Common.{
  ℕ, ◌<◌, ◌≤◌, ◌≡◌, refl, sym, subst, ◌≢◌, ◌⊎◌, inl, inr, Bool, true, false, Option, none, some, ok,
  err, Returns, arith, ℕ_discrete, proc_table_full,
}
use sdp_project_c.Spinlock.{unheld, spinlock_acquire, spinlock_release, spinlock_cleanup}
use sdp_project_c.AddrSpace.{Process, enomem}
use sdp_project_c.Proc.{
  kproc, max_proc, Proc, Processes, deref, store, proc_create, proc_destroy, proc_end_waitpid,
}
use sdp_project_c.Proc.Table.{IsValid, fresh_proc, Creates, proc_create-Creates}
use sdp_project_c.Proc.Threads.{store-IsValid}
use sdp_project_c.Proc.Exit.{waited, waited-IsValid}
use sdp_project_c.Machine.{Machine}
use sdp_project_c.Fork.{
  HeapCall, new_process, end_process, System, Memory, proc_create_runprogram, no_descriptors,
  end_child, sys_fork,
}
use sdp_project_c.Fork.Child.{
  unlocked, unlocked-IsValid, proc_create_runprogram_lem, found, at_child,
}

runprogram_full :
    (newp cur : ℕ) (s : Processes)
    → proc_create newp s ≡ err proc_table_full
    → proc_create_runprogram true newp cur s ≡ err proc_table_full
unfolding proc_create_runprogram
runprogram_full newp cur s full = ground (arith, full)

-- What is left when there is no memory for an address space.
pub record GivesUp (heap : HeapCall → Machine → Machine) (cur newp : ℕ) (s : System)
    (r : ℕ × Option ℕ × System) : Type 0 where
  pub result : (r.0 ≡ enomem) × (r.1 ≡ none)
  pub processes : (q : ℕ) → r.2.processes.heap q ≡ s.processes.heap q
  pub numbers : (j : ℕ) → r.2.processes.table.proc j ≡ s.processes.table.proc j
  pub table : IsValid r.2.processes
  pub threads : r.2.processes.t_proc ≡ s.processes.t_proc
  pub descriptors : (q : ℕ) → q ≢ newp → r.2.files.table q ≡ s.files.table q
  pub rest : (r.2.cpu ≡ s.cpu) × (r.2.machine ≡ heap end_process (heap new_process s.machine))

abbrev pub unspaced : Bool → Bool → Bool → (HeapCall → Machine → Machine) → Memory
unspaced trapframe thread stack heap = record {
  process = true;
  space = false;
  trapframe = trapframe;
  thread = thread;
  stack = stack;
  heap = heap;
}

module _ (cur newp i : ℕ) (p : Proc) (s : System) (s' : Processes)
    (e : proc_create newp s.processes ≡ ok s') (c : Creates newp i s.processes s')
    (parent : s.processes.heap cur ≡ some p) (free : p.p_lock ≡ unheld) (ne : cur ≢ newp)
    (vacant : s.processes.heap newp ≡ none) (user : newp ≢ kproc)
    (heap : HeapCall → Machine → Machine) where
  abbrev with_parent : Processes
  with_parent = unlocked cur newp 0 i p s s' e c parent free ne

  abbrev born : System
  born = record s {
    machine = heap new_process s.machine;
    processes = store newp (fresh_proc i) with_parent;
    files = no_descriptors newp s.files;
  }

  abbrev gone : Processes
  gone = waited newp (fresh_proc i) born.processes

  abbrev ended_child : System
  ended_child = record born {
    processes = gone;
    machine = heap end_process (heap new_process s.machine);
  }

  at_born : deref newp born.processes ≡ ok (fresh_proc i)
  unfolding deref
  at_born = ground arith

  born-IsValid : IsValid born.processes
  born-IsValid =
      store-IsValid newp (fresh_proc i) (fresh_proc i) with_parent
        (unlocked-IsValid cur newp 0 i p s s' e c parent free ne)
        (found cur newp 0 i p s s' e c parent free ne) refl

  gone-IsValid : IsValid gone
  gone-IsValid = waited-IsValid newp (fresh_proc i) born.processes born-IsValid (ground arith)

  end_child-gone :
      (memory : Memory) (curproc : Process)
      → memory.heap ≡ heap
      → end_child memory curproc newp born ≡ ok ended_child
  unfolding end_child proc_destroy proc_end_waitpid deref spinlock_acquire spinlock_release
      spinlock_cleanup
  end_child-gone memory curproc same =
      ground (arith, at_born, user, c.range, c.valid.unlocked, same)

  gives_up : GivesUp heap cur newp s (enomem, none, ended_child)
  gives_up = record {
    result = (refl, refl);
    processes = λ q. elim (ℕ_discrete newp q) [
      | yes same ↦ ground (arith, same, vacant)
      | no other ↦ elim (ℕ_discrete cur q) [
        | yes same ↦ ground (arith, other, same, free, parent)
        | no differ ↦ ground (arith, other, differ, c.others q (λ x. other (sym x)))
      ]
    ];
    numbers = λ j. elim (ℕ_discrete i j) [
      | yes same ↦ ground (arith, same, c.free)
      | no other ↦ ground (arith, other, c.kept j (λ x. other (sym x)))
    ];
    table = gone-IsValid;
    threads = c.threads;
    descriptors = λ q other. ground (arith, other);
    rest = (refl, refl);
  }

  sys_fork-gone :
      (trapframe thread stack : Bool) (curproc : Process) (t : ℕ)
      → s.processes.t_proc s.cpu.c_curthread ≡ some cur
      → sys_fork (unspaced trapframe thread stack heap) curproc newp t s
        ≡ ok (enomem, none, ended_child)
  unfolding sys_fork
  sys_fork-gone trapframe thread stack curproc t current = ground (
    arith,
    current,
    proc_create_runprogram_lem cur newp 0 i p s s' e c parent free ne,
    at_child cur newp 0 i p s s' e c parent free ne,
    end_child-gone (unspaced trapframe thread stack heap) curproc refl,
  )

-- `sys_fork` without memory for an address space, in a process whose lock is free, gives ENOMEM and leaves
-- processes, numbers, threads and the descriptors of other processes as they were, but for the place where the next
-- search for a number begins; frames and memory change by the calls of `kmalloc` and `kfree` for the process alone.
-- Or it panics since every process number but that of the last allocation is taken.
pub sys_fork-GivesUp :
    (trapframe thread stack : Bool) (heap : HeapCall → Machine → Machine) (curproc : Process)
    (cur newp t : ℕ) (p : Proc) (s : System)
    → IsValid s.processes
    → s.processes.t_proc s.cpu.c_curthread ≡ some cur
    → s.processes.heap cur ≡ some p
    → p.p_lock ≡ unheld
    → s.processes.heap newp ≡ none
    → newp ≢ kproc
    → Returns
        (sys_fork (unspaced trapframe thread stack heap) curproc newp t s)
        (GivesUp heap cur newp s)
      ⊎ ((sys_fork (unspaced trapframe thread stack heap) curproc newp t s ≡ err proc_table_full)
          × ((j : ℕ)
              → 0 < j
              → j ≤ max_proc
              → j ≢ s.processes.table.last_i
              → s.processes.table.proc j ≢ none))
unfolding sys_fork
sys_fork-GivesUp trapframe thread stack heap curproc cur newp t p s v current parent free vacant
      user =
    elim (proc_create-Creates newp s.processes v vacant) [
      | inl (i, s', e, c) ↦ inl (
          subst (λ m. Returns m (GivesUp heap cur newp s))
            (sym (
              sys_fork-gone cur newp i p s s' e c parent free apart vacant user heap trapframe
                thread stack curproc t current))
            (gives_up cur newp i p s s' e c parent free apart vacant user heap))
      | inr (full, taken) ↦ inr (refused full, taken)
    ]
  where
    apart : cur ≢ newp
    apart e = absurd (cc)

    refused :
        proc_create newp s.processes ≡ err proc_table_full
        → sys_fork (unspaced trapframe thread stack heap) curproc newp t s ≡ err proc_table_full
    refused full = ground (arith, current, runprogram_full newp cur s.processes full)
