-- ===== src/Proc/Exit.antt =====
-- The end of a process: `sys__exit`, and `waitpid` in the parent.
use sdp_project_c.Common.{
  ℕ, if◌then◌else◌, ◌-◌, ◌<◌, ◌≡◌, ◌≢◌, ◌⊎◌, inl, inr, none, some, ok, err, arith, update,
  ℕ_discrete, assertion,
}
use sdp_project_c.Spinlock.{unheld, spinlock_acquire, spinlock_release, spinlock_cleanup}
use sdp_project_c.Machine.{Machine}
use sdp_project_c.AddrSpace.{Process, as_destroy}
use sdp_project_c.Proc.{
  Proc, Processes, deref, proc_destroy, proc_end_waitpid, kproc, proc_remthread, proc_signal_end,
  thread_exit, sys__exit, sleeps, ended, proc_wait,
}
use sdp_project_c.Proc.Table.{IsValid}

-- `sys__exit` takes the thread off its process, and `thread_exit` takes it off again: whatever the status,
-- the exit of a process fails an assertion.
pub sys__exit_fails :
    (cur status q : ℕ) (p : Proc) (s : Processes)
    → s.t_proc cur ≡ some q
    → s.heap q ≡ some p
    → p.p_lock ≡ unheld
    → 0 < p.p_numthreads
    → p.sem_count < 0xffff_ffff
    → sys__exit cur status s ≡ err assertion
unfolding sys__exit thread_exit proc_remthread proc_signal_end deref spinlock_acquire
    spinlock_release
sys__exit_fails cur status q p s on e free threads room = ground (arith, on, e, free)

-- The state after a process has been waited for.
pub record Ends (q : ℕ) (p : Proc) (s s' : Processes) : Type 0 where
  pub gone : s'.heap q ≡ none
  pub freed : s'.table.proc p.p_pid ≡ none
  pub others : (r : ℕ) → r ≢ q → s'.heap r ≡ s.heap r
  pub kept : (j : ℕ) → j ≢ p.p_pid → s'.table.proc j ≡ s.table.proc j
  pub valid : IsValid s'

-- The state without the process `q`, which had the contents `p`.
abbrev pub waited : ℕ → Proc → Processes → Processes
waited q p s = record s {
  heap = update (update s.heap q (some (record p { sem_count = p.sem_count - 1 }))) q none;
  table = record (s.table) { proc = update s.table.proc p.p_pid none };
}

module _ (q : ℕ) (p : Proc) (s : Processes) (v : IsValid s) (e : s.heap q ≡ some p) where
  pub waited-IsValid : IsValid (waited q p s)
  waited-IsValid = record {
    numbered = λ r p' h.
        let h' : s.heap r ≡ some p' = ground (arith, h) in
        let ne : q ≢ r = ground (arith, h) in ground (arith, v.numbered r p' h', v.numbered q p e);
    listed = λ j r a b l.
        let l' : s.table.proc j ≡ some r = ground (arith, l) in
        let ne : p.p_pid ≢ j = ground (arith, l) in
        let (p', h, n) = v.listed j r a b l' in (p', ground (arith, h, e, n), n);
    last = v.last;
    booted = λ z j a b. ground (arith, v.booted z j a b);
    unlocked = v.unlocked;
  }

  proc_wait_ended :
      (curproc : Process) (m m' : Machine)
      → q ≢ kproc
      → p.p_lock ≡ unheld
      → p.p_numthreads ≡ 0
      → (if p.p_addrspace then as_destroy curproc m else ok m) ≡ ok m'
      → 0 < p.sem_count
      → (s' : Processes) × (proc_wait curproc q s m ≡ ok (ended p.p_status s' m')) × Ends q p s s'
  unfolding proc_wait proc_destroy proc_end_waitpid deref spinlock_acquire spinlock_release
      spinlock_cleanup
  proc_wait_ended curproc m m' user free idle gone raised = (
    waited q p s,
    ground (arith, e, free, idle, gone, v.unlocked, v.numbered q p e),
    record {
      gone = ground arith;
      freed = ground arith;
      others = λ r ne. ground arith;
      kept = λ j ne. ground arith;
      valid = waited-IsValid;
    },
  )

-- `proc_wait` for a process that is not the kernel's, whose threads are gone and whose lock is free, where
-- `as_destroy` returns if it has an address space: it sleeps as long as the process has not raised its semaphore.
-- Otherwise it gives the status, frees the number, and removes the process and no other; the memory system is as
-- `as_destroy` leaves it, or as it was if there is no address space.
pub proc_wait-Ends :
    (curproc : Process) (q : ℕ) (p : Proc) (s : Processes) (m m' : Machine)
    → IsValid s
    → s.heap q ≡ some p
    → q ≢ kproc
    → p.p_lock ≡ unheld
    → p.p_numthreads ≡ 0
    → (if p.p_addrspace then as_destroy curproc m else ok m) ≡ ok m'
    → ((p.sem_count ≡ 0) × (proc_wait curproc q s m ≡ ok sleeps))
      ⊎ ((0 < p.sem_count)
          × ((s' : Processes) × (proc_wait curproc q s m ≡ ok (ended p.p_status s' m'))
              × Ends q p s s'))
unfolding proc_wait proc_destroy proc_end_waitpid deref spinlock_acquire spinlock_release
    spinlock_cleanup
proc_wait-Ends curproc q p s m m' v e user free idle gone = elim (ℕ_discrete p.sem_count 0) [
  | yes z ↦ inl (z, ground (arith, e))
  | no nz ↦
      let raised : 0 < p.sem_count = omega arith in
      inr (raised, proc_wait_ended q p s v e curproc m m' user free idle gone raised)
]
