-- ===== src/Proc/Tests.antt =====
-- Tests of the processes: process 0 is the kernel's, and process 1 a user's, whose thread is 7.
use sdp_project_c.Common.{
  ℕ, ◌≤◌, ◌<◌, ◌≡◌, refl, ◌≢◌, ◌⊎◌, false, Option, none, some, ok, err, arith, update, assertion,
  proc_table_full,
}
use sdp_project_c.Spinlock.{unheld}
use sdp_project_c.Sample.{machine, process}
use sdp_project_c.Proc.{
  max_proc, find_slot, Proc, Processes, store, proc_create, sys__exit, sleeps, ended, proc_wait,
}
use sdp_project_c.Proc.Numbers.{FirstFree, find_slot-FirstFree}
use sdp_project_c.Proc.Table.{
  IsValid, fresh_proc, created, Creates, created-IsValid, proc_create-Creates,
}
use sdp_project_c.Proc.Threads.{store-IsValid}
use sdp_project_c.Proc.Exit.{Ends, sys__exit_fails, proc_wait-Ends}

abbrev nothing : Processes
nothing = record {
  heap = λ q. none;
  table = record { active = false; proc = λ i. none; last_i = 0; lk = unheld };
  t_proc = λ t. none;
}

nothing-IsValid : IsValid nothing
nothing-IsValid = record {
  numbered = λ q p e. absurd (cc);
  listed = λ i q a b e. absurd (cc);
  last = omega arith;
  booted = λ z i a b. refl;
  unlocked = refl;
}

abbrev two : Processes
two = created 1 2 (created 0 1 nothing)

two-IsValid : IsValid two
two-IsValid =
    created-IsValid 1 (created 0 1 nothing)
      (created-IsValid 0 nothing nothing-IsValid refl 1 (omega arith) (omega arith) refl) refl 2
      (omega arith) (omega arith) refl

find_slot-FirstFree_example :
    (o : Option ℕ) × (find_slot 101 3 2 two.table.proc ≡ some o) × FirstFree 3 2 two.table.proc o
find_slot-FirstFree_example =
    find_slot-FirstFree 101 3 2 two.table.proc (omega arith) (omega arith) (omega arith)
      (omega arith) (omega arith)

proc_create-Creates_example :
    ((i : ℕ) × (s' : Processes) × (proc_create 2 two ≡ ok s') × Creates 2 i two s')
    ⊎ ((proc_create 2 two ≡ err proc_table_full)
        × ((j : ℕ) → 0 < j → j ≤ max_proc → j ≢ two.table.last_i → two.table.proc j ≢ none))
proc_create-Creates_example = proc_create-Creates 2 two two-IsValid refl

-- Process 1 with its thread.
abbrev running : Processes
running = record (store 1 (record (fresh_proc 2) { p_numthreads = 1 }) two) {
  t_proc = update two.t_proc 7 (some 1);
}

sys__exit_fails_example : sys__exit 7 0 running ≡ err assertion
sys__exit_fails_example =
    sys__exit_fails 7 0 1 (record (fresh_proc 2) { p_numthreads = 1 }) running refl refl refl
      (omega arith) (omega arith)

-- Process 1 after its end.
abbrev zombie : Proc
zombie = record (fresh_proc 2) { p_status = 3; sem_count = 1 }

proc_wait-Ends_example :
    ((zombie.sem_count ≡ 0) × (proc_wait process 1 (store 1 zombie two) machine ≡ ok sleeps))
    ⊎ ((0 < zombie.sem_count)
        × ((s' : Processes) × (proc_wait process 1 (store 1 zombie two) machine
              ≡ ok (ended 3 s' machine))
            × Ends 1 zombie (store 1 zombie two) s'))
proc_wait-Ends_example =
    proc_wait-Ends process 1 zombie (store 1 zombie two) machine machine
      (store-IsValid 1 (fresh_proc 2) zombie two two-IsValid refl refl) refl
      (λ e. absurd (omega (arith, e))) refl refl refl
