-- ===== src/Fork/Tests.antt =====
-- Tests of `sys_fork`: thread 7 of process 1 runs.
use sdp_project_c.Common.{
  ℕ, ◌≤◌, ◌<◌, ◌≡◌, refl, ◌≢◌, ◌⊎◌, true, false, Option, none, some, ok, err, Returns, arith, [],
  update, proc_table_full,
}
use sdp_project_c.Spinlock.{unheld}
use sdp_project_c.Machine.{Machine}
use sdp_project_c.Sample.{machine, process}
use sdp_project_c.Proc.{max_proc, Proc, Processes, store}
use sdp_project_c.Proc.Table.{IsValid, fresh_proc, created, created-IsValid}
use sdp_project_c.Proc.Threads.{store-IsValid, threads-IsValid}
use sdp_project_c.Thread.{s_run}
use sdp_project_c.Fork.{HeapCall, System, sys_fork}
use sdp_project_c.Fork.Child.{plenty, Forks, sys_fork-Forks}
use sdp_project_c.Fork.Denied.{unspaced, GivesUp, sys_fork-GivesUp}

abbrev nothing : Processes
nothing = record {
  heap = λ q. none;
  table = record { active = false; proc = λ i. none; last_i = 0; lk = unheld };
  t_proc = λ t. none;
}

nothing-IsValid : IsValid nothing
nothing-IsValid = record {
  numbered = λ q p e. absurd (cc);
  listed = λ i q a b e. absurd (cc);
  last = omega arith;
  booted = λ z i a b. refl;
  unlocked = refl;
}

abbrev two : Processes
two = created 1 2 (created 0 1 nothing)

two-IsValid : IsValid two
two-IsValid =
    created-IsValid 1 (created 0 1 nothing)
      (created-IsValid 0 nothing nothing-IsValid refl 1 (omega arith) (omega arith) refl) refl 2
      (omega arith) (omega arith) refl

abbrev user : Proc
user = record (fresh_proc 2) { p_numthreads = 1; p_addrspace = true }

abbrev running : Processes
running = record (store 1 user two) { t_proc = update two.t_proc 7 (some 1) }

running-IsValid : IsValid running
running-IsValid =
    threads-IsValid (update two.t_proc 7 (some 1)) (store 1 user two)
      (store-IsValid 1 (fresh_proc 2) user two two-IsValid refl refl)

abbrev system : System
system = record {
  processes = running;
  files = record {
    system = λ k. record { vn = none; offset = 0; count_ref = 0 };
    table = λ p fd. none;
    vnodes = λ v. record { vn_refcount = 1; vn_countlock = unheld };
    reclaimed = [];
  };
  cpu = record {
    c_curthread = 7;
    c_zombies = [];
    c_isidle = false;
    c_runqueue = [];
    c_runqueue_lock = unheld;
    c_spinlocks = 0;
    activates = λ t. true;
    t_state = λ t. s_run;
    t_in_interrupt = λ t. false;
  };
  machine = machine;
}

-- The calls of the heap leave their mark in memory.
abbrev marks : HeapCall → Machine → Machine
marks call m = record m { memory = update m.memory 0 1 }

sys_fork-Forks_example :
    ((i : ℕ) × (r : ℕ × Option ℕ × System) × (sys_fork (plenty marks) process 2 8 system ≡ ok r)
      × Forks marks 1 2 8 i system r)
    ⊎ ((sys_fork (plenty marks) process 2 8 system ≡ err proc_table_full)
        × ((j : ℕ) → 0 < j → j ≤ max_proc → j ≢ 2 → running.table.proc j ≢ none))
sys_fork-Forks_example =
    sys_fork-Forks marks process 1 2 8 user system running-IsValid refl refl refl refl refl

sys_fork-GivesUp_example :
    Returns (sys_fork (unspaced true true true marks) process 2 8 system) (GivesUp marks 1 2 system)
    ⊎ ((sys_fork (unspaced true true true marks) process 2 8 system ≡ err proc_table_full)
        × ((j : ℕ) → 0 < j → j ≤ max_proc → j ≢ 2 → running.table.proc j ≢ none))
sys_fork-GivesUp_example =
    sys_fork-GivesUp true true true marks process 1 2 8 user system running-IsValid refl refl refl
      refl (omega arith)
