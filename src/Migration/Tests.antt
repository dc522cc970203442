-- ===== src/Migration/Tests.antt =====
-- Runs of the migration of threads.
use sdp_project_c.Common.{◌==◌, ◌≡◌, refl, if◌then◌else◌, [], ◌∷◌, Returns, arith}
use sdp_project_c.Spinlock.{unheld, spinlock_acquire, spinlock_release}
use sdp_project_c.Migration.{Cpus, thread_consider_migration}
use sdp_project_c.Migration.Balance.{share, Balanced, thread_consider_migration-Balanced}

-- Three processors; the first has five threads to run, one of them its current one, the last has one, and is idle.
abbrev three_cpus : Cpus
three_cpus = record {
  numcpus = 3;
  c_runqueue =
      λ i. if i == 0 then (11 ∷ 12 ∷ 13 ∷ 14 ∷ 15 ∷ []) else (if i == 2 then (31 ∷ []) else []);
  c_runqueue_lock = λ i. unheld;
  c_isidle = λ i. i == 2;
  t_cpu = λ t. if t == 31 then 2 else 0;
  unidled = [];
}

thread_consider_migration-Balanced_example :
    Returns
      (thread_consider_migration 0 14 three_cpus)
      (Balanced 0 14 (share three_cpus) three_cpus)
thread_consider_migration-Balanced_example =
    thread_consider_migration-Balanced 0 14 three_cpus (omega arith) (λ j lt. refl)

-- The current thread is skipped, and comes back last.
thread_consider_migration_cur : Returns (thread_consider_migration 0 14 three_cpus) (λ c.
    (c.c_runqueue 0 ≡ 11 ∷ 12 ∷ 14 ∷ [])
    × (c.c_runqueue 1 ≡ 13 ∷ 15 ∷ [])
    × (c.c_runqueue 2 ≡ 31 ∷ [])
    × (c.t_cpu 13 ≡ 1)
    × (c.unidled ≡ []))
unfolding thread_consider_migration spinlock_acquire spinlock_release
thread_consider_migration_cur = (refl, refl, refl, refl, refl)
