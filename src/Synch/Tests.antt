-- ===== src/Synch/Tests.antt =====
-- Tests of the semaphores: threads 7 and 8 call `P` of a semaphore with count 0, and thread 9 calls `V`.
use sdp_project_c.Common.{
  ℕ, ◌+◌, ◌<◌, ◌≡◌, refl, ◌⊎◌, true, false, some, Returns, arith, update, [], ◌∷◌, occurrences,
  without,
}
use sdp_project_c.Spinlock.{
  unheld, spinlock_init, spinlock_acquire, spinlock_release, spinlock_do_i_hold,
}
use sdp_project_c.Thread.{Cpu, s_run, s_sleep, s_ready, wchan_sleep, wchan_wakeone}
use sdp_project_c.Thread.Sleeps.{active, IsReady}
use sdp_project_c.Synch.{sem_create, p_round, v}
use sdp_project_c.Synch.Steps.{World, Step, Reach}
use sdp_project_c.Synch.Wakeups.{
  start, with_count, sem_count-balance, sem_wakeups_arrive, calls_return,
}

abbrev three : Cpu
three = record {
  c_curthread = 7;
  c_zombies = [];
  c_isidle = false;
  c_runqueue = 8 ∷ 9 ∷ [];
  c_runqueue_lock = unheld;
  c_spinlocks = 0;
  activates = λ t. true;
  t_state = λ t. s_run;
  t_in_interrupt = λ t. false;
}

three-IsReady : IsReady three
three-IsReady = record { free = refl; clean = refl; none_held = refl; activates = λ t. refl }

-- After each of the three calls.
abbrev one_sleeps : World
one_sleeps = record {
  sem = record { sem_wchan = 7 ∷ []; sem_lock = unheld; sem_count = 0 };
  cpu = record three {
    c_curthread = 8;
    c_runqueue = 9 ∷ [];
    t_state = update (update three.t_state 7 s_sleep) 8 s_run;
  };
  pending = [];
  passed = 0;
  raised = 0;
}

abbrev two_sleep : World
two_sleep = record one_sleeps {
  sem = record { sem_wchan = 7 ∷ 8 ∷ []; sem_lock = unheld; sem_count = 0 };
  cpu = record three {
    c_curthread = 9;
    c_runqueue = [];
    t_state = update (update one_sleeps.cpu.t_state 8 s_sleep) 9 s_run;
  };
}

abbrev one_woken : World
one_woken = record two_sleep {
  sem = record { sem_wchan = 8 ∷ []; sem_lock = unheld; sem_count = 1 };
  cpu = record (two_sleep.cpu) {
    c_runqueue = 7 ∷ [];
    t_state = update two_sleep.cpu.t_state 7 s_ready;
  };
  pending = 7 ∷ [];
  raised = 1;
}

calls : Reach (start (with_count 0) three) one_woken
unfolding p_round v wchan_sleep wchan_wakeone spinlock_acquire spinlock_release spinlock_do_i_hold
    without
calls =
    Reach.next
      (Reach.next
        (Reach.next Reach.here (
          Step.down (start (with_count 0) three) (false, one_sleeps.sem, one_sleeps.cpu) refl refl
            refl))
        (Step.down one_sleeps (false, two_sleep.sem, two_sleep.cpu) refl refl refl))
      (Step.up two_sleep (one_woken.sem, one_woken.cpu) refl)

made : sem_create true true true 0 ≡ some (with_count 0)
unfolding sem_create spinlock_init
made = refl

sem_count-balance_example : one_woken.sem.sem_count + one_woken.passed ≡ 0 + one_woken.raised
sem_count-balance_example =
    sem_count-balance 0 (with_count 0) three one_woken made (omega arith) three-IsReady calls

sem_wakeups_arrive_example :
    (t : ℕ) × (0 < occurrences t one_woken.pending) × (0 < occurrences t (active one_woken.cpu))
sem_wakeups_arrive_example =
    sem_wakeups_arrive 0 (with_count 0) three one_woken made (omega arith) three-IsReady calls
      (λ e. absurd (cc)) (omega arith)

calls_return_example :
    (one_woken.cpu.c_isidle ≡ false
      → one_woken.cpu.t_in_interrupt one_woken.cpu.c_curthread ≡ false
      → Returns (p_round one_woken.sem one_woken.cpu) (λ r.
        ((0 < one_woken.sem.sem_count) × (r.0 ≡ true))
        ⊎ ((one_woken.sem.sem_count ≡ 0) × (r.0 ≡ false))))
    × (one_woken.sem.sem_count < 0xffff_ffff
        → Returns
            (v one_woken.sem one_woken.cpu)
            (λ r. r.0.sem_count ≡ one_woken.sem.sem_count + 1))
calls_return_example =
    calls_return 0 (with_count 0) three one_woken made (omega arith) three-IsReady calls
