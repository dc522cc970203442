-- ===== src/Thread/Tests.antt =====
-- Tests of the run queue: thread 7 runs, and 8 and 9 wait to run.
use sdp_project_c.Common.{◌≡◌, refl, true, false, Returns, [], ◌∷◌}
use sdp_project_c.Spinlock.{unheld, held_here}
use sdp_project_c.Thread.{Cpu, s_ready, wchan_wakeall}
use sdp_project_c.Thread.Turns.{Runs, yields, thread_yield_serves}
use sdp_project_c.Thread.Wakes.{wake_times, wchan_wakeall-wchan_wakeone}

abbrev three : Cpu
three = record {
  c_curthread = 7;
  c_zombies = [];
  c_isidle = false;
  c_runqueue = 8 ∷ 9 ∷ [];
  c_runqueue_lock = unheld;
  c_spinlocks = 0;
  activates = λ t. true;
  t_state = λ t. s_ready;
  t_in_interrupt = λ t. false;
}

thread_yield_serves_example : Returns (yields 2 three) (Runs 9 (7 ∷ 8 ∷ []))
thread_yield_serves_example = thread_yield_serves (8 ∷ []) 7 9 [] three (record {
  current = refl;
  queued = refl;
  busy = refl;
  free = refl;
  clean = refl;
  activates = λ t. refl;
})

wchan_wakeall-wchan_wakeone_example :
    wchan_wakeall (4 ∷ 5 ∷ []) held_here three ≡ wake_times 2 (4 ∷ 5 ∷ []) held_here three
wchan_wakeall-wchan_wakeone_example = wchan_wakeall-wchan_wakeone (4 ∷ 5 ∷ []) three
