-- ===== src/Synch/Wakeups.antt =====
-- What a semaphore promises from `sem_create` on, whatever the threads do.
use sdp_project_c.Common.{
  ℕ, ◌+◌, ◌≤◌, ◌<◌, ◌≡◌, refl, ◌≢◌, Bool, true, false, subst, ap, ◌⊎◌, inl, inr, some, Returns,
  Returns-map, arith, List, [], ◌∷◌, length, occurrences,
}
use sdp_project_c.Spinlock.{unheld, spinlock_init}
use sdp_project_c.Thread.{Cpu}
use sdp_project_c.Thread.Sleeps.{active, IsReady}
use sdp_project_c.Synch.{Semaphore, sem_create, p_round, v}
use sdp_project_c.Synch.Rounds.{Passes, Blocks, p_round-Blocks, v-Wakes}
use sdp_project_c.Synch.Steps.{World, IsValid, Reach, Reach-IsValid}

-- Nobody has called `P` or `V` yet.
abbrev pub start : Semaphore → Cpu → World
start sem cpu = record { sem = sem; cpu = cpu; pending = []; passed = 0; raised = 0 }

abbrev pub with_count : ℕ → Semaphore
with_count initial = record { sem_wchan = []; sem_lock = unheld; sem_count = initial }

start-IsValid :
    (initial : ℕ) (cpu : Cpu)
    → initial ≤ 0xffff_ffff
    → IsReady cpu
    → IsValid initial (start (with_count initial) cpu)
unfolding occurrences
start-IsValid initial cpu small ready = record {
  free = refl;
  ready = ready;
  small = small;
  runnable = λ t. omega arith;
  counted = refl;
  heard = λ asleep. absurd (asleep refl);
}

module _ (initial : ℕ) (sem : Semaphore) (cpu : Cpu) (w : World)
    (made : sem_create true true true initial ≡ some sem) (small : initial ≤ 0xffff_ffff)
    (ready : IsReady cpu) (run : Reach (start sem cpu) w) where
  reached-IsValid : IsValid initial w
  unfolding sem_create spinlock_init
  reached-IsValid =
      let e : with_count initial ≡ sem = cc in
      Reach-IsValid initial
        (subst (λ s. IsValid initial (start s cpu)) e (start-IsValid initial cpu small ready)) run

  -- A semaphore made with a first count, where no spinlock is held and no zombie is left at first, and `as_activate`
  -- returns for the process of each thread: at any time, the count and the number of times that `P` has returned are
  -- together the first count and the number of calls of `V`.
  pub sem_count-balance : w.sem.sem_count + w.passed ≡ initial + w.raised
  sem_count-balance = reached-IsValid.counted

  -- Where no spinlock is held and no zombie is left at first, and `as_activate` returns for the process of each thread,
  -- no wakeup is lost: whenever a thread sleeps although the count is not 0, a thread that has been woken and has not
  -- run since can run: it is the current one or on the run queue.
  pub sem_wakeups_arrive :
      w.sem.sem_wchan ≢ []
      → 0 < w.sem.sem_count
      → (t : ℕ) × (0 < occurrences t w.pending) × (0 < occurrences t (active w.cpu))
  unfolding occurrences
  sem_wakeups_arrive asleep up = arrived w.pending refl
    where
      arrived :
          (ts : List ℕ)
          → w.pending ≡ ts
          → (t : ℕ) × (0 < occurrences t w.pending) × (0 < occurrences t (active w.cpu))
      arrived [] e = absurd (omega (arith, reached-IsValid.heard asleep, ap length e))
      arrived (t ∷ ts) e =
          let one : 0 < occurrences t w.pending = rw e (ground arith) in
          (t, one, omega (arith, reached-IsValid.runnable t, one))

  -- From `sem_create` on, where no thread that calls `P` holds a spinlock and `as_activate` returns for the process of
  -- each thread, no call fails: a thread that runs outside an interrupt gets through a round of `P`, and `V` returns
  -- unless the count would wrap round.
  pub calls_return :
      (w.cpu.c_isidle ≡ false
        → w.cpu.t_in_interrupt w.cpu.c_curthread ≡ false
        → Returns
            (p_round w.sem w.cpu)
            (λ r. ((0 < w.sem.sem_count) × (r.0 ≡ true)) ⊎ ((w.sem.sem_count ≡ 0) × (r.0 ≡ false))))
      × (w.sem.sem_count < 0xffff_ffff
          → Returns (v w.sem w.cpu) (λ r. r.0.sem_count ≡ w.sem.sem_count + 1))
  calls_return =
      let i = reached-IsValid in
      (
        λ busy calm.
            Returns-map _ _ (p_round w.sem w.cpu) (λ r h. either r h)
              (p_round-Blocks w.sem w.cpu i.free i.ready busy calm),
        λ room.
            Returns-map _ _ (v w.sem w.cpu) (λ r (e, h). ap (λ (s : Semaphore). s.sem_count) e)
              (v-Wakes w.sem w.cpu i.free i.ready room),
      )
    where
      either :
          (r : Bool × Semaphore × Cpu)
          → Passes w.sem w.cpu r ⊎ Blocks w.sem w.cpu r
          → ((0 < w.sem.sem_count) × (r.0 ≡ true)) ⊎ ((w.sem.sem_count ≡ 0) × (r.0 ≡ false))
      either r (inl (pos, e)) = inl (pos, ap (λ (x : Bool × Semaphore × Cpu). x.0) e)
      either r (inr (z, blocked, e, leaves)) = inr (z, blocked)
