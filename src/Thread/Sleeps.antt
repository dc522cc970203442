-- ===== src/Thread/Sleeps.antt =====
-- Which threads can run: the current one, unless the processor is idle, and those on the run queue.
use sdp_project_c.Common.{
  ℕ, ◌+◌, ◌≡◌, refl, true, false, ok, Returns, Returns-bind, Returns-map, subst, sym, Bool-cases,
  inl, inr, arith, ◌==◌, if◌then◌else◌, update, List, [], ◌∷◌, ◌++◌, occurrences,
  occurrences-append,
}
use sdp_project_c.Spinlock.{
  unheld, held_here, spinlock_acquire, spinlock_release, spinlock_do_i_hold,
}
use sdp_project_c.Thread.{
  Cpu, s_ready, thread_make_runnable, all_dead, exorcise, switch_to, choose_next, after_idle,
  thread_yield, switch_sleep, wchan_sleep, wake_first, wchan_wakeone,
}

abbrev pub active : Cpu → List ℕ
active cpu = if cpu.c_isidle then cpu.c_runqueue else (cpu.c_curthread ∷ cpu.c_runqueue)

abbrev pub is_at : ℕ → ℕ → ℕ
is_at t u = if u == t then 1 else 0

-- Between two switches: the lock is free, the zombies are gone, no other lock is held, and `as_activate` returns
-- for every thread.
pub record IsReady (cpu : Cpu) : Type 0 where
  pub free : cpu.c_runqueue_lock ≡ unheld
  pub clean : cpu.c_zombies ≡ []
  pub none_held : cpu.c_spinlocks ≡ 0
  pub activates : (t : ℕ) → cpu.activates t ≡ true

-- The threads that can run are those of `queue`.
pub record Leaves (queue : List ℕ) (cpu : Cpu) : Type 0 where
  pub ready : IsReady cpu
  pub count : (t : ℕ) → occurrences t (active cpu) ≡ occurrences t queue

choose_next-Leaves :
    (queue : List ℕ) (cpu : Cpu)
    → cpu.c_runqueue ≡ queue
    → cpu.c_runqueue_lock ≡ held_here
    → cpu.c_zombies ≡ []
    → cpu.c_spinlocks ≡ 0
    → ((t : ℕ) → cpu.activates t ≡ true)
    → Returns (choose_next queue cpu) (Leaves queue)
unfolding choose_next switch_to exorcise all_dead spinlock_release
choose_next-Leaves [] cpu e held clean zero_held act = rw held (record {
  ready = record { free = refl; clean = clean; none_held = zero_held; activates = act };
  count = λ t. rw e refl;
})
choose_next-Leaves (next ∷ queue) cpu e held clean zero_held act =
    rw (held, act next, clean)
      (record {
        ready = record { free = refl; clean = refl; none_held = zero_held; activates = act };
        count = λ t. refl;
      })

-- A thread that sleeps is the last on its channel, and the others can run.
pub wchan_sleep-Leaves :
    (wc_threads : List ℕ) (cpu : Cpu)
    → IsReady cpu
    → cpu.c_isidle ≡ false
    → cpu.t_in_interrupt cpu.c_curthread ≡ false
    → Returns
        (wchan_sleep wc_threads held_here (record cpu { c_spinlocks = cpu.c_spinlocks + 1 }))
        (λ r.
          (r.0 ≡ wc_threads ++ (cpu.c_curthread ∷ [])) × (r.1 ≡ unheld) × Leaves cpu.c_runqueue r.2)
unfolding wchan_sleep switch_sleep spinlock_acquire spinlock_release spinlock_do_i_hold
wchan_sleep-Leaves wc_threads cpu r busy calm =
    rw (calm, r.none_held, busy, r.free)
      (Returns-bind _ _ (choose_next cpu.c_runqueue _) _
        (choose_next-Leaves cpu.c_runqueue _ refl refl r.clean refl r.activates)
        (λ cpu' h. (refl, refl, h)))

-- After an interrupt of the idle processor every thread that could run can run.
pub after_idle-Leaves :
    (cpu : Cpu) → IsReady cpu → cpu.c_isidle ≡ true → Returns (after_idle cpu) (Leaves (active cpu))
unfolding after_idle spinlock_acquire
after_idle-Leaves cpu r idle =
    rw (r.free, idle)
      (choose_next-Leaves cpu.c_runqueue _ refl refl r.clean r.none_held r.activates)

-- The current thread at the end of the run queue `queue`, under the lock.
abbrev requeued : List ℕ → Cpu → Cpu
requeued queue cpu = record cpu {
  c_isidle = false;
  c_runqueue = queue ++ (cpu.c_curthread ∷ []);
  c_runqueue_lock = held_here;
  t_state = update cpu.t_state cpu.c_curthread s_ready;
}

thread_yield-busy :
    (queue : List ℕ) (cpu : Cpu)
    → cpu.c_runqueue ≡ queue
    → IsReady cpu
    → cpu.c_isidle ≡ false
    → Returns (thread_yield cpu) (Leaves (cpu.c_curthread ∷ queue))
unfolding thread_yield thread_make_runnable spinlock_acquire spinlock_release spinlock_do_i_hold
    occurrences
thread_yield-busy [] cpu e r busy =
    rw (busy, r.free, e)
      (record {
        ready = record {
          free = refl;
          clean = r.clean;
          none_held = r.none_held;
          activates = r.activates;
        };
        count = λ t. refl;
      })
thread_yield-busy (next ∷ queue) cpu e r busy =
    rw (busy, r.free, e)
      (Returns-map (Leaves ((next ∷ queue) ++ (cpu.c_curthread ∷ [])))
        (Leaves (cpu.c_curthread ∷ next ∷ queue))
        (choose_next ((next ∷ queue) ++ (cpu.c_curthread ∷ [])) (requeued (next ∷ queue) cpu))
        (λ cpu' h. record {
          ready = h.ready;
          count = λ t.
              omega (arith, h.count t, occurrences-append t (next ∷ queue) (cpu.c_curthread ∷ []));
        })
        (choose_next-Leaves ((next ∷ queue) ++ (cpu.c_curthread ∷ [])) (requeued (next ∷ queue) cpu)
          refl refl r.clean r.none_held r.activates))

thread_yield_idle : (cpu : Cpu) → cpu.c_isidle ≡ true → thread_yield cpu ≡ ok cpu
unfolding thread_yield
thread_yield_idle cpu idle = ground (arith, idle)

-- A yield leaves every thread able to run.
pub thread_yield-Leaves :
    (cpu : Cpu) → IsReady cpu → Returns (thread_yield cpu) (Leaves (active cpu))
thread_yield-Leaves cpu r = elim (Bool-cases cpu.c_isidle) [
  | inl idle ↦
      subst (λ m. Returns m (Leaves (active cpu))) (sym (thread_yield_idle cpu idle))
        (record { ready = r; count = λ t. refl })
  | inr busy ↦
      subst (λ queue. Returns (thread_yield cpu) (Leaves queue)) (ground (arith, busy))
        (thread_yield-busy cpu.c_runqueue cpu refl r busy)
]

-- The thread that wakes first, and the others on the channel.
abbrev pub first : List ℕ → List ℕ
first [] = []
first (t ∷ ts) = t ∷ []

abbrev pub rest : List ℕ → List ℕ
rest [] = []
rest (t ∷ ts) = ts

-- The thread that has slept longest can run again, and no other comes or goes.
pub record Wakes (wc_threads : List ℕ) (cpu cpu' : Cpu) : Type 0 where
  pub ready : IsReady cpu'
  pub count :
      (t : ℕ)
      → occurrences t (active cpu') ≡ occurrences t (active cpu) + occurrences t (first wc_threads)

abbrev woken : ℕ → Cpu → Cpu
woken target cpu = record cpu {
  c_runqueue = cpu.c_runqueue ++ (target ∷ []);
  t_state = update cpu.t_state target s_ready;
  c_runqueue_lock = unheld;
}

active-woken :
    (target : ℕ) (cpu : Cpu) (t : ℕ)
    → occurrences t (active (woken target cpu))
      ≡ occurrences t (active cpu) + occurrences t (target ∷ [])
unfolding occurrences
active-woken target cpu t = ground (arith, occurrences-append t cpu.c_runqueue (target ∷ []))

pub wchan_wakeone-Wakes :
    (wc_threads : List ℕ) (cpu : Cpu)
    → IsReady cpu
    → Returns
        (wchan_wakeone wc_threads held_here cpu)
        (λ r. (r.0 ≡ rest wc_threads) × Wakes wc_threads cpu r.1)
unfolding wchan_wakeone wake_first thread_make_runnable spinlock_acquire spinlock_release
    spinlock_do_i_hold occurrences
wchan_wakeone-Wakes [] cpu r = (refl, record { ready = r; count = λ t. omega arith })
wchan_wakeone-Wakes (target ∷ ts) cpu r = rw r.free (
  refl,
  record {
    ready = record {
      free = refl;
      clean = r.clean;
      none_held = r.none_held;
      activates = r.activates;
    };
    count = active-woken target cpu;
  },
)
