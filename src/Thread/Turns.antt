-- ===== src/Thread/Turns.antt =====
-- The turns of the threads: the run queue goes round, and no thread is left behind.
use sdp_project_c.Common.{
  ℕ, zero, suc, ◌≡◌, refl, true, false, Result, ok, ◌>>=◌, Returns, Returns-bind, List, [], ◌∷◌,
  ◌++◌, length, append_assoc, subst,
}
use sdp_project_c.Spinlock.{unheld, spinlock_acquire, spinlock_release, spinlock_do_i_hold}
use sdp_project_c.Thread.{
  Cpu, thread_make_runnable, all_dead, exorcise, switch_to, choose_next, thread_yield,
}

-- A running processor whose lock is free and whose zombies are gone, where `as_activate` returns for every thread.
pub record Runs (cur : ℕ) (queue : List ℕ) (cpu : Cpu) : Type 0 where
  pub current : cpu.c_curthread ≡ cur
  pub queued : cpu.c_runqueue ≡ queue
  pub busy : cpu.c_isidle ≡ false
  pub free : cpu.c_runqueue_lock ≡ unheld
  pub clean : cpu.c_zombies ≡ []
  pub activates : (t : ℕ) → cpu.activates t ≡ true

-- One yield.
pub thread_yield-Runs :
    (cur next : ℕ) (queue : List ℕ) (cpu : Cpu)
    → Runs cur (next ∷ queue) cpu
    → Returns (thread_yield cpu) (Runs next (queue ++ (cur ∷ [])))
unfolding thread_yield thread_make_runnable choose_next switch_to exorcise all_dead spinlock_acquire
    spinlock_release spinlock_do_i_hold
thread_yield-Runs cur next queue cpu r =
    rw (r.busy, r.free, r.queued, r.clean, r.activates next)
      (record {
        current = refl;
        queued = rw r.current refl;
        busy = refl;
        free = refl;
        clean = refl;
        activates = r.activates;
      })

-- Yields one after the other.
pub yields : ℕ → Cpu → Result Cpu
yields zero cpu = ok cpu
yields (suc n) cpu = do cpu' ← thread_yield cpu; yields n cpu'

-- On a processor that is not idle, whose run queue is unlocked, without zombies, and where `as_activate` returns for
-- the process of each thread, the run queue is served in turn: a thread that has the threads `before` in front of it on the queue runs
-- after as many yields and one more, and every other thread is still on the queue, in its order, those that
-- have run at the end.
pub thread_yield_serves :
    (before : List ℕ) (cur next : ℕ) (behind : List ℕ) (cpu : Cpu)
    → Runs cur (before ++ (next ∷ behind)) cpu
    → Returns (yields (suc (length before)) cpu) (Runs next (behind ++ (cur ∷ before)))
unfolding yields
thread_yield_serves [] cur next behind cpu r =
    Returns-bind _ _ (thread_yield cpu) (yields 0) (thread_yield-Runs cur next behind cpu r)
      (λ cpu' h. h)
thread_yield_serves (x ∷ before) cur next behind cpu r =
    Returns-bind _ _ (thread_yield cpu) (yields (suc (length before)))
      (thread_yield-Runs cur x (before ++ (next ∷ behind)) cpu r)
      (λ cpu' h.
        subst (λ queue. Returns (yields (suc (length before)) cpu') (Runs next queue))
          (append_assoc behind (cur ∷ []) (x ∷ before))
          (thread_yield_serves before x next (behind ++ (cur ∷ [])) cpu' (
            subst (λ queue. Runs x queue cpu') (append_assoc before (next ∷ behind) (cur ∷ [])) h)))
