-- ===== src/Synch/Rounds.antt =====
-- What a round of `P` and a call of `V` do.
use sdp_project_c.Common.{
  ◌+◌, ◌-◌, ◌<◌, ◌≡◌, refl, ◌⊎◌, inl, inr, Bool, true, false, err, Returns, Returns-bind, assertion,
  arith, ltb, ◌==◌, u32, [], ◌∷◌, ◌++◌, ℕ_discrete,
}
use sdp_project_c.Spinlock.{unheld, held_here, spinlock_acquire, spinlock_release}
use sdp_project_c.Thread.{Cpu, wchan_sleep, wchan_wakeone}
use sdp_project_c.Thread.Sleeps.{
  IsReady, Leaves, Wakes, rest, wchan_sleep-Leaves, wchan_wakeone-Wakes,
}
use sdp_project_c.Synch.{Semaphore, p_round, v}

-- `P` returns, and has taken one off the count.
abbrev pub Passes : Semaphore → Cpu → Bool × Semaphore × Cpu → Type 0
Passes sem cpu r =
    (0 < sem.sem_count) × (r ≡ (true, record sem { sem_count = sem.sem_count - 1 }, cpu))

-- The current thread sleeps, and another one runs if one can.
abbrev pub Blocks : Semaphore → Cpu → Bool × Semaphore × Cpu → Type 0
Blocks sem cpu r =
    (sem.sem_count ≡ 0)
    × (r.0 ≡ false)
    × (r.1 ≡ record sem { sem_wchan = sem.sem_wchan ++ (cpu.c_curthread ∷ []) })
    × Leaves cpu.c_runqueue r.2

module _ (sem : Semaphore) (cpu : Cpu) (free : sem.sem_lock ≡ unheld) (ready : IsReady cpu) where
  pub p_round-Blocks :
      cpu.c_isidle ≡ false
      → cpu.t_in_interrupt cpu.c_curthread ≡ false
      → Returns (p_round sem cpu) (λ r. Passes sem cpu r ⊎ Blocks sem cpu r)
  unfolding p_round spinlock_acquire spinlock_release
  p_round-Blocks busy calm = elim (ℕ_discrete sem.sem_count 0) [
    | yes z ↦
        let t : (sem.sem_count == 0) ≡ true = ground arith in
        rw (calm, free, t)
          (Returns-bind _ _
            (wchan_sleep sem.sem_wchan held_here (record cpu { c_spinlocks = cpu.c_spinlocks + 1 }))
            _ (wchan_sleep-Leaves sem.sem_wchan cpu ready busy calm)
            (λ r (w, l, leaves). inr (
              z,
              refl,
              λ i. record { sem_wchan = w i; sem_lock = l i; sem_count = sem.sem_count },
              leaves,
            )))
    | no nz ↦
        let t : (sem.sem_count == 0) ≡ false = ground arith in
        rw (calm, free, t) (inl (omega arith, refl))
  ]

  pub v-Wakes :
      sem.sem_count < 0xffff_ffff
      → Returns (v sem cpu) (λ r.
        (r.0 ≡ record sem { sem_wchan = rest sem.sem_wchan; sem_count = sem.sem_count + 1 })
        × Wakes sem.sem_wchan cpu r.1)
  unfolding v spinlock_acquire spinlock_release
  v-Wakes room =
      let small : u32 (sem.sem_count + 1) ≡ sem.sem_count + 1 = omega arith in
      let t : ltb 0 (sem.sem_count + 1) ≡ true = ground arith in
      rw (free, small, t)
        (Returns-bind _ _ (wchan_wakeone sem.sem_wchan held_here cpu) _
          (wchan_wakeone-Wakes sem.sem_wchan cpu ready)
          (λ r (w, wakes). (
            λ i. record { sem_wchan = w i; sem_lock = unheld; sem_count = sem.sem_count + 1 },
            wakes,
          )))

  -- A count that would wrap round fails the assertion.
  pub v_overflow : sem.sem_count ≡ 0xffff_ffff → v sem cpu ≡ err assertion
  unfolding v spinlock_acquire
  v_overflow e = rw (free, e) refl
