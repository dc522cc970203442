-- ===== src/Synch/Steps.antt =====
-- A semaphore and the processor over time: calls of `P` and `V` in any order, switches and interrupts.
use sdp_project_c.Common.{
  ℕ, ◌+◌, ◌≤◌, ◌<◌, ◌≡◌, refl, subst, ◌≢◌, ◌⊎◌, inl, inr, Bool, true, false, Result, ok, err,
  Returns, arith, ◌==◌, if◌then◌else◌, assertion, List, [], ◌∷◌, ◌++◌, dec_lt, length,
  length-append, occurrences, occurrences-append, without, occurrences-without, length-without,
}
use sdp_project_c.Spinlock.{unheld}
use sdp_project_c.Thread.{Cpu, thread_yield, after_idle}
use sdp_project_c.Thread.Sleeps.{
  active, IsReady, Leaves, Wakes, first, rest, thread_yield-Leaves, after_idle-Leaves,
}
use sdp_project_c.Synch.{Semaphore, p_round, v}
use sdp_project_c.Synch.Rounds.{Passes, Blocks, p_round-Blocks, v-Wakes, v_overflow}

-- The semaphore and the processor, the threads that `V` has woken and that have not run since, and how
-- often `P` has returned and `V` has been called.
pub record World : Type 0 where
  pub sem : Semaphore
  pub cpu : Cpu
  pub pending : List ℕ
  pub passed : ℕ
  pub raised : ℕ

abbrev pub passes : Bool → ℕ
passes true = 1
passes false = 0

-- The current thread makes a round of `P`, the first or the one after it has been woken; a thread or an
-- interrupt calls `V`; the current thread yields; or an interrupt ends the idle loop.
pub data Step : World → World → Type 0 where
  down :
      (w : World) (r : Bool × Semaphore × Cpu)
      → w.cpu.c_isidle ≡ false
      → w.cpu.t_in_interrupt w.cpu.c_curthread ≡ false
      → p_round w.sem w.cpu ≡ ok r
      → Step w (record {
        sem = r.1;
        cpu = r.2;
        pending = without w.cpu.c_curthread w.pending;
        passed = w.passed + passes r.0;
        raised = w.raised;
      })
  up :
      (w : World) (r : Semaphore × Cpu)
      → v w.sem w.cpu ≡ ok r
      → Step w (record w {
        sem = r.0;
        cpu = r.1;
        pending = w.pending ++ first w.sem.sem_wchan;
        raised = w.raised + 1;
      })
  yields : (w : World) (cpu : Cpu) → thread_yield w.cpu ≡ ok cpu → Step w (record w { cpu = cpu })
  ends_idle :
      (w : World) (cpu : Cpu)
      → w.cpu.c_isidle ≡ true
      → after_idle w.cpu ≡ ok cpu
      → Step w (record w { cpu = cpu })

pub data Reach (s : World) : World → Type 0 where
  here : Reach s s
  next : {w w' : World} → Reach s w → Step w w' → Reach s w'

-- What holds between the steps, if `initial` was the first count.
pub record IsValid (initial : ℕ) (w : World) : Type 0 where
  pub free : w.sem.sem_lock ≡ unheld
  pub ready : IsReady w.cpu
  pub small : w.sem.sem_count ≤ 0xffff_ffff
  pub runnable : (t : ℕ) → occurrences t w.pending ≤ occurrences t (active w.cpu)
  pub counted : w.sem.sem_count + w.passed ≡ initial + w.raised
  pub heard : w.sem.sem_wchan ≢ [] → w.sem.sem_count ≤ length w.pending

-- What a call returns has its postcondition.
Returns-ok {ℓ} : {A : Type ℓ} (P : A → Type 0) (m : Result A) (a : A) → m ≡ ok a → Returns m P → P a
Returns-ok P m a e h = subst (λ x. Returns x P) e h

active-busy :
    (cpu : Cpu)
    → cpu.c_isidle ≡ false
    → (t : ℕ)
    → occurrences t (active cpu)
      ≡ (if cpu.c_curthread == t then 1 else 0) + occurrences t cpu.c_runqueue
unfolding occurrences
active-busy cpu busy t = ground (arith, busy)

-- If a thread still sleeps after the first has woken, there was a first.
first-rest : (ts : List ℕ) → rest ts ≢ [] → (length (first ts) ≡ 1) × (ts ≢ [])
first-rest [] some_rest = absurd (some_rest refl)
first-rest (t ∷ ts) some_rest = (refl, λ e. absurd (cc))

down-IsValid :
    (initial : ℕ) (w : World) (r : Bool × Semaphore × Cpu)
    → IsValid initial w
    → w.cpu.c_isidle ≡ false
    → Passes w.sem w.cpu r ⊎ Blocks w.sem w.cpu r
    → IsValid initial (record {
      sem = r.1;
      cpu = r.2;
      pending = without w.cpu.c_curthread w.pending;
      passed = w.passed + passes r.0;
      raised = w.raised;
    })
down-IsValid initial w r i busy (inl (pos, e)) = rw e (record {
  free = i.free;
  ready = i.ready;
  small = omega (arith, i.small);
  runnable = λ t. omega (arith, i.runnable t, occurrences-without t w.cpu.c_curthread w.pending);
  counted = omega (arith, i.counted);
  heard = λ asleep. omega (arith, i.heard asleep, length-without w.cpu.c_curthread w.pending);
})
down-IsValid initial w r i busy (inr (z, blocked, e, leaves)) =
    rw (blocked, e)
      (record {
        free = i.free;
        ready = leaves.ready;
        small = i.small;
        runnable = λ t. omega (
          arith,
          i.runnable t,
          leaves.count t,
          active-busy w.cpu busy t,
          occurrences-without t w.cpu.c_curthread w.pending,
        );
        counted = omega (arith, i.counted);
        heard = λ asleep. omega (arith, z);
      })

up-IsValid :
    (initial : ℕ) (w : World) (r : Semaphore × Cpu)
    → IsValid initial w
    → w.sem.sem_count < 0xffff_ffff
    → r.0 ≡ record (w.sem) { sem_wchan = rest w.sem.sem_wchan; sem_count = w.sem.sem_count + 1 }
    → Wakes w.sem.sem_wchan w.cpu r.1
    → IsValid initial (record w {
      sem = r.0;
      cpu = r.1;
      pending = w.pending ++ first w.sem.sem_wchan;
      raised = w.raised + 1;
    })
up-IsValid initial w r i room e woke = rw e (record {
  free = i.free;
  ready = woke.ready;
  small = omega arith;
  runnable = λ t.
      omega
        (arith, i.runnable t, woke.count t, occurrences-append t w.pending (first w.sem.sem_wchan));
  counted = omega (arith, i.counted);
  heard = λ asleep.
      let (one, others) = first-rest w.sem.sem_wchan asleep in
      omega (arith, i.heard others, length-append w.pending (first w.sem.sem_wchan), one);
})

-- A switch that loses no thread.
switch-IsValid :
    (initial : ℕ) (w : World) (cpu : Cpu)
    → IsValid initial w
    → Leaves (active w.cpu) cpu
    → IsValid initial (record w { cpu = cpu })
switch-IsValid initial w cpu i leaves = record {
  free = i.free;
  ready = leaves.ready;
  small = i.small;
  runnable = λ t. omega (arith, i.runnable t, leaves.count t);
  counted = i.counted;
  heard = i.heard;
}

pub Step-IsValid : {w w' : World} (initial : ℕ) → Step w w' → IsValid initial w → IsValid initial w'
Step-IsValid initial (down w r busy calm e) i =
    down-IsValid initial w r i busy
      (Returns-ok _ (p_round w.sem w.cpu) r e (p_round-Blocks w.sem w.cpu i.free i.ready busy calm))
Step-IsValid initial (up w r e) i = elim (dec_lt w.sem.sem_count 0xffff_ffff) [
  | yes room ↦
      let (s, h) = Returns-ok _ (v w.sem w.cpu) r e (v-Wakes w.sem w.cpu i.free i.ready room) in
      up-IsValid initial w r i room s h
  | no full ↦
      let over : v w.sem w.cpu ≡ err assertion =
        v_overflow w.sem w.cpu i.free i.ready (omega (arith, i.small)) in
      absurd (cc)
]
Step-IsValid initial (yields w cpu e) i =
    switch-IsValid initial w cpu i
      (Returns-ok _ (thread_yield w.cpu) cpu e (thread_yield-Leaves w.cpu i.ready))
Step-IsValid initial (ends_idle w cpu idle e) i =
    switch-IsValid initial w cpu i
      (Returns-ok _ (after_idle w.cpu) cpu e (after_idle-Leaves w.cpu i.ready idle))

pub Reach-IsValid : {s w : World} (initial : ℕ) → IsValid initial s → Reach s w → IsValid initial w
Reach-IsValid initial h here = h
Reach-IsValid initial h (next r st) = Step-IsValid initial st (Reach-IsValid initial h r)
