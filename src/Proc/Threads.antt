-- ===== src/Proc/Threads.antt =====
-- The threads of a process: `proc_addthread` and `proc_remthread`.
use sdp_project_c.Common.{
  ℕ, ◌+◌, ◌<◌, ◌≡◌, refl, ◌≢◌, Option, none, some, ok, arith, update, ℕ_discrete,
}
use sdp_project_c.Spinlock.{unheld, spinlock_acquire, spinlock_release}
use sdp_project_c.Proc.{Proc, Processes, deref, store, proc_addthread, proc_remthread}
use sdp_project_c.Proc.Table.{IsValid}

-- The table stays valid when a process changes but for its number.
pub store-IsValid :
    (q : ℕ) (p p' : Proc) (s : Processes)
    → IsValid s
    → s.heap q ≡ some p
    → p'.p_pid ≡ p.p_pid
    → IsValid (store q p' s)
store-IsValid q p p' s v e same = record {
  numbered = λ r x h. elim (ℕ_discrete q r) [
    | yes eq ↦ ground (arith, h, v.numbered q p e, same)
    | no ne ↦ let h' : s.heap r ≡ some x = ground (arith, h) in v.numbered r x h'
  ];
  listed = λ j r a b l.
      let (x, h, n) = v.listed j r a b l in
      elim (ℕ_discrete q r) [
        | yes eq ↦ (p', ground arith, ground (arith, h, e, same, n))
        | no ne ↦ (x, ground (arith, h), n)
      ];
  last = v.last;
  booted = v.booted;
  unlocked = v.unlocked;
}

-- The table does not depend on the threads.
pub threads-IsValid :
    (owner : ℕ → Option ℕ) (s : Processes) → IsValid s → IsValid (record s { t_proc = owner })
threads-IsValid owner s v = record {
  numbered = v.numbered;
  listed = v.listed;
  last = v.last;
  booted = v.booted;
  unlocked = v.unlocked;
}

-- What adding the thread `t` to the process `q` makes.
pub record Joins (q t : ℕ) (p : Proc) (s s' : Processes) : Type 0 where
  pub owner : s'.t_proc t ≡ some q
  pub counted : s'.heap q ≡ some (record p { p_numthreads = p.p_numthreads + 1 })
  pub others : (r : ℕ) → r ≢ q → s'.heap r ≡ s.heap r
  pub kept : (u : ℕ) → u ≢ t → s'.t_proc u ≡ s.t_proc u
  pub valid : IsValid s'

-- What is left when it is taken away again: the threads and the processes of before.
pub record Leaves (s s' : Processes) : Type 0 where
  pub threads : (u : ℕ) → s'.t_proc u ≡ s.t_proc u
  pub processes : (r : ℕ) → s'.heap r ≡ s.heap r
  pub valid : IsValid s'

-- The process `p` with one thread more, and the states with it and after `proc_remthread`.
abbrev pub with_thread : Proc → Proc
with_thread p = record p { p_numthreads = p.p_numthreads + 1 }

abbrev pub joined : ℕ → ℕ → Proc → Processes → Processes
joined q t p s = record (store q (with_thread p) s) { t_proc = update s.t_proc t (some q) }

abbrev pub left_again : ℕ → ℕ → Proc → Processes → Processes
left_again q t p s = record (store q p (joined q t p s)) {
  t_proc = update (joined q t p s).t_proc t none;
}

module _ (q t : ℕ) (p : Proc) (s : Processes) (e : s.heap q ≡ some p) (alone : s.t_proc t ≡ none)
    (free : p.p_lock ≡ unheld) where
  pub joined-IsValid : IsValid s → IsValid (joined q t p s)
  joined-IsValid v =
      threads-IsValid _ (store q (with_thread p) s) (store-IsValid q p (with_thread p) s v e refl)

  left_again-IsValid : IsValid s → IsValid (left_again q t p s)
  left_again-IsValid v =
      threads-IsValid _ (store q p (joined q t p s))
        (store-IsValid q (with_thread p) p (joined q t p s) (joined-IsValid v) (ground arith) refl)

  pub proc_addthread-joined :
      p.p_numthreads < 0xffff_ffff → proc_addthread q t s ≡ ok (joined q t p s)
  unfolding proc_addthread deref spinlock_acquire spinlock_release
  proc_addthread-joined room = ground (arith, e, alone, free, room)

  proc_remthread-joined : proc_remthread t (joined q t p s) ≡ ok (left_again q t p s)
  unfolding proc_remthread deref spinlock_acquire spinlock_release
  proc_remthread-joined = ground (arith, free)

-- A thread without a process is added to a process whose lock is free, which counts it, and
-- `proc_remthread` brings back the processes and the threads of before.
pub proc_addthread-proc_remthread :
    (q t : ℕ) (p : Proc) (s : Processes)
    → IsValid s
    → s.heap q ≡ some p
    → s.t_proc t ≡ none
    → p.p_lock ≡ unheld
    → p.p_numthreads < 0xffff_ffff
    → (s₁ s₂ : Processes) × (proc_addthread q t s ≡ ok s₁)
      × Joins q t p s s₁
      × (proc_remthread t s₁ ≡ ok s₂)
      × Leaves s s₂
proc_addthread-proc_remthread q t p s v e alone free room = (
  joined q t p s,
  left_again q t p s,
  proc_addthread-joined q t p s e alone free room,
  record {
    owner = ground arith;
    counted = ground arith;
    others = λ r ne. ground arith;
    kept = λ u ne. ground arith;
    valid = joined-IsValid q t p s e alone free v;
  },
  proc_remthread-joined q t p s e alone free,
  record {
    threads = λ u. ground (arith, alone);
    processes = λ r. ground (arith, e);
    valid = left_again-IsValid q t p s e alone free v;
  },
)
