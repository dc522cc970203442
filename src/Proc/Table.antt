-- ===== src/Proc/Table.antt =====
-- The table of process numbers: each process has a number of its own, and is found by it.
use sdp_project_c.Common.{
  ℕ, ◌+◌, ◌≤◌, ◌<◌, ◌≡◌, refl, ◌≢◌, ◌⊎◌, inl, inr, false, Option, none, some, ok, err, arith, ◌==◌,
  if◌then◌else◌, update, ℕ_discrete, assertion, proc_table_full,
}
use sdp_project_c.Spinlock.{unheld, spinlock_init, spinlock_acquire, spinlock_release}
use sdp_project_c.Proc.{
  max_proc, after, find_slot, Proc, Processes, deref, proc_search_pid, proc_init_waitpid,
  proc_create,
}
use sdp_project_c.Proc.Numbers.{FirstFree, find_slot-FirstFree, find_slot_at_once}

pub record IsValid (s : Processes) : Type 0 where
  pub numbered :
      (q : ℕ) (p : Proc)
      → s.heap q ≡ some p
      → (0 < p.p_pid) × (p.p_pid ≤ max_proc) × (s.table.proc p.p_pid ≡ some q)
  pub listed :
      (i q : ℕ)
      → 0 < i
      → i ≤ max_proc
      → s.table.proc i ≡ some q
      → (p : Proc) × (s.heap q ≡ some p) × (p.p_pid ≡ i)
  pub last : s.table.last_i ≤ max_proc
  pub booted : s.table.last_i ≡ 0 → (i : ℕ) → 0 < i → i ≤ max_proc → s.table.proc i ≡ none
  pub unlocked : s.table.lk ≡ unheld

-- A process without threads, with number `i`.
abbrev pub fresh_proc : ℕ → Proc
fresh_proc i = record {
  p_lock = unheld;
  p_numthreads = 0;
  p_addrspace = false;
  p_status = 0;
  p_pid = i;
  sem_count = 0;
}

abbrev pub created : ℕ → ℕ → Processes → Processes
created q i s = record s {
  heap = update s.heap q (some (fresh_proc i));
  table = record (s.table) { proc = update s.table.proc i (some q); last_i = i };
}

module _ (q : ℕ) (s : Processes) (v : IsValid s) (vacant : s.heap q ≡ none) where
  -- No slot refers to the place of the new process.
  unlisted : (i : ℕ) → 0 < i → i ≤ max_proc → s.table.proc i ≢ some q
  unlisted i a b e = let (p, h, _) = v.listed i q a b e in absurd (cc)

  pub created-IsValid :
      (i : ℕ) → 0 < i → i ≤ max_proc → s.table.proc i ≡ none → IsValid (created q i s)
  created-IsValid i a b free = record {
    numbered = λ r p e. elim (ℕ_discrete q r) [
      | yes same ↦ ground (arith, e)
      | no other ↦ let h : s.heap r ≡ some p = ground (arith, e) in ground (arith, v.numbered r p h)
    ];
    listed = λ j r x y e. elim (ℕ_discrete i j) [
      | yes same ↦ (fresh_proc i, ground arith, ground arith)
      | no other ↦
          let e' : s.table.proc j ≡ some r = ground (arith, e) in
          let (p, h, n) = v.listed j r x y e' in (p, ground (arith, h, vacant), n)
    ];
    last = b;
    booted = λ z. absurd (omega arith);
    unlocked = v.unlocked;
  }

  create_at :
      (i : ℕ)
      → find_slot (max_proc + 1) (after s.table.last_i) s.table.last_i s.table.proc ≡ some (some i)
      → proc_create q s ≡ ok (created q i s)
  unfolding proc_create proc_init_waitpid spinlock_acquire spinlock_release spinlock_init
  create_at i e = rw (v.unlocked, e) refl

  create_full :
      find_slot (max_proc + 1) (after s.table.last_i) s.table.last_i s.table.proc ≡ some none
      → proc_create q s ≡ err proc_table_full
  unfolding proc_create proc_init_waitpid spinlock_acquire spinlock_release spinlock_init
  create_full e = rw (v.unlocked, e) refl

  -- The first process of all.
  create_first : s.table.last_i ≡ 0 → proc_create q s ≡ ok (created q 1 s)
  create_first z =
      create_at 1
        (rw z (find_slot_at_once 100 1 0 s.table.proc (omega arith) (ground (arith, v.booted z 1))))

-- What `proc_create` makes of the process `q`: it has number `i`, which was free, and is in the table; no
-- other process and no other number is touched.
pub record Creates (q i : ℕ) (s s' : Processes) : Type 0 where
  pub range : (0 < i) × (i ≤ max_proc)
  pub free : s.table.proc i ≡ none
  pub number : s'.heap q ≡ some (fresh_proc i)
  pub others : (r : ℕ) → r ≢ q → s'.heap r ≡ s.heap r
  pub kept : (j : ℕ) → j ≢ i → s'.table.proc j ≡ s.table.proc j
  pub threads : s'.t_proc ≡ s.t_proc
  pub valid : IsValid s'

-- `proc_create` of a process in an unused place of the heap, with memory for it, ends in every case. It gives the
-- process a number that no other process has, and leaves the table such that each process stands in it under its own
-- number and nothing else does; or it panics since every number but that of the last allocation is taken.
pub proc_create-Creates :
    (q : ℕ) (s : Processes)
    → IsValid s
    → s.heap q ≡ none
    → ((i : ℕ) × (s' : Processes) × (proc_create q s ≡ ok s') × Creates q i s s')
      ⊎ ((proc_create q s ≡ err proc_table_full)
          × ((j : ℕ) → 0 < j → j ≤ max_proc → j ≢ s.table.last_i → s.table.proc j ≢ none))
proc_create-Creates q s v vacant = elim (ℕ_discrete s.table.last_i 0) [
  | yes z ↦ inl (
    1,
    created q 1 s,
    create_first q s v vacant z,
    creates 1 (omega arith) (omega arith) (v.booted z 1 (omega arith) (omega arith)),
  )
  | no nz ↦
      let (o, e, h) =
        find_slot-FirstFree (max_proc + 1) (after s.table.last_i) s.table.last_i s.table.proc
          (ground arith) (ground arith) (omega arith) v.last (ground (arith, v.last)) in
      found nz o e h
]
  where
    creates : (i : ℕ) → 0 < i → i ≤ max_proc → s.table.proc i ≡ none → Creates q i s (created q i s)
    creates i a b free = record {
      range = (a, b);
      free = free;
      number = ground arith;
      others = λ r ne. ground arith;
      kept = λ j ne. ground arith;
      threads = refl;
      valid = created-IsValid q s v vacant i a b free;
    }

    found :
        s.table.last_i ≢ 0
        → (o : Option ℕ)
        → find_slot (max_proc + 1) (after s.table.last_i) s.table.last_i s.table.proc ≡ some o
        → FirstFree (after s.table.last_i) s.table.last_i s.table.proc o
        → ((i : ℕ) × (s' : Processes) × (proc_create q s ≡ ok s') × Creates q i s s')
          ⊎ ((proc_create q s ≡ err proc_table_full)
              × ((j : ℕ) → 0 < j → j ≤ max_proc → j ≢ s.table.last_i → s.table.proc j ≢ none))
    found nz none e h =
        inr (create_full q s v vacant e, λ j a b ne n. absurd (ground (arith, v.last, h j, n)))
    found nz (some i) e (a, b, _, free, _) =
        inl (i, created q i s, create_at q s v vacant i e, creates i a b (ground (arith, free)))

-- A process is found by its number, unless it has the last number of all: the test of `proc_search_pid`
-- leaves out MAX_PROC, which `proc_init_waitpid` gives out.
pub proc_search_pid-p_pid :
    (q : ℕ) (p : Proc) (s : Processes)
    → IsValid s
    → s.heap q ≡ some p
    → proc_search_pid p.p_pid s ≡ (if p.p_pid == max_proc then err assertion else ok q)
unfolding proc_search_pid deref
proc_search_pid-p_pid q p s v e = ground (arith, v.numbered q p e)
