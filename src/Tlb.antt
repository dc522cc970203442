-- ===== src/Tlb.antt =====
-- kern/vm/vm_tlb.c: the software's view of the processor's translation buffer. `tlb_write` and
-- `tlb_read`, which are assembly, write and read one entry of the hardware.
use sdp_project_c.Common.{
  ℕ, zero, suc, ◌+◌, ◌-◌, ◌*◌, ◌/◌, ◌%◌, Bool, true, false, not, ◌&&◌, Option, none, some, Result,
  ok, err, ◌>>=◌, ◌>>◌, require, assertion, out_of_bounds, ltb, leb, ◌==◌, if◌then◌else◌, update,
  sweep, fill, first_index, u32, page_size, page_frame, page_offset, bit_or,
}
use sdp_project_c.Spinlock.{Spinlock, spinlock_acquire, spinlock_release}
use sdp_project_c.Stats.{
  Stats, increment_tlb_faults, increment_tlb_faults_free, increment_tlb_faults_replace,
  increment_tlb_invalidations,
}
pub mod Victims
pub mod Flush
mod Tests

abbrev pub num_tlb : ℕ
num_tlb = 64

-- `bitmap`, `next_victim` and `slock` of vm_tlb.c, and the two words of each hardware entry.
pub record Tlb : Type 0 where
  pub bitmap : ℕ → Bool
  pub entry_hi : ℕ → ℕ
  pub entry_lo : ℕ → ℕ
  pub next_victim : ℕ
  pub slock : Spinlock

-- `TLBHI_INVALID(entryno)` and `TLBLO_INVALID()`
abbrev pub tlbhi_invalid : ℕ → ℕ
tlbhi_invalid i = u32 ((0x80000 + i) * 4096)

abbrev pub tlblo_invalid : ℕ
tlblo_invalid = 0

-- `tlb_write`
abbrev pub tlb_write : ℕ → ℕ → ℕ → Tlb → Tlb
tlb_write hi lo i t = record t {
  entry_hi = update t.entry_hi i hi;
  entry_lo = update t.entry_lo i lo;
}

pub tlb_bootstrap : Tlb → Tlb
tlb_bootstrap t = record t { bitmap = sweep num_tlb (λ _ _. false) t.bitmap }

-- `tlb_get_rr_victim`
pub tlb_get_rr_victim : Tlb → ℕ × Tlb
tlb_get_rr_victim t = (t.next_victim, record t { next_victim = u32 (t.next_victim + 1) % num_tlb })

-- `write_entry`; only 64 entries exist.
pub write_entry : ℕ → ℕ → ℕ → Tlb → Result Tlb
write_entry i hi lo t = do
  require (ltb i num_tlb) out_of_bounds
  ok (tlb_write hi lo i (record t { bitmap = update t.bitmap i true }))

-- The index that `add_entry` writes, with the counters. `index` is `*index_tlb`, `none` for -1; for any
-- other value the local variable is read without having been set, and holds `raw`.
pub choose_entry : Option ℕ → ℕ → Tlb → Stats → ℕ × Tlb × Stats
unfolding tlb_get_rr_victim increment_tlb_faults_free increment_tlb_faults_replace
choose_entry (some _) raw t s = (raw, t, increment_tlb_faults_free s)
choose_entry none raw t s = elim (first_index num_tlb (λ i. not (t.bitmap i))) [
  | some i ↦ (i, t, increment_tlb_faults_free s)
  | none ↦ let (victim, t') = tlb_get_rr_victim t in (victim, t', increment_tlb_faults_replace s)
]

-- `add_entry`: the index written, for `*index_tlb`.
pub add_entry : Option ℕ → ℕ → ℕ → ℕ → Tlb → Stats → Result (ℕ × Tlb × Stats)
unfolding choose_entry write_entry increment_tlb_faults
add_entry index raw hi lo t s = do
  lock ← spinlock_acquire t.slock
  let (i, t₁, s₁) = choose_entry index raw (record t { slock = lock }) s
  t₂ ← write_entry i hi lo t₁
  lock' ← spinlock_release t₂.slock
  ok (i, record t₂ { slock = lock' }, increment_tlb_faults s₁)

-- `read_entry`; `tlb_probe` is the processor's search, `none` for a negative index. The address where
-- it is found, and the state: on a miss the lock is not released.
pub read_entry : (ℕ → Tlb → Option ℕ) → ℕ → Tlb → Result (Option ℕ × Tlb)
read_entry tlb_probe vaddr t = do
  lock ← spinlock_acquire t.slock
  let t' = record t { slock = lock }
  elim (tlb_probe (page_frame vaddr) t') [
    | none ↦ ok (none, t')
    | some i ↦ do
      lock' ← spinlock_release t'.slock
      ok (some (bit_or (t'.entry_lo i) (page_offset vaddr)), record t' { slock = lock' })
  ]

-- One entry marked free and made invalid.
abbrev pub invalidate : ℕ → Tlb → Tlb
invalidate i t =
    tlb_write (tlbhi_invalid i) tlblo_invalid i (record t { bitmap = update t.bitmap i false })

-- `reset_one_entry_by_index`
pub reset_one_entry_by_index : ℕ → Tlb → Result Tlb
reset_one_entry_by_index i t = do
  lock ← spinlock_acquire t.slock
  require (ltb i num_tlb) out_of_bounds
  lock' ← spinlock_release lock
  ok (invalidate i (record t { slock = lock' }))

-- The loop of `reset_tlb` over the first `n` entries.
pub invalidate_all : ℕ → Tlb → Tlb
invalidate_all zero t = t
invalidate_all (suc n) t = invalidate n (invalidate_all n t)

-- `reset_tlb`
pub reset_tlb : Tlb → Stats → Result (Tlb × Stats)
unfolding increment_tlb_invalidations
reset_tlb t s = do
  lock ← spinlock_acquire t.slock
  let t' = invalidate_all num_tlb (record t { slock = lock })
  lock' ← spinlock_release t'.slock
  ok (record t' { slock = lock' }, increment_tlb_invalidations s)

-- `(vaddr & TLBHI_PID) >> 6`
abbrev pub pid_of : ℕ → ℕ
pid_of hi = hi / 64 % 64

-- The loop of `reset_tlb_pid_different` from entry `i` on: `every_entry_has_pid_different` with the
-- state.
pub reset_from : ℕ → ℕ → ℕ → Bool → Tlb → Result (Bool × Tlb)
unfolding reset_one_entry_by_index
reset_from pid zero i all_differ t = ok (all_differ, t)
reset_from pid (suc left) i all_differ t = elim (pid_of (t.entry_hi i) == pid) [
  | true ↦ reset_from pid left (i + 1) false t
  | false ↦ do t' ← reset_one_entry_by_index i t; reset_from pid left (i + 1) all_differ t'
]

-- `reset_tlb_pid_different`
unfoldable pub reset_tlb_pid_different : ℕ → Tlb → Stats → Result (Tlb × Stats)
unfolding reset_from increment_tlb_invalidations
reset_tlb_pid_different pid t s = do
  lock ← spinlock_acquire t.slock
  (all_differ, t') ← reset_from pid num_tlb 0 true (record t { slock = lock })
  let s' = if all_differ then increment_tlb_invalidations s else s
  lock' ← spinlock_release t'.slock
  ok (record t' { slock = lock' }, s')
