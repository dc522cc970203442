-- ===== src/Tlb/Flush.antt =====
-- Invalidation: of the whole buffer, and of the entries of other processes.
use sdp_project_c.Common.{
  ℕ, zero, suc, ◌+◌, ◌*◌, ◌≤◌, ◌<◌, ◌≡◌, refl, ◌≢◌, Bool, true, false, ok, err, Returns, arith,
  ◌==◌, if◌then◌else◌, deadlock,
}
use sdp_project_c.Spinlock.{unheld, held_here, spinlock_acquire, spinlock_release}
use sdp_project_c.Stats.{Stats, next, increment_tlb_invalidations}
use sdp_project_c.Tlb.{
  Tlb, num_tlb, invalidate_all, reset_tlb, pid_of, reset_one_entry_by_index, reset_from,
  reset_tlb_pid_different,
}

-- Entry `i` is marked free, is not valid, and names a page that no user address lies in and that no
-- other entry names.
abbrev pub IsInvalid : ℕ → Tlb → Type 0
IsInvalid i t = (t.bitmap i ≡ false) × (t.entry_lo i ≡ 0) × (t.entry_hi i ≡ 0x8000_0000 + i * 4096)

invalidate_all_at : (n i : ℕ) (t : Tlb) → n ≤ num_tlb → i < n → IsInvalid i (invalidate_all n t)
unfolding invalidate_all
invalidate_all_at zero i t le lt = absurd (omega arith)
invalidate_all_at (suc n) i t le lt = ground (arith, invalidate_all_at n i t)

invalidate_all_keeps :
    (n : ℕ) (t : Tlb)
    → ((invalidate_all n t).slock ≡ t.slock) × ((invalidate_all n t).next_victim ≡ t.next_victim)
unfolding invalidate_all
invalidate_all_keeps zero t = (refl, refl)
invalidate_all_keeps (suc n) t = invalidate_all_keeps n t

-- `reset_tlb` under a free lock makes each of the 64 entries invalid, leaves the lock free and the turn
-- of the victims where it was, and counts one invalidation.
pub reset_tlb-IsInvalid :
    (t : Tlb) (s : Stats)
    → t.slock ≡ unheld
    → Returns (reset_tlb t s) (λ r.
      ((i : ℕ) → i < num_tlb → IsInvalid i r.0)
      × (r.0.slock ≡ unheld)
      × (r.0.next_victim ≡ t.next_victim)
      × (r.1 ≡ record s { tlb_invalidations = next s.tlb_invalidations }))
unfolding reset_tlb spinlock_acquire spinlock_release increment_tlb_invalidations
reset_tlb-IsInvalid t s free =
    rw (free, (invalidate_all_keeps num_tlb (record t { slock = held_here })).0)
      (
        λ i lt. invalidate_all_at num_tlb i (record t { slock = held_here }) (omega arith) lt,
        refl,
        (invalidate_all_keeps num_tlb (record t { slock = held_here })).1,
        refl,
      )

reset_held : (i : ℕ) (t : Tlb) → t.slock ≡ held_here → reset_one_entry_by_index i t ≡ err deadlock
unfolding reset_one_entry_by_index spinlock_acquire
reset_held i t held = ground arith

reset_from_held :
    (pid left i k : ℕ) (differ : Bool) (t : Tlb)
    → t.slock ≡ held_here
    → i + left ≡ num_tlb
    → i ≤ k
    → k < num_tlb
    → pid_of (t.entry_hi k) ≢ pid
    → reset_from pid left i differ t ≡ err deadlock
unfolding reset_from
reset_from_held pid zero i k differ t held e le lt other = absurd (omega arith)
reset_from_held pid (suc left) i k differ t held e le lt other =
    ground (arith, reset_held i t held, reset_from_held pid left (i + 1) k false t held)

reset_from_same :
    (pid left i : ℕ) (differ : Bool) (t : Tlb)
    → i + left ≡ num_tlb
    → ((k : ℕ) → i ≤ k → k < num_tlb → pid_of (t.entry_hi k) ≡ pid)
    → reset_from pid left i differ t ≡ ok ((if left == 0 then differ else false), t)
unfolding reset_from
reset_from_same pid zero i differ t e same = refl
reset_from_same pid (suc left) i differ t e same = ground (
  arith,
  same i,
  reset_from_same pid left (i + 1) false t (omega arith) (λ k p q. same k (omega arith) q),
)

-- `reset_tlb_pid_different` panics on a buffer with an entry of another process, since it holds the
-- lock when `reset_one_entry_by_index` acquires it.
pub reset_tlb_pid_different_deadlock :
    (pid k : ℕ) (t : Tlb) (s : Stats)
    → t.slock ≡ unheld
    → k < num_tlb
    → pid_of (t.entry_hi k) ≢ pid
    → reset_tlb_pid_different pid t s ≡ err deadlock
unfolding reset_tlb_pid_different spinlock_acquire
reset_tlb_pid_different_deadlock pid k t s free lt other = ground (
  arith,
  reset_from_held pid num_tlb 0 k true (record t { slock = held_here }) refl (omega arith)
      (omega arith) lt other,
)

-- If every entry is of the given process, `reset_tlb_pid_different` changes nothing and counts nothing.
pub reset_tlb_pid_different_same :
    (pid : ℕ) (t : Tlb) (s : Stats)
    → t.slock ≡ unheld
    → ((k : ℕ) → k < num_tlb → pid_of (t.entry_hi k) ≡ pid)
    → reset_tlb_pid_different pid t s ≡ ok (t, s)
unfolding reset_tlb_pid_different spinlock_acquire spinlock_release
reset_tlb_pid_different_same pid t s free same = ground (
  arith,
  reset_from_same pid num_tlb 0 true (record t { slock = held_here }) (omega arith)
      (λ k p q. same k q),
)
