-- ===== src/Swap/Pressure.antt =====
-- `swap_in` of a process that may have no further page, and of a page that is not in the file.
use sdp_project_c.Common.{
  ℕ, ◌*◌, ◌<◌, ◌≡◌, refl, Bool, true, false, Option, none, some, ok, err, Returns, arith,
  first_index, first_index-ne-none, first_index-FirstIn, FirstIn, page_size, u32, kseg0, deadlock,
}
use sdp_project_c.Spinlock.{unheld, held_here, spinlock_acquire, spinlock_release}
use sdp_project_c.PageTable.{Entry, Permission, page_table_replacement}
use sdp_project_c.Machine.{Machine, Devices, AddrSpace, max_allocated_pages}
use sdp_project_c.Swap.{number_entries, swap_out, tracks, swap_frame, swap_in, with_slock}

swap_out_held :
    (dev : Devices) (pid vaddr : ℕ) (permission : Permission) (paddr : ℕ) (m : Machine)
    → vaddr < kseg0
    → m.swap.slock ≡ held_here
    → swap_out dev pid vaddr permission paddr m ≡ err deadlock
unfolding swap_out spinlock_acquire
swap_out_held dev pid vaddr permission paddr m user held = ground arith

module _ (dev : Devices) (space : AddrSpace) (pid vaddr : ℕ) (m : Machine)
    (free : m.swap.slock ≡ unheld) where
  test : ℕ → Bool
  test j = tracks pid vaddr (m.swap.track j)

  -- The slot that a lookup of a page finds, if some slot holds it.
  present :
      (k : ℕ)
      → k < number_entries
      → tracks pid vaddr (m.swap.track k) ≡ true
      → (i : ℕ) × (first_index number_entries (λ j. tracks pid vaddr (m.swap.track j)) ≡ some i)
  present k lt here = first_index-ne-none number_entries _ k lt here

  -- `swap_in` of a page that is in no slot gives 0 and leaves the machine as it was.
  pub swap_in_missing :
      ((j : ℕ) → j < number_entries → tracks pid vaddr (m.swap.track j) ≡ false)
      → swap_in dev space pid vaddr m ≡ ok (none, space, m)
  unfolding swap_in spinlock_acquire spinlock_release test
  swap_in_missing absent = go _ refl (first_index-FirstIn number_entries test)
    where
      go :
          (o : Option ℕ)
          → first_index number_entries test ≡ o
          → FirstIn 0 number_entries test o
          → swap_in dev space pid vaddr m ≡ ok (none, space, m)
      go none e h = ground arith
      go (some i) e (a, b, c, d) = absurd (ground (arith, absent i b))

  -- `swap_in` of a page that some slot holds, in a process that is at its limit of 50 pages, panics if the
  -- process has a victim in user memory: it holds the lock that `swap_out` acquires.
  pub swap_in_at_limit_deadlock :
      (k v : ℕ) (e : Entry)
      → k < number_entries
      → tracks pid vaddr (m.swap.track k) ≡ true
      → space.allocated_pages ≡ max_allocated_pages
      → page_table_replacement pid m.table ≡ some (v, e)
      → e.vaddr < kseg0
      → swap_in dev space pid vaddr m ≡ err deadlock
  unfolding swap_in swap_frame spinlock_acquire spinlock_release
  swap_in_at_limit_deadlock k v e lt here full victim user =
      let (i, found) = present k lt here in
      ground (
        arith,
        swap_out_held dev pid e.vaddr e.permission_flag (u32 (v * page_size))
            (with_slock held_here m) user refl,
      )

  -- Without a victim `swap_in` gives 0 and never releases the lock, so that whatever user page the next
  -- `swap_out` is asked for, it panics.
  pub swap_in_keeps_lock :
      (k q a paddr : ℕ) (permission : Permission)
      → k < number_entries
      → tracks pid vaddr (m.swap.track k) ≡ true
      → space.allocated_pages ≡ max_allocated_pages
      → page_table_replacement pid m.table ≡ none
      → a < kseg0
      → Returns
          (swap_in dev space pid vaddr m)
          (λ r. (r.0 ≡ none) × (swap_out dev q a permission paddr r.2 ≡ err deadlock))
  unfolding swap_in swap_frame spinlock_acquire
  swap_in_keeps_lock k q a paddr permission lt here full nobody user =
      let (i, found) = present k lt here in
      rw (free, found, full, nobody)
        (refl, swap_out_held dev q a permission paddr (with_slock held_here m) user refl)
