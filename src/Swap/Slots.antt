-- ===== src/Swap/Slots.antt =====
-- The slots of the swap file: the start of the file, pages that go into slots, and the end of a process.
use sdp_project_c.Common.{
  ℕ, zero, suc, ◌+◌, ◌-◌, ◌*◌, ◌/◌, ◌≤◌, ◌<◌, ◌≡◌, refl, ◌≢◌, Bool, true, false, not, ◌&&◌, Option,
  none, some, ok, err, Returns, arith, ◌==◌, if◌then◌else◌, sweep_at, first_index,
  first_index-FirstIn, FirstIn, page_size, kseg0, out_of_swap_space,
}
use sdp_project_c.Spinlock.{unheld, spinlock_acquire, spinlock_release}
use sdp_project_c.Stats.{increment_page_faults_swapout}
use sdp_project_c.PageTable.{Permission, no_pid, page_table_reset_entry}
use sdp_project_c.PageTable.Locked.{removed, reset_unheld}
use sdp_project_c.Machine.{SwapTrack, SwapFile, Machine, Devices}
use sdp_project_c.Swap.{
  number_entries, file_size, grow, no_track, swap_bootstrap, put_page, swap_out, tracks,
  swap_remove_pid,
}

le-grow : (n size : ℕ) → 0 < n → 1024 * (n - 1) < grow n size
unfolding grow
le-grow zero size p = absurd (omega arith)
le-grow (suc n) size p = ground arith

-- `swap_bootstrap` returns whenever the file opens and can be written, whatever size it has: the file
-- then has room for every slot, and every slot is free.
pub swap_bootstrap_room :
    (size : ℕ) (s : SwapFile)
    → Returns (swap_bootstrap true true size s) (λ r.
      (number_entries * page_size ≤ r.0)
      × ((i : ℕ) → i < number_entries → (r.1.track i).valid ≡ false))
unfolding swap_bootstrap
swap_bootstrap_room size s = ground (
  arith,
  le-grow (file_size / 1024 + 1) size,
  λ (i : ℕ). sweep_at number_entries (λ _ t. no_track t) s.track i,
)

module _ (dev : Devices) (pid vaddr : ℕ) (permission : Permission) (frame : ℕ) (m : Machine) where
  -- The machine after the page in `frame` has gone to slot `i`.
  abbrev pub swapped_out : ℕ → Machine
  swapped_out i = record m {
    swap = put_page i pid vaddr permission (frame * page_size) m.memory m.swap;
    table = removed frame m.table;
    stats = increment_page_faults_swapout m.stats;
  }

  pub swap_out_lem :
      (i : ℕ)
      → vaddr < kseg0
      → m.swap.slock ≡ unheld
      → m.table.table_lock ≡ unheld
      → frame < m.table.length
      → dev.write_fails i ≡ false
      → first_index number_entries (λ i. not (m.swap.track i).valid) ≡ some i
      → swap_out dev pid vaddr permission (frame * page_size) m ≡ ok (swapped_out i)
  unfolding swap_out spinlock_acquire spinlock_release
  swap_out_lem i user free free_table lt written e =
      let index : frame * page_size / page_size ≡ frame = omega arith in
      ground (arith, reset_unheld m.table free_table frame lt)

  -- What `swap_out` left: slot `i`, the lowest free one, holds the page's bytes and says whose it is; the
  -- other slots, the memory and the free frames are as they were, and the frame has left the page table.
  pub record Stored (i : ℕ) (m' : Machine) : Type 0 where
    pub in_file : i < number_entries
    pub was_free : (m.swap.track i).valid ≡ false
    pub lowest : (j : ℕ) → j < i → (m.swap.track j).valid ≡ true
    pub tracked :
        m'.swap.track i
        ≡ record { permission_flag = permission; pid = pid; vaddr = vaddr; valid = true }
    pub bytes : (o : ℕ) → m'.swap.file i o ≡ m.memory (frame * page_size + o)
    pub others :
        (j : ℕ) → j ≢ i → (m'.swap.track j ≡ m.swap.track j) × (m'.swap.file j ≡ m.swap.file j)
    pub unlocked : m'.swap.slock ≡ unheld
    pub memory : m'.memory ≡ m.memory
    pub reset : page_table_reset_entry frame m.table ≡ ok m'.table

  -- `swap_out` of a user page, with both locks free, a free slot and a working device, returns and stores
  -- the page.
  pub swap_out-Stored :
      (k : ℕ)
      → m.swap.slock ≡ unheld
      → m.table.table_lock ≡ unheld
      → frame < m.table.length
      → ((i : ℕ) → dev.write_fails i ≡ false)
      → vaddr < kseg0
      → k < number_entries
      → (m.swap.track k).valid ≡ false
      → Returns
          (swap_out dev pid vaddr permission (frame * page_size) m)
          (λ m'. (i : ℕ) × Stored i m')
  swap_out-Stored k free free_table lt works user inside invalid =
      go _ refl (first_index-FirstIn number_entries vacant)
    where
      vacant : ℕ → Bool
      vacant i = not (m.swap.track i).valid

      go :
          (o : Option ℕ)
          → first_index number_entries vacant ≡ o
          → FirstIn 0 number_entries vacant o
          → Returns
              (swap_out dev pid vaddr permission (frame * page_size) m)
              (λ m'. (i : ℕ) × Stored i m')
      go none e h = absurd (ground (arith, h k))
      go (some i) e (a, b, c, d) = rw (swap_out_lem i user free free_table lt (works i) e) (
        i,
        record {
          in_file = b;
          was_free = ground arith;
          lowest = λ j p. ground (arith, d j);
          tracked = ground arith;
          bytes = λ o. ground arith;
          others = λ j ne. (ground arith, ground arith);
          unlocked = free;
          memory = refl;
          reset = reset_unheld m.table free_table frame lt;
        },
      )

  -- With every slot taken, `swap_out` of a user page panics.
  pub swap_out_full :
      m.swap.slock ≡ unheld
      → vaddr < kseg0
      → ((k : ℕ) → k < number_entries → (m.swap.track k).valid ≡ true)
      → swap_out dev pid vaddr permission (frame * page_size) m ≡ err out_of_swap_space
  unfolding swap_out spinlock_acquire
  swap_out_full free user full = go _ refl (first_index-FirstIn number_entries vacant)
    where
      vacant : ℕ → Bool
      vacant i = not (m.swap.track i).valid

      go :
          (o : Option ℕ)
          → first_index number_entries vacant ≡ o
          → FirstIn 0 number_entries vacant o
          → swap_out dev pid vaddr permission (frame * page_size) m ≡ err out_of_swap_space
      go none e h = ground arith
      go (some i) e (a, b, c, d) = absurd (ground (arith, full i b))

-- `swap_remove_pid` frees every slot of the process, so that a lookup of any of its pages fails, and
-- touches no slot of another.
pub swap_remove_pid_frees :
    (pid : ℕ) (s : SwapFile)
    → pid ≢ no_pid
    → ((i vaddr : ℕ)
        → i < number_entries
        → tracks pid vaddr ((swap_remove_pid pid s).track i) ≡ false)
      × ((i : ℕ) → (s.track i).pid ≢ pid → (swap_remove_pid pid s).track i ≡ s.track i)
unfolding swap_remove_pid
swap_remove_pid_frees pid s user = (
  λ i vaddr lt. ground (arith, sweep_at number_entries free_one s.track i),
  λ i ne. ground (arith, sweep_at number_entries free_one s.track i),
)
  where
    free_one : ℕ → SwapTrack → SwapTrack
    free_one _ t = if t.pid == pid && t.valid then record t { pid = no_pid; valid = false } else t
