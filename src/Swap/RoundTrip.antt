-- ===== src/Swap/RoundTrip.antt =====
-- A page that goes out to the swap file and comes back.
use sdp_project_c.Common.{
  ℕ, ◌+◌, ◌/◌, ◌<◌, ◌≡◌, ◌≢◌, false, some, ok, arith, update, first_index, page_size, shift_page,
  u32,
}
use sdp_project_c.Spinlock.{unheld, spinlock_acquire, spinlock_release}
use sdp_project_c.Stats.{increment_page_faults_zeroed, increment_page_faults_swapin}
use sdp_project_c.Coremap.{Coremap, getppages}
use sdp_project_c.PageTable.{no_pid}
use sdp_project_c.PageTable.Locked.{added, add_unheld}
use sdp_project_c.Machine.{
  SwapTrack, Machine, Devices, AddrSpace, store_bytes, as_zero_page, max_allocated_pages,
}
use sdp_project_c.Swap.{number_entries, tracks, swap_frame, load_slot, swap_in, permission_code}

module _ (dev : Devices) (space : AddrSpace) (pid vaddr i addr : ℕ) (c : Coremap) (m : Machine)
    (free : m.swap.slock ≡ unheld) (free_table : m.table.table_lock ≡ unheld)
    (found : first_index number_entries (λ i. tracks pid vaddr (m.swap.track i)) ≡ some i)
    (below : space.allocated_pages ≢ max_allocated_pages)
    (got : getppages 1 m.coremap ≡ ok (addr, c)) (frame : 0 < addr)
    (inside : addr / page_size < number_entries) (entry : shift_page pid < m.table.length)
    (reads : dev.read_fails i ≡ false) (whole : dev.read_short i ≡ false) where
  abbrev pub freed_track : ℕ → SwapTrack
  freed_track = update m.swap.track i (record (m.swap.track i) { pid = no_pid; valid = false })

  abbrev pub loaded : Machine
  loaded = record m {
    coremap = c;
    memory = store_bytes addr page_size (m.swap.file i) (as_zero_page addr m.memory);
    swap = record (m.swap) { track = freed_track };
    table =
        added vaddr addr (shift_page pid)
          (permission_code (freed_track (addr / page_size)).permission_flag) m.table;
    stats = increment_page_faults_swapin (increment_page_faults_zeroed m.stats);
  }

  pub swap_in_lem :
      swap_in dev space pid vaddr m
      ≡ ok (some addr, record space { allocated_pages = u32 (space.allocated_pages + 1) }, loaded)
  unfolding swap_in swap_frame load_slot spinlock_acquire spinlock_release
  swap_in_lem = ground (
    arith,
    add_unheld m.table free_table vaddr addr pid
        (permission_code (freed_track (addr / page_size)).permission_flag),
  )
