-- ===== src/Swap.antt =====
-- kern/vm/swapfile.c: pages that are not in memory, in the slots of a file of 9 MB.
use sdp_project_c.Common.{
  ℕ, zero, suc, ◌+◌, ◌-◌, ◌*◌, ◌/◌, Bool, true, false, not, ◌&&◌, ◌||◌, Option, none, some, Result,
  ok, err, ◌>>=◌, ◌>>◌, require, out_of_bounds, out_of_swap_space, bad_vaddr, read_error,
  write_error, short_transfer, assertion, ltb, leb, ◌==◌, if◌then◌else◌, update, sweep, first_index,
  u32, sub_u32, page_size, kseg0,
}
use sdp_project_c.Spinlock.{Spinlock, spinlock_acquire, spinlock_release, spinlock_cleanup}
use sdp_project_c.Stats.{
  increment_page_faults_swapout, increment_page_faults_swapin, increment_page_faults_zeroed,
}
use sdp_project_c.Coremap.{getppages}
use sdp_project_c.PageTable.{
  Permission, read_only, read_write, no_pid, page_table_replacement, page_table_add_entry,
  page_table_reset_entry,
}
use sdp_project_c.Machine.{
  SwapTrack, SwapFile, Machine, Devices, AddrSpace, store_bytes, as_zero_page, max_allocated_pages,
}
pub mod Slots
pub mod RoundTrip
pub mod Pressure
mod Tests

abbrev pub file_size : ℕ
file_size = 9437184

abbrev pub number_entries : ℕ
number_entries = file_size / page_size

-- The rounds of `swap_bootstrap` that write one byte at each kilobyte: the size of the file after the
-- first `n`. A write past the end makes the file that long.
pub grow : ℕ → ℕ → ℕ
grow zero size = size
grow (suc n) size =
    let size' = grow n size in if ltb size' (1024 * n + 1) then 1024 * n + 1 else size'

abbrev pub no_track : SwapTrack → SwapTrack
no_track t = record t { permission_flag = read_only; pid = no_pid; vaddr = 0; valid = false }

-- `swap_bootstrap` on a file of `size` bytes: its size then, with the slots. `opened` and `written` say
-- whether `vfs_open` and the writes succeed.
pub swap_bootstrap : Bool → Bool → ℕ → SwapFile → Result (ℕ × SwapFile)
swap_bootstrap opened written size s = do
  require opened write_error
  require (written || not (ltb size file_size)) write_error
  let size' = if ltb size file_size then grow (file_size / 1024 + 1) size else size
  require (leb file_size size') out_of_swap_space
  ok (size', record s { track = sweep number_entries (λ _ t. no_track t) s.track })

-- The part of `swap_out` on its slot `i`, up to the release of the lock: the page written and tracked.
abbrev pub put_page : ℕ → ℕ → ℕ → Permission → ℕ → (ℕ → ℕ) → SwapFile → SwapFile
put_page i pid vaddr permission paddr memory s = record s {
  file = update s.file i (λ o. memory (paddr + o));
  track =
      update s.track i
        (record { permission_flag = permission; pid = pid; vaddr = vaddr; valid = true });
}

-- `swap_out`
pub swap_out : Devices → ℕ → ℕ → Permission → ℕ → Machine → Result Machine
unfolding increment_page_faults_swapout
swap_out dev pid vaddr permission paddr m = do
  require (ltb vaddr kseg0) bad_vaddr
  lock ← spinlock_acquire m.swap.slock
  elim (first_index number_entries (λ i. not (m.swap.track i).valid)) [
    | none ↦ err out_of_swap_space
    | some i ↦ do
      require (not (dev.write_fails i)) write_error
      lock' ← spinlock_release lock
      table' ← page_table_reset_entry (paddr / page_size) m.table
      ok (record m {
        swap = record (put_page i pid vaddr permission paddr m.memory m.swap) { slock = lock' };
        table = table';
        stats = increment_page_faults_swapout m.stats;
      })
  ]

-- The enumerators of `permission_t` as a number.
abbrev pub permission_code : Permission → ℕ
permission_code read_only = 0
permission_code read_write = 1

-- `track[i].pid == pid && track[i].vaddr == vaddr && track[i].valid == 1`
abbrev pub tracks : ℕ → ℕ → SwapTrack → Bool
tracks pid vaddr t = t.pid == pid && t.vaddr == vaddr && t.valid

-- The frame for the page that `swap_in` loads, 0 if there is none and no victim either: a new one, or
-- at the limit or without free memory that of the victim.
pub swap_frame : Devices → AddrSpace → ℕ → Machine → Result (Option ℕ × AddrSpace × Machine)
unfolding swap_out
swap_frame dev space pid m = do
  (got, c) ←
      (if space.allocated_pages == max_allocated_pages
        then ok (0, m.coremap)
        else getppages 1 m.coremap)
  let m₁ = record m { coremap = c }
  if not (got == 0) then ok (some got, space, m₁) else (elim (page_table_replacement pid m₁.table) [
    | none ↦ ok (none, space, m₁)
    | some (index, e) ↦ do
      m₂ ← swap_out dev pid e.vaddr e.permission_flag (u32 (index * page_size)) m₁
      ok (
        some (u32 (index * page_size)),
        record space { allocated_pages = sub_u32 space.allocated_pages 1 },
        m₂,
      )
  ])

-- The rest of `swap_in`, from slot `i` into the frame at `paddr`. The call of `page_table_add_entry`
-- has the page and the frame where the function takes the process and the page.
pub load_slot : Devices → ℕ → ℕ → ℕ → ℕ → AddrSpace → Machine → Result (AddrSpace × Machine)
unfolding increment_page_faults_zeroed increment_page_faults_swapin
load_slot dev i pid vaddr paddr space m = do
  require (not (dev.read_fails i)) read_error
  require (not (dev.read_short i)) short_transfer
  let memory' = store_bytes paddr page_size (m.swap.file i) (as_zero_page paddr m.memory)
  let track' = update m.swap.track i (record (m.swap.track i) { pid = no_pid; valid = false })
  require (ltb (paddr / page_size) number_entries) out_of_bounds
  table' ←
      page_table_add_entry vaddr paddr pid
        (permission_code (track' (paddr / page_size)).permission_flag) m.table
  ok (
    record space { allocated_pages = u32 (space.allocated_pages + 1) },
    record m {
      memory = memory';
      swap = record (m.swap) { track = track' };
      table = table';
      stats = increment_page_faults_swapin (increment_page_faults_zeroed m.stats);
    },
  )

abbrev pub with_slock : Spinlock → Machine → Machine
with_slock lock m = record m { swap = record (m.swap) { slock = lock } }

-- `swap_in`: the frame's address where the result is 1. Without a victim it returns 0 and keeps the
-- lock.
pub swap_in : Devices → AddrSpace → ℕ → ℕ → Machine → Result (Option ℕ × AddrSpace × Machine)
unfolding swap_frame load_slot
swap_in dev space pid vaddr m = do
  lock ← spinlock_acquire m.swap.slock
  let m₀ = with_slock lock m
  elim (first_index number_entries (λ i. tracks pid vaddr (m.swap.track i))) [
    | none ↦ do lock' ← spinlock_release lock; ok (none, space, with_slock lock' m)
    | some i ↦ do
      (frame, space₁, m₁) ← swap_frame dev space pid m₀
      elim frame [
        | none ↦ ok (none, space₁, m₁)
        | some paddr ↦ do
          (space₂, m₂) ← load_slot dev i pid vaddr paddr space₁ m₁
          lock' ← spinlock_release m₂.swap.slock
          ok (some paddr, space₂, with_slock lock' m₂)
      ]
  ]

-- `swap_remove_pid`
pub swap_remove_pid : ℕ → SwapFile → SwapFile
swap_remove_pid pid s = record s {
  track =
      sweep number_entries
        (λ _ t. if t.pid == pid && t.valid then record t { pid = no_pid; valid = false } else t)
        s.track;
}

-- `swap_destroy`; closing the vnode is left out.
pub swap_destroy : SwapFile → Result (Unit {0})
swap_destroy s = spinlock_cleanup s.slock
