-- ===== src/PageTable/Locked.antt =====
-- The operations of the page table as one processor runs them: under a free lock each does its
-- work and leaves the lock free; where the lock is held already, the kernel panics.
use sdp_project_c.Common.{
  ℕ, zero, suc, ◌+◌, ◌≤◌, ◌<◌, ◌≡◌, ◌≢◌, refl, some, ok, err, deadlock, arith, update, sweep,
  last_index, shift_page, bit_or, u8,
}
use sdp_project_c.Spinlock.{unheld, held_here, spinlock_acquire, spinlock_release}
use sdp_project_c.Coremap.{Coremap}
use sdp_project_c.PageTable.{
  Table, maps, answer, aged, moved_up, cleared, next_position, lru_update_cnt,
  page_table_get_paddr_entry, page_table_add_entry, page_table_reset_entry, remove_from,
  page_table_remove_on_pids, page_table_set_status_at_index,
}

abbrev pub added : ℕ → ℕ → ℕ → ℕ → Table → Table
added pid vaddr frame status t = record t {
  next_entry = update t.next_entry frame (record {
    vaddr = vaddr;
    pid = pid;
    status = status;
    permission_flag = (t.next_entry frame).permission_flag;
    position_fifo = next_position t.length pid t.next_entry;
  });
}

abbrev pub removed : ℕ → Table → Table
removed index t = record t {
  next_entry =
      sweep t.length (λ _ e. moved_up (t.next_entry index).pid (t.next_entry index).position_fifo e)
        (update t.next_entry index (cleared (t.next_entry index)));
}

module _ (t : Table) (free : t.table_lock ≡ unheld) where
  pub get_unheld :
      (pid vaddr : ℕ)
      → page_table_get_paddr_entry pid vaddr t
        ≡ ok (answer t (last_index t.length (λ i. maps pid vaddr (t.next_entry i))), t)
  unfolding page_table_get_paddr_entry spinlock_acquire spinlock_release
  get_unheld pid vaddr = ground arith

  pub add_unheld :
      (pid vaddr paddr status : ℕ)
      → shift_page paddr < t.length
      → page_table_add_entry pid vaddr paddr status t
        ≡ ok (added pid vaddr (shift_page paddr) status t)
  unfolding page_table_add_entry spinlock_acquire spinlock_release
  add_unheld pid vaddr paddr status lt = ground arith

  pub reset_unheld :
      (index : ℕ) → index < t.length → page_table_reset_entry index t ≡ ok (removed index t)
  unfolding page_table_reset_entry spinlock_acquire spinlock_release
  reset_unheld index lt = ground arith

  pub lru_unheld :
      lru_update_cnt (some t)
      ≡ ok (some (record t { next_entry = sweep t.length (λ _ e. aged e) t.next_entry }))
  unfolding lru_update_cnt spinlock_acquire spinlock_release
  lru_unheld = ground arith

-- A second acquisition of the table's lock by `page_table_reset_entry` panics.
reset_held :
    (index : ℕ) (t : Table)
    → t.table_lock ≡ held_here
    → index < t.length
    → page_table_reset_entry index t ≡ err deadlock
unfolding page_table_reset_entry spinlock_acquire
reset_held index t held lt = ground arith

remove_from_held :
    (pid left i k : ℕ) (t : Table) (c : Coremap)
    → t.table_lock ≡ held_here
    → i + left ≡ t.length
    → i ≤ k
    → k < t.length
    → (t.next_entry k).pid ≡ pid
    → remove_from pid left i t c ≡ err deadlock
unfolding remove_from
remove_from_held pid zero i k t c held e le lt owns = absurd (omega arith)
remove_from_held pid (suc left) i k t c held e le lt owns =
    ground (arith, reset_held i t held, remove_from_held pid left (i + 1) k t c held)

-- `page_table_remove_on_pids` panics on every process with a page in memory: it holds the table's
-- lock when `page_table_reset_entry` acquires it.
pub page_table_remove_on_pids_deadlock :
    (pid k : ℕ) (t : Table) (c : Coremap)
    → pid < 0x8000_0000
    → t.table_lock ≡ unheld
    → k < t.length
    → (t.next_entry k).pid ≡ pid
    → page_table_remove_on_pids pid t c ≡ err deadlock
unfolding page_table_remove_on_pids spinlock_acquire
page_table_remove_on_pids_deadlock pid k t c small free lt owns = ground (
  arith,
  remove_from_held pid t.length 0 k (record t { table_lock = held_here }) c refl (omega arith)
      (omega arith) lt owns,
)

remove_from_absent :
    (pid left i : ℕ) (t : Table) (c : Coremap)
    → i + left ≡ t.length
    → ((j : ℕ) → j < t.length → (t.next_entry j).pid ≢ pid)
    → remove_from pid left i t c ≡ ok (t, c)
unfolding remove_from
remove_from_absent pid zero i t c e absent = refl
remove_from_absent pid (suc left) i t c e absent =
    ground (arith, absent i, remove_from_absent pid left (i + 1) t c (omega arith) absent)

-- For a process without a page in memory it changes nothing.
pub page_table_remove_on_pids_absent :
    (pid : ℕ) (t : Table) (c : Coremap)
    → pid < 0x8000_0000
    → t.table_lock ≡ unheld
    → ((j : ℕ) → j < t.length → (t.next_entry j).pid ≢ pid)
    → page_table_remove_on_pids pid t c ≡ ok (t, c)
unfolding page_table_remove_on_pids spinlock_acquire spinlock_release
page_table_remove_on_pids_absent pid t c small free absent = ground (
  arith,
  remove_from_absent pid t.length 0 (record t { table_lock = held_here }) c (omega arith) absent,
)

abbrev pub flagged : ℕ → ℕ → Table → Table
flagged i val t = record t {
  next_entry =
      update t.next_entry i
        (record (t.next_entry i) { status = bit_or (t.next_entry i).status (u8 val) });
}

pub set_status_lem :
    (i val : ℕ) (t : Table)
    → i < t.length
    → page_table_set_status_at_index i val t ≡ ok (flagged i val t)
unfolding page_table_set_status_at_index
set_status_lem i val t lt = ground arith
