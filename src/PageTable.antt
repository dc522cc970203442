-- ===== src/PageTable.antt =====
-- kern/vm/pt.c and kern/include/pt.h: the inverted page table, one entry for each frame.
use sdp_project_c.Common.{
  ℕ, zero, suc, ◌+◌, ◌-◌, ◌*◌, ◌/◌, Bool, true, false, not, ◌&&◌, Option, none, some, Result, ok,
  err, ◌>>=◌, ◌>>◌, require, assertion, out_of_bounds, bad_pid, ltb, leb, ◌==◌, if◌then◌else◌,
  update, sweep, first_index, last_index, u8, u32, page_size, shift_page, bit_or,
}
use sdp_project_c.Spinlock.{Spinlock, spinlock_init, spinlock_acquire, spinlock_release}
use sdp_project_c.Coremap.{Coremap, freeppages}
pub mod Locked
pub mod Lookup
pub mod Fifo
pub mod Aging
mod Tests

-- `permission_t`
pub data Permission : Type 0 where
  read_only read_write : Permission

-- `entry_t`. A `pid_t` is held as its bit pattern, so that -1 is `no_pid`. The code stores no
-- negative `position_fifo`.
pub record Entry : Type 0 where
  pub vaddr : ℕ
  pub pid : ℕ
  pub status : ℕ
  pub permission_flag : Permission
  pub position_fifo : ℕ

-- `table_t`.
pub record Table : Type 0 where
  pub next_entry : ℕ → Entry
  pub length : ℕ
  pub table_lock : Spinlock

abbrev pub no_pid : ℕ
no_pid = 0xffff_ffff

abbrev pub cleared : Entry → Entry
cleared e = record e { pid = no_pid; vaddr = 0; status = 0; position_fifo = 0 }

-- One round of `lru_update_cnt`; an `int` of 32 bits.
abbrev pub aged : Entry → Entry
aged e = if e.pid == no_pid then e else record e { position_fifo = u32 (e.position_fifo + 1) }

-- `lru_update_cnt`; `none` is the NULL pointer before `page_table_init`.
pub lru_update_cnt : Option Table → Result (Option Table)
lru_update_cnt none = ok none
lru_update_cnt (some t) = do
  lock ← spinlock_acquire t.table_lock
  lock' ← spinlock_release lock
  ok (
      some
        (record t { next_entry = sweep t.length (λ _ e. aged e) t.next_entry; table_lock = lock' }))

-- `page_table_init` over `ramsize` bytes of memory. `memory` says whether both calls of `kmalloc`
-- succeed, and `raw` is what the fresh array holds: `permission_flag` keeps it.
pub page_table_init : ℕ → Bool → (ℕ → Entry) → Result Table
page_table_init ramsize memory raw = do
  require memory assertion
  let n = ramsize / page_size
  lock ← spinlock_acquire spinlock_init
  lock' ← spinlock_release lock
  ok (record { next_entry = sweep n (λ _ e. cleared e) raw; length = n; table_lock = lock' })

-- `last_position_fifo + 1` after `n` rounds of the search of `page_table_add_entry`.
pub next_position : ℕ → ℕ → (ℕ → Entry) → ℕ
next_position zero pid entries = 0
next_position (suc n) pid entries =
    let last = next_position n pid entries in
    if pid == (entries n).pid && leb last (entries n).position_fifo
    then (entries n).position_fifo + 1
    else last

-- `page_table_add_entry`
pub page_table_add_entry : ℕ → ℕ → ℕ → ℕ → Table → Result Table
page_table_add_entry pid vaddr paddr status t = do
  let frame_index = shift_page paddr
  require (ltb frame_index t.length) assertion
  lock ← spinlock_acquire t.table_lock
  lock' ← spinlock_release lock
  ok (record t {
    next_entry = update t.next_entry frame_index (record {
      vaddr = vaddr;
      pid = pid;
      status = status;
      permission_flag = (t.next_entry frame_index).permission_flag;
      position_fifo = next_position t.length pid t.next_entry;
    });
    table_lock = lock';
  })

-- `e.pid == pid && e.vaddr == vaddr`
abbrev pub maps : ℕ → ℕ → Entry → Bool
maps pid vaddr e = e.pid == pid && e.vaddr == vaddr

-- `*paddr` and `*status`, where the loop has set `last`.
abbrev pub answer : Table → Option ℕ → Option (ℕ × ℕ)
answer t none = none
answer t (some last) = some (u32 (last * page_size), (t.next_entry last).status)

-- `page_table_get_paddr_entry`: `*paddr` and `*status` where the result is 1.
pub page_table_get_paddr_entry : ℕ → ℕ → Table → Result (Option (ℕ × ℕ) × Table)
page_table_get_paddr_entry pid vaddr t = do
  lock ← spinlock_acquire t.table_lock
  lock' ← spinlock_release lock
  ok (
    answer t (last_index t.length (λ i. maps pid vaddr (t.next_entry i))),
    record t { table_lock = lock' },
  )

-- `page_table_replacement`: the victim's index with a copy of its entry; `none` is -1.
unfoldable pub page_table_replacement : ℕ → Table → Option (ℕ × Entry)
page_table_replacement pid t =
    elim (first_index t.length
      (λ i. (t.next_entry i).position_fifo == 0 && (t.next_entry i).pid == pid)) [
        | none ↦ none
        | some i ↦ some (i, t.next_entry i)
      ]

-- One round of the loop of `page_table_reset_entry`.
abbrev pub moved_up : ℕ → ℕ → Entry → Entry
moved_up pid position e =
    if pid == e.pid && ltb position e.position_fifo
    then record e { position_fifo = e.position_fifo - 1 }
    else e

-- `page_table_reset_entry`
pub page_table_reset_entry : ℕ → Table → Result Table
page_table_reset_entry index t = do
  require (ltb index t.length) out_of_bounds
  let pid = (t.next_entry index).pid
  let position = (t.next_entry index).position_fifo
  lock ← spinlock_acquire t.table_lock
  lock' ← spinlock_release lock
  ok (record t {
    next_entry =
        sweep t.length (λ _ e. moved_up pid position e)
          (update t.next_entry index (cleared (t.next_entry index)));
    table_lock = lock';
  })

-- The rounds of `page_table_remove_on_pids` from index `i` on.
pub remove_from : ℕ → ℕ → ℕ → Table → Coremap → Result (Table × Coremap)
unfolding page_table_reset_entry
remove_from pid zero i t c = ok (t, c)
remove_from pid (suc left) i t c = elim ((t.next_entry i).pid == pid) [
  | false ↦ remove_from pid left (i + 1) t c
  | true ↦ do
    t' ← page_table_reset_entry i t
    (_, c') ← freeppages (u32 (i * page_size)) c
    remove_from pid left (i + 1) t' c'
]

-- `page_table_remove_on_pids`; a `pid` is negative from 2 ^ 31 on.
pub page_table_remove_on_pids : ℕ → Table → Coremap → Result (Table × Coremap)
unfolding remove_from
page_table_remove_on_pids pid t c = do
  require (ltb pid 0x8000_0000) bad_pid
  lock ← spinlock_acquire t.table_lock
  (t', c') ← remove_from pid t.length 0 (record t { table_lock = lock }) c
  lock' ← spinlock_release t'.table_lock
  ok (record t' { table_lock = lock' }, c')

-- `page_table_get_Status_on_Index`: a byte of the status; index -1, here `none`, is outside.
pub page_table_get_status_on_index : Option ℕ → Table → Result ℕ
page_table_get_status_on_index none t = err out_of_bounds
page_table_get_status_on_index (some i) t = do
  require (ltb i t.length) out_of_bounds
  ok (u8 (t.next_entry i).status)

-- `page_table_set_status_at_index`
pub page_table_set_status_at_index : ℕ → ℕ → Table → Result Table
page_table_set_status_at_index i val t = do
  require (ltb i t.length) out_of_bounds
  let e = t.next_entry i
  ok (record t {
    next_entry = update t.next_entry i (record e { status = bit_or e.status (u8 val) });
  })
