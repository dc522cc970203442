-- ===== src/PageTable/Tests.antt =====
-- Two pages of process 7 in a table of four frames, and the page table's theorems at it.
use sdp_project_c.Common.{
  ℕ, suc, ◌*◌, ◌≤◌, ◌<◌, ◌≡◌, refl, none, some, Returns, arith, ◌==◌, if◌then◌else◌, page_size,
  ℕ_discrete,
}
use sdp_project_c.Spinlock.{unheld}
use sdp_project_c.PageTable.{
  Entry, Table, read_write, no_pid, page_table_add_entry, page_table_reset_entry,
  page_table_replacement, lru_update_cnt,
}
use sdp_project_c.PageTable.Fifo.{
  IsQueue, Holds, Victim, page_table_add_entry-IsQueue, page_table_reset_entry-IsQueue,
  page_table_replacement-Victim,
}
use sdp_project_c.PageTable.Aging.{lru_update_cnt_hides_victims}

abbrev vacant : Entry
vacant = record {
  vaddr = 0;
  pid = no_pid;
  status = 0;
  permission_flag = read_write;
  position_fifo = 0;
}

abbrev page : ℕ → ℕ → ℕ → Entry
page pid vaddr place = record {
  vaddr = vaddr;
  pid = pid;
  status = 5;
  permission_flag = read_write;
  position_fifo = place;
}

-- Frame 3 holds the older page of process 7, frame 1 the younger; frame 0 holds the page of process 9.
abbrev table : Table
table = record {
  next_entry = λ i.
      if i == 3
      then page 7 0x1000 0
      else (if i == 1 then page 7 0x2000 1 else (if i == 0 then page 9 0x1000 0 else vacant));
  length = 4;
  table_lock = unheld;
}

IsQueue-7 : IsQueue 7 2 table
IsQueue-7 = record {
  below = λ i d h. ground arith;
  unique = λ i j d h k. ground arith;
  covered = λ d h. elim (ℕ_discrete d 0) [ yes e ↦ (3, ground arith) | no e ↦ (1, ground arith) ];
}

IsQueue-9 : IsQueue 9 1 table
IsQueue-9 = record {
  below = λ i d h. ground arith;
  unique = λ i j d h k. ground arith;
  covered = λ d h. (0, ground arith);
}

page_table_add_entry-IsQueue_example :
    Returns (page_table_add_entry 7 0x3000 (2 * page_size) 1 table) (λ t'.
      IsQueue 7 3 t'
      × Holds 7 t' 2 2
      × ((d i : ℕ) → Holds 7 table d i → Holds 7 t' d i)
      × IsQueue 9 1 t')
page_table_add_entry-IsQueue_example =
    page_table_add_entry-IsQueue 7 0x3000 2 1 2 9 1 table refl (omega arith) (omega arith) refl
      (omega arith) IsQueue-7 (omega arith) (omega arith) IsQueue-9

page_table_reset_entry-IsQueue_example : Returns (page_table_reset_entry 3 table) (λ t'.
    IsQueue 7 1 t'
    × ((t'.next_entry 3).pid ≡ no_pid)
    × ((d i : ℕ) → d < 0 → Holds 7 table d i → Holds 7 t' d i)
    × ((d i : ℕ) → 0 ≤ d → Holds 7 table (suc d) i → Holds 7 t' d i)
    × IsQueue 9 1 t')
page_table_reset_entry-IsQueue_example =
    page_table_reset_entry-IsQueue 7 3 0 1 9 1 table refl (omega arith) (omega arith, refl, refl)
      IsQueue-7 (omega arith) (omega arith) IsQueue-9

page_table_replacement-Victim_example : Victim 7 2 table (page_table_replacement 7 table)
page_table_replacement-Victim_example = page_table_replacement-Victim 7 2 table IsQueue-7

lru_update_cnt_hides_victims_example :
    Returns
      (lru_update_cnt (some table))
      (λ o. (t' : Table) × (o ≡ some t') × (page_table_replacement 7 t' ≡ none))
lru_update_cnt_hides_victims_example =
    lru_update_cnt_hides_victims 7 table refl (omega arith) (λ i lt. ground arith)
