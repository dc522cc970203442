-- ===== src/Fault/Demand.antt =====
-- What a page loaded on demand leaves in the page table.
use sdp_project_c.Common.{
  ℕ, ◌<◌, ◌≡◌, refl, ◌≢◌, false, Option, none, some, ◌>>=◌, Returns, arith, shift_page, last_index,
  last_index-LastIn, LastIn,
}
use sdp_project_c.Spinlock.{unheld}
use sdp_project_c.PageTable.{Table, maps, page_table_get_paddr_entry}
use sdp_project_c.PageTable.Locked.{get_unheld, add_unheld, added}
use sdp_project_c.Fault.{Claim, record_page, with_index}

-- The page that a fault has just loaded for a process is not found by the next lookup, which `vm_fault`
-- makes at the next fault on it: `record_page` hands the page, the frame and the process to
-- `page_table_add_entry` in this order, where it takes the process, the page and the frame. The page's
-- address is no process number.
pub record_page_not_found :
    (pid fault status : ℕ) (r : Claim)
    → r.machine.table.table_lock ≡ unheld
    → fault ≢ pid
    → shift_page pid < r.machine.table.length
    → ((j : ℕ) → j < r.machine.table.length → maps pid fault (r.machine.table.next_entry j) ≡ false)
    → Returns
        (record_page pid fault status r >>= λ r'.
          page_table_get_paddr_entry pid fault r'.machine.table)
        (λ a. a.0 ≡ none)
unfolding record_page
record_page_not_found pid fault status r free ne entry absent =
    rw
      (
        add_unheld r.machine.table free fault r.paddr pid (with_index status r.index_tlb) entry,
        get_unheld
            (added fault r.paddr (shift_page pid) (with_index status r.index_tlb) r.machine.table)
            free pid fault,
        gone,
      )
      refl
  where
    table' : Table
    table' = added fault r.paddr (shift_page pid) (with_index status r.index_tlb) r.machine.table

    gone : last_index r.machine.table.length (λ i. maps pid fault (table'.next_entry i)) ≡ none
    gone = go _ (last_index-LastIn r.machine.table.length _)
      where
        go :
            (o : Option ℕ)
            → LastIn r.machine.table.length (λ i. maps pid fault (table'.next_entry i)) o
            → o ≡ none
        go none h = refl
        go (some j) (a, b, c) = absurd (ground (arith, absent j a))
