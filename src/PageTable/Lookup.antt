-- ===== src/PageTable/Lookup.antt =====
-- What the page table finds: lookups against additions and resets.
use sdp_project_c.Common.{
  ℕ, ◌*◌, ◌≤◌, ◌<◌, ◌≡◌, refl, ◌≢◌, true, false, Option, none, some, ok, ◌>>=◌, Returns, arith,
  last_index, last_index-LastIn, last_index-only, update, LastIn, sweep_at, page_size,
}
use sdp_project_c.Spinlock.{unheld}
use sdp_project_c.PageTable.Locked.{added, removed, get_unheld, add_unheld, reset_unheld}
use sdp_project_c.PageTable.{
  answer, Table, maps, cleared, moved_up, no_pid, page_table_get_paddr_entry, page_table_add_entry,
  page_table_reset_entry,
}

-- The answer of a lookup: the last frame that holds the page, or none of them does.
abbrev pub Finds : ℕ → ℕ → Table → Option (ℕ × ℕ) → Type 0
Finds pid vaddr t none = (j : ℕ) → j < t.length → maps pid vaddr (t.next_entry j) ≡ false
Finds pid vaddr t (some (paddr, status)) =
    (j : ℕ) × (j < t.length)
    × (paddr ≡ j * page_size)
    × (status ≡ (t.next_entry j).status)
    × (maps pid vaddr (t.next_entry j) ≡ true)
    × ((k : ℕ) → j < k → k < t.length → maps pid vaddr (t.next_entry k) ≡ false)

answer-Finds :
    (pid vaddr : ℕ) (t : Table)
    → t.length ≤ 0x10_0000
    → (o : Option ℕ) → LastIn t.length (λ i. maps pid vaddr (t.next_entry i)) o
    → Finds pid vaddr t (answer t o)
answer-Finds pid vaddr t small none h = h
answer-Finds pid vaddr t small (some j) (lt, hit, later) = (j, lt, omega arith, refl, hit, later)

-- A lookup under a free lock leaves the table as it was, and gives the address and status of the
-- last frame that holds the page, or nothing if no frame does.
pub page_table_get_paddr_entry-Finds :
    (pid vaddr : ℕ) (t : Table)
    → t.table_lock ≡ unheld
    → t.length ≤ 0x10_0000
    → Returns (page_table_get_paddr_entry pid vaddr t) (λ r. (r.1 ≡ t) × Finds pid vaddr t r.0)
page_table_get_paddr_entry-Finds pid vaddr t free small =
    rw (get_unheld t free) (refl, answer-Finds pid vaddr t small _ (last_index-LastIn t.length _))

-- What `page_table_add_entry` records under a free lock is what the next lookup gives: the page's
-- address and status, if no other frame holds that page of that process.
pub page_table_get_paddr_entry-page_table_add_entry :
    (pid vaddr frame status : ℕ) (t : Table)
    → t.table_lock ≡ unheld
    → frame < t.length
    → t.length ≤ 0x8_0000
    → ((j : ℕ) → j < t.length → j ≢ frame → maps pid vaddr (t.next_entry j) ≡ false)
    → Returns
        (page_table_add_entry pid vaddr (frame * page_size) status t >>= λ t'.
          page_table_get_paddr_entry pid vaddr t')
        (λ r. r.0 ≡ some (frame * page_size, status))
page_table_get_paddr_entry-page_table_add_entry pid vaddr frame status t free lt small only =
    rw (add, get_unheld (added pid vaddr frame status t) free, found) (ground arith)
  where
    add :
        page_table_add_entry pid vaddr (frame * page_size) status t
        ≡ ok (added pid vaddr frame status t)
    add = ground (arith, add_unheld t free pid vaddr (frame * page_size) status)

    found :
        last_index t.length (λ i. maps pid vaddr ((added pid vaddr frame status t).next_entry i))
        ≡ some frame
    found = last_index-only t.length frame _ lt (ground arith) (λ i p q. ground (arith, only i p))

-- Once `page_table_reset_entry` has cleared the only frame that holds a page of a process, the
-- next lookup of that page finds nothing.
pub page_table_get_paddr_entry-page_table_reset_entry :
    (pid vaddr frame : ℕ) (t : Table)
    → t.table_lock ≡ unheld
    → frame < t.length
    → pid ≢ no_pid
    → ((j : ℕ) → j < t.length → j ≢ frame → maps pid vaddr (t.next_entry j) ≡ false)
    → Returns
        (page_table_reset_entry frame t >>= λ t'. page_table_get_paddr_entry pid vaddr t')
        (λ r. r.0 ≡ none)
page_table_get_paddr_entry-page_table_reset_entry pid vaddr frame t free lt user only =
    rw (reset_unheld t free frame lt, get_unheld (removed frame t) free, gone) refl
  where
    gone : last_index t.length (λ i. maps pid vaddr ((removed frame t).next_entry i)) ≡ none
    gone = go (last_index t.length _) (last_index-LastIn t.length _)
      where
        go :
            (o : Option ℕ)
            → LastIn t.length (λ i. maps pid vaddr ((removed frame t).next_entry i)) o
            → o ≡ none
        go none h = refl
        go (some j) (a, b, c) = ground (
          arith,
          only j a,
          sweep_at t.length
              (λ _ e. moved_up (t.next_entry frame).pid (t.next_entry frame).position_fifo e)
              (update t.next_entry frame (cleared (t.next_entry frame))) j,
        )
