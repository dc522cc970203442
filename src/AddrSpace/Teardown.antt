-- ===== src/AddrSpace/Teardown.antt =====
-- The end of a process and the switch to another: `as_destroy` and `as_activate`.
use sdp_project_c.Common.{ℕ, ◌<◌, ◌≡◌, refl, ◌≢◌, false, some, err, Returns, arith, deadlock}
use sdp_project_c.Spinlock.{unheld}
use sdp_project_c.PageTable.Locked.{
  page_table_remove_on_pids_deadlock, page_table_remove_on_pids_absent,
}
use sdp_project_c.Tlb.{num_tlb, pid_of}
use sdp_project_c.Tlb.Flush.{reset_tlb_pid_different_deadlock}
use sdp_project_c.Swap.{number_entries, tracks}
use sdp_project_c.Swap.Slots.{swap_remove_pid_frees}
use sdp_project_c.Machine.{Machine, AddrSpace}
use sdp_project_c.AddrSpace.{Process, as_destroy, as_activate}

-- `as_destroy` of a process without a page in memory frees all its slots of the swap file, keeps those of
-- the other processes, and leaves the page table and the frames as they were.
pub as_destroy_frees :
    (p : Process) (m : Machine)
    → p.pid < 0x8000_0000
    → m.table.table_lock ≡ unheld
    → ((j : ℕ) → j < m.table.length → (m.table.next_entry j).pid ≢ p.pid)
    → Returns (as_destroy p m) (λ m'.
      (m'.table ≡ m.table)
      × (m'.coremap ≡ m.coremap)
      × ((i vaddr : ℕ) → i < number_entries → tracks p.pid vaddr (m'.swap.track i) ≡ false)
      × ((i : ℕ) → (m.swap.track i).pid ≢ p.pid → m'.swap.track i ≡ m.swap.track i))
unfolding as_destroy
as_destroy_frees p m small free absent =
    rw (page_table_remove_on_pids_absent p.pid m.table m.coremap small free absent) (
      refl,
      refl,
      (swap_remove_pid_frees p.pid m.swap (omega arith)).0,
      (swap_remove_pid_frees p.pid m.swap (omega arith)).1,
    )

-- `as_destroy` of a process with a page in memory panics.
pub as_destroy_deadlock :
    (p : Process) (k : ℕ) (m : Machine)
    → p.pid < 0x8000_0000
    → m.table.table_lock ≡ unheld
    → k < m.table.length
    → (m.table.next_entry k).pid ≡ p.pid
    → as_destroy p m ≡ err deadlock
unfolding as_destroy
as_destroy_deadlock p k m small free lt owns =
    rw (page_table_remove_on_pids_deadlock p.pid k m.table m.coremap small free lt owns) refl

-- `as_activate` of a process with an address space panics when the translation buffer has an entry of
-- another process.
pub as_activate_deadlock :
    (p : Process) (s : AddrSpace) (k : ℕ) (m : Machine)
    → m.tlb.slock ≡ unheld
    → p.space ≡ some s
    → k < num_tlb
    → pid_of (m.tlb.entry_hi k) ≢ p.pid
    → as_activate p m ≡ err deadlock
unfolding as_activate
as_activate_deadlock p s k m free e lt other =
    rw (e, reset_tlb_pid_different_deadlock p.pid k m.tlb m.stats free lt other) refl
