-- ===== src/Fault/Refused.antt =====
-- Faults that are not served.
use sdp_project_c.Common.{
  ℕ, ◌-◌, ◌*◌, ◌<◌, ◌≡◌, refl, ◌⊎◌, inl, inr, true, false, Option, none, some, ok, err, arith,
  page_size, page_frame, last_index, last_index-LastIn, LastIn, assertion,
}
use sdp_project_c.Spinlock.{unheld}
use sdp_project_c.Stats.{increment_tlb_faults}
use sdp_project_c.PageTable.{maps}
use sdp_project_c.PageTable.Locked.{get_unheld}
use sdp_project_c.Swap.{number_entries, tracks}
use sdp_project_c.Swap.Pressure.{swap_in_missing}
use sdp_project_c.Machine.{Machine, Devices, AddrSpace, FileInfo}
use sdp_project_c.AddrSpace.{Process, efault, as_copy, dumbvm_stackpages, userstack}
use sdp_project_c.AddrSpace.Regions.{as_copy_lem}
use sdp_project_c.Fault.{
  FaultType, read, write, readonly, unknown, served, nowhere, is_set_up, segment_top, inside,
  demand_load, find_page, fault_in, fault_process, vm_fault,
}

-- The page lies in none of the three segments.
abbrev pub Outside : ℕ → AddrSpace → Type 0
Outside page s =
    (inside page s.as_vbase1 (segment_top s.as_vbase1 s.as_npages1) ≡ false)
    × (inside page s.as_vbase2 (segment_top s.as_vbase2 s.as_npages2) ≡ false)
    × (inside page (userstack - dumbvm_stackpages * page_size) userstack ≡ false)

demand_load-Outside :
    (dev : Devices) (pid page : ℕ) (s : AddrSpace) (m : Machine)
    → Outside page s
    → demand_load dev pid page s m ≡ ok (nowhere s m)
unfolding demand_load
demand_load-Outside dev pid page s m (a, b, c) = rw (a, b, c) refl

module _ (dev : Devices) (pid page : ℕ) (s : AddrSpace) (m : Machine)
    (free : m.table.table_lock ≡ unheld) (free_swap : m.swap.slock ≡ unheld)
    (absent : (j : ℕ) → j < m.table.length → maps pid page (m.table.next_entry j) ≡ false)
    (gone : (j : ℕ) → j < number_entries → tracks pid page (m.swap.track j) ≡ false) where
  not_resident : last_index m.table.length (λ i. maps pid page (m.table.next_entry i)) ≡ none
  not_resident = go _ (last_index-LastIn m.table.length _)
    where
      go :
          (o : Option ℕ)
          → LastIn m.table.length (λ i. maps pid page (m.table.next_entry i)) o
          → o ≡ none
      go none h = refl
      go (some j) (a, b, c) = absurd (ground (arith, absent j a))

  -- A page that is neither in memory nor in the swap file is loaded.
  pub find_page-demand_load : find_page dev pid page s m ≡ demand_load dev pid page s m
  unfolding find_page
  find_page-demand_load =
      rw (get_unheld m.table free, not_resident, swap_in_missing dev s pid page m free_swap gone)
        refl

-- `vm_fault` for a read or a write by a process whose address space has both regions and begins each on a whole page, with the locks of
-- the page table and of the swap file free, of a page that is in no segment, in no frame and in no slot of the
-- swap file, gives EFAULT, and changes nothing but the count of faults.
pub vm_fault-Outside :
    (dev : Devices) (raw address : ℕ) (kind : FaultType) (p : Process) (s : AddrSpace) (m : Machine)
    → (kind ≡ read) ⊎ (kind ≡ write)
    → p.space ≡ some s
    → is_set_up s ≡ true
    → m.table.table_lock ≡ unheld
    → m.swap.slock ≡ unheld
    → ((j : ℕ)
        → j < m.table.length
        → maps p.pid (page_frame address) (m.table.next_entry j) ≡ false)
    → ((j : ℕ) → j < number_entries → tracks p.pid (page_frame address) (m.swap.track j) ≡ false)
    → Outside (page_frame address) s
    → vm_fault dev raw (some p) kind address m
      ≡ ok (
          served (record {
            code = efault;
            space = s;
            machine = record m { stats = increment_tlb_faults m.stats };
          }))
unfolding vm_fault fault_process fault_in
vm_fault-Outside dev raw address kind p s m known space set_up free free_swap absent gone out =
    serve kind known
  where
    counted : Machine
    counted = record m { stats = increment_tlb_faults m.stats }

    refuses :
        fault_process dev raw (some p) (page_frame address) counted
        ≡ ok (served (record { code = efault; space = s; machine = counted }))
    refuses =
        rw
          (
            space,
            set_up,
            find_page-demand_load dev p.pid (page_frame address) s counted free free_swap absent
                gone,
            demand_load-Outside dev p.pid (page_frame address) s counted out,
          )
          refl

    serve :
        (kind : FaultType)
        → (kind ≡ read) ⊎ (kind ≡ write)
        → vm_fault dev raw (some p) kind address m
          ≡ ok (served (record { code = efault; space = s; machine = counted }))
    serve read h = refuses
    serve write h = refuses
    serve readonly (inl h) = absurd (cc)
    serve readonly (inr h) = absurd (cc)
    serve unknown (inl h) = absurd (cc)
    serve unknown (inr h) = absurd (cc)

-- Every fault in the address space that `as_copy` gives fails an assertion, whatever the old space has,
-- whatever the kind of access and the address.
pub vm_fault-as_copy :
    (dev : Devices) (raw address pid : ℕ) (kind : FaultType) (fi : FileInfo) (old : AddrSpace)
    (s : AddrSpace) (m : Machine)
    → (kind ≡ read) ⊎ (kind ≡ write)
    → as_copy true fi old ≡ (0, some s)
    → vm_fault dev raw (some (record { pid = pid; space = some s })) kind address m ≡ err assertion
unfolding vm_fault fault_process fault_in
vm_fault-as_copy dev raw address pid kind fi old s m known copied = serve kind known
  where
    unset : s.as_vbase1 ≡ 0
    unset = ground (arith, (as_copy_lem fi old).1)

    fails :
        fault_in dev raw pid
          (page_frame address)
          s
          (record m { stats = increment_tlb_faults m.stats })
        ≡ err assertion
    fails = let t : is_set_up s ≡ false = ground (arith, unset) in rw t refl

    serve :
        (kind : FaultType)
        → (kind ≡ read) ⊎ (kind ≡ write)
        → vm_fault dev raw (some (record { pid = pid; space = some s })) kind address m
          ≡ err assertion
    serve read h = rw fails refl
    serve write h = rw fails refl
    serve readonly (inl h) = absurd (cc)
    serve readonly (inr h) = absurd (cc)
    serve unknown (inl h) = absurd (cc)
    serve unknown (inr h) = absurd (cc)
