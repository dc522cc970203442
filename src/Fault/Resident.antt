-- ===== src/Fault/Resident.antt =====
-- A fault on a page that is in memory.
use sdp_project_c.Common.{
  ℕ, ◌*◌, ◌/◌, ◌≤◌, ◌<◌, ◌≡◌, refl, ◌⊎◌, inl, inr, true, Option, none, some, Result, ok, err, ◌>>=◌,
  Returns, arith, ◌==◌, page_size, page_frame, u32, last_index, last_index-only, last_index-LastIn,
  LastIn,
}
use sdp_project_c.Spinlock.{unheld}
use sdp_project_c.Stats.{Stats, next, increment_tlb_faults, increment_tlb_reloads}
use sdp_project_c.PageTable.{maps}
use sdp_project_c.PageTable.Locked.{get_unheld, set_status_lem}
use sdp_project_c.Tlb.{Tlb, num_tlb, add_entry}
use sdp_project_c.Tlb.Victims.{Adds, add_entry-Adds}
use sdp_project_c.Machine.{Machine, Devices, AddrSpace}
use sdp_project_c.AddrSpace.{Process}
use sdp_project_c.Fault.{
  FaultType, read, write, readonly, unknown, Outcome, Claim, Answer, served, located, is_set_up,
  entry_hi, entry_lo, find_page, install, fault_in, fault_process, vm_fault,
}

abbrev pub reloaded : Stats → Stats
reloaded s = increment_tlb_reloads (increment_tlb_faults s)

-- What a fault on the resident page in frame `j` leaves: the address space, the memory, the free frames
-- and the swap file as they were, and in one entry of the translation buffer, chosen as `add_entry` does,
-- the page of the process with its frame. The fault is counted twice in `tlb_faults`.
pub record Reloaded (pid page j : ℕ) (s : AddrSpace) (m : Machine) (o : Outcome) : Type 0 where
  pub code : o.code ≡ 0
  pub space : o.space ≡ s
  pub memory : o.machine.memory ≡ m.memory
  pub coremap : o.machine.coremap ≡ m.coremap
  pub swap : o.machine.swap ≡ m.swap
  pub index : ℕ
  pub entry :
      Adds
        (entry_hi page pid)
        (entry_lo (j * page_size))
        m.tlb
        (reloaded m.stats)
        (index, o.machine.tlb, o.machine.stats)
  pub twice : o.machine.stats.tlb_faults ≡ next (next m.stats.tlb_faults)
  pub reloads : o.machine.stats.tlb_reloads ≡ next m.stats.tlb_reloads

module _ (dev : Devices) (raw pid page j : ℕ) (s : AddrSpace) (m : Machine)
    (free : m.table.table_lock ≡ unheld) (free_tlb : m.tlb.slock ≡ unheld)
    (turn : m.tlb.next_victim < num_tlb) (set_up : is_set_up s ≡ true)
    (small : m.table.length ≤ 0x8_0000)
    (found : last_index m.table.length (λ i. maps pid page (m.table.next_entry i)) ≡ some j) where
  claim : Claim
  claim = record {
    paddr = u32 (j * page_size);
    index_tlb = none;
    space = s;
    machine = record m { stats = increment_tlb_reloads m.stats };
  }

  find_resident : find_page dev pid page s m ≡ ok (located claim)
  unfolding find_page claim
  find_resident = rw (get_unheld m.table free, found) refl

  bound : j < m.table.length
  bound = go _ found (last_index-LastIn m.table.length _)
    where
      go :
          (o : Option ℕ)
          → o ≡ some j
          → LastIn m.table.length (λ i. maps pid page (m.table.next_entry i)) o
          → j < m.table.length
      go none e h = absurd (cc)
      go (some k) e h = ground (arith, h.0)

  -- The end of the fault, over what `add_entry` gave.
  finish :
      (r : Result (ℕ × Tlb × Stats))
      → Returns r (
          Adds (entry_hi page pid) (entry_lo (j * page_size)) m.tlb (increment_tlb_reloads m.stats))
      → add_entry none raw
          (entry_hi page pid)
          (entry_lo (j * page_size))
          m.tlb
          (increment_tlb_reloads m.stats)
        ≡ r
      → Returns (install raw pid page claim) (λ o.
        (o.code ≡ 0)
        × (o.space ≡ s)
        × (o.machine.memory ≡ m.memory)
        × (o.machine.coremap ≡ m.coremap)
        × (o.machine.swap ≡ m.swap)
        × ((i : ℕ) × Adds
              (entry_hi page pid)
              (entry_lo (j * page_size))
              m.tlb
              (increment_tlb_reloads m.stats)
              (i, o.machine.tlb, o.machine.stats)))
  unfolding install claim
  finish (err e) h eq = absurd h
  finish (ok (i, tlb', stats')) h eq =
      let exact : u32 (j * page_size) ≡ j * page_size = omega (arith, bound) in
      let aligned : (page_frame (j * page_size) == j * page_size) ≡ true = ground arith in
      let index : j * page_size / page_size ≡ j = omega arith in
      rw (exact, aligned, eq, index, set_status_lem j (i * 4) m.table bound)
        (refl, refl, refl, refl, refl, (i, h))

-- What `Adds` says of the two counters.
Adds-counts :
    (hi lo : ℕ) (t : Tlb) (s : Stats) (r : ℕ × Tlb × Stats)
    → Adds hi lo t (reloaded s) r
    → (r.2.tlb_faults ≡ next (next s.tlb_faults)) × (r.2.tlb_reloads ≡ next s.tlb_reloads)
unfolding increment_tlb_faults increment_tlb_reloads
Adds-counts hi lo t s r (inl (_, _, _, _, e)) = rw e (refl, refl)
Adds-counts hi lo t s r (inr (_, _, _, e)) = rw e (refl, refl)

-- `vm_fault` for a read or a write of a page that one frame holds succeeds, without loading anything: it
-- puts the page with its frame into an entry of the translation buffer that is free, or else the next in
-- turn, and counts a reload. `tlb_faults` goes up by two, where one miss was served.
pub vm_fault-Reloaded :
    (dev : Devices) (raw address j : ℕ) (kind : FaultType) (p : Process) (s : AddrSpace)
    (m : Machine)
    → (kind ≡ read) ⊎ (kind ≡ write)
    → p.space ≡ some s
    → is_set_up s ≡ true
    → m.table.table_lock ≡ unheld
    → m.tlb.slock ≡ unheld
    → m.tlb.next_victim < num_tlb
    → m.table.length ≤ 0x8_0000
    → j < m.table.length
    → maps p.pid (page_frame address) (m.table.next_entry j) ≡ true
    → ((i : ℕ)
        → i < m.table.length
        → maps p.pid (page_frame address) (m.table.next_entry i) ≡ true
        → i ≡ j)
    → Returns
        (vm_fault dev raw (some p) kind address m)
        (λ a. (o : Outcome) × (a ≡ served o) × Reloaded p.pid (page_frame address) j s m o)
unfolding vm_fault fault_process fault_in
vm_fault-Reloaded dev raw address j kind p s m rw_fault space set_up free free_tlb turn small lt
      here only =
    serve kind rw_fault
  where
    m₁ : Machine
    m₁ = record m { stats = increment_tlb_faults m.stats }

    page : ℕ
    page = page_frame address

    found : last_index m.table.length (λ i. maps p.pid page (m.table.next_entry i)) ≡ some j
    found = last_index-only m.table.length j _ lt here only

    claimed : Claim
    claimed = claim dev raw p.pid page j s m₁ free free_tlb turn set_up small found

    wrap :
        (r : Result Outcome)
        → Returns r (λ o.
          (o.code ≡ 0)
          × (o.space ≡ s)
          × (o.machine.memory ≡ m.memory)
          × (o.machine.coremap ≡ m.coremap)
          × (o.machine.swap ≡ m.swap)
          × ((i : ℕ) × Adds
                (entry_hi page p.pid)
                (entry_lo (j * page_size))
                m.tlb
                (reloaded m.stats)
                (i, o.machine.tlb, o.machine.stats)))
        → Returns {A = Answer}
            (r >>= λ o. ok (served o))
            (λ a. (o : Outcome) × (a ≡ served o) × Reloaded p.pid page j s m o)
    wrap (err e) h = h
    wrap (ok o) (a, b, c, d, e, (i, added)) =
        let counts = Adds-counts _ _ m.tlb m.stats (i, o.machine.tlb, o.machine.stats) added in
        (
          o,
          refl,
          record {
            code = a;
            space = b;
            memory = c;
            coremap = d;
            swap = e;
            index = i;
            entry = added;
            twice = counts.0;
            reloads = counts.1;
          },
        )

    done :
        Returns
          (fault_process dev raw (some p) page m₁)
          (λ a. (o : Outcome) × (a ≡ served o) × Reloaded p.pid page j s m o)
    done =
        rw
          (
            space,
            set_up,
            find_resident dev raw p.pid page j s m₁ free free_tlb turn set_up small found,
          )
          (wrap (install raw p.pid page claimed) (
            finish dev raw p.pid page j s m₁ free free_tlb turn set_up small found _
              (add_entry-Adds (entry_hi page p.pid) (entry_lo (j * page_size)) raw m.tlb
                (increment_tlb_reloads m₁.stats) free_tlb turn)
              refl))

    serve :
        (kind : FaultType)
        → (kind ≡ read) ⊎ (kind ≡ write)
        → Returns
            (vm_fault dev raw (some p) kind address m)
            (λ a. (o : Outcome) × (a ≡ served o) × Reloaded p.pid page j s m o)
    serve read h = done
    serve write h = done
    serve readonly (inl h) = absurd (cc)
    serve readonly (inr h) = absurd (cc)
    serve unknown (inl h) = absurd (cc)
    serve unknown (inr h) = absurd (cc)
