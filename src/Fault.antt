-- ===== src/Fault.antt =====
-- `vm_fault` of kern/vm/addrspace.c: pages on demand. A failed read of the program file is ignored
-- there, so that `read_elf_page` gives the memory alone.
use sdp_project_c.Common.{
  ℕ, zero, suc, ◌+◌, ◌-◌, ◌*◌, ◌/◌, ◌%◌, Bool, true, false, not, ◌&&◌, ◌||◌, Option, none, some,
  Result, ok, err, ◌>>=◌, ◌>>◌, require, assertion, out_of_bounds, exit_thread, leb, ltb, ◌==◌,
  if◌then◌else◌, u32, sub_u32, page_size, page_frame, page_offset, bit_or,
}
use sdp_project_c.Coremap.{getppages}
use sdp_project_c.PageTable.{
  page_table_get_paddr_entry, page_table_replacement, page_table_get_status_on_index,
  page_table_set_status_at_index, page_table_add_entry,
}
use sdp_project_c.Tlb.{add_entry}
use sdp_project_c.Stats.{
  increment_tlb_faults, increment_tlb_reloads, increment_page_faults_disk,
  increment_page_faults_zeroed, increment_page_faults_elf,
}
use sdp_project_c.Swap.{swap_in, swap_out}
use sdp_project_c.Machine.{
  Machine, Devices, AddrSpace, FileInfo, store_bytes, as_zero_page, max_allocated_pages,
}
use sdp_project_c.AddrSpace.{Process, as_destroy, efault, einval, dumbvm_stackpages, userstack}
pub mod Extents
pub mod Resident
pub mod Refused
pub mod Demand
mod Tests

-- VM_FAULT_READ, VM_FAULT_WRITE, VM_FAULT_READONLY, and any other number.
pub data FaultType : Type 0 where
  read write readonly unknown : FaultType

-- What `vm_fault` leaves: its error number, the address space and the machine.
pub record Outcome : Type 0 where
  pub code : ℕ
  pub space : AddrSpace
  pub machine : Machine

-- A frame for a page that is loaded: the address, `index_tlb`, and the state.
pub record Claim : Type 0 where
  pub paddr : ℕ
  pub index_tlb : Option ℕ
  pub space : AddrSpace
  pub machine : Machine

-- Where a page is: in no segment, with the state, or in a frame.
pub data Location : Type 0 where
  nowhere : AddrSpace → Machine → Location
  located : Claim → Location

-- `as->allocated_pages >= MAX_ALLOCATED_PAGES` on an `int`
abbrev pub at_limit : AddrSpace → Bool
at_limit s = leb max_allocated_pages s.allocated_pages && ltb s.allocated_pages 0x8000_0000

-- The frame of the victim: its status, a byte, goes to `index_tlb` before the test for -1, which reads
-- outside the table if there is no victim.
pub evict : Devices → ℕ → AddrSpace → Machine → Result Claim
evict dev pid s m = do
  let victim = page_table_replacement pid m.table
  index_tlb ←
      page_table_get_status_on_index (elim victim [ none ↦ none | some (i, e) ↦ some i ]) m.table
  elim victim [
    | none ↦ err out_of_bounds
    | some (i, e) ↦ do
      m' ← swap_out dev pid e.vaddr e.permission_flag (u32 (i * page_size)) m
      ok (record {
        paddr = u32 (i * page_size);
        index_tlb = some index_tlb;
        space = record s { allocated_pages = sub_u32 s.allocated_pages 1 };
        machine = m';
      })
  ]

-- The frame that each of the three segments starts with, counted and zeroed.
pub claim_frame : Devices → ℕ → AddrSpace → Machine → Result Claim
unfolding evict increment_page_faults_zeroed
claim_frame dev pid s m = do
  (got, c) ← (if at_limit s then ok (0, m.coremap) else getppages 1 m.coremap)
  let m₁ = record m { coremap = c }
  r ←
      (if got == 0
        then evict dev pid s m₁
        else ok (record { paddr = got; index_tlb = none; space = s; machine = m₁ }))
  let p = r.paddr
  ok (record {
    paddr = p;
    index_tlb = r.index_tlb;
    space = record (r.space) { allocated_pages = u32 (r.space.allocated_pages + 1) };
    machine = record (r.machine) {
      memory = as_zero_page p r.machine.memory;
      stats = increment_page_faults_zeroed r.machine.stats;
    };
  })

-- The end of a segment, as the code computes it.
abbrev pub segment_top : ℕ → ℕ → ℕ
segment_top vbase npages = u32 (vbase + u32 (npages * page_size))

-- `size_to_read` for the page at `fault` of a segment at `vbase` of `npages` pages, which has `sz` bytes
-- from `offset` on in the file.
pub size_to_read : ℕ → ℕ → ℕ → ℕ → ℕ → ℕ
size_to_read fault vbase npages offset sz =
    if fault == vbase
    then if ltb sz (page_size - page_offset offset) then sz else page_size - page_offset offset
    else (if fault == sub_u32 (segment_top vbase npages) page_size
        then sub_u32 (sub_u32 sz (u32 ((npages - 1) * page_size))) (page_offset offset)
        else page_size)

-- Where `read_elf_page` puts the bytes, and where it takes them.
pub read_target : ℕ → ℕ → ℕ → ℕ → ℕ
read_target fault vbase offset paddr = paddr + (if fault == vbase then page_offset offset else 0)

pub read_source : ℕ → ℕ → ℕ → ℕ
read_source fault vbase offset =
    if fault == vbase then offset else page_frame offset + fault - vbase

-- `read_elf_page`; where the read fails no byte is transferred.
pub read_elf_page : Devices → ℕ → ℕ → ℕ → (ℕ → ℕ) → ℕ → ℕ
read_elf_page dev paddr len offset memory =
    if dev.elf_read_fails offset
    then memory
    else store_bytes paddr len (λ k. dev.elf_bytes (offset + k)) memory

-- `if (index_tlb != -1) status |= index_tlb<<2;`
abbrev pub with_index : ℕ → Option ℕ → ℕ
with_index status none = status
with_index status (some i) = bit_or status (i * 4)

-- The call of `page_table_add_entry` in each segment has the page, the frame and the process where the
-- function takes the process, the page and the frame.
pub record_page : ℕ → ℕ → ℕ → Claim → Result Claim
record_page pid fault status r = do
  table' ← page_table_add_entry fault r.paddr pid (with_index status r.index_tlb) r.machine.table
  ok (record r { machine = record (r.machine) { table = table' } })

-- The code and the data segment.
pub load_segment : Devices → ℕ → ℕ → ℕ → ℕ → ℕ → ℕ → ℕ → AddrSpace → Machine → Result Claim
unfolding claim_frame record_page read_elf_page size_to_read read_target read_source
    increment_page_faults_disk increment_page_faults_elf
load_segment dev pid fault vbase npages offset sz status s m = do
  r ← claim_frame dev pid s m
  let m₁ = r.machine
  record_page pid fault status (record r {
    machine = record m₁ {
      memory =
          read_elf_page dev (read_target fault vbase offset r.paddr)
            (size_to_read fault vbase npages offset sz) (read_source fault vbase offset) m₁.memory;
      stats = increment_page_faults_elf (increment_page_faults_disk m₁.stats);
    };
  })

-- The stack: a page of zeros.
pub load_stack : Devices → ℕ → ℕ → AddrSpace → Machine → Result Claim
unfolding claim_frame record_page
load_stack dev pid fault s m = do r ← claim_frame dev pid s m; record_page pid fault 0 r

abbrev pub inside : ℕ → ℕ → ℕ → Bool
inside fault low high = leb low fault && ltb fault high

-- Loading on demand; `nowhere` is EFAULT.
pub demand_load : Devices → ℕ → ℕ → AddrSpace → Machine → Result Location
unfolding load_segment load_stack
demand_load dev pid fault s m =
    if inside fault s.as_vbase1 (segment_top s.as_vbase1 s.as_npages1)
    then (do
      r ← load_segment dev pid fault s.as_vbase1 s.as_npages1 s.fi.code_offset s.fi.code_sz 1 s m
      ok (located r))
    else (if inside fault s.as_vbase2 (segment_top s.as_vbase2 s.as_npages2)
        then (do
          r ←
              load_segment dev pid fault s.as_vbase2 s.as_npages2 s.fi.data_offset s.fi.data_sz 0 s
                m
          ok (located r))
        else (if inside fault (userstack - dumbvm_stackpages * page_size) userstack
            then (do r ← load_stack dev pid fault s m; ok (located r))
            else ok (nowhere s m)))

-- The frame of the page: it is resident, or in the swap file, or loaded on demand.
pub find_page : Devices → ℕ → ℕ → AddrSpace → Machine → Result Location
unfolding demand_load increment_tlb_reloads increment_page_faults_disk
find_page dev pid fault s m = do
  (found, table') ← page_table_get_paddr_entry pid fault m.table
  let m₁ = record m { table = table' }
  elim found [
    | some (paddr, status) ↦ ok (
        located (record {
          paddr = paddr;
          index_tlb = none;
          space = s;
          machine = record m₁ { stats = increment_tlb_reloads m₁.stats };
        }))
    | none ↦ do
      (swapped, s', m₂) ← swap_in dev s pid fault m₁
      elim swapped [
        | none ↦ demand_load dev pid fault s' m₂
        | some paddr ↦ do
          page_table_get_status_on_index (some (paddr / page_size)) m₂.table >>= λ status. ok (
              located (record {
                paddr = paddr;
                index_tlb = none;
                space = s';
                machine = record m₂ { stats = increment_page_faults_disk m₂.stats };
              }))
      ]
  ]

-- `faultaddress | pid << 6` and `paddr | TLBLO_DIRTY | TLBLO_VALID`
abbrev pub entry_hi : ℕ → ℕ → ℕ
entry_hi fault pid = bit_or fault (u32 (pid * 64))

abbrev pub entry_lo : ℕ → ℕ
entry_lo paddr = bit_or (bit_or paddr 0x400) 0x200

-- The end of `vm_fault`: the entry of the translation buffer. `raw` is the variable of `add_entry` that
-- may be read without having been set.
pub install : ℕ → ℕ → ℕ → Claim → Result Outcome
install raw pid fault r = do
  require (page_frame r.paddr == r.paddr) assertion
  (i, tlb', stats') ←
      add_entry r.index_tlb raw (entry_hi fault pid) (entry_lo r.paddr) r.machine.tlb
        r.machine.stats
  table' ← page_table_set_status_at_index (r.paddr / page_size) (i * 4) r.machine.table
  ok (record {
    code = 0;
    space = r.space;
    machine = record (r.machine) { tlb = tlb'; stats = stats'; table = table' };
  })

-- The assertions on the address space.
abbrev pub is_set_up : AddrSpace → Bool
is_set_up s =
    not (s.as_vbase1 == 0)
    && not (s.as_npages1 == 0)
    && not (s.as_vbase2 == 0)
    && not (s.as_npages2 == 0)
    && page_frame s.as_vbase1 == s.as_vbase1
    && page_frame s.as_vbase2 == s.as_vbase2
    && page_frame s.as_stackpbase == s.as_stackpbase

-- `vm_fault` in a process with an address space, once the kind of fault is known.
pub fault_in : Devices → ℕ → ℕ → ℕ → AddrSpace → Machine → Result Outcome
unfolding find_page install
fault_in dev raw pid fault s m = do
  require (is_set_up s) assertion
  found ← find_page dev pid fault s m
  elim found [
    | nowhere s' m' ↦ ok (record { code = efault; space = s'; machine = m' })
    | located r ↦ install raw pid fault r
  ]

-- What `vm_fault` returns: an error number with the machine, or the outcome of a fault that was served.
pub data Answer : Type 0 where
  refused : ℕ → Machine → Answer
  served : Outcome → Answer

-- The part of `vm_fault` after the switch on the kind of fault.
pub fault_process : Devices → ℕ → Option Process → ℕ → Machine → Result Answer
unfolding fault_in
fault_process dev raw none fault m = ok (refused efault m)
fault_process dev raw (some p) fault m = elim p.space [
  | none ↦ ok (refused efault m)
  | some s ↦ do o ← fault_in dev raw p.pid fault s m; ok (served o)
]

-- `vm_fault`. A write to a read-only page destroys the address space and ends the thread; without a
-- process `as_destroy` reads through NULL.
pub vm_fault : Devices → ℕ → Option Process → FaultType → ℕ → Machine → Result Answer
unfolding fault_process increment_tlb_faults
vm_fault dev raw curproc unknown address m = ok (refused einval m)
vm_fault dev raw none readonly address m = err out_of_bounds
vm_fault dev raw (some p) readonly address m = do m' ← as_destroy p m; err exit_thread
vm_fault dev raw curproc read address m =
    fault_process dev raw curproc (page_frame address)
      (record m { stats = increment_tlb_faults m.stats })
vm_fault dev raw curproc write address m =
    fault_process dev raw curproc (page_frame address)
      (record m { stats = increment_tlb_faults m.stats })
