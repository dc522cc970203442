-- ===== src/AddrSpace.antt =====
-- kern/vm/addrspace.c but for `vm_fault`: regions, kernel pages, and the end of a process.
use sdp_project_c.Common.{
  ℕ, zero, suc, ◌+◌, ◌-◌, ◌*◌, ◌/◌, ◌%◌, Bool, true, false, not, ◌&&◌, ◌||◌, Option, none, some,
  Result, ok, err, ◌>>=◌, ◌>>◌, require, assertion, out_of_bounds, tlb_shootdown, leb, ltb, ◌==◌,
  if◌then◌else◌, sweep, u32, sub_u32, page_size, page_frame, page_offset, kseg0,
}
use sdp_project_c.Spinlock.{Spinlock, spinlock_acquire, spinlock_release}
use sdp_project_c.Coremap.{
  Coremap, getppages, freeppages, is_table_active, coremap_bootstrap, ram_getsize,
}
use sdp_project_c.PageTable.{Entry, page_table_remove_on_pids, page_table_init}
use sdp_project_c.Tlb.{tlb_bootstrap, reset_tlb_pid_different}
use sdp_project_c.Stats.{init_stats}
use sdp_project_c.Swap.{swap_bootstrap, swap_remove_pid}
use sdp_project_c.Machine.{Machine, AddrSpace, FileInfo}
pub mod Regions
pub mod Teardown
mod Tests

abbrev pub enosys : ℕ
enosys = 1

abbrev pub enomem : ℕ
enomem = 3

abbrev pub efault : ℕ
efault = 6

abbrev pub einval : ℕ
einval = 8

abbrev pub enoexec : ℕ
enoexec = 13

abbrev pub dumbvm_stackpages : ℕ
dumbvm_stackpages = 18

abbrev pub userstack : ℕ
userstack = kseg0

-- What `vm_can_sleep` asks of the processor: whether `curcpu` exists, how many spinlocks it holds, and
-- whether its thread runs an interrupt handler.
pub record Cpu : Type 0 where
  pub present : Bool
  pub c_spinlocks : ℕ
  pub in_interrupt : Bool

-- `curproc`: its number, and its address space if it has one.
pub record Process : Type 0 where
  pub pid : ℕ
  pub space : Option AddrSpace

-- `vm_can_sleep`
pub vm_can_sleep : Cpu → Result (Unit {0})
vm_can_sleep cpu =
    require (not cpu.present || (cpu.c_spinlocks == 0 && not cpu.in_interrupt)) assertion

-- The allocation tables that addrspace.c has of its own: `freeRamFrames`, `allocSize`, `nRamFrames`
-- and `allocTableActive`, with its `slock`. Nothing but `vm_bootstrap` uses them.
pub record OwnTables : Type 0 where
  pub free_ram_frames : ℕ → Bool
  pub alloc_size : ℕ → ℕ
  pub n_ram_frames : ℕ
  pub alloc_table_active : Bool
  pub slock : Spinlock

-- `vm_bootstrap` where each `kmalloc` succeeds; `raw` is what the fresh page table holds, `opened`,
-- `written` and `size` are those of `swap_bootstrap`.
pub vm_bootstrap :
    Bool → Bool → ℕ → (ℕ → Entry) → OwnTables → Machine → Result (OwnTables × Machine)
unfolding init_stats
vm_bootstrap opened written size raw own m = do
  let n = ram_getsize m.coremap / page_size
  lock ← spinlock_acquire own.slock
  lock' ← spinlock_release lock
  (_, swap') ← swap_bootstrap opened written size m.swap
  table' ← page_table_init (ram_getsize m.coremap) true raw
  coremap' ← coremap_bootstrap true m.coremap
  ok (
    record {
      free_ram_frames = sweep n (λ _ _. false) own.free_ram_frames;
      alloc_size = sweep n (λ _ _. 0) own.alloc_size;
      n_ram_frames = n;
      alloc_table_active = true;
      slock = lock';
    },
    record m {
      swap = swap';
      table = table';
      coremap = coremap';
      tlb = tlb_bootstrap m.tlb;
      stats = init_stats;
    },
  )

-- `alloc_kpages`: a kernel address, 0 without memory.
pub alloc_kpages : Cpu → ℕ → Coremap → Result (ℕ × Coremap)
alloc_kpages cpu npages c = do
  vm_can_sleep cpu
  (pa, c') ← getppages npages c
  ok ((if pa == 0 then 0 else u32 (pa + kseg0)), c')

-- `free_kpages`
pub free_kpages : ℕ → Coremap → Result Coremap
free_kpages addr c = do
  (active, c₁) ← is_table_active c
  if not active then ok c₁ else (do (_, c₂) ← freeppages (sub_u32 addr kseg0) c₁; ok c₂)

-- `as_create`; `raw` is what the fresh `struct file_info` holds.
unfoldable pub as_create : Bool → FileInfo → Option AddrSpace
as_create memory raw =
    if memory
    then some (record {
      as_vbase1 = 0;
      as_npages1 = 0;
      as_vbase2 = 0;
      as_npages2 = 0;
      as_stackpbase = 0;
      allocated_pages = 0;
      fi = raw;
    })
    else none

-- `as_copy`: the error number and `*ret`.
pub as_copy : Bool → FileInfo → AddrSpace → ℕ × Option AddrSpace
unfolding as_create
as_copy memory raw old = elim (as_create memory raw) [
  | none ↦ (enomem, none)
  | some newas ↦ (0, some newas)
]

-- `as_destroy` of the current process.
pub as_destroy : Process → Machine → Result Machine
as_destroy curproc m = do
  (table', coremap') ← page_table_remove_on_pids curproc.pid m.table m.coremap
  ok (record m { table = table'; coremap = coremap'; swap = swap_remove_pid curproc.pid m.swap })

-- `as_activate`
unfoldable pub as_activate : Process → Machine → Result Machine
unfolding reset_tlb_pid_different
as_activate curproc m = elim curproc.space [
  | none ↦ ok m
  | some _ ↦ do
    (tlb', stats') ← reset_tlb_pid_different curproc.pid m.tlb m.stats
    ok (record m { tlb = tlb'; stats = stats' })
]

-- `npages` of `as_define_region`; sizes wrap on 32 bits.
pub region_pages : ℕ → ℕ → ℕ
region_pages vaddr sz = page_frame (u32 (u32 (sz + page_offset vaddr) + page_size - 1)) / page_size

-- `as_define_region`; the permissions are ignored.
pub as_define_region : Cpu → AddrSpace → ℕ → ℕ → ℕ → Result (ℕ × AddrSpace)
as_define_region cpu s vaddr sz offset = do
  vm_can_sleep cpu
  let base = page_frame vaddr
  let npages = region_pages vaddr sz
  ok (
      if s.as_vbase1 == 0
      then (
        0,
        record s {
          as_vbase1 = base;
          as_npages1 = npages;
          fi = record (s.fi) { code_offset = offset; code_sz = sz };
        },
      )
      else (if s.as_vbase2 == 0
          then (
            0,
            record s {
              as_vbase2 = base;
              as_npages2 = npages;
              fi = record (s.fi) { data_offset = offset; data_sz = sz };
            },
          )
          else (enosys, s)))

-- `as_prepare_load` and `as_complete_load`
unfoldable pub as_prepare_load : AddrSpace → ℕ
as_prepare_load s = 0

unfoldable pub as_complete_load : AddrSpace → ℕ
as_complete_load s = 0

-- `as_define_stack`: the error number and `*stackptr`.
unfoldable pub as_define_stack : AddrSpace → ℕ × ℕ
as_define_stack s = (0, userstack)

-- `vm_tlbshootdown`
pub vm_tlbshootdown : Result (Unit {0})
vm_tlbshootdown = err tlb_shootdown
