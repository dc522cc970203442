-- ===== src/Machine.antt =====
-- The state that the virtual memory system works on, and what it takes from elsewhere.
use sdp_project_c.Common.{ℕ, ◌+◌, ◌-◌, Bool, ◌&&◌, ltb, leb, if◌then◌else◌, page_size}
use sdp_project_c.Spinlock.{Spinlock}
use sdp_project_c.Coremap.{Coremap}
use sdp_project_c.PageTable.{Permission, Table}
use sdp_project_c.Stats.{Stats}
use sdp_project_c.Tlb.{Tlb}

-- `swap_track` of kern/vm/swapfile.c
pub record SwapTrack : Type 0 where
  pub permission_flag : Permission
  pub pid : ℕ
  pub vaddr : ℕ
  pub valid : Bool

-- The statics of swapfile.c, and the bytes of the swap file: `file i` is the page in slot `i`.
pub record SwapFile : Type 0 where
  pub track : ℕ → SwapTrack
  pub slock : Spinlock
  pub file : ℕ → ℕ → ℕ

-- `memory` holds the byte at each physical address.
pub record Machine : Type 0 where
  pub table : Table
  pub coremap : Coremap
  pub swap : SwapFile
  pub tlb : Tlb
  pub stats : Stats
  pub memory : ℕ → ℕ

-- What the vnode layer answers: whether a read or a write of a slot of the swap file fails, and whether
-- a read of it ends short; the same for a read of the program file at an offset, and its bytes.
pub record Devices : Type 0 where
  pub write_fails : ℕ → Bool
  pub read_fails : ℕ → Bool
  pub read_short : ℕ → Bool
  pub elf_read_fails : ℕ → Bool
  pub elf_bytes : ℕ → ℕ

-- A transfer of `len` bytes to the physical address `paddr`.
abbrev pub store_bytes : ℕ → ℕ → (ℕ → ℕ) → (ℕ → ℕ) → ℕ → ℕ
store_bytes paddr len bytes memory a =
    if leb paddr a && ltb a (paddr + len) then bytes (a - paddr) else memory a

-- `as_zero_region(paddr, 1)`
abbrev pub as_zero_page : ℕ → (ℕ → ℕ) → ℕ → ℕ
as_zero_page paddr memory = store_bytes paddr page_size (λ _. 0) memory

-- `struct file_info` without its vnode, whose bytes are `Devices.elf_bytes`.
pub record FileInfo : Type 0 where
  pub code_offset : ℕ
  pub code_sz : ℕ
  pub data_offset : ℕ
  pub data_sz : ℕ

-- `struct addrspace`; `allocated_pages` is an `int`, held as its bit pattern.
pub record AddrSpace : Type 0 where
  pub as_vbase1 : ℕ
  pub as_npages1 : ℕ
  pub as_vbase2 : ℕ
  pub as_npages2 : ℕ
  pub as_stackpbase : ℕ
  pub allocated_pages : ℕ
  pub fi : FileInfo

abbrev pub max_allocated_pages : ℕ
max_allocated_pages = 50
