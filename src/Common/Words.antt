-- ===== src/Common/Words.antt =====
-- Machine words and addresses: kern/arch/mips/include/vm.h.
use Prim.Native.Nat.{ℕ, ◌+◌, ◌-◌, ◌*◌, ◌/◌, ◌%◌, ◌^◌}
use sdp_project_c.Common.Tests.{ltb, if◌then◌else◌}

-- A value of `uint32_t`, `vaddr_t` or `paddr_t`.
abbrev pub u32 : ℕ → ℕ
u32 n = n % 2 ^ 32

-- `unsigned char`
abbrev pub u8 : ℕ → ℕ
u8 n = n % 2 ^ 8

-- a - b on 32 bits
abbrev pub sub_u32 : ℕ → ℕ → ℕ
sub_u32 a b = (a + 2 ^ 32 - b) % 2 ^ 32

abbrev pub page_size : ℕ
page_size = 4096

-- `addr & PAGE_FRAME` and `addr & ~PAGE_FRAME`
abbrev pub page_frame : ℕ → ℕ
page_frame addr = addr / 4096 * 4096

abbrev pub page_offset : ℕ → ℕ
page_offset addr = addr % 4096

-- `(int)addr >> 12`, stored in an unsigned: the sign bit is copied down.
abbrev pub shift_page : ℕ → ℕ
shift_page addr = if ltb addr (2 ^ 31) then addr / 4096 else addr / 4096 + 0xfff00000

abbrev pub kseg0 : ℕ
kseg0 = 0x8000_0000
