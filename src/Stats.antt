-- ===== src/Stats.antt =====
-- kern/vm/vm_stats.c: the counters of the virtual memory system, `int`s held as 32-bit patterns.
use sdp_project_c.Common.{ℕ, ◌+◌, Bool, not, ◌==◌, u32}
pub mod Balance

pub record Stats : Type 0 where
  pub tlb_faults : ℕ
  pub tlb_faults_free : ℕ
  pub tlb_faults_replace : ℕ
  pub tlb_invalidations : ℕ
  pub tlb_reloads : ℕ
  pub page_faults_zeroed : ℕ
  pub page_faults_disk : ℕ
  pub page_faults_elf : ℕ
  pub page_faults_swapin : ℕ
  pub page_faults_swapout : ℕ
  pub swapfile_writes : ℕ

unfoldable pub init_stats : Stats
init_stats = record {
  tlb_faults = 0;
  tlb_faults_free = 0;
  tlb_faults_replace = 0;
  tlb_invalidations = 0;
  tlb_reloads = 0;
  page_faults_zeroed = 0;
  page_faults_disk = 0;
  page_faults_elf = 0;
  page_faults_swapin = 0;
  page_faults_swapout = 0;
  swapfile_writes = 0;
}

-- `x++` on an `int`
abbrev pub next : ℕ → ℕ
next n = u32 (n + 1)

unfoldable pub increment_tlb_faults : Stats → Stats
increment_tlb_faults s = record s { tlb_faults = next s.tlb_faults }

unfoldable pub increment_tlb_faults_free : Stats → Stats
increment_tlb_faults_free s = record s { tlb_faults_free = next s.tlb_faults_free }

unfoldable pub increment_tlb_faults_replace : Stats → Stats
increment_tlb_faults_replace s = record s { tlb_faults_replace = next s.tlb_faults_replace }

unfoldable pub increment_tlb_invalidations : Stats → Stats
increment_tlb_invalidations s = record s { tlb_invalidations = next s.tlb_invalidations }

unfoldable pub increment_tlb_reloads : Stats → Stats
increment_tlb_reloads s = record s { tlb_reloads = next s.tlb_reloads }

unfoldable pub increment_page_faults_zeroed : Stats → Stats
increment_page_faults_zeroed s = record s { page_faults_zeroed = next s.page_faults_zeroed }

unfoldable pub increment_page_faults_disk : Stats → Stats
increment_page_faults_disk s = record s { page_faults_disk = next s.page_faults_disk }

unfoldable pub increment_page_faults_elf : Stats → Stats
increment_page_faults_elf s = record s { page_faults_elf = next s.page_faults_elf }

unfoldable pub increment_page_faults_swapin : Stats → Stats
increment_page_faults_swapin s = record s { page_faults_swapin = next s.page_faults_swapin }

unfoldable pub increment_page_faults_swapout : Stats → Stats
increment_page_faults_swapout s = record s { page_faults_swapout = next s.page_faults_swapout }

unfoldable pub increment_swapfile_writes : Stats → Stats
increment_swapfile_writes s = record s { swapfile_writes = next s.swapfile_writes }

-- The three warnings of `print_all_statistics`, each with whether it is printed.
unfoldable pub print_all_statistics : Stats → Bool × Bool × Bool
print_all_statistics s = (
  not (u32 (s.tlb_faults_free + s.tlb_faults_replace) == s.tlb_faults),
  not (u32 (s.tlb_reloads + s.page_faults_disk + s.page_faults_zeroed) == s.tlb_faults),
  not (
      u32 (s.page_faults_elf + s.page_faults_swapin + s.page_faults_swapout) == s.page_faults_disk),
)
