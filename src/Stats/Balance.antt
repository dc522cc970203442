-- ===== src/Stats/Balance.antt =====
-- The equation between the counters that `print_all_statistics` checks first.
use sdp_project_c.Common.{◌+◌, ◌^◌, ◌<◌, ◌≡◌, true, false, arith, u32}
use sdp_project_c.Stats.{
  Stats, increment_tlb_faults, increment_tlb_faults_free, increment_tlb_faults_replace,
  print_all_statistics,
}

-- `tlb_faults_free + tlb_faults_replace` equals `tlb_faults`, on 32 bits.
abbrev pub IsBalanced : Stats → Type 0
IsBalanced s = u32 (s.tlb_faults_free + s.tlb_faults_replace) ≡ s.tlb_faults

-- In balance, a miss counted as free or as a replacement keeps the balance, and
-- `print_all_statistics` gives no first warning; after a fault that is counted alone it gives one.
pub IsBalanced-print_all_statistics :
    (s : Stats)
    → s.tlb_faults < 2 ^ 32
    → IsBalanced s
    → IsBalanced (increment_tlb_faults (increment_tlb_faults_free s))
      × IsBalanced (increment_tlb_faults (increment_tlb_faults_replace s))
      × ((print_all_statistics s).0 ≡ false)
      × ((print_all_statistics (increment_tlb_faults s)).0 ≡ true)
unfolding increment_tlb_faults increment_tlb_faults_free increment_tlb_faults_replace
    print_all_statistics
IsBalanced-print_all_statistics s lt h = (omega arith, omega arith, ground arith, ground arith)
