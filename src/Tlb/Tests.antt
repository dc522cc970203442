-- ===== src/Tlb/Tests.antt =====
-- The translation buffer with two entries in use, and full.
use sdp_project_c.Common.{ℕ, ◌+◌, ◌*◌, refl, true, none, List, [], ◌∷◌, Returns, arith, ltb}
use sdp_project_c.Spinlock.{unheld}
use sdp_project_c.Stats.{init_stats}
use sdp_project_c.Tlb.{Tlb, add_entry}
use sdp_project_c.Tlb.Victims.{Adds, add_entry-Adds}

-- Entries 0 and 1 hold pages of process 7.
abbrev pair : Tlb
pair = record {
  bitmap = λ i. ltb i 2;
  entry_hi = λ i. 0x1000 * i + 7 * 64;
  entry_lo = λ i. 0x3600;
  next_victim = 5;
  slock = unheld;
}

abbrev full : Tlb
full = record pair { bitmap = λ _. true; next_victim = 63 }

add_entry-Adds_example :
    Returns (add_entry none 0 0x51c0 0x4600 pair init_stats) (Adds 0x51c0 0x4600 pair init_stats)
add_entry-Adds_example = add_entry-Adds 0x51c0 0x4600 0 pair init_stats refl (omega arith)

abbrev misses : List (ℕ × ℕ)
misses = (0x51c0, 0x4600) ∷ (0x61c0, 0x5600) ∷ (0x71c0, 0x6600) ∷ []
