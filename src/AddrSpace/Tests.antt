-- ===== src/AddrSpace/Tests.antt =====
-- Tests of the address spaces.
use sdp_project_c.Common.{◌≡◌, refl, ◌≢◌, ◌⊎◌, true, false, Returns, arith}
use sdp_project_c.Sample.{space}
use sdp_project_c.Machine.{AddrSpace}
use sdp_project_c.AddrSpace.{Cpu, region_pages, as_define_region, enosys}
use sdp_project_c.AddrSpace.Regions.{DefinesFirst, DefinesSecond, as_define_region-Covers}

abbrev thread : Cpu
thread = record { present = true; c_spinlocks = 0; in_interrupt = false }

abbrev fresh : AddrSpace
fresh = record space { as_vbase1 = 0; as_npages1 = 0; as_vbase2 = 0; as_npages2 = 0 }

as_define_region-Covers_example :
    Returns (as_define_region thread fresh 0x400123 0x2345 0x123) (λ r.
      ((fresh.as_vbase1 ≡ 0) × (r.0 ≡ 0) × DefinesFirst 0x400123 0x2345 0x123 fresh r.1)
      ⊎ ((fresh.as_vbase1 ≢ 0)
          × (fresh.as_vbase2 ≡ 0)
          × (r.0 ≡ 0)
          × DefinesSecond 0x400123 0x2345 0x123 fresh r.1)
      ⊎ ((fresh.as_vbase1 ≢ 0) × (fresh.as_vbase2 ≢ 0) × (r.0 ≡ enosys) × (r.1 ≡ fresh)))
as_define_region-Covers_example =
    as_define_region-Covers thread fresh 0x400123 0x2345 0x123 refl refl (omega arith) (omega arith)

-- Three pages hold 0x2345 bytes from the middle of a page on.
region_of_three_pages : region_pages 0x400123 0x2345 ≡ 3
unfolding region_pages
region_of_three_pages = refl
