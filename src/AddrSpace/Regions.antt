-- ===== src/AddrSpace/Regions.antt =====
-- The two regions of an address space.
use sdp_project_c.Common.{
  ℕ, ◌+◌, ◌*◌, ◌%◌, ◌≤◌, ◌<◌, ◌≡◌, refl, ◌≢◌, ◌⊎◌, inl, inr, true, false, none, some, ok, Returns,
  ℕ_discrete, arith, ◌==◌, page_size, page_frame, kseg0,
}
use sdp_project_c.Machine.{AddrSpace, FileInfo}
use sdp_project_c.AddrSpace.{
  Cpu, vm_can_sleep, region_pages, as_create, as_copy, as_define_region, enosys, enomem,
}

-- `npages` pages from `base` on hold the segment, `base` is the page of its first byte, and one page less
-- would not do.
pub record Covers (vaddr sz base npages : ℕ) : Type 0 where
  pub aligned : base % page_size ≡ 0
  pub starts : (base ≤ vaddr) × (vaddr < base + page_size)
  pub holds : vaddr + sz ≤ base + npages * page_size
  pub tight : base + npages * page_size < vaddr + sz + page_size

-- The pages that `as_define_region` counts cover a segment of user memory exactly.
pub region_pages-Covers :
    (vaddr sz : ℕ) → vaddr + sz ≤ kseg0 → Covers vaddr sz (page_frame vaddr) (region_pages vaddr sz)
unfolding region_pages
region_pages-Covers vaddr sz fits = omega arith

-- A processor that may sleep.
abbrev pub MaySleep : Cpu → Type 0
MaySleep cpu = (cpu.c_spinlocks ≡ 0) × (cpu.in_interrupt ≡ false)

pub awake : (cpu : Cpu) → MaySleep cpu → vm_can_sleep cpu ≡ ok tt
unfolding vm_can_sleep
awake cpu sleep = ground arith

-- The first region defined, and nothing of the second changed; or the second and not the first.
abbrev pub DefinesFirst : ℕ → ℕ → ℕ → AddrSpace → AddrSpace → Type 0
DefinesFirst vaddr sz offset s s' =
    (s'.as_vbase1 ≢ 0)
    × Covers vaddr sz s'.as_vbase1 s'.as_npages1
    × (s'.fi.code_offset ≡ offset)
    × (s'.fi.code_sz ≡ sz)
    × (s'.as_vbase2 ≡ s.as_vbase2)
    × (s'.as_npages2 ≡ s.as_npages2)
    × (s'.fi.data_offset ≡ s.fi.data_offset)
    × (s'.fi.data_sz ≡ s.fi.data_sz)

abbrev pub DefinesSecond : ℕ → ℕ → ℕ → AddrSpace → AddrSpace → Type 0
DefinesSecond vaddr sz offset s s' =
    (s'.as_vbase2 ≢ 0)
    × Covers vaddr sz s'.as_vbase2 s'.as_npages2
    × (s'.fi.data_offset ≡ offset)
    × (s'.fi.data_sz ≡ sz)
    × (s'.as_vbase1 ≡ s.as_vbase1)
    × (s'.as_npages1 ≡ s.as_npages1)
    × (s'.fi.code_offset ≡ s.fi.code_offset)
    × (s'.fi.code_sz ≡ s.fi.code_sz)

-- `as_define_region` for a segment of user memory that is not on page 0, where sleeping is allowed: the
-- first call defines the first region, the second the second, each covering its segment exactly with its
-- place in the file, and leaving the other region alone; a third is refused with ENOSYS, and changes
-- nothing.
pub as_define_region-Covers :
    (cpu : Cpu) (s : AddrSpace) (vaddr sz offset : ℕ)
    → cpu.c_spinlocks ≡ 0
    → cpu.in_interrupt ≡ false
    → page_size ≤ vaddr
    → vaddr + sz ≤ kseg0
    → Returns (as_define_region cpu s vaddr sz offset) (λ r.
      ((s.as_vbase1 ≡ 0) × (r.0 ≡ 0) × DefinesFirst vaddr sz offset s r.1)
      ⊎ ((s.as_vbase1 ≢ 0) × (s.as_vbase2 ≡ 0) × (r.0 ≡ 0) × DefinesSecond vaddr sz offset s r.1)
      ⊎ ((s.as_vbase1 ≢ 0) × (s.as_vbase2 ≢ 0) × (r.0 ≡ enosys) × (r.1 ≡ s)))
unfolding as_define_region
as_define_region-Covers cpu s vaddr sz offset quiet plain low fits =
    rw (awake cpu (quiet, plain)) (elim (ℕ_discrete s.as_vbase1 0) [
      | yes first ↦
          let t : (s.as_vbase1 == 0) ≡ true = ground arith in
          rw t (
            inl (
              first,
              refl,
              (
                omega (arith, low),
                region_pages-Covers vaddr sz fits,
                refl,
                refl,
                refl,
                refl,
                refl,
                refl,
              ),
            ))
      | no first ↦
          let t : (s.as_vbase1 == 0) ≡ false = ground arith in
          elim (ℕ_discrete s.as_vbase2 0) [
            | yes second ↦
                let u : (s.as_vbase2 == 0) ≡ true = ground arith in
                rw (t, u)
                  (inr (
                    inl (
                      first,
                      second,
                      refl,
                      (
                        omega (arith, low),
                        region_pages-Covers vaddr sz fits,
                        refl,
                        refl,
                        refl,
                        refl,
                        refl,
                        refl,
                      ),
                    )))
            | no second ↦
                let u : (s.as_vbase2 == 0) ≡ false = ground arith in
                rw (t, u) (inr (inr (first, second, refl, refl)))
          ]
    ])

-- An address space without a region or a page.
abbrev pub empty : FileInfo → AddrSpace
empty raw = record {
  as_vbase1 = 0;
  as_npages1 = 0;
  as_vbase2 = 0;
  as_npages2 = 0;
  as_stackpbase = 0;
  allocated_pages = 0;
  fi = raw;
}

-- `as_copy` gives such an address space whatever the old one has, and fails with ENOMEM only for want of
-- memory.
pub as_copy_lem :
    (raw : FileInfo) (old : AddrSpace)
    → (as_copy false raw old ≡ (enomem, none)) × (as_copy true raw old ≡ (0, some (empty raw)))
unfolding as_copy as_create
as_copy_lem raw old = (refl, refl)
