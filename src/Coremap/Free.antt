-- ===== src/Coremap/Free.antt =====
-- Freeing runs of frames.
use sdp_project_c.Common.{
  ℕ, ◌+◌, ◌-◌, ◌*◌, ◌/◌, ◌≤◌, ◌<◌, ◌≡◌, refl, subst, ◌≢◌, inl, inr, true, not, ◌&&◌, ok, Returns,
  Returns-map, arith, fill, fill_at, page_size,
}
use sdp_project_c.Spinlock.{spinlock_acquire, spinlock_release}
use sdp_project_c.Coremap.{Coremap, is_table_active, freeppages, getppages}
use sdp_project_c.Coremap.Alloc.{IsValid, in_use, in_run, Hands, getppages-Hands}

freed : ℕ → ℕ → Coremap → Coremap
freed np f c = record c { free_ram_frames = fill np f true c.free_ram_frames }

free_lem :
    (f np : ℕ) (c : Coremap)
    → IsValid c
    → f + np ≤ c.firstpaddr / page_size
    → f < c.firstpaddr / page_size
    → c.alloc_size f ≡ np
    → freeppages (f * page_size) c ≡ ok (1, freed np f c)
unfolding freeppages is_table_active spinlock_acquire spinlock_release freed
free_lem f np c v fits inside size =
    let index : f * page_size / page_size ≡ f = omega arith in
    ground (arith, v.active, v.freemem, v.frames, v.within)

-- `freeppages` of a recorded run that was handed out keeps the map valid, gives 1, and takes exactly
-- the frames of the run out of use.
pub freeppages-frees :
    (f np : ℕ) (c : Coremap)
    → IsValid c
    → 0 < f
    → f + np ≤ c.firstpaddr / page_size
    → f < c.firstpaddr / page_size
    → c.alloc_size f ≡ np
    → Returns (freeppages (f * page_size) c) (λ r.
      (r.0 ≡ 1) × IsValid r.1 × ((j : ℕ) → in_use r.1 j ≡ (in_use c j && not (in_run f np j))))
unfolding freed
freeppages-frees f np c v p fits inside size = rw free_eq (
  refl,
  record {
    aligned = v.aligned;
    low = v.low;
    within = v.within;
    small = v.small;
    frames = v.frames;
    active = v.active;
    freemem = v.freemem;
    stealmem = v.stealmem;
    handed = λ j h. ground (arith, v.handed j, fill_at np f true c.free_ram_frames j);
  },
  λ j. ground (arith, fill_at np f true c.free_ram_frames j),
)
  where
    free_eq : freeppages (f * page_size) c ≡ ok (1, freed np f c)
    free_eq = free_lem f np c v fits inside size

-- Freeing a run that `getppages` has just handed out makes the frames in use what they were.
pub freeppages-getppages :
    (np addr : ℕ) (c c' : Coremap)
    → IsValid c
    → 0 < np
    → np < 0x8_0000
    → getppages np c ≡ ok (addr, c')
    → addr ≢ 0
    → Returns (freeppages addr c') (λ s. IsValid s.1 × ((j : ℕ) → in_use s.1 j ≡ in_use c j))
freeppages-getppages np addr c c' v pos few got ne =
    back (
      subst (λ m. Returns m (λ r. IsValid r.1 × Hands np c r)) got (getppages-Hands np c v pos few))
  where
    back :
        IsValid c' × Hands np c (addr, c')
        → Returns (freeppages addr c') (λ s. IsValid s.1 × ((j : ℕ) → in_use s.1 j ≡ in_use c j))
    back (v', inl h) = absurd (ne h.0)
    back (v', inr (f, e, p, fits, size, idle, used)) =
        let last : f + np - 1 < c'.firstpaddr / page_size = ground (arith, used (f + np - 1)) in
        rw e (
          Returns-map _ _ (freeppages (f * page_size) c')
            (λ s h. (h.1, λ j. ground (arith, h.2 j, used j, idle j)))
            (freeppages-frees f np c' v' p (omega arith) (omega arith) size))
