-- ===== src/Coremap/Boot.antt =====
-- The frames once the kernel has started.
use sdp_project_c.Common.{
  ℕ, ◌/◌, ◌%◌, ◌≤◌, ◌<◌, ◌≡◌, refl, true, false, Returns, sweep, arith, sweep_at, page_size,
}
use sdp_project_c.Spinlock.{unheld, spinlock_acquire, spinlock_release}
use sdp_project_c.Coremap.{Coremap, coremap_bootstrap, ram_getsize}
use sdp_project_c.Coremap.Alloc.{IsValid, in_use}

-- `coremap_bootstrap` over whole pages of memory, of at most 512 MB, makes the map valid with every
-- frame below `firstpaddr` in use and none recorded as a run.
pub coremap_bootstrap-IsValid :
    (c : Coremap)
    → c.firstpaddr % page_size ≡ 0
    → page_size ≤ c.firstpaddr
    → c.firstpaddr ≤ c.lastpaddr
    → c.lastpaddr ≤ 0x2000_0000
    → c.freemem_lock ≡ unheld
    → c.stealmem_lock ≡ unheld
    → ((j : ℕ) → c.lastpaddr / page_size ≤ j → c.free_ram_frames j ≡ false)
    → Returns (coremap_bootstrap true c) (λ c'.
      IsValid c'
      × ((j : ℕ) → j < c.firstpaddr / page_size → (in_use c' j ≡ true) × (c'.alloc_size j ≡ 0)))
unfolding coremap_bootstrap ram_getsize spinlock_acquire spinlock_release
coremap_bootstrap-IsValid c aligned low within small freemem stealmem outside = rw freemem (
  record {
    aligned = aligned;
    low = low;
    within = within;
    small = small;
    frames = refl;
    active = refl;
    freemem = refl;
    stealmem = stealmem;
    handed = λ j h. absurd (ground (arith, busy j));
  },
  λ j lt. (
    ground (arith, busy j),
    ground (arith, sweep_at (c.lastpaddr / page_size) (λ _ _. 0) c.alloc_size j),
  ),
)
  where
    busy : (j : ℕ) → sweep (c.lastpaddr / page_size) (λ _ _. false) c.free_ram_frames j ≡ false
    busy j =
        ground
          (arith, outside j, sweep_at (c.lastpaddr / page_size) (λ _ _. false) c.free_ram_frames j)
