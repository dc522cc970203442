-- ===== src/Coremap/Alloc.antt =====
-- Handing out frames.
use sdp_project_c.Common.{
  ℕ, ◌+◌, ◌*◌, ◌/◌, ◌%◌, ◌≤◌, ◌<◌, ◌≡◌, refl, ◌⊎◌, inl, inr, Bool, true, false, not, ◌&&◌, ◌||◌,
  Option, none, some, ok, Returns, arith, ltb, leb, dec_le, update, fill, fill_at, page_size, u32,
}
use sdp_project_c.Spinlock.{unheld, spinlock_acquire, spinlock_release}
use sdp_project_c.Coremap.Search.{FreeRun, FoundRun, find_run-first}
use sdp_project_c.Coremap.{
  Coremap, ram_stealmem, is_table_active, find_run, take_run, getfreeppages, steal_locked,
  getppages,
}

-- Frame 0 is never free, and neither is memory that was never handed out.
pub record IsValid (c : Coremap) : Type 0 where
  pub aligned : c.firstpaddr % page_size ≡ 0
  pub low : page_size ≤ c.firstpaddr
  pub within : c.firstpaddr ≤ c.lastpaddr
  pub small : c.lastpaddr ≤ 0x2000_0000
  pub frames : c.n_ram_frames ≡ c.lastpaddr / page_size
  pub active : c.alloc_table_active ≡ true
  pub freemem : c.freemem_lock ≡ unheld
  pub stealmem : c.stealmem_lock ≡ unheld
  pub handed : (j : ℕ) → c.free_ram_frames j ≡ true → (0 < j) × (j < c.firstpaddr / page_size)

-- Frame `j` has been handed out and not freed since.
abbrev pub in_use : Coremap → ℕ → Bool
in_use c j = ltb j (c.firstpaddr / page_size) && not (c.free_ram_frames j)

-- Frame `j` is one of the `np` frames from `f` on.
abbrev pub in_run : ℕ → ℕ → ℕ → Bool
in_run f np j = leb f j && ltb j (f + np)

-- The run at `f` taken out of the free frames.
abbrev pub taken : ℕ → ℕ → Coremap → Coremap
taken np f c = record c {
  free_ram_frames = fill np f false c.free_ram_frames;
  alloc_size = update c.alloc_size f np;
}

module _ (np : ℕ) (c : Coremap) (v : IsValid c) where
  open v use {freemem, stealmem, active}

  getfree_none :
      find_run c.free_ram_frames np c.n_ram_frames 0 none ≡ none → getfreeppages np c ≡ ok (0, c)
  unfolding getfreeppages is_table_active take_run spinlock_acquire spinlock_release
  getfree_none e = ground arith

  getfree_some :
      (f : ℕ)
      → find_run c.free_ram_frames np c.n_ram_frames 0 none ≡ some f
      → getfreeppages np c ≡ ok (u32 (f * page_size), taken np f c)
  unfolding getfreeppages is_table_active take_run spinlock_acquire spinlock_release
  getfree_some f e = ground arith

-- The memory at `firstpaddr` taken, and its length recorded.
abbrev pub stolen : ℕ → Coremap → Coremap
stolen np c = record c {
  firstpaddr = c.firstpaddr + np * page_size;
  alloc_size = update c.alloc_size (c.firstpaddr / page_size) np;
}

-- The length of a freed run is recorded twice, by `getfreeppages` and by `getppages`.
abbrev pub retaken : ℕ → ℕ → Coremap → Coremap
retaken np f c = record (taken np f c) { alloc_size = update (update c.alloc_size f np) f np }

module _ (np : ℕ) (c : Coremap) (v : IsValid c) (pos : 0 < np) (few : np < 0x8_0000) where
  open v use {freemem, stealmem, active, aligned, low, within, small, frames}

  steal_fits :
      find_run c.free_ram_frames np c.n_ram_frames 0 none ≡ none
      → c.firstpaddr + np * page_size ≤ c.lastpaddr
      → getppages np c ≡ ok (c.firstpaddr, stolen np c)
  unfolding getppages steal_locked ram_stealmem is_table_active spinlock_acquire spinlock_release
  steal_fits e fits = ground (arith, getfree_none np c v e)

  steal_fails :
      find_run c.free_ram_frames np c.n_ram_frames 0 none ≡ none
      → c.lastpaddr < c.firstpaddr + np * page_size
      → getppages np c ≡ ok (0, c)
  unfolding getppages steal_locked ram_stealmem is_table_active spinlock_acquire spinlock_release
  steal_fails e full = ground (arith, getfree_none np c v e)

  reuse :
      (f : ℕ)
      → find_run c.free_ram_frames np c.n_ram_frames 0 none ≡ some f
      → 0 < f
      → f + np ≤ c.n_ram_frames
      → getppages np c ≡ ok (f * page_size, retaken np f c)
  unfolding getppages is_table_active spinlock_acquire spinlock_release
  reuse f e p fits =
      let word : u32 (f * page_size) ≡ f * page_size = omega arith in
      let index : f * page_size / page_size ≡ f = omega arith in
      ground (arith, getfree_some np c v f e)

-- What `getppages` did: it failed and changed nothing, since no run of free frames is long enough
-- and too little memory was never used; or it hands out the run at `addr`.
abbrev pub Hands : ℕ → Coremap → ℕ × Coremap → Type 0
Hands np c (addr, c') =
    ((addr ≡ 0)
      × (c' ≡ c)
      × ((f : ℕ) → f + np ≤ c.n_ram_frames → ¬ FreeRun c.free_ram_frames np f)
      × (c.lastpaddr < c.firstpaddr + np * page_size))
    ⊎ ((f : ℕ) × (addr ≡ f * page_size)
        × (0 < f)
        × (f + np ≤ c.n_ram_frames)
        × (c'.alloc_size f ≡ np)
        × ((j : ℕ) → in_run f np j ≡ true → in_use c j ≡ false)
        × ((j : ℕ) → in_use c' j ≡ (in_run f np j || in_use c j)))

module _ (np : ℕ) (c : Coremap) (v : IsValid c) (pos : 0 < np) (few : np < 0x8_0000) where
  open v use {handed}

  stolen-Hands :
      c.firstpaddr + np * page_size ≤ c.lastpaddr → Hands np c (c.firstpaddr, stolen np c)
  stolen-Hands fits = inr (
    c.firstpaddr / page_size,
    omega (arith, v.aligned),
    omega (arith, v.low),
    omega (arith, v.frames),
    ground arith,
    λ j h. ground arith,
    λ j. ground (arith, handed j, v.aligned),
  )

  stolen-IsValid : c.firstpaddr + np * page_size ≤ c.lastpaddr → IsValid (stolen np c)
  stolen-IsValid fits = record {
    aligned = omega (arith, v.aligned);
    low = omega (arith, v.low);
    within = fits;
    small = v.small;
    frames = v.frames;
    active = v.active;
    freemem = v.freemem;
    stealmem = v.stealmem;
    handed = λ j h. ground (arith, handed j, v.aligned);
  }

  retaken-Hands :
      (f : ℕ)
      → 0 < f
      → f + np ≤ c.n_ram_frames
      → FreeRun c.free_ram_frames np f
      → Hands np c (f * page_size, retaken np f c)
  retaken-Hands f p fits run = inr (
    f,
    refl,
    p,
    fits,
    ground arith,
    λ j h. ground (arith, run j),
    λ j. ground (arith, run j, handed j, fill_at np f false c.free_ram_frames j),
  )

  retaken-IsValid : (f : ℕ) → IsValid (retaken np f c)
  retaken-IsValid f = record {
    aligned = v.aligned;
    low = v.low;
    within = v.within;
    small = v.small;
    frames = v.frames;
    active = v.active;
    freemem = v.freemem;
    stealmem = v.stealmem;
    handed = λ j h. ground (arith, handed j, fill_at np f false c.free_ram_frames j);
  }

-- `getppages` of 1 to 2 ^ 19 - 1 frames keeps the map valid. It either fails and changes nothing, which
-- it does only if no run of free frames is long enough and too little memory was never used, or hands
-- out a run inside memory in which no frame was in use, and exactly those frames come into use.
pub getppages-Hands :
    (np : ℕ) (c : Coremap)
    → IsValid c
    → 0 < np
    → np < 0x8_0000
    → Returns (getppages np c) (λ r. IsValid r.1 × Hands np c r)
getppages-Hands np c v pos few = go _ refl (find_run-first c.free_ram_frames np c.n_ram_frames pos)
  where
    go :
        (o : Option ℕ)
        → find_run c.free_ram_frames np c.n_ram_frames 0 none ≡ o
        → FoundRun c.free_ram_frames np c.n_ram_frames o
        → Returns (getppages np c) (λ r. IsValid r.1 × Hands np c r)
    go none e nothing = elim (dec_le (c.firstpaddr + np * page_size) c.lastpaddr) [
      | yes fits ↦
          rw (steal_fits np c v pos few e fits)
            (stolen-IsValid np c v pos few fits, stolen-Hands np c v pos few fits)
      | no full ↦
          rw (steal_fails np c v pos few e (omega arith))
            (v, inl (refl, refl, nothing, omega arith))
    ]
    go (some f) e (fits, run, lowest) =
        let p : 0 < f = (v.handed f (run f (omega arith) (omega arith))).0 in
        rw (reuse np c v pos few f e p fits)
          (retaken-IsValid np c v pos few f, retaken-Hands np c v pos few f p fits run)
