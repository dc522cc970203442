-- ===== src/Coremap/Tests.antt =====
-- Eight frames of memory: 0 and 1 for the kernel, 2 to 5 handed out once and 3 and 4 freed, 6 and 7 never
-- used.
use sdp_project_c.Common.{ℕ, ◌≡◌, refl, true, ◌||◌, ok, Returns, arith, ◌==◌, if◌then◌else◌}
use sdp_project_c.Spinlock.{unheld, spinlock_acquire, spinlock_release}
use sdp_project_c.Coremap.{
  Coremap, getppages, freeppages, getfreeppages, is_table_active, take_run, find_run, steal_locked,
  ram_stealmem,
}
use sdp_project_c.Coremap.Alloc.{IsValid, in_use, Hands, retaken, getppages-Hands}
use sdp_project_c.Coremap.Free.{freeppages-getppages}

abbrev eight : Coremap
eight = record {
  free_ram_frames = λ j. j == 3 || j == 4;
  alloc_size = λ j. if j == 2 then 4 else 0;
  n_ram_frames = 8;
  alloc_table_active = true;
  freemem_lock = unheld;
  stealmem_lock = unheld;
  firstpaddr = 0x6000;
  lastpaddr = 0x8000;
}

eight-IsValid : IsValid eight
eight-IsValid = record {
  aligned = omega arith;
  low = omega arith;
  within = omega arith;
  small = omega arith;
  frames = omega arith;
  active = refl;
  freemem = refl;
  stealmem = refl;
  handed = λ j h. ground arith;
}

-- A run of two frames is taken from the freed ones, a run of three from unused memory if it is there.
two_frames : getppages 2 eight ≡ ok (0x3000, retaken 2 3 eight)
unfolding getppages getfreeppages is_table_active take_run find_run spinlock_acquire
    spinlock_release
two_frames = refl

three_frames : getppages 3 eight ≡ ok (0, eight)
unfolding getppages getfreeppages is_table_active take_run find_run steal_locked ram_stealmem
    spinlock_acquire spinlock_release
three_frames = refl

getppages-Hands_example : Returns (getppages 2 eight) (λ r. IsValid r.1 × Hands 2 eight r)
getppages-Hands_example = getppages-Hands 2 eight eight-IsValid (omega arith) (omega arith)

freeppages-getppages_example :
    Returns
      (freeppages 0x3000 (retaken 2 3 eight))
      (λ s. IsValid s.1 × ((j : ℕ) → in_use s.1 j ≡ in_use eight j))
freeppages-getppages_example =
    freeppages-getppages 2 0x3000 eight (retaken 2 3 eight) eight-IsValid (omega arith)
      (omega arith) two_frames (omega arith)
