-- ===== src/CopyInOut/Checks.antt =====
-- What the checks of the copies let through.
use sdp_project_c.Common.{
  ℕ, zero, suc, ◌+◌, ◌≤◌, ◌<◌, ◌≡◌, refl, ◌↔◌, ◌&&◌, ℕ_discrete, Bool, false, not, arith, leb,
  if◌then◌else◌, ◌^◌,
}
use sdp_project_c.AddrSpace.{efault}
use sdp_project_c.CopyInOut.{copycheck, block_faults, copyin, userspacetop}

block_faults-all :
    (bad : ℕ → Bool) (addr len : ℕ)
    → block_faults bad addr len ≡ false
    → (i : ℕ) → i < len
    → bad (addr + i) ≡ false
unfolding block_faults
block_faults-all bad addr zero h i lt = absurd (omega arith)
block_faults-all bad addr (suc len) h i lt =
    let top : bad (addr + len) ≡ false = ground (arith, h) in
    let rest : block_faults bad addr len ≡ false = ground (arith, h) in
    elim (ℕ_discrete i len) [
      | yes e ↦ rw e top
      | no ne ↦ block_faults-all bad addr len rest i (omega arith)
    ]

block_faults-none :
    (bad : ℕ → Bool) (addr len : ℕ)
    → ((i : ℕ) → i < len → bad (addr + i) ≡ false)
    → block_faults bad addr len ≡ false
unfolding block_faults
block_faults-none bad addr zero h = refl
block_faults-none bad addr (suc len) h =
    rw (h len (omega arith), block_faults-none bad addr len (λ i lt. h i (omega arith))) refl

copyin_lem :
    (bad : ℕ → Bool) (usersrc len : ℕ)
    → usersrc < 2 ^ 32
    → 0 < len
    → len < 2 ^ 32
    → copyin bad usersrc len ≡ (
        if leb (usersrc + len) userspacetop && not (block_faults bad usersrc len)
        then 0
        else efault)
unfolding copyin copycheck
copyin_lem bad usersrc len p pos q = ground arith

-- `copyin` of one or more bytes succeeds if and only if the whole block lies in user memory and no access
-- to it faults.
pub copyin-userspacetop :
    (bad : ℕ → Bool) (usersrc len : ℕ)
    → usersrc < 2 ^ 32
    → 0 < len
    → len < 2 ^ 32
    → (copyin bad usersrc len ≡ 0)
      ↔ ((usersrc + len ≤ userspacetop) × ((i : ℕ) → i < len → bad (usersrc + i) ≡ false))
copyin-userspacetop bad usersrc len p pos q = (
  λ e.
      let works : block_faults bad usersrc len ≡ false =
        ground (arith, copyin_lem bad usersrc len p pos q) in
      (ground (arith, copyin_lem bad usersrc len p pos q), block_faults-all bad usersrc len works),
  λ h. ground (arith, copyin_lem bad usersrc len p pos q, block_faults-none bad usersrc len h.1),
)
