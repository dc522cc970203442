-- ===== src/CopyInOut.antt =====
-- kern/vm/copyinout.c: copies between the kernel and user memory. `bad` says at which user addresses an
-- access faults beyond repair, where `copyfail` jumps back; what such a copy has written by then is left out.
use sdp_project_c.Common.{
  ℕ, zero, suc, ◌+◌, ◌-◌, Bool, true, false, not, ◌&&◌, ◌||◌, Option, none, some, ltb, leb, ◌==◌,
  if◌then◌else◌, u32, sub_u32, kseg0,
}
use sdp_project_c.AddrSpace.{efault}
pub mod Checks

abbrev pub enametoolong : ℕ
enametoolong = 7

abbrev pub userspacetop : ℕ
userspacetop = kseg0

-- `copycheck`: the error number and `*stoplen`.
pub copycheck : ℕ → ℕ → ℕ × ℕ
copycheck userptr len =
    let top = sub_u32 (u32 (userptr + len)) 1 in
    if ltb top userptr
    then (efault, len)
    else (if leb userspacetop userptr
        then (efault, len)
        else (if leb userspacetop top then (0, userspacetop - userptr) else (0, len)))

-- Whether one of `len` accesses from `addr` on faults.
pub block_faults : (ℕ → Bool) → ℕ → ℕ → Bool
block_faults bad addr zero = false
block_faults bad addr (suc len) = bad (addr + len) || block_faults bad addr len

-- `copyin` and `copyout`: the error number; with 0 the whole block has been copied.
pub copyin : (ℕ → Bool) → ℕ → ℕ → ℕ
unfolding copycheck block_faults
copyin bad usersrc len =
    let (result, stoplen) = copycheck usersrc len in
    if not (result == 0)
    then result
    else (if not (stoplen == len)
        then efault
        else (if block_faults bad usersrc len then efault else 0))

pub copyout : (ℕ → Bool) → ℕ → ℕ → ℕ
unfolding copycheck block_faults
copyout bad userdest len =
    let (result, stoplen) = copycheck userdest len in
    if not (result == 0)
    then result
    else (if not (stoplen == len)
        then efault
        else (if block_faults bad userdest len then efault else 0))

-- The loop of `copystr` from round `i` on, over at most `left` characters: `none` if it ran out, and
-- otherwise the error number with `*gotlen`. Character `i` is at the user address `base + i`.
pub copystr_from : (ℕ → Bool) → ℕ → (ℕ → ℕ) → ℕ → ℕ → Option (ℕ × ℕ)
copystr_from bad base src zero i = none
copystr_from bad base src (suc left) i =
    let rest = copystr_from bad base src left (i + 1) in
    if bad (base + i) then some (efault, 0) else (if src i == 0 then some (0, i + 1) else rest)

-- `copystr` with the jump of `copyfail`.
pub copystr : (ℕ → Bool) → ℕ → (ℕ → ℕ) → ℕ → ℕ → ℕ × ℕ
unfolding copystr_from
copystr bad base src maxlen stoplen =
    elim (copystr_from bad base src (if ltb maxlen stoplen then maxlen else stoplen) 0) [
      | some r ↦ r
      | none ↦ if ltb stoplen maxlen then (efault, 0) else (enametoolong, 0)
    ]

-- `copyinstr` and `copyoutstr`: the error number and `*actual`; `src` is the string that is copied.
pub copyinstr : (ℕ → Bool) → ℕ → (ℕ → ℕ) → ℕ → ℕ × ℕ
unfolding copycheck copystr
copyinstr bad usersrc src len =
    let (result, stoplen) = copycheck usersrc len in
    if not (result == 0) then (result, 0) else copystr bad usersrc src len stoplen

pub copyoutstr : (ℕ → Bool) → (ℕ → ℕ) → ℕ → ℕ → ℕ × ℕ
unfolding copycheck copystr
copyoutstr bad src userdest len =
    let (result, stoplen) = copycheck userdest len in
    if not (result == 0) then (result, 0) else copystr bad userdest src len stoplen
