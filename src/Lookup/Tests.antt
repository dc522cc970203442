-- ===== src/Lookup/Tests.antt =====
-- Runs of `getdevice`.
use sdp_project_c.Common.{
  ℕ, ◌+◌, ◌==◌, ◌≡◌, ◌≢◌, ◌<◌, refl, true, some, if◌then◌else◌, Returns, arith, suc, zero,
}
use sdp_project_c.Spinlock.{unheld, spinlock_acquire, spinlock_release}
use sdp_project_c.Vnode.{vnode_incref}
use sdp_project_c.Str.Length.{IsString}
use sdp_project_c.Lookup.{gives, Vfs, Devices, getdevice}
use sdp_project_c.Lookup.Paths.{Begins}
use sdp_project_c.Lookup.Starts.{getdevice-Begins}

-- "a:/b" at the address 100
abbrev path_of_device : ℕ → ℕ
path_of_device a =
    if a == 100
    then 97
    else (if a == 101 then 58 else (if a == 102 then 47 else (if a == 103 then 98 else 0)))

abbrev devices : Devices
devices = record { vfs_getroot = λ m a. gives 7; has_fs = λ u. true; fsop_getroot = λ u. gives 8 }

abbrev vfs : Vfs
vfs = record {
  bootfs_vnode = some 3;
  p_cwd = some 2;
  p_lock = unheld;
  biglock_held = true;
  vnodes = λ u. record { vn_refcount = 1; vn_countlock = unheld };
}

path_of_device-IsString : IsString 100 4 path_of_device
path_of_device-IsString = record { chars = λ i lt. nonzero i lt; last = refl }
  where
    nonzero : (i : ℕ) → i < 4 → path_of_device (100 + i) ≢ 0
    nonzero zero lt e = absurd (omega (arith, e))
    nonzero (suc zero) lt e = absurd (omega (arith, e))
    nonzero (suc (suc zero)) lt e = absurd (omega (arith, e))
    nonzero (suc (suc (suc zero))) lt e = absurd (omega (arith, e))
    nonzero (suc (suc (suc (suc i)))) lt e = absurd (omega arith)

getdevice-Begins_example :
    Returns (getdevice devices 5 100 path_of_device vfs) (Begins devices 100 4 path_of_device vfs)
getdevice-Begins_example =
    getdevice-Begins devices 5 100 4 path_of_device vfs path_of_device-IsString (omega arith) refl
      (λ x. refl) refl (λ u e. (refl, omega arith))

-- The device is 7, and the rest is "b".
getdevice_of_a_device : Returns (getdevice devices 5 100 path_of_device vfs) (λ r.
    (r.startvn ≡ gives 7)
    × (r.subpath ≡ some 103)
    × (r.memory 101 ≡ 0)
    × ((r.vfs.vnodes 7).vn_refcount ≡ 2))
unfolding getdevice spinlock_acquire spinlock_release vnode_incref
getdevice_of_a_device = (refl, refl, refl, refl)
