-- ===== src/Lookup.antt =====
-- kern/vfs/vfslookup.c: the start of the translation of a path. A file system is the answers that it gives; of the
-- lock around all of it, there is only whether the thread holds it.
use sdp_project_c.Common.{
  ℕ, zero, suc, ◌+◌, Bool, true, false, Option, none, some, Result, ok, err, ◌>>=◌, ◌>>◌, require,
  endless, assertion, ltb, ◌==◌, if◌then◌else◌, update,
}
use sdp_project_c.Spinlock.{Spinlock, spinlock_acquire, spinlock_release}
use sdp_project_c.Files.{enoent}
use sdp_project_c.Vnode.{Vnode, vnode_incref, vnode_decref}
pub mod Paths
pub mod Starts
pub mod Refs
mod Tests

-- An error number, or a vnode.
pub data Answer : Type 0 where
  refused gives : ℕ → Answer

-- `bootfs_vnode`, `p_cwd` and `p_lock` of the current process, the vnodes, and `vfs_biglock_do_i_hold()`.
pub record Vfs : Type 0 where
  pub bootfs_vnode : Option ℕ
  pub p_cwd : Option ℕ
  pub p_lock : Spinlock
  pub vnodes : ℕ → Vnode
  pub biglock_held : Bool

-- `vfs_getroot` of the name at an address, whether a vnode has a file system, and `FSOP_GETROOT`. The vnode that they
-- give comes with a reference.
pub record Devices : Type 0 where
  pub vfs_getroot : (ℕ → ℕ) → ℕ → Answer
  pub has_fs : ℕ → Bool
  pub fsop_getroot : ℕ → Answer

-- `VOP_INCREF` and `VOP_DECREF`
pub vop_incref : ℕ → Vfs → Result Vfs
vop_incref u s = do v ← vnode_incref (s.vnodes u); ok (record s { vnodes = update s.vnodes u v })

pub vop_decref : ℕ → Vfs → Result Vfs
vop_decref u s = do
  (reclaim, v) ← vnode_decref (s.vnodes u)
  ok (record s { vnodes = update s.vnodes u v })

-- The reference to what a file system gives.
pub receive : Answer → Vfs → Result Vfs
unfolding vop_incref
receive (refused e) s = ok s
receive (gives u) s = vop_incref u s

-- `vfs_getcurdir`
pub vfs_getcurdir : Vfs → Result (Answer × Vfs)
unfolding vop_incref
vfs_getcurdir s = do
  lock ← spinlock_acquire s.p_lock
  (answer, s') ← (elim s.p_cwd [
    | none ↦ ok (refused enoent, s)
    | some u ↦ (do s' ← vop_incref u s; ok (gives u, s'))
  ])
  lock' ← spinlock_release lock
  ok (answer, record s' { p_lock = lock' })

-- The loop that looks for the first colon or slash: `slash` and `colon`.
pub find_loop : ℕ → ℕ → ℕ → (ℕ → ℕ) → Result (Option ℕ × Option ℕ)
find_loop zero path i m = err endless
find_loop (suc rounds) path i m = elim (m (path + i) == 0) [
  | true ↦ ok (none, none)
  | false ↦ elim (m (path + i) == 58) [
    | true ↦ ok (none, some i)
    | false ↦ elim (m (path + i) == 47) [
      | true ↦ ok (some i, none)
      | false ↦ find_loop rounds path (i + 1) m
    ]
  ]
]

-- The loops over the slashes behind the address `a`: the address of the last.
pub skip_slashes : ℕ → ℕ → (ℕ → ℕ) → Result ℕ
skip_slashes zero a m = err endless
skip_slashes (suc rounds) a m = elim (m (a + 1) == 47) [
  | true ↦ skip_slashes rounds (a + 1) m
  | false ↦ ok a
]

-- What `getdevice` ends with: its answer, `*subpath` if it was set, memory and the vnodes.
pub record Start : Type 0 where
  pub startvn : Answer
  pub subpath : Option ℕ
  pub memory : ℕ → ℕ
  pub vfs : Vfs

-- `:path` starts from the root of the file system of the current directory.
pub current_root : Devices → Vfs → Result (Answer × Vfs)
unfolding vfs_getcurdir receive vop_decref
current_root d s = do
  (answer, s') ← vfs_getcurdir s
  elim answer [
    | refused e ↦ ok (refused e, s')
    | gives u ↦ do
      require (d.has_fs u) assertion
      s₂ ← receive (d.fsop_getroot u) s'
      s₃ ← vop_decref u s₂
      ok (d.fsop_getroot u, s₃)
  ]

-- `/path` starts from the boot file system.
pub boot_root : Vfs → Result (Answer × Vfs)
unfolding vop_incref
boot_root s = elim s.bootfs_vnode [
  | none ↦ ok (refused enoent, s)
  | some u ↦ (do s' ← vop_incref u s; ok (gives u, s'))
]

-- What `/path` and `:path` end with, once the start is known.
pub after_slashes : ℕ → ℕ → (ℕ → ℕ) → Answer → Vfs → Result Start
unfolding skip_slashes
after_slashes rounds path m (refused e) s =
    ok (record { startvn = refused e; subpath = none; memory = m; vfs = s })
after_slashes rounds path m (gives u) s = do
  a ← skip_slashes rounds path m
  ok (record { startvn = gives u; subpath = some (a + 1); memory = m; vfs = s })

-- What follows the loop of `getdevice`, with its `slash` and its `colon`.
pub start_from : Devices → ℕ → ℕ → (ℕ → ℕ) → Option ℕ → Option ℕ → Vfs → Result Start
unfolding vfs_getcurdir receive skip_slashes current_root boot_root after_slashes
start_from d rounds path m none none s = do
  (answer, s') ← vfs_getcurdir s
  ok (record { startvn = answer; subpath = some path; memory = m; vfs = s' })
start_from d rounds path m (some (suc k)) none s = do
  (answer, s') ← vfs_getcurdir s
  ok (record { startvn = answer; subpath = some path; memory = m; vfs = s' })
start_from d rounds path m (some zero) none s = do
  (answer, s') ← boot_root s
  after_slashes rounds path m answer s'
start_from d rounds path m slash (some zero) s = do
  (answer, s') ← current_root d s
  after_slashes rounds path m answer s'
start_from d rounds path m slash (some (suc k)) s = do
  let m' = update m (path + suc k) 0
  a ← skip_slashes rounds (path + suc k) m'
  s' ← receive (d.vfs_getroot m' path) s
  ok (record { startvn = d.vfs_getroot m' path; subpath = some (a + 1); memory = m'; vfs = s' })

-- `getdevice`, for a path of fewer than `rounds` characters.
pub getdevice : Devices → ℕ → ℕ → (ℕ → ℕ) → Vfs → Result Start
unfolding find_loop start_from
getdevice d rounds path m s = do
  require s.biglock_held assertion
  (slash, colon) ← find_loop rounds path 0 m
  start_from d rounds path m slash colon s
