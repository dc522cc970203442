-- ===== src/Vnode.antt =====
-- kern/vfs/vnode.c: the references to a vnode. Its operations, file system and data are left out.
use sdp_project_c.Common.{
  ℕ, ◌+◌, ◌-◌, Bool, true, false, Result, ok, ◌>>=◌, ◌>>◌, require, assertion, ltb, ◌==◌,
  if◌then◌else◌,
}
use sdp_project_c.Spinlock.{
  Spinlock, spinlock_init, spinlock_cleanup, spinlock_acquire, spinlock_release,
}

-- `vn_refcount` and `vn_countlock` of `struct vnode`
pub record Vnode : Type 0 where
  pub vn_refcount : ℕ
  pub vn_countlock : Spinlock

-- `vnode_init`
pub vnode_init : Vnode
vnode_init = record { vn_refcount = 1; vn_countlock = spinlock_init }

-- `vnode_cleanup`
pub vnode_cleanup : Vnode → Result Vnode
vnode_cleanup v = do
  require (v.vn_refcount == 1) assertion
  spinlock_cleanup v.vn_countlock
  ok (record v { vn_refcount = 0 })

-- `vnode_incref`
unfoldable pub vnode_incref : Vnode → Result Vnode
vnode_incref v = do
  lock ← spinlock_acquire v.vn_countlock
  lock' ← spinlock_release lock
  ok (record { vn_refcount = v.vn_refcount + 1; vn_countlock = lock' })

-- `vnode_decref`: whether it calls `VOP_RECLAIM`, which takes the last reference over.
unfoldable pub vnode_decref : Vnode → Result (Bool × Vnode)
vnode_decref v = do
  lock ← spinlock_acquire v.vn_countlock
  require (ltb 0 v.vn_refcount) assertion
  lock' ← spinlock_release lock
  ok (
      if ltb 1 v.vn_refcount
      then (false, record { vn_refcount = v.vn_refcount - 1; vn_countlock = lock' })
      else (true, record v { vn_countlock = lock' }))
