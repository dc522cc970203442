-- ===== src/Spinlock.antt =====
-- kern/thread/spinlock.c as one processor sees it: `splk_holder` is nobody, this processor, or
-- another one.
use sdp_project_c.Common.{Bool, true, false, Result, ok, err, deadlock, spinning, assertion}

pub data Spinlock : Type 0 where
  unheld held_here held_elsewhere : Spinlock

-- `spinlock_init`
unfoldable pub spinlock_init : Spinlock
spinlock_init = unheld

-- `spinlock_cleanup`: the assertions that nobody holds the lock.
unfoldable pub spinlock_cleanup : Spinlock → Result (Unit {0})
spinlock_cleanup unheld = ok tt
spinlock_cleanup held_here = err assertion
spinlock_cleanup held_elsewhere = err assertion

-- `spinlock_acquire`: a panic if this processor has the lock; a lock that another one holds is
-- waited for.
unfoldable pub spinlock_acquire : Spinlock → Result Spinlock
spinlock_acquire unheld = ok held_here
spinlock_acquire held_here = err deadlock
spinlock_acquire held_elsewhere = err spinning

-- `spinlock_release`: asserts that this processor has the lock.
unfoldable pub spinlock_release : Spinlock → Result Spinlock
spinlock_release unheld = err assertion
spinlock_release held_here = ok unheld
spinlock_release held_elsewhere = err assertion

-- `spinlock_do_i_hold`
unfoldable pub spinlock_do_i_hold : Spinlock → Bool
spinlock_do_i_hold unheld = false
spinlock_do_i_hold held_here = true
spinlock_do_i_hold held_elsewhere = false
