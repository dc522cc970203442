-- ===== src/FreeBitmap.antt =====
-- kern/arch/mips/vm/free_bitmap.c: one `state_t` for each frame, under a lock.
use sdp_project_c.Common.{
  ℕ, ◌<◌, Bool, true, false, not, Option, none, some, Result, ok, err, ◌>>=◌, ◌>>◌, require,
  assertion, out_of_bounds, ltb, ◌==◌, if◌then◌else◌, update, sweep, last_index,
}
use sdp_project_c.Spinlock.{Spinlock, spinlock_init, spinlock_acquire, spinlock_release}
pub mod Search
mod Tests

-- `state_t`
pub data State : Type 0 where
  free busy : State

-- `bitmap_t`
pub record FreeBitmap : Type 0 where
  pub next_bit : ℕ → State
  pub length : ℕ
  pub bitmap_lock : Spinlock

-- `bitmap_init`; `raw` is what the fresh array holds.
pub bitmap_init : ℕ → (ℕ → State) → Result FreeBitmap
bitmap_init length raw = do
  lock ← spinlock_acquire spinlock_init
  lock' ← spinlock_release lock
  ok (record { next_bit = sweep length (λ _ _. free) raw; length = length; bitmap_lock = lock' })

-- `next_bit[i] = x` under the lock.
pub put_state : ℕ → State → FreeBitmap → Result FreeBitmap
put_state i x b = do
  lock ← spinlock_acquire b.bitmap_lock
  require (ltb i b.length) out_of_bounds
  lock' ← spinlock_release lock
  ok (record b { next_bit = update b.next_bit i x; bitmap_lock = lock' })

-- `bitmap_set_free`
pub bitmap_set_free : ℕ → FreeBitmap → Result FreeBitmap
unfolding put_state
bitmap_set_free i b = put_state i free b

-- `bitmap_set_busy`
pub bitmap_set_busy : ℕ → FreeBitmap → Result FreeBitmap
unfolding put_state
bitmap_set_busy i b = put_state i busy b

-- `next_bit[i] == FREE`
abbrev pub is_free : State → Bool
is_free free = true
is_free busy = false

-- `bitmap_find_first_free`: `*first_free`, or `none` for -1. The loop has no `break`.
pub bitmap_find_first_free : FreeBitmap → Result (Option ℕ × FreeBitmap)
bitmap_find_first_free b = do
  lock ← spinlock_acquire b.bitmap_lock
  lock' ← spinlock_release lock
  ok (last_index b.length (λ i. is_free (b.next_bit i)), record b { bitmap_lock = lock' })
