-- ===== src/FreeBitmap/Search.antt =====
-- What the search for a free frame gives.
use sdp_project_c.Common.{
  ℕ, ◌<◌, ◌≡◌, refl, true, Option, none, some, ok, ◌>>=◌, Returns, Returns-map, ◌≢◌, arith, ltb,
  update, LastIn, last_index-LastIn,
}
use sdp_project_c.Spinlock.{unheld, spinlock_acquire, spinlock_release}
use sdp_project_c.FreeBitmap.{
  FreeBitmap, State, is_free, free, busy, put_state, bitmap_set_busy, bitmap_find_first_free,
}

-- The answer is the last frame that is free, or there is none.
abbrev pub IsLastFree : FreeBitmap → Option ℕ → Type 0
IsLastFree b none = (i : ℕ) → i < b.length → b.next_bit i ≡ busy
IsLastFree b (some k) =
    (k < b.length) × (b.next_bit k ≡ free) × ((i : ℕ) → k < i → i < b.length → b.next_bit i ≡ busy)

-- `bitmap_find_first_free` under a free lock gives the last free frame, not the first, and -1 only if
-- no frame is free; it changes nothing.
pub bitmap_find_first_free-IsLastFree :
    (b : FreeBitmap)
    → b.bitmap_lock ≡ unheld
    → Returns (bitmap_find_first_free b) (λ r. IsLastFree b r.0 × (r.1 ≡ b))
unfolding bitmap_find_first_free spinlock_acquire spinlock_release
bitmap_find_first_free-IsLastFree b unlocked =
    rw unlocked (found _ (last_index-LastIn b.length _), refl)
  where
    found : (o : Option ℕ) → LastIn b.length (λ i. is_free (b.next_bit i)) o → IsLastFree b o
    found none h = λ i lt. ground (arith, h i)
    found (some k) (lt, hit, last) = (lt, ground (arith, hit), λ i p q. ground (arith, last i))

-- `b` with frame `k` marked, the lock free again.
abbrev marked : State → ℕ → FreeBitmap → FreeBitmap
marked x k b = record b { next_bit = update b.next_bit k x; bitmap_lock = unheld }

bitmap_set_busy_lem :
    (b : FreeBitmap) (k : ℕ)
    → b.bitmap_lock ≡ unheld
    → k < b.length
    → bitmap_set_busy k b ≡ ok (marked busy k b)
unfolding bitmap_set_busy put_state spinlock_acquire spinlock_release
bitmap_set_busy_lem b k unlocked lt =
    let inside : ltb k b.length ≡ true = ground arith in rw (unlocked, inside) refl

-- A frame that `bitmap_set_busy` has marked is not what the next `bitmap_find_first_free` gives.
pub bitmap_find_first_free-bitmap_set_busy :
    (b : FreeBitmap) (k : ℕ)
    → b.bitmap_lock ≡ unheld
    → k < b.length
    → Returns (bitmap_set_busy k b >>= λ b'. bitmap_find_first_free b') (λ r. r.0 ≢ some k)
bitmap_find_first_free-bitmap_set_busy b k unlocked lt = rw (bitmap_set_busy_lem b k unlocked lt) (
    Returns-map _ _ (bitmap_find_first_free (marked busy k b)) (λ r h. other r.0 h.0)
      (bitmap_find_first_free-IsLastFree (marked busy k b) refl))
  where
    other : (o : Option ℕ) → IsLastFree (marked busy k b) o → o ≢ some k
    other none h = λ e. absurd (cc)
    other (some j) (p, is, last) = λ e. ground (arith, is)
