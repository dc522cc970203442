-- ===== src/FreeBitmap/Tests.antt =====
-- Tests of the bitmap of frames: frames 1 and 3 of five are free, and the search gives 3.
use sdp_project_c.Common.{◌≡◌, refl, ◌||◌, some, ok, ◌==◌, if◌then◌else◌, last_index}
use sdp_project_c.Spinlock.{unheld, spinlock_acquire, spinlock_release}
use sdp_project_c.FreeBitmap.{FreeBitmap, free, busy, bitmap_find_first_free}

abbrev five : FreeBitmap
five = record {
  next_bit = λ i. if i == 1 || i == 3 then free else busy;
  length = 5;
  bitmap_lock = unheld;
}

gives_three : bitmap_find_first_free five ≡ ok (some 3, five)
unfolding bitmap_find_first_free spinlock_acquire spinlock_release last_index
gives_three = refl
