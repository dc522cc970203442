-- ===== src/Bitmap/Tests.antt =====
-- Tests of the bitmap: ten bits, of which 0 and 1 are in use.
use sdp_project_c.Common.{
  ◌+◌, ◌*◌, ◌≡◌, refl, true, ◌||◌, some, ok, Returns, arith, ltb, leb, first_index,
}
use sdp_project_c.Bitmap.{Bitmap, put_bit, bitmap_alloc, all_bits}
use sdp_project_c.Bitmap.Bits.{IsValid, Takes, bitmap_alloc-Takes}

abbrev ten : Bitmap
ten = record { nbits = 10; v = λ ix offset. ltb (ix * 8 + offset) 2 || leb 10 (ix * 8 + offset) }

ten-IsValid : IsValid ten
ten-IsValid = record { leftover = λ i p q. ground arith }

bitmap_alloc-Takes_example : Returns (bitmap_alloc ten) (Takes ten)
bitmap_alloc-Takes_example = bitmap_alloc-Takes ten ten-IsValid

third : bitmap_alloc ten ≡ ok (some (2, put_bit 0 2 true ten))
unfolding bitmap_alloc first_index all_bits
third = refl
