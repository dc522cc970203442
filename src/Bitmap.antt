-- ===== src/Bitmap.antt =====
-- kern/lib/bitmap.c: bits for the allocation of storage. A word of the array, an `unsigned char`, is
-- held as its eight bits.
use sdp_project_c.Common.{
  ℕ, zero, suc, ◌+◌, ◌-◌, ◌*◌, ◌/◌, ◌%◌, Bool, true, false, not, ◌&&◌, Option, none, some, Result,
  ok, err, ◌>>=◌, ◌>>◌, require, assertion, out_of_bounds, ltb, leb, ◌==◌, if◌then◌else◌, update,
  fill, first_index,
}
pub mod Bits
mod Tests

abbrev pub bits_per_word : ℕ
bits_per_word = 8

-- `struct bitmap`
pub record Bitmap : Type 0 where
  pub nbits : ℕ
  pub v : ℕ → ℕ → Bool

-- `DIVROUNDUP(nbits, BITS_PER_WORD)`
abbrev pub words_for : ℕ → ℕ
words_for nbits = (nbits + bits_per_word - 1) / bits_per_word

-- Whether the word is `WORD_ALLBITS`, over its first `n` bits.
pub all_bits : ℕ → (ℕ → Bool) → Bool
all_bits zero word = true
all_bits (suc n) word = word n && all_bits n word

-- `b->v[ix] |= mask` and `b->v[ix] &= ~mask`
abbrev pub put_bit : ℕ → ℕ → Bool → Bitmap → Bitmap
put_bit ix offset x b = record b { v = update b.v ix (update (b.v ix) offset x) }

-- The leftover bits of the last word marked in use.
pub mark_leftover : Bitmap → Result Bitmap
mark_leftover b =
    let words = words_for b.nbits in
    if ltb (b.nbits / bits_per_word) words
    then (do
      let ix = words - 1
      let overbits = b.nbits - ix * bits_per_word
      require (b.nbits / bits_per_word == words - 1) assertion
      require (ltb 0 overbits && ltb overbits bits_per_word) assertion
      ok (record b { v = update b.v ix (fill (bits_per_word - overbits) overbits true (b.v ix)) }))
    else ok b

-- `bitmap_create`; `memory` and `memory_v` say whether the two calls of `kmalloc` succeed.
pub bitmap_create : Bool → Bool → ℕ → Result (Option Bitmap)
unfolding mark_leftover
bitmap_create false memory_v nbits = ok none
bitmap_create true false nbits = ok none
bitmap_create true true nbits = do
  b ← mark_leftover (record { nbits = nbits; v = λ _ _. false })
  ok (some b)

-- `bitmap_alloc`: `*index` with the bitmap, `none` for ENOSPC.
pub bitmap_alloc : Bitmap → Result (Option (ℕ × Bitmap))
unfolding all_bits
bitmap_alloc b =
    elim (first_index (words_for b.nbits) (λ ix. not (all_bits bits_per_word (b.v ix)))) [
      | none ↦ ok none
      | some ix ↦ elim (first_index bits_per_word (λ offset. not (b.v ix offset))) [
        | none ↦ err assertion
        | some offset ↦ do
          require (ltb (ix * bits_per_word + offset) b.nbits) assertion
          ok (some (ix * bits_per_word + offset, put_bit ix offset true b))
      ]
    ]

-- `bitmap_translate`: the word, and the offset that makes the mask.
abbrev pub bitmap_translate : ℕ → ℕ × ℕ
bitmap_translate bitno = (bitno / bits_per_word, bitno % bits_per_word)

-- The bit that `bitmap_translate` gives.
abbrev pub bit_at : Bitmap → ℕ → Bool
bit_at b index = b.v (bitmap_translate index).0 (bitmap_translate index).1

-- `bitmap_mark`
pub bitmap_mark : ℕ → Bitmap → Result Bitmap
bitmap_mark index b = do
  require (ltb index b.nbits) assertion
  require (not (bit_at b index)) assertion
  ok (put_bit (bitmap_translate index).0 (bitmap_translate index).1 true b)

-- `bitmap_unmark`
pub bitmap_unmark : ℕ → Bitmap → Result Bitmap
bitmap_unmark index b = do
  require (ltb index b.nbits) assertion
  require (bit_at b index) assertion
  ok (put_bit (bitmap_translate index).0 (bitmap_translate index).1 false b)

-- `bitmap_isset`: whether the answer is not 0. It does not test the index.
pub bitmap_isset : ℕ → Bitmap → Result Bool
bitmap_isset index b = do
  require (ltb (bitmap_translate index).0 (words_for b.nbits)) out_of_bounds
  ok (bit_at b index)
