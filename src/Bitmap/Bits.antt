-- ===== src/Bitmap/Bits.antt =====
-- The bitmap as a set of numbers below `nbits`.
use sdp_project_c.Common.{
  ℕ, zero, suc, ◌+◌, ◌-◌, ◌*◌, ◌/◌, ◌%◌, ◌≤◌, ◌<◌, ◌≡◌, refl, Bool, true, false, not, ◌&&◌, ◌||◌,
  Option, none, some, ok, err, ◌>>◌, Returns, ℕ_discrete, dec_lt, subst, sym, arith, ltb, leb, ◌==◌,
  if◌then◌else◌, fill, fill_at, first_index, FirstIn, first_index-FirstIn, require, assertion,
}
use sdp_project_c.Bitmap.{
  Bitmap, bits_per_word, words_for, all_bits, put_bit, mark_leftover, bitmap_create, bitmap_alloc,
  bit_at, bitmap_unmark,
}

-- The leftover bits are in use.
pub record IsValid (b : Bitmap) : Type 0 where
  pub leftover : (i : ℕ) → b.nbits ≤ i → i < words_for b.nbits * bits_per_word → bit_at b i ≡ true

all_bits-all : (n : ℕ) (word : ℕ → Bool) → all_bits n word ≡ true → (j : ℕ) → j < n → word j ≡ true
unfolding all_bits
all_bits-all zero word h j lt = absurd (omega arith)
all_bits-all (suc n) word h j lt =
    let top : word n ≡ true = ground (arith, h) in
    let rest : all_bits n word ≡ true = ground (arith, h) in
    elim (ℕ_discrete j n) [ yes e ↦ rw e top | no ne ↦ all_bits-all n word rest j (omega arith) ]

all_bits-some :
    (n : ℕ) (word : ℕ → Bool) → ((j : ℕ) → j < n → word j ≡ true) → all_bits n word ≡ true
unfolding all_bits
all_bits-some zero word h = refl
all_bits-some (suc n) word h = ground (arith, h n, all_bits-some n word (λ j lt. h j (omega arith)))

-- The bit at an offset of a word.
bit_at_word :
    (b : Bitmap) (ix offset : ℕ)
    → offset < bits_per_word
    → bit_at b (ix * bits_per_word + offset) ≡ b.v ix offset
bit_at_word b ix offset small =
    let word : (ix * bits_per_word + offset) / bits_per_word ≡ ix = omega arith in
    let place : (ix * bits_per_word + offset) % bits_per_word ≡ offset = omega arith in
    λ t. b.v (word t) (place t)

-- Putting a bit changes that bit alone.
bit_at-put_bit :
    (b : Bitmap) (ix offset : ℕ) (x : Bool) (i : ℕ)
    → offset < bits_per_word
    → bit_at (put_bit ix offset x b) i
      ≡ (if i == ix * bits_per_word + offset then x else bit_at b i)
bit_at-put_bit b ix offset x i small = ground arith

-- What `bitmap_alloc` did: every bit is in use, or the lowest free one comes into use.
abbrev pub Takes : Bitmap → Option (ℕ × Bitmap) → Type 0
Takes b none = (i : ℕ) → i < b.nbits → bit_at b i ≡ true
Takes b (some (index, b')) =
    (index < b.nbits)
    × (bit_at b index ≡ false)
    × ((i : ℕ) → i < index → bit_at b i ≡ true)
    × ((i : ℕ) → bit_at b' i ≡ (i == index || bit_at b i))
    × (b'.nbits ≡ b.nbits)
    × IsValid b'

-- `bitmap_alloc` of a valid bitmap never fails an assertion: it gives ENOSPC only if every bit is in use,
-- and otherwise marks the lowest free bit, which it gives, and no other; the bitmap stays valid.
pub bitmap_alloc-Takes : (b : Bitmap) → IsValid b → Returns (bitmap_alloc b) (Takes b)
unfolding bitmap_alloc
bitmap_alloc-Takes b v =
    words _ (first_index-FirstIn (words_for b.nbits) (λ ix. not (all_bits bits_per_word (b.v ix))))
  where
    full : (i : ℕ) → all_bits bits_per_word (b.v (i / bits_per_word)) ≡ true → bit_at b i ≡ true
    full i h =
        all_bits-all bits_per_word (b.v (i / bits_per_word)) h (i % bits_per_word) (omega arith)

    same_word :
        (ix offset i : ℕ)
        → (i / bits_per_word ≡ ix) × (i % bits_per_word < offset)
        → ((j : ℕ) → 0 ≤ j → j < offset → not (b.v ix j) ≡ false)
        → bit_at b i ≡ true
    same_word ix offset i (e, p) first =
        subst (λ k. b.v k (i % bits_per_word) ≡ true) (sym e)
          (ground (arith, first (i % bits_per_word)))

    bits :
        (ix : ℕ)
        → ix < words_for b.nbits
        → ((j : ℕ) → j < ix → all_bits bits_per_word (b.v j) ≡ true)
        → all_bits bits_per_word (b.v ix) ≡ false
        → (o : Option ℕ) → FirstIn 0 bits_per_word (λ offset. not (b.v ix offset)) o
        → Returns
            (elim o [
              | none ↦ err assertion
              | some offset ↦ do
                require (ltb (ix * bits_per_word + offset) b.nbits) assertion
                ok (some (ix * bits_per_word + offset, put_bit ix offset true b))
            ])
            (Takes b)
    bits ix lt before free none h =
        absurd
          (ground (arith, free, all_bits-some bits_per_word (b.v ix) (λ j lt. ground (arith, h j))))
    bits ix lt before free (some offset) (_, small, hit, first) =
        let below : (i : ℕ) → i < ix * bits_per_word + offset → bit_at b i ≡ true = λ i p.
          elim (dec_lt (i / bits_per_word) ix) [
            | yes low ↦ full i (before (i / bits_per_word) low)
            | no same ↦ same_word ix offset i (omega arith) first
          ] in
        let clear : bit_at b (ix * bits_per_word + offset) ≡ false =
          ground (arith, hit, bit_at_word b ix offset small) in
        let inside : ix * bits_per_word + offset < b.nbits =
          ground (arith, clear, lt, small, v.leftover (ix * bits_per_word + offset)) in
        let test : ltb (ix * bits_per_word + offset) b.nbits ≡ true = ground arith in
        rw test (
          inside,
          clear,
          λ i p. below i p,
          λ i. ground (arith, bit_at-put_bit b ix offset true i small),
          refl,
          record {
            leftover =
                λ i p q. ground (arith, bit_at-put_bit b ix offset true i small, v.leftover i);
          },
        )

    words :
        (o : Option ℕ)
        → FirstIn 0 (words_for b.nbits) (λ ix. not (all_bits bits_per_word (b.v ix))) o
        → Returns
            (elim o [
              | none ↦ ok none
              | some ix ↦ elim (first_index bits_per_word (λ offset. not (b.v ix offset))) [
                | none ↦ err assertion
                | some offset ↦ do
                  require (ltb (ix * bits_per_word + offset) b.nbits) assertion
                  ok (some (ix * bits_per_word + offset, put_bit ix offset true b))
              ]
            ])
            (Takes b)
    words none h = λ i lt. full i (ground (arith, h (i / bits_per_word)))
    words (some ix) (_, lt, hit, first) =
        bits ix lt (λ j p. ground (arith, first j)) (ground (arith, hit)) _
          (first_index-FirstIn bits_per_word (λ offset. not (b.v ix offset)))

-- `bitmap_unmark` of the bit that `bitmap_alloc` has just taken out of a valid bitmap gives the bits back
-- as they were.
pub bitmap_unmark-bitmap_alloc :
    (b b' : Bitmap) (index : ℕ)
    → IsValid b
    → bitmap_alloc b ≡ ok (some (index, b'))
    → Returns
        (bitmap_unmark index b')
        (λ b''. (b''.nbits ≡ b.nbits) × ((i : ℕ) → bit_at b'' i ≡ bit_at b i))
unfolding bitmap_unmark
bitmap_unmark-bitmap_alloc b b' index v taken =
    back (subst (λ m. Returns m (Takes b)) taken (bitmap_alloc-Takes b v))
  where
    back :
        Takes b (some (index, b'))
        → Returns
            (bitmap_unmark index b')
            (λ b''. (b''.nbits ≡ b.nbits) × ((i : ℕ) → bit_at b'' i ≡ bit_at b i))
    back (small, clear, _, bits, same, _) =
        let inside : ltb index b'.nbits ≡ true = ground arith in
        let set : bit_at b' index ≡ true = ground (arith, bits index) in
        rw (inside, set) (same, λ i. ground (arith, bits i, clear))

-- The last word once its leftover bits are marked.
filled :
    (nbits j : ℕ)
    → (let over = nbits - (words_for nbits - 1) * bits_per_word in
        fill (bits_per_word - over) over true (λ _. false) j
        ≡ (leb over j && ltb j (over + (bits_per_word - over))))
filled nbits j =
    let over = nbits - (words_for nbits - 1) * bits_per_word in
    ground (arith, fill_at (bits_per_word - over) over true (λ _. false) j)

-- `bitmap_create`, with memory, fails no assertion: it gives a valid bitmap of the size asked for with
-- every bit free.
pub bitmap_create-IsValid :
    (nbits : ℕ)
    → Returns (bitmap_create true true nbits) (λ o.
      (b : Bitmap) × (o ≡ some b)
      × (b.nbits ≡ nbits)
      × IsValid b
      × ((i : ℕ) → i < nbits → bit_at b i ≡ false))
unfolding bitmap_create mark_leftover
bitmap_create-IsValid nbits = elim (ℕ_discrete (nbits % bits_per_word) 0) [
  | yes whole ↦
      let none_left : ltb (nbits / bits_per_word) (words_for nbits) ≡ false = ground arith in
      rw none_left
        (_, refl, refl, record { leftover = λ i p q. absurd (omega arith) }, λ i lt. refl)
  | no part ↦
      let some_left : ltb (nbits / bits_per_word) (words_for nbits) ≡ true = ground arith in
      let last : (nbits / bits_per_word == words_for nbits - 1) ≡ true = ground arith in
      let over : (ltb 0 (nbits - (words_for nbits - 1) * bits_per_word)
            && ltb (nbits - (words_for nbits - 1) * bits_per_word) bits_per_word)
          ≡ true =
        ground arith in
      rw (some_left, last, over)
        (
          _,
          refl,
          refl,
          record { leftover = λ i p q. ground (arith, filled nbits (i % bits_per_word)) },
          λ i lt. ground (arith, filled nbits (i % bits_per_word)),
        )
]
