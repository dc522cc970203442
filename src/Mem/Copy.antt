-- ===== src/Mem/Copy.antt =====
-- The copies of blocks that may overlap.
use sdp_project_c.Common.{
  ℕ, zero, suc, ◌+◌, ◌-◌, ◌*◌, ◌/◌, ◌≤◌, ◌<◌, ◌≡◌, sym, ◌∙◌, ap, subst, ◌⊎◌, inl, inr, true, ltb,
  arith, Bool-cases, dec_lt,
}
use sdp_project_c.Mem.{assign, forward, backward, by_words, memcpy, memmove, moved}

-- A copy from the front is right where no byte is written before it is read.
forward_lem :
    (width n d s : ℕ) (memory : ℕ → ℕ) (a : ℕ)
    → (d ≤ s) ⊎ (s + n * width ≤ d)
    → forward width n d s memory a ≡ moved d s (n * width) memory a
unfolding forward
forward_lem width zero d s memory a apart = ground arith
forward_lem width (suc n) d s memory a apart =
    let more : suc n * width ≡ n * width + width = grind arith in
    ground (
      arith,
      more,
      forward_lem width n d s memory a,
      forward_lem width n d s memory (s + n * width + (a - (d + n * width))),
    )

-- A copy from the back likewise: the last piece, and then the others.
last_piece :
    (width t d s : ℕ) (memory : ℕ → ℕ) (a : ℕ)
    → s ≤ d
    → moved d s t (assign width (d + t) (s + t) memory) a ≡ moved d s (t + width) memory a
unfolding assign
last_piece width t d s memory a le = elim (dec_lt a (d + t)) [
  | yes low ↦ elim (dec_lt a d) [
    | yes before ↦ ground (arith, before)
    | no on ↦ let unread : s + (a - d) < d + t = omega arith in ground (arith, low, on, unread)
  ]
  | no high ↦
      let same : s + t + (a - (d + t)) ≡ s + (a - d) = omega arith in ground (arith, high, same)
]

backward_lem :
    (width n d s : ℕ) (memory : ℕ → ℕ) (a : ℕ)
    → s ≤ d
    → backward width n d s memory a ≡ moved d s (n * width) memory a
unfolding backward
backward_lem width zero d s memory a le = ground arith
backward_lem width (suc n) d s memory a le =
    let more : n * width + width ≡ suc n * width = grind arith in
    backward_lem width n d s (assign width (d + n * width) (s + n * width) memory) a le
    ∙ last_piece width (n * width) d s memory a le
    ∙ ap (λ t. moved d s t memory a) more

-- Words that make up a block.
words_lem : (dst src len : ℕ) → by_words dst src len ≡ true → len / 4 * 4 ≡ len
words_lem dst src len words = ground (arith, words)

bytes_lem : (len : ℕ) → len * 1 ≡ len
bytes_lem len = omega arith

-- `memcpy` of a block that does not overlap, or lies above where it goes, moves it.
pub memcpy-moved :
    (dst src len : ℕ) (memory : ℕ → ℕ) (a : ℕ)
    → (dst ≤ src) ⊎ (src + len ≤ dst)
    → memcpy dst src len memory a ≡ moved dst src len memory a
unfolding memcpy
memcpy-moved dst src len memory a apart = elim (Bool-cases (by_words dst src len)) [
  | inl words ↦
      let whole = words_lem dst src len words in
      rw words (
        forward_lem 4 (len / 4) dst src memory a
          (subst (λ n. (dst ≤ src) ⊎ (src + n ≤ dst)) (sym whole) apart)
        ∙ ap (λ n. moved dst src n memory a) whole)
  | inr bytes ↦
      let same = bytes_lem len in
      rw bytes (
        forward_lem 1 len dst src memory a
          (subst (λ n. (dst ≤ src) ⊎ (src + n ≤ dst)) (sym same) apart)
        ∙ ap (λ n. moved dst src n memory a) same)
]

-- `memmove` moves every block, by words or by bytes, whether or not it overlaps with where it goes.
pub memmove-moved :
    (dst src len : ℕ) (memory : ℕ → ℕ) (a : ℕ)
    → memmove dst src len memory a ≡ moved dst src len memory a
unfolding memmove
memmove-moved dst src len memory a = elim (Bool-cases (ltb dst src)) [
  | inl below ↦ rw below (memcpy-moved dst src len memory a (inl (ground (arith, below))))
  | inr above ↦
      let le : src ≤ dst = ground (arith, above) in
      elim (Bool-cases (by_words dst src len)) [
        | inl words ↦
            rw (above, words)
              (backward_lem 4 (len / 4) dst src memory a le
                ∙ ap (λ n. moved dst src n memory a) (words_lem dst src len words))
        | inr bytes ↦
            rw (above, bytes)
              (backward_lem 1 len dst src memory a le
                ∙ ap (λ n. moved dst src n memory a) (bytes_lem len))
      ]
]
