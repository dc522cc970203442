-- ===== src/Uio/Left.antt =====
-- What a movement leaves of the buffers, and zeros over buffers.
use sdp_project_c.Common.{ℕ, ◌+◌, ◌-◌, ◌<◌, ◌≤◌, ◌≡◌, refl, sym, ◌∙◌, ap, ◌⊎◌, arith, List, [], ◌∷◌}
use sdp_project_c.Mem.{filled, moved}
use sdp_project_c.Uio.{Iovec, uio_read}
use sdp_project_c.Uio.Bytes.{lesser, block, carried}

-- `n` zeros over the buffers.
unfoldable pub cleared : List Iovec → ℕ → (ℕ → ℕ) → ℕ → ℕ
cleared [] n memory = memory
cleared (iov ∷ iovs) n memory =
    let size = lesser n iov.iov_len in cleared iovs (n - size) (filled iov.iov_base 0 size memory)

-- The buffers without their first `n` bytes.
unfoldable pub without_first : ℕ → List Iovec → List Iovec
without_first n [] = []
without_first n (iov ∷ iovs) =
    let size = lesser n iov.iov_len in
    record { iov_base = iov.iov_base + size; iov_len = iov.iov_len - size }
    ∷ without_first (n - size) iovs

-- No buffer has a byte of the 16 from `z` on.
unfoldable pub Apart : ℕ → List Iovec → Type 0
Apart z [] = Unit
Apart z (iov ∷ iovs) = ((iov.iov_base + iov.iov_len ≤ z) ⊎ (z + 16 ≤ iov.iov_base)) × Apart z iovs

filled-none : (base : ℕ) (memory : ℕ → ℕ) → filled base 0 0 memory ≡ memory
filled-none base memory = λ i a. same a i
  where
    same : (a : ℕ) → filled base 0 0 memory a ≡ memory a
    same a = ground arith

pub cleared-skip :
    (iov : Iovec) (iovs : List Iovec) (n : ℕ) (memory : ℕ → ℕ)
    → lesser n iov.iov_len ≡ 0
    → cleared (iov ∷ iovs) n memory ≡ cleared iovs n memory
unfolding cleared
cleared-skip iov iovs n memory e =
    let left : n - lesser n iov.iov_len ≡ n = omega (arith, e) in
    let same : filled iov.iov_base 0 (lesser n iov.iov_len) memory ≡ memory =
      ap (λ size. filled iov.iov_base 0 size memory) e ∙ filled-none iov.iov_base memory in
    λ i. cleared iovs (left i) (same i)

filled-twice :
    (base a b : ℕ) (memory : ℕ → ℕ)
    → filled (base + a) 0 b (filled base 0 a memory) ≡ filled base 0 (a + b) memory
filled-twice base a b memory = λ i x. same x i
  where
    same :
        (x : ℕ) → filled (base + a) 0 b (filled base 0 a memory) x ≡ filled base 0 (a + b) memory x
    same x = ground arith

filled-swap :
    (base a base' b : ℕ) (memory : ℕ → ℕ)
    → filled base 0 a (filled base' 0 b memory) ≡ filled base' 0 b (filled base 0 a memory)
filled-swap base a base' b memory = λ i x. same x i
  where
    same :
        (x : ℕ)
        → filled base 0 a (filled base' 0 b memory) x ≡ filled base' 0 b (filled base 0 a memory) x
    same x = ground arith

cleared-filled :
    (iovs : List Iovec) (n base size : ℕ) (memory : ℕ → ℕ)
    → cleared iovs n (filled base 0 size memory) ≡ filled base 0 size (cleared iovs n memory)
unfolding cleared
cleared-filled [] n base size memory = refl
cleared-filled (iov ∷ iovs) n base size memory =
    let k = lesser n iov.iov_len in
    ap (cleared iovs (n - k)) (filled-swap iov.iov_base k base size memory)
    ∙ cleared-filled iovs (n - k) base size (filled iov.iov_base 0 k memory)

-- Zeros in two goes.
pub cleared-split :
    (iovs : List Iovec) (a b : ℕ) (memory : ℕ → ℕ)
    → cleared (without_first a iovs) b (cleared iovs a memory) ≡ cleared iovs (a + b) memory
unfolding cleared without_first
cleared-split [] a b memory = refl
cleared-split (iov ∷ iovs) a b memory =
    let sa : ℕ = lesser a iov.iov_len in
    let sb : ℕ = lesser b (iov.iov_len - sa) in
    let size : sa + sb ≡ lesser (a + b) iov.iov_len = ground arith in
    let left : a - sa + (b - sb) ≡ a + b - lesser (a + b) iov.iov_len = ground arith in
    ap (cleared (without_first (a - sa) iovs) (b - sb))
      (sym (cleared-filled iovs (a - sa) (iov.iov_base + sa) sb (filled iov.iov_base 0 sa memory)))
    ∙ cleared-split iovs (a - sa) (b - sb)
        (filled (iov.iov_base + sa) 0 sb (filled iov.iov_base 0 sa memory))
    ∙ (λ i. cleared iovs (left i) (
        (filled-twice iov.iov_base sa sb memory ∙ ap (λ k. filled iov.iov_base 0 k memory) size) i))

-- Buffers without room take no zeros.
pub cleared-none : (iovs : List Iovec) (memory : ℕ → ℕ) → cleared iovs 0 memory ≡ memory
unfolding cleared
cleared-none [] memory = refl
cleared-none (iov ∷ iovs) memory =
    cleared-skip iov iovs 0 memory (ground arith) ∙ cleared-none iovs memory

-- Nothing taken off.
pub cleared-whole :
    (iovs : List Iovec) (k : ℕ) (memory : ℕ → ℕ)
    → cleared (without_first 0 iovs) k memory ≡ cleared iovs k memory
cleared-whole iovs k memory =
    ap (cleared (without_first 0 iovs) k) (sym (cleared-none iovs memory))
    ∙ cleared-split iovs 0 k memory
    ∙ ap (λ n. cleared iovs n memory) (omega arith)

-- The zeros that are copied.
pub carried-cleared :
    (iovs : List Iovec) (z n : ℕ) (memory : ℕ → ℕ)
    → n ≤ 16
    → ((o : ℕ) → o < 16 → memory (z + o) ≡ 0)
    → (ptr : ℕ) → z ≤ ptr
    → ptr + n ≤ z + 16
    → Apart z iovs
    → (carried uio_read iovs ptr n memory ≡ cleared iovs n memory)
      × ((o : ℕ) → o < 16 → carried uio_read iovs ptr n memory (z + o) ≡ 0)
unfolding carried cleared Apart
carried-cleared [] z n memory small zeros ptr above inside apart = (refl, zeros)
carried-cleared (iov ∷ iovs) z n memory small zeros ptr above inside (clear, apart) =
    let size : ℕ = lesser n iov.iov_len in
    let (rest, still) =
      carried-cleared iovs z (n - size) (block uio_read iov.iov_base ptr size memory) (omega arith)
        (kept_zeros size (ground arith)) (ptr + size) (omega arith) (ground (arith, inside))
        apart in
    (
      rest
          ∙ ap (cleared iovs (n - size)) (λ i a. zero_block size (ground arith) (ground arith) a i),
      still,
    )
  where
    kept_zeros :
        (size : ℕ)
        → size ≤ iov.iov_len
        → (o : ℕ) → o < 16
        → moved iov.iov_base ptr size memory (z + o) ≡ 0
    kept_zeros size fits o lt = ground (arith, clear, zeros o)

    zero_block :
        (size : ℕ)
        → size ≤ iov.iov_len
        → size ≤ n
        → (a : ℕ) → moved iov.iov_base ptr size memory a ≡ filled iov.iov_base 0 size memory a
    zero_block size fits few a =
        let at : z + (ptr + (a - iov.iov_base) - z) ≡ ptr + (a - iov.iov_base) =
          omega (arith, above) in
        ground (arith, at, zeros (ptr + (a - iov.iov_base) - z), above, inside)

-- An empty first buffer.
pub left-skip :
    (iov : Iovec) (iovs : List Iovec) (n k : ℕ) (memory : ℕ → ℕ)
    → iov.iov_len ≡ 0
    → cleared (without_first n (iov ∷ iovs)) k memory ≡ cleared (without_first n iovs) k memory
unfolding without_first
left-skip iov iovs n k memory e =
    let same : n - lesser n iov.iov_len ≡ n = ground (arith, e) in
    cleared-skip
      (record {
        iov_base = iov.iov_base + lesser n iov.iov_len;
        iov_len = iov.iov_len - lesser n iov.iov_len;
      })
      (without_first (n - lesser n iov.iov_len) iovs) k memory (ground (arith, e))
    ∙ ap (λ j. cleared (without_first j iovs) k memory) same

-- A block taken off the first buffer.
pub left-block :
    (iov : Iovec) (iovs : List Iovec) (n size k : ℕ) (memory : ℕ → ℕ)
    → size ≡ lesser n iov.iov_len
    → cleared
        (without_first
          (n - size)
          (record { iov_base = iov.iov_base + size; iov_len = iov.iov_len - size } ∷ iovs))
        k
        memory
      ≡ cleared (without_first n (iov ∷ iovs)) k memory
unfolding without_first
left-block iov iovs n size k memory whole =
    let more : lesser (n - size) (iov.iov_len - size) ≡ 0 = ground (arith, whole) in
    let base : iov.iov_base + size + lesser (n - size) (iov.iov_len - size)
        ≡ iov.iov_base + lesser n iov.iov_len =
      omega (arith, more, whole) in
    let len : iov.iov_len - size - lesser (n - size) (iov.iov_len - size)
        ≡ iov.iov_len - lesser n iov.iov_len =
      omega (arith, more, whole) in
    let left : n - size - lesser (n - size) (iov.iov_len - size) ≡ n - lesser n iov.iov_len =
      omega (arith, more, whole) in
    λ i.
      cleared (record { iov_base = base i; iov_len = len i } ∷ without_first (left i) iovs) k memory
