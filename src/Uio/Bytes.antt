-- ===== src/Uio/Bytes.antt =====
-- Which bytes a movement copies: each buffer in turn takes or gives what is left, up to its length.
use sdp_project_c.Common.{ℕ, ◌+◌, ◌-◌, ◌≡◌, refl, ◌∙◌, ap, arith, ltb, if◌then◌else◌, List, [], ◌∷◌}
use sdp_project_c.Mem.{moved}
use sdp_project_c.Mem.Copy.{memmove-moved}
use sdp_project_c.Uio.{Iovec, UioRw, uio_read, uio_write, copied, Move}

-- `size` bytes from `ptr` to the buffer, or from the buffer to `ptr`, all at once.
abbrev pub block : UioRw → ℕ → ℕ → ℕ → (ℕ → ℕ) → ℕ → ℕ
block uio_read base ptr size memory = moved base ptr size memory
block uio_write base ptr size memory = moved ptr base size memory

abbrev pub lesser : ℕ → ℕ → ℕ
lesser a b = if ltb a b then a else b

-- `n` bytes at `ptr`, over the buffers.
unfoldable pub carried : UioRw → List Iovec → ℕ → ℕ → (ℕ → ℕ) → ℕ → ℕ
carried rw [] ptr n memory = memory
carried rw (iov ∷ iovs) ptr n memory =
    let size = lesser n iov.iov_len in
    carried rw iovs (ptr + size) (n - size) (block rw iov.iov_base ptr size memory)

-- The bytes after all that is left to move.
abbrev pub after_all : Move → ℕ → ℕ
after_all m = carried m.uio.uio_rw m.uio.uio_iov m.ptr m.n m.memory

pub copied-block :
    (dir : UioRw) (base ptr size : ℕ) (memory : ℕ → ℕ)
    → copied dir base ptr size memory ≡ block dir base ptr size memory
copied-block uio_read base ptr size memory = λ i a. memmove-moved base ptr size memory a i
copied-block uio_write base ptr size memory = λ i a. memmove-moved ptr base size memory a i

block-zero : (dir : UioRw) (base ptr : ℕ) (memory : ℕ → ℕ) → block dir base ptr 0 memory ≡ memory
block-zero uio_read base ptr memory = λ i a. same a i
  where
    same : (a : ℕ) → moved base ptr 0 memory a ≡ memory a
    same a = ground arith
block-zero uio_write base ptr memory = λ i a. same a i
  where
    same : (a : ℕ) → moved ptr base 0 memory a ≡ memory a
    same a = ground arith

-- A buffer that takes nothing.
pub carried-skip :
    (dir : UioRw) (iov : Iovec) (iovs : List Iovec) (ptr n : ℕ) (memory : ℕ → ℕ)
    → lesser n iov.iov_len ≡ 0
    → carried dir (iov ∷ iovs) ptr n memory ≡ carried dir iovs ptr n memory
unfolding carried
carried-skip dir iov iovs ptr n memory none_moved =
    let at : ptr + lesser n iov.iov_len ≡ ptr = omega (arith, none_moved) in
    let left : n - lesser n iov.iov_len ≡ n = omega (arith, none_moved) in
    let same : block dir iov.iov_base ptr (lesser n iov.iov_len) memory ≡ memory =
      ap (λ size. block dir iov.iov_base ptr size memory) none_moved
      ∙ block-zero dir iov.iov_base ptr memory in
    λ i. carried dir iovs (at i) (left i) (same i)

-- Nothing to move.
pub carried-none :
    (dir : UioRw) (iovs : List Iovec) (ptr : ℕ) (memory : ℕ → ℕ)
    → carried dir iovs ptr 0 memory ≡ memory
unfolding carried
carried-none dir [] ptr memory = refl
carried-none dir (iov ∷ iovs) ptr memory =
    carried-skip dir iov iovs ptr 0 memory (ground arith) ∙ carried-none dir iovs ptr memory

-- A block of the first buffer, after which the buffer is full or nothing is left.
pub carried-block :
    (dir : UioRw) (iov : Iovec) (iovs : List Iovec) (ptr n size : ℕ) (memory : ℕ → ℕ)
    → size ≡ lesser n iov.iov_len
    → carried dir
        (record { iov_base = iov.iov_base + size; iov_len = iov.iov_len - size } ∷ iovs)
        (ptr + size)
        (n - size)
        (copied dir iov.iov_base ptr size memory)
      ≡ carried dir (iov ∷ iovs) ptr n memory
unfolding carried
carried-block dir iov iovs ptr n size memory whole =
    carried-skip dir (record { iov_base = iov.iov_base + size; iov_len = iov.iov_len - size }) iovs
      (ptr + size) (n - size) (copied dir iov.iov_base ptr size memory) (ground (arith, whole))
    ∙ (λ i. carried dir iovs (ptr + whole i) (n - whole i) (
        (copied-block dir iov.iov_base ptr size memory
            ∙ ap (λ k. block dir iov.iov_base ptr k memory) whole)
          i))
