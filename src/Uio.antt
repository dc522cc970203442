-- ===== src/Uio.antt =====
-- kern/lib/uio.c: the movement of data between the kernel and a sequence of buffers. `memory` holds the bytes
-- of both; the assertions on `uio_space` are left out.
use sdp_project_c.Common.{
  ℕ, zero, suc, ◌+◌, ◌-◌, ◌*◌, Bool, true, false, not, ◌&&◌, ◌||◌, Result, ok, err, ◌>>=◌, ◌>>◌,
  require, endless, ran_out_of_buffers, out_of_bounds, assertion, ltb, leb, ◌==◌, if◌then◌else◌,
  sub_u32, List, [], ◌∷◌, length,
}
use sdp_project_c.Mem.{memmove}
use sdp_project_c.CopyInOut.{copyin, copyout}
pub mod Bytes
pub mod Left
pub mod Rounds
pub mod Moves
pub mod Zeros
mod Tests

-- `struct iovec`, `enum uio_rw`, `enum uio_seg` and `struct uio`; the buffers are those from `uio_iov` on.
pub record Iovec : Type 0 where
  pub iov_base : ℕ
  pub iov_len : ℕ

pub data UioRw : Type 0 where
  uio_read uio_write : UioRw

pub data UioSeg : Type 0 where
  uio_userispace uio_userspace uio_sysspace : UioSeg

pub record Uio : Type 0 where
  pub uio_iov : List Iovec
  pub uio_offset : ℕ
  pub uio_resid : ℕ
  pub uio_segflg : UioSeg
  pub uio_rw : UioRw

-- What `uiomove` works on: the bytes that are left at `ptr`, and the bytes of memory.
pub record Move : Type 0 where
  pub ptr : ℕ
  pub n : ℕ
  pub uio : Uio
  pub memory : ℕ → ℕ

abbrev pub copied : UioRw → ℕ → ℕ → ℕ → (ℕ → ℕ) → ℕ → ℕ
copied uio_read base ptr size memory = memmove base ptr size memory
copied uio_write base ptr size memory = memmove ptr base size memory

-- The error number of a copy; the kernel's own copies have none.
abbrev pub copy_error : (ℕ → Bool) → UioSeg → UioRw → ℕ → ℕ → ℕ
copy_error bad uio_sysspace rw base size = 0
copy_error bad uio_userspace uio_read base size = copyout bad base size
copy_error bad uio_userspace uio_write base size = copyin bad base size
copy_error bad uio_userispace uio_read base size = copyout bad base size
copy_error bad uio_userispace uio_write base size = copyin bad base size

-- A round of the loop: it ends with an error number, or goes on.
pub data Round : Type 0 where
  done : ℕ → Move → Round
  again : Move → Round

abbrev pub next_buffer : List Iovec → Move → Result Round
next_buffer [] m = err ran_out_of_buffers
next_buffer (iov ∷ iovs) m = ok (again (record m { uio = record (m.uio) { uio_iov = iov ∷ iovs } }))

-- `size` bytes to or from the buffer `iov`.
abbrev pub move_block : (ℕ → Bool) → Iovec → List Iovec → ℕ → Move → Round
move_block bad iov iovs size m =
    let error = copy_error bad m.uio.uio_segflg m.uio.uio_rw iov.iov_base size in
    if not (error == 0)
    then done error m
    else again (record {
      ptr = m.ptr + size;
      n = m.n - size;
      uio = record (m.uio) {
        uio_iov = record { iov_base = iov.iov_base + size; iov_len = iov.iov_len - size } ∷ iovs;
        uio_resid = sub_u32 m.uio.uio_resid size;
        uio_offset = m.uio.uio_offset + size;
      };
      memory = copied m.uio.uio_rw iov.iov_base m.ptr size m.memory;
    })

pub uiomove_round : (ℕ → Bool) → List Iovec → Move → Result Round
uiomove_round bad iovs m = if m.n == 0 || m.uio.uio_resid == 0 then ok (done 0 m) else (elim iovs [
  | [] ↦ err out_of_bounds
  | iov ∷ iovs' ↦
      let size = (if ltb m.n iov.iov_len then m.n else iov.iov_len) in
      if size == 0 then next_buffer iovs' m else ok (move_block bad iov iovs' size m)
])

-- The loop of `uiomove`, in at most `rounds` rounds.
pub uiomove_loop : ℕ → (ℕ → Bool) → Move → Result (ℕ × Move)
unfolding uiomove_round
uiomove_loop zero bad m = err endless
uiomove_loop (suc rounds) bad m = do
  r ← uiomove_round bad m.uio.uio_iov m
  elim r [ done error m' ↦ ok (error, m') | again m' ↦ uiomove_loop rounds bad m' ]

-- `uiomove`: every buffer takes two rounds at most, and the end one.
pub uiomove : (ℕ → Bool) → Move → Result (ℕ × Move)
unfolding uiomove_loop
uiomove bad m = uiomove_loop (2 * length m.uio.uio_iov + 1) bad m

abbrev pub is_read : UioRw → Bool
is_read uio_read = true
is_read uio_write = false

-- The loop of `uiomovezeros`, in at most `rounds` rounds; `ptr` is the address of its 16 zeros.
pub uiomovezeros_loop : ℕ → (ℕ → Bool) → Move → Result (ℕ × Move)
unfolding uiomove
uiomovezeros_loop zero bad m = err endless
uiomovezeros_loop (suc rounds) bad m = elim (m.n == 0) [
  | true ↦ ok (0, m)
  | false ↦ do
    let amt = (if ltb m.n 16 then m.n else 16)
    (result, m') ← uiomove bad (record m { n = amt })
    elim (result == 0) [
      | true ↦ uiomovezeros_loop rounds bad (record m' { ptr = m.ptr; n = m.n - amt })
      | false ↦ ok (result, m')
    ]
]

-- `uiomovezeros`: each round moves a byte or more.
pub uiomovezeros : (ℕ → Bool) → Move → Result (ℕ × Move)
unfolding uiomovezeros_loop
uiomovezeros bad m = do require (is_read m.uio.uio_rw) assertion; uiomovezeros_loop (m.n + 1) bad m

-- `uio_kinit`
pub uio_kinit : ℕ → ℕ → ℕ → UioRw → Uio
uio_kinit kbuf len pos rw = record {
  uio_iov = record { iov_base = kbuf; iov_len = len } ∷ [];
  uio_offset = pos;
  uio_resid = len;
  uio_segflg = uio_sysspace;
  uio_rw = rw;
}
