-- ===== src/Uio/Rounds.antt =====
-- A round of the loop of `uiomove`.
use sdp_project_c.Common.{
  ℕ, ◌+◌, ◌-◌, ◌*◌, ◌≤◌, ◌<◌, ◌≡◌, refl, ◌≢◌, ◌⊎◌, inl, inr, Bool, true, false, ◌||◌, Returns,
  arith, ltb, ◌==◌, if◌then◌else◌, sub_u32, subst, ap, sym, ◌∙◌, List, [], ◌∷◌, length, ℕ_discrete,
}
use sdp_project_c.Uio.{
  Iovec, Move, Round, done, again, uio_sysspace, next_buffer, move_block, uiomove_round,
}
use sdp_project_c.Uio.Left.{cleared, without_first, Apart, left-skip, left-block}
use sdp_project_c.Uio.Bytes.{after_all, carried, carried-skip, carried-block}

-- The bytes that the buffers hold together.
unfoldable pub room : List Iovec → ℕ
room [] = 0
room (iov ∷ iovs) = iov.iov_len + room iovs

-- The kernel's own buffers, which have room for `uio_resid` bytes together.
pub record IsValid (m : Move) : Type 0 where
  pub own : m.uio.uio_segflg ≡ uio_sysspace
  pub exact : room m.uio.uio_iov ≡ m.uio.uio_resid
  pub small : m.uio.uio_resid < 0x1_0000_0000

-- The rounds that are left before the last.
abbrev pub measure : List Iovec → ℕ
measure [] = 0
measure (iov ∷ iovs) = 2 * length iovs + (if iov.iov_len == 0 then 1 else 2)

-- Nothing is lost on the way from `m` to `m'`, which has moved `k` bytes.
pub record Keeps (k : ℕ) (m m' : Move) : Type 0 where
  pub valid : IsValid m'
  pub enough : k ≤ m.n
  pub left : m'.n ≡ m.n - k
  pub at : m'.ptr ≡ m.ptr + k
  pub resid : m'.uio.uio_resid + k ≡ m.uio.uio_resid
  pub offset : m'.uio.uio_offset ≡ m.uio.uio_offset + k

-- Which bytes are where in the end does not change.
abbrev pub Carries : Move → Move → Type 0
Carries m m' =
    (m'.uio.uio_rw ≡ m.uio.uio_rw)
    × (after_all m' ≡ after_all m)
    × ((z : ℕ) → Apart z m.uio.uio_iov → Apart z m'.uio.uio_iov)
    × ((k : ℕ) (memory : ℕ → ℕ)
        → cleared (without_first m'.n m'.uio.uio_iov) k memory
          ≡ cleared (without_first m.n m.uio.uio_iov) k memory)

-- A round ends with nothing left to move, or is one of those that are left.
abbrev pub Rounds : Move → Round → Type 0
Rounds m (done error m') = (error ≡ 0) × (m' ≡ m) × ((m.n ≡ 0) ⊎ (m.uio.uio_resid ≡ 0))
Rounds m (again m') =
    (k : ℕ) × Keeps k m m'
    × Carries m m'
    × ((m'.n ≡ 0) ⊎ (measure m'.uio.uio_iov < measure m.uio.uio_iov))
    × (0 < measure m.uio.uio_iov)
    × (0 < m.n)

-- The next buffer, once the first is used up.
next_buffer-Rounds :
    (iov : Iovec) (iovs : List Iovec) (m : Move)
    → m.uio.uio_iov ≡ iov ∷ iovs
    → IsValid m
    → iov.iov_len ≡ 0
    → 0 < m.uio.uio_resid
    → 0 < m.n
    → Returns (next_buffer iovs m) (Rounds m)
unfolding room Apart
next_buffer-Rounds iov [] m e valid empty some_left some_n =
    absurd (omega (arith, valid.exact, ap room e))
next_buffer-Rounds iov (next ∷ iovs) m e valid empty some_left some_n = (
  0,
  record {
    valid = record {
      own = valid.own;
      exact = omega (arith, valid.exact, ap room e);
      small = valid.small;
    };
    enough = omega arith;
    left = omega arith;
    at = omega arith;
    resid = omega arith;
    offset = omega arith;
  },
  (
    refl,
    sym (carried-skip m.uio.uio_rw iov (next ∷ iovs) m.ptr m.n m.memory (ground (arith, empty)))
        ∙ sym (ap (λ (l : List Iovec). carried m.uio.uio_rw l m.ptr m.n m.memory) e),
    λ z apart. (subst (Apart z) e apart).1,
    λ k memory.
        sym (left-skip iov (next ∷ iovs) m.n k memory empty)
        ∙ sym (ap (λ (l : List Iovec). cleared (without_first m.n l) k memory) e),
  ),
  inr (rw e (ground (arith, empty))),
  rw e (ground (arith, empty)),
  some_n,
)

move_block-Rounds :
    (bad : ℕ → Bool) (iov : Iovec) (iovs : List Iovec) (size : ℕ) (m : Move)
    → m.uio.uio_iov ≡ iov ∷ iovs
    → IsValid m
    → 0 < size
    → size ≤ m.n
    → size ≤ iov.iov_len
    → (m.n ≡ size) ⊎ (iov.iov_len ≡ size)
    → Rounds m (move_block bad iov iovs size m)
unfolding room Apart
move_block-Rounds bad iov iovs size m e valid pos some_n some_room fits =
    let total : iov.iov_len + room iovs ≡ m.uio.uio_resid = sym (ap room e) ∙ valid.exact in
    let less : sub_u32 m.uio.uio_resid size ≡ m.uio.uio_resid - size =
      omega (arith, total, valid.small) in
    rw valid.own (
      size,
      record {
        valid = record {
          own = refl;
          exact = omega (arith, total, less);
          small = omega (arith, less, valid.small);
        };
        enough = omega arith;
        left = refl;
        at = refl;
        resid = omega (arith, total, less);
        offset = refl;
      },
      (
        refl,
        carried-block m.uio.uio_rw iov iovs m.ptr m.n size m.memory (ground (arith, fits))
            ∙ sym (ap (λ (l : List Iovec). carried m.uio.uio_rw l m.ptr m.n m.memory) e),
        λ z apart. shrunk z (subst (Apart z) e apart),
        λ k memory.
            left-block iov iovs m.n size k memory (ground (arith, fits))
            ∙ sym (ap (λ (l : List Iovec). cleared (without_first m.n l) k memory) e),
      ),
      rw e (ground (arith, fits)),
      rw e (ground arith),
      omega arith,
    )
  where
    shrunk :
        (z : ℕ)
        → Apart z (iov ∷ iovs)
        → Apart z (record { iov_base = iov.iov_base + size; iov_len = iov.iov_len - size } ∷ iovs)
    shrunk z (inl below, apart) = (inl (omega arith), apart)
    shrunk z (inr above, apart) = (inr (omega arith), apart)

-- A round with something left to move.
uiomove_round-Keeps :
    (bad : ℕ → Bool) (iovs : List Iovec) (m : Move)
    → m.uio.uio_iov ≡ iovs
    → IsValid m
    → m.n ≢ 0
    → m.uio.uio_resid ≢ 0
    → Returns (uiomove_round bad iovs m) (Rounds m)
unfolding uiomove_round room
uiomove_round-Keeps bad [] m e valid more left = absurd (omega (arith, ap room e, valid.exact))
uiomove_round-Keeps bad (iov ∷ iovs) m e valid more left =
    let t : (m.n == 0 || m.uio.uio_resid == 0) ≡ false = ground arith in
    elim (ℕ_discrete iov.iov_len 0) [
      | yes empty ↦
          let z : ((if ltb m.n iov.iov_len then m.n else iov.iov_len) == 0) ≡ true = ground arith in
          rw (t, z) (next_buffer-Rounds iov iovs m e valid empty (omega arith) (omega arith))
      | no some_room ↦
          let nz : ((if ltb m.n iov.iov_len then m.n else iov.iov_len) == 0) ≡ false =
            ground arith in
          rw (t, nz)
            (move_block-Rounds bad iov iovs (if ltb m.n iov.iov_len then m.n else iov.iov_len) m e
              valid (ground arith) (ground arith) (ground arith) (ground arith))
    ]

pub uiomove_round-Rounds :
    (bad : ℕ → Bool) (m : Move) → IsValid m → Returns (uiomove_round bad m.uio.uio_iov m) (Rounds m)
unfolding uiomove_round
uiomove_round-Rounds bad m valid = elim (ℕ_discrete m.n 0) [
  | yes z ↦
      let t : (m.n == 0 || m.uio.uio_resid == 0) ≡ true = ground arith in rw t (refl, refl, inl z)
  | no more ↦ elim (ℕ_discrete m.uio.uio_resid 0) [
    | yes z ↦
        let t : (m.n == 0 || m.uio.uio_resid == 0) ≡ true = ground arith in rw t (refl, refl, inr z)
    | no left ↦ uiomove_round-Keeps bad m.uio.uio_iov m refl valid more left
  ]
]
