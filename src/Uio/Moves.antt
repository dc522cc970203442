-- ===== src/Uio/Moves.antt =====
-- How much `uiomove` moves, and what becomes of memory and of the buffers.
use sdp_project_c.Common.{
  ℕ, zero, suc, ◌+◌, ◌*◌, ◌<◌, ◌≡◌, refl, ◌⊎◌, inl, inr, Bool, ok, Returns, Returns-bind, arith,
  ltb, if◌then◌else◌, Returns-map, subst, ap, sym, ◌∙◌, List, [], ◌∷◌, length,
}
use sdp_project_c.Uio.{Iovec, Move, Round, done, again, uiomove_round, uiomove_loop, uiomove, UioRw}
use sdp_project_c.Uio.Left.{cleared, without_first, Apart, cleared-skip, cleared-whole, left-skip}
use sdp_project_c.Uio.Bytes.{after_all, carried, carried-skip, carried-none}
use sdp_project_c.Uio.Rounds.{room, IsValid, measure, Keeps, Rounds, uiomove_round-Rounds}

-- What is left of the buffers.
abbrev pub Leaves : Move → Move → Type 0
Leaves m m' =
    (m'.uio.uio_rw ≡ m.uio.uio_rw)
    × ((z : ℕ) → Apart z m.uio.uio_iov → Apart z m'.uio.uio_iov)
    × ((k : ℕ) (memory : ℕ → ℕ)
        → cleared m'.uio.uio_iov k memory ≡ cleared (without_first m.n m.uio.uio_iov) k memory)

-- The end of `uiomove`: nothing is left to move.
abbrev pub Ends : Move → ℕ × Move → Type 0
Ends m r =
    (r.0 ≡ 0)
    × ((k : ℕ) × Keeps k m r.1)
    × ((r.1.n ≡ 0) ⊎ (r.1.uio.uio_resid ≡ 0))
    × (r.1.memory ≡ after_all m)
    × Leaves m r.1

Keeps-trans : (j k : ℕ) (m m' m'' : Move) → Keeps j m m' → Keeps k m' m'' → Keeps (j + k) m m''
Keeps-trans j k m m' m'' a b = record {
  valid = b.valid;
  enough = omega (arith, a.enough, b.enough, a.left);
  left = omega (arith, a.left, b.left);
  at = omega (arith, a.at, b.at);
  resid = omega (arith, a.resid, b.resid);
  offset = omega (arith, a.offset, b.offset);
}

Keeps-refl : (m : Move) → IsValid m → Keeps 0 m m
Keeps-refl m valid = record {
  valid = valid;
  enough = omega arith;
  left = omega arith;
  at = omega arith;
  resid = omega arith;
  offset = omega arith;
}

-- Buffers without room take nothing.
carried-full :
    (dir : UioRw) (iovs : List Iovec) (ptr n : ℕ) (memory : ℕ → ℕ)
    → room iovs ≡ 0
    → carried dir iovs ptr n memory ≡ memory
unfolding carried room
carried-full dir [] ptr n memory e = refl
carried-full dir (iov ∷ iovs) ptr n memory e =
    let no_room : iov.iov_len ≡ 0 = omega (arith, e) in
    carried-skip dir iov iovs ptr n memory (ground (arith, no_room))
    ∙ carried-full dir iovs ptr n memory (omega (arith, e))

all_moved : (m : Move) → IsValid m → (m.n ≡ 0) ⊎ (m.uio.uio_resid ≡ 0) → after_all m ≡ m.memory
all_moved m valid (inl z) =
    ap (λ n. carried m.uio.uio_rw m.uio.uio_iov m.ptr n m.memory) z
    ∙ carried-none m.uio.uio_rw m.uio.uio_iov m.ptr m.memory
all_moved m valid (inr z) =
    carried-full m.uio.uio_rw m.uio.uio_iov m.ptr m.n m.memory (valid.exact ∙ z)

-- Zeros over buffers without room.
cleared-full :
    (iovs : List Iovec) (n k : ℕ) (memory : ℕ → ℕ)
    → room iovs ≡ 0
    → (cleared iovs k memory ≡ memory) × (cleared (without_first n iovs) k memory ≡ memory)
unfolding cleared without_first room
cleared-full [] n k memory e = (refl, refl)
cleared-full (iov ∷ iovs) n k memory e =
    let no_room : iov.iov_len ≡ 0 = omega (arith, e) in
    (
      cleared-skip iov iovs k memory (ground (arith, no_room))
          ∙ (cleared-full iovs n k memory (omega (arith, e))).0,
      left-skip iov iovs n k memory no_room ∙ (cleared-full iovs n k memory (omega (arith, e))).1,
    )

all_left :
    (m : Move)
    → IsValid m
    → (m.n ≡ 0) ⊎ (m.uio.uio_resid ≡ 0)
    → (k : ℕ) (memory : ℕ → ℕ)
    → cleared m.uio.uio_iov k memory ≡ cleared (without_first m.n m.uio.uio_iov) k memory
all_left m valid (inl z) k memory =
    sym (cleared-whole m.uio.uio_iov k memory)
    ∙ ap (λ n. cleared (without_first n m.uio.uio_iov) k memory) (sym z)
all_left m valid (inr z) k memory =
    let (one, two) = cleared-full m.uio.uio_iov m.n k memory (valid.exact ∙ z) in one ∙ sym two

le-measure : (iovs : List Iovec) → measure iovs < 2 * length iovs + 1
le-measure [] = omega arith
le-measure (iov ∷ iovs) = ground arith

uiomove_loop-Ends :
    (rounds : ℕ) (bad : ℕ → Bool) (m : Move)
    → IsValid m
    → 0 < rounds
    → (m.n ≡ 0) ⊎ (measure m.uio.uio_iov < rounds)
    → Returns (uiomove_loop rounds bad m) (Ends m)
unfolding uiomove_loop
uiomove_loop-Ends zero bad m valid pos fuel = absurd (omega arith)
uiomove_loop-Ends (suc rounds) bad m valid pos fuel =
    Returns-bind (Rounds m) (Ends m) (uiomove_round bad m.uio.uio_iov m) _
      (uiomove_round-Rounds bad m valid) (continue (uiomove_loop-Ends rounds bad))
  where
    continue :
        ((m' : Move)
          → IsValid m'
          → 0 < rounds
          → (m'.n ≡ 0) ⊎ (measure m'.uio.uio_iov < rounds)
          → Returns (uiomove_loop rounds bad m') (Ends m'))
        → (r : Round) → Rounds m r
        → Returns
            (elim r [ done error m' ↦ ok (error, m') | again m' ↦ uiomove_loop rounds bad m' ])
            (Ends m)
    continue rest (done error m') (z, same, stop) = (
      z,
      (0, subst (Keeps 0 m) (sym same) (Keeps-refl m valid)),
      rw same stop,
      ap (λ (w : Move). w.memory) same ∙ sym (all_moved m valid stop),
      subst (Leaves m) (sym same) (refl, λ z apart. apart, all_left m valid stop),
    )
    continue rest (again m') (k, keeps, (way, bytes, apart, left), progress, busy, some_n) =
        Returns-map (Ends m') (Ends m) (uiomove_loop rounds bad m')
          (λ r (z, (j, further), stop, memory, (way', apart', left')). (
            z,
            (k + j, Keeps-trans k j m m' r.1 keeps further),
            stop,
            memory ∙ bytes,
            (way' ∙ way, λ a h. apart' a (apart a h), λ i w. left' i w ∙ left i w),
          ))
          (rest m' keeps.valid (ground (arith, fuel)) (ground (arith, fuel, progress)))

pub uiomove-Ends : (bad : ℕ → Bool) (m : Move) → IsValid m → Returns (uiomove bad m) (Ends m)
unfolding uiomove
uiomove-Ends bad m valid =
    uiomove_loop-Ends (2 * length m.uio.uio_iov + 1) bad m valid (omega arith)
      (inr (le-measure m.uio.uio_iov))

-- The bytes that a movement counts.
pub Ends-Keeps :
    (m : Move) (r : ℕ × Move)
    → Ends m r
    → Keeps (if ltb m.n m.uio.uio_resid then m.n else m.uio.uio_resid) m r.1
Ends-Keeps m r (z, (k, keeps), stop, memory, leaves) =
    let all : k ≡ (if ltb m.n m.uio.uio_resid then m.n else m.uio.uio_resid) =
      ground (arith, stop, keeps.enough, keeps.left, keeps.resid) in
    subst (λ j. Keeps j m r.1) all keeps

-- `uiomove` between kernel buffers that have room for `uio_resid` bytes together ends, without an error and
-- without running out of buffers. It moves as many bytes as it is asked for, or `uio_resid` if they are
-- fewer: the offset rises by them, and the buffers that are left have room for the new `uio_resid`. Memory is then as
-- if each buffer in turn had taken, or given, as many of the bytes that are left as it has room for.
pub uiomove-Keeps :
    (bad : ℕ → Bool) (m : Move)
    → IsValid m
    → Returns (uiomove bad m) (λ r.
      (r.0 ≡ 0)
      × Keeps (if ltb m.n m.uio.uio_resid then m.n else m.uio.uio_resid) m r.1
      × (r.1.memory ≡ after_all m))
uiomove-Keeps bad m valid =
    Returns-map (Ends m) _ (uiomove bad m) (λ r ends. (ends.0, Ends-Keeps m r ends, ends.3))
      (uiomove-Ends bad m valid)
