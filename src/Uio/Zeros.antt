-- ===== src/Uio/Zeros.antt =====
-- What `uiomovezeros` moves, and where the zeros come.
use sdp_project_c.Common.{
  ℕ, zero, suc, ◌+◌, ◌-◌, ◌<◌, ◌≡◌, refl, sym, ◌∙◌, ◌≢◌, Bool, true, false, ok, Returns,
  Returns-bind, subst, Returns-map, arith, ltb, ◌==◌, if◌then◌else◌, ap, ℕ_discrete,
}
use sdp_project_c.Uio.{Move, UioRw, uio_read, is_read, uiomove, uiomovezeros_loop, uiomovezeros}
use sdp_project_c.Uio.Bytes.{after_all, carried, lesser}
use sdp_project_c.Uio.Left.{
  cleared, without_first, Apart, cleared-split, cleared-none, carried-cleared,
}
use sdp_project_c.Uio.Rounds.{IsValid}
use sdp_project_c.Uio.Moves.{Ends, Leaves, Ends-Keeps, uiomove-Ends}

-- A read to the kernel's own buffers, none of which has one of the 16 zeros at `ptr`.
pub record Zeros (m : Move) : Type 0 where
  pub valid : IsValid m
  pub reads : m.uio.uio_rw ≡ uio_read
  pub zeros : (o : ℕ) → o < 16 → m.memory (m.ptr + o) ≡ 0
  pub apart : Apart m.ptr m.uio.uio_iov

-- What has moved, `k` bytes in all, is gone from the buffers, which have zeros for it.
pub record Zeroed (k : ℕ) (m m' : Move) : Type 0 where
  pub valid : IsValid m'
  pub resid : m'.uio.uio_resid + k ≡ m.uio.uio_resid
  pub offset : m'.uio.uio_offset ≡ m.uio.uio_offset + k
  pub memory : m'.memory ≡ cleared m.uio.uio_iov m.n m.memory

abbrev amount : Move → ℕ
amount m = if ltb m.n 16 then m.n else 16

abbrev part : Move → Move
part m = record m { n = amount m }

-- A call of `uiomove` for the first `amount m` zeros.
module _ (m m' : Move) (q : Zeros m) (leaves : Leaves (part m) m')
    (memory : m'.memory ≡ after_all (part m)) where
  copied_zeros :
      (after_all (part m) ≡ cleared m.uio.uio_iov (amount m) m.memory)
      × ((o : ℕ) → o < 16 → after_all (part m) (m.ptr + o) ≡ 0)
  copied_zeros =
      subst
        (λ (dir : UioRw).
          (carried dir m.uio.uio_iov m.ptr (amount m) m.memory
            ≡ cleared m.uio.uio_iov (amount m) m.memory)
          × ((o : ℕ)
              → o < 16
              → carried dir m.uio.uio_iov m.ptr (amount m) m.memory (m.ptr + o) ≡ 0))
        (sym q.reads)
        (carried-cleared m.uio.uio_iov m.ptr (amount m) m.memory (ground arith) q.zeros m.ptr
          (omega arith) (ground arith) q.apart)

  -- The zeros that are left come behind those.
  all_zeros : cleared m'.uio.uio_iov (m.n - amount m) m'.memory ≡ cleared m.uio.uio_iov m.n m.memory
  all_zeros =
      let total : amount m + (m.n - amount m) ≡ m.n = ground arith in
      leaves.2 (m.n - amount m) m'.memory
      ∙ ap (cleared (without_first (amount m) m.uio.uio_iov) (m.n - amount m))
          (memory ∙ copied_zeros.0)
      ∙ cleared-split m.uio.uio_iov (amount m) (m.n - amount m) m.memory
      ∙ ap (λ n. cleared m.uio.uio_iov n m.memory) total

  still_Zeros : IsValid m' → Zeros (record m' { ptr = m.ptr; n = m.n - amount m })
  still_Zeros v = record {
    valid = record { own = v.own; exact = v.exact; small = v.small };
    reads = leaves.0 ∙ q.reads;
    zeros = λ o lt. ap (λ (w : ℕ → ℕ). w (m.ptr + o)) memory ∙ copied_zeros.1 o lt;
    apart = leaves.1 m.ptr q.apart;
  }

uiomovezeros_loop-Zeroed :
    (rounds : ℕ) (bad : ℕ → Bool) (m : Move)
    → Zeros m
    → m.n < rounds
    → Returns
        (uiomovezeros_loop rounds bad m)
        (λ r. (r.0 ≡ 0) × Zeroed (lesser m.n m.uio.uio_resid) m r.1)
unfolding uiomovezeros_loop
uiomovezeros_loop-Zeroed zero bad m q fuel = absurd (omega arith)
uiomovezeros_loop-Zeroed (suc rounds) bad m q fuel =
    let all = uiomovezeros_loop-Zeroed rounds bad in
    elim (ℕ_discrete m.n 0) [
      | yes z ↦
          let t : (m.n == 0) ≡ true = ground (arith, z) in
          rw (t, uiomovezeros_loop)
            (
              refl,
              record {
                valid = q.valid;
                resid = ground (arith, z);
                offset = ground (arith, z);
                memory = sym (
                    ap (λ n. cleared m.uio.uio_iov n m.memory) z
                    ∙ cleared-none m.uio.uio_iov m.memory);
              },
            )
      | no some ↦
          let t : (m.n == 0) ≡ false = ground (arith, some) in
          rw (t, uiomovezeros_loop)
            (Returns-bind (Ends (part m)) _ (uiomove bad (part m)) _
              (uiomove-Ends bad (part m)
                (record { own = q.valid.own; exact = q.valid.exact; small = q.valid.small }))
              (λ r ends. next all r ends some))
    ]
  where
    next :
        ((m' : Move)
          → Zeros m'
          → m'.n < rounds
          → Returns
              (uiomovezeros_loop rounds bad m')
              (λ r. (r.0 ≡ 0) × Zeroed (lesser m'.n m'.uio.uio_resid) m' r.1))
        → (r : ℕ × Move) → Ends (part m) r
        → m.n ≢ 0
        → Returns
            (elim (r.0 == 0) [
              | true ↦ uiomovezeros_loop rounds bad (record r.1 { ptr = m.ptr; n = m.n - amount m })
              | false ↦ ok r
            ])
            (λ r'. (r'.0 ≡ 0) × Zeroed (lesser m.n m.uio.uio_resid) m r'.1)
    next all r ends some =
        let t : (r.0 == 0) ≡ true = ground (arith, ends.0) in
        let keeps = Ends-Keeps (part m) r ends in
        let m' : Move = record r.1 { ptr = m.ptr; n = m.n - amount m } in
        rw t (
          Returns-map (λ r'. (r'.0 ≡ 0) × Zeroed (lesser m'.n m'.uio.uio_resid) m' r'.1) _
            (uiomovezeros_loop rounds bad m')
            (λ r' (z', w). (
              z',
              record {
                valid = w.valid;
                resid = ground (arith, w.resid, keeps.resid);
                offset = ground (arith, w.offset, keeps.offset, keeps.resid);
                memory = w.memory ∙ all_zeros m r.1 q ends.4 ends.3;
              },
            ))
            (all m' (still_Zeros m r.1 q ends.4 ends.3 keeps.valid) (ground (arith, fuel, some))))

-- `uiomovezeros` of a read, to kernel buffers that have room for `uio_resid` bytes together, none of which has a byte
-- of the 16 zeros that it copies, ends without an error. It moves as many bytes as it is asked for, or `uio_resid` if
-- they are fewer: the bytes of the buffers, one buffer after another, are 0 as far as these go, and no other byte of
-- memory changes.
pub uiomovezeros-Zeroed :
    (bad : ℕ → Bool) (m : Move)
    → Zeros m
    → Returns (uiomovezeros bad m) (λ r. (r.0 ≡ 0) × Zeroed (lesser m.n m.uio.uio_resid) m r.1)
unfolding uiomovezeros
uiomovezeros-Zeroed bad m q =
    let reads : is_read m.uio.uio_rw ≡ true = ap is_read q.reads in
    rw reads (uiomovezeros_loop-Zeroed (m.n + 1) bad m q (omega arith))
