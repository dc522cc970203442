-- ===== src/Mem/Clear.antt =====
-- The stores of one byte all over a block.
use sdp_project_c.Common.{
  ℕ, zero, suc, ◌+◌, ◌*◌, ◌/◌, ◌%◌, ◌≡◌, refl, ◌∙◌, ap, sym, inl, inr, ◌&&◌, ◌==◌, arith,
  Bool-cases, u8,
}
use sdp_project_c.Mem.{sizeof_long, put_all, bzero, memset, filled}

put_all_lem :
    (width n block byte : ℕ) (memory : ℕ → ℕ) (a : ℕ)
    → put_all width n block byte memory a ≡ filled block byte (n * width) memory a
unfolding put_all
put_all_lem width zero block byte memory a = ground arith
put_all_lem width (suc n) block byte memory a =
    let more : suc n * width ≡ n * width + width = grind arith in
    ground (arith, more, put_all_lem width n block byte memory a)

pub memset-filled :
    (ptr ch len : ℕ) (memory : ℕ → ℕ) (a : ℕ)
    → memset ptr ch len memory a ≡ filled ptr (u8 ch) len memory a
unfolding memset
memset-filled ptr ch len memory a =
    let same : len * 1 ≡ len = omega arith in
    put_all_lem 1 len ptr (u8 ch) memory a ∙ ap (λ n. filled ptr (u8 ch) n memory a) same

-- `bzero` is `memset` with 0, whether or not it stores words.
pub bzero-memset :
    (vblock len : ℕ) (memory : ℕ → ℕ) (a : ℕ)
    → bzero vblock len memory a ≡ memset vblock 0 len memory a
unfolding bzero memset
bzero-memset vblock len memory a =
    elim (Bool-cases (vblock % sizeof_long == 0 && len % sizeof_long == 0)) [
      | inl words ↦
          let whole : len / 4 * 4 ≡ len * 1 = ground (arith, words) in
          rw words (
            put_all_lem 4 (len / 4) vblock 0 memory a
            ∙ ap (λ n. filled vblock 0 n memory a) whole
            ∙ sym (put_all_lem 1 len vblock 0 memory a))
      | inr bytes ↦ rw bytes refl
    ]
