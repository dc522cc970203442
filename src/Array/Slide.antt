-- ===== src/Array/Slide.antt =====
-- An entry taken out of an array.
use sdp_project_c.Common.{
  ℕ, ◌+◌, ◌-◌, ◌*◌, ◌<◌, ◌≡◌, sym, ◌∙◌, subst, ok, Returns, arith, ltb, if◌then◌else◌, u32, dec_lt,
}
use sdp_project_c.Mem.{memmove}
use sdp_project_c.Mem.Copy.{memmove-moved}
use sdp_project_c.Array.{Array, array_remove}
use sdp_project_c.Array.Words.{load_word-ext}
use sdp_project_c.Array.Entries.{Holds, excise}

-- `array_remove` takes the entry out, and moves those behind it up by one.
module _ (index n : ℕ) (f : ℕ → ℕ) (a : Array) (m : ℕ → ℕ) (h : Holds n f a m) (lt : index < n)
    (small : n < 0x4000_0000) where
  abbrev slid : ℕ → ℕ
  slid = memmove (a.v + index * 4) (a.v + (index + 1) * 4) (u32 ((a.num - (index + 1)) * 4)) m

  array_remove_lem : array_remove index a m ≡ ok (record a { num = a.num - 1 }, slid)
  unfolding array_remove
  array_remove_lem = ground (arith, h.num, h.room, lt)

  slid_bytes :
      (i k : ℕ)
      → i < n - 1
      → k < 4
      → slid (a.v + i * 4 + k) ≡ m (a.v + (if ltb i index then i else i + 1) * 4 + k)
  slid_bytes i k li lk =
      let len : u32 ((a.num - (index + 1)) * 4) ≡ (n - (index + 1)) * 4 = omega (arith, h.num) in
      memmove-moved (a.v + index * 4) (a.v + (index + 1) * 4) (u32 ((a.num - (index + 1)) * 4)) m
        (a.v + i * 4 + k)
      ∙ elim (dec_lt i index) [
        | yes before ↦ ground (arith, len, before)
        | no behind ↦
            let from : a.v + (index + 1) * 4 + (a.v + i * 4 + k - (a.v + index * 4))
                ≡ a.v + (i + 1) * 4 + k =
              omega arith in
            ground (arith, len, behind, from)
      ]

  array_remove-excise : Holds (n - 1) (excise index f) (record a { num = a.num - 1 }) slid
  array_remove-excise = record {
    num = omega (arith, h.num);
    room = omega (arith, h.room);
    entries = λ i li.
        load_word-ext slid m (a.v + i * 4) (a.v + (if ltb i index then i else i + 1) * 4)
          (λ k lk. slid_bytes i k li lk)
        ∙ (elim (dec_lt i index) [
          | yes before ↦ ground (arith, before, h.entries i)
          | no behind ↦ ground (arith, behind, h.entries (i + 1))
        ]);
  }

-- `array_remove` of an entry of an array with fewer than 2 ^ 30 entries ends with the entries but that one, in
-- their order.
pub array_remove-Holds :
    (index n : ℕ) (f : ℕ → ℕ) (a : Array) (m : ℕ → ℕ)
    → Holds n f a m
    → index < n
    → n < 0x4000_0000
    → Returns (array_remove index a m) (λ r. Holds (n - 1) (excise index f) r.0 r.1)
array_remove-Holds index n f a m h lt small =
    subst (λ r. Returns r (λ r. Holds (n - 1) (excise index f) r.0 r.1))
      (sym (array_remove_lem index n f a m h lt small))
      (array_remove-excise index n f a m h lt small)
