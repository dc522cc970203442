-- ===== src/Array/Room.antt =====
-- Room for more entries of an array.
use sdp_project_c.Common.{
  ℕ, ◌+◌, ◌-◌, ◌*◌, ◌≤◌, ◌<◌, ◌≡◌, refl, ◌∙◌, ◌≢◌, ◌⊎◌, inl, inr, true, false, ok, Returns,
  Returns-bind, arith, leb, ◌==◌, if◌then◌else◌, u32, ℕ_discrete, dec_lt, Bool-cases,
}
use sdp_project_c.Mem.{memcpy}
use sdp_project_c.Mem.Copy.{memcpy-moved}
use sdp_project_c.AddrSpace.{enomem}
use sdp_project_c.Array.{Array, newmax_loop, newmax_rounds, array_preallocate}
use sdp_project_c.Array.Words.{load_word-ext}
use sdp_project_c.Array.Grow.{Grown, newmax_loop-Suits}
use sdp_project_c.Array.Entries.{Holds}

-- The blocks of `kmalloc` do not overlap with that of the array.
abbrev pub IsSeparate : (ℕ → ℕ) → Array → Type 0
IsSeparate kmalloc a =
    (size : ℕ) → kmalloc size ≢ 0 → (kmalloc size + size ≤ a.v) ⊎ (a.v + a.max * 4 ≤ kmalloc size)

-- There is no memory, and nothing changes; or there is room for `num` entries, and those that there were.
abbrev pub Preallocates : ℕ → ℕ → (ℕ → ℕ) → Array → (ℕ → ℕ) → ℕ × Array × (ℕ → ℕ) → Type 0
Preallocates num n f a m r =
    ((r.0 ≡ enomem) × (r.1 ≡ a) × (r.2 ≡ m)) ⊎ ((r.0 ≡ 0) × (num ≤ r.1.max) × Holds n f r.1 r.2)

module _ (kmalloc : ℕ → ℕ) (num n : ℕ) (f : ℕ → ℕ) (a : Array) (m : ℕ → ℕ) (h : Holds n f a m)
    (sep : IsSeparate kmalloc a) (small : num ≤ 0x2000_0000) (more : a.max < num) where
  copied_entries :
      (newmax : ℕ)
      → num ≤ newmax
      → newmax < 0x4000_0000
      → kmalloc (u32 (newmax * 4)) ≢ 0
      → Holds n f
          (record a { v = kmalloc (u32 (newmax * 4)); max = newmax })
          (memcpy (kmalloc (u32 (newmax * 4))) a.v (u32 (a.num * 4)) m)
  copied_entries newmax fits bound some_place =
      let size : u32 (newmax * 4) ≡ newmax * 4 = omega arith in
      let len : u32 (a.num * 4) ≡ n * 4 = omega (arith, h.num, h.room) in
      let apart : (kmalloc (u32 (newmax * 4)) ≤ a.v)
          ⊎ (a.v + u32 (a.num * 4) ≤ kmalloc (u32 (newmax * 4))) =
        ground (arith, sep (u32 (newmax * 4)) some_place, len, h.room) in
      record {
        num = h.num;
        room = omega (arith, h.room);
        entries = λ i lt.
            load_word-ext _ m (kmalloc (u32 (newmax * 4)) + i * 4) (a.v + i * 4) (λ k lk.
              memcpy-moved (kmalloc (u32 (newmax * 4))) a.v (u32 (a.num * 4)) m
                (kmalloc (u32 (newmax * 4)) + i * 4 + k) apart
              ∙ (let from : a.v
                        + (kmalloc (u32 (newmax * 4)) + i * 4 + k - kmalloc (u32 (newmax * 4)))
                      ≡ a.v + i * 4 + k =
                    omega arith in
                  ground (arith, len, lt, lk, from)))
            ∙ h.entries i lt;
      }

  allocated :
      (newmax : ℕ)
      → Grown num a.max newmax
      → Preallocates num n f a m (
          if kmalloc (u32 (newmax * 4)) == 0 then (enomem, a, m) else (
            0,
            record a { v = kmalloc (u32 (newmax * 4)); max = newmax },
            memcpy (kmalloc (u32 (newmax * 4))) a.v (u32 (a.num * 4)) m,
          ))
  allocated newmax (fits, how) = elim (ℕ_discrete (kmalloc (u32 (newmax * 4))) 0) [
    | yes z ↦
        let t : (kmalloc (u32 (newmax * 4)) == 0) ≡ true = ground (arith, z) in
        rw t (inl (refl, refl, refl))
    | no some_place ↦
        let t : (kmalloc (u32 (newmax * 4)) == 0) ≡ false = ground (arith, some_place) in
        rw t (inr (refl, fits, copied_entries newmax fits (omega (arith, how)) some_place))
  ]

pub array_preallocate-Preallocates :
    (kmalloc : ℕ → ℕ) (num n : ℕ) (f : ℕ → ℕ) (a : Array) (m : ℕ → ℕ)
    → Holds n f a m
    → IsSeparate kmalloc a
    → num ≤ 0x2000_0000
    → Returns (array_preallocate kmalloc num a m) (Preallocates num n f a m)
unfolding array_preallocate
array_preallocate-Preallocates kmalloc num n f a m h sep small = elim (dec_lt a.max num) [
  | no enough ↦
      let t : leb num a.max ≡ true = ground (arith, enough) in
      rw t (inr (refl, omega (arith, enough), h))
  | yes more ↦
      let t : leb num a.max ≡ false = ground (arith, more) in
      rw t (
        Returns-bind (Grown num a.max) (Preallocates num n f a m)
          (newmax_loop newmax_rounds num a.max) _ (newmax_loop-Suits num a.max (omega arith))
          (λ newmax grown.
            chosen newmax (allocated kmalloc num n f a m h sep small more newmax grown)))
]
  where
    chosen :
        (newmax : ℕ)
        → Preallocates num n f a m (
            if kmalloc (u32 (newmax * 4)) == 0 then (enomem, a, m) else (
              0,
              record a { v = kmalloc (u32 (newmax * 4)); max = newmax },
              memcpy (kmalloc (u32 (newmax * 4))) a.v (u32 (a.num * 4)) m,
            ))
        → Returns
            (if kmalloc (u32 (newmax * 4)) == 0
              then ok (enomem, a, m)
              else ok (
                0,
                record a { v = kmalloc (u32 (newmax * 4)); max = newmax },
                memcpy (kmalloc (u32 (newmax * 4))) a.v (u32 (a.num * 4)) m,
              ))
            (Preallocates num n f a m)
    chosen newmax p = elim (Bool-cases (kmalloc (u32 (newmax * 4)) == 0)) [
      | inl z ↦ rw z (rw z at p)
      | inr nz ↦ rw nz (rw nz at p)
    ]
