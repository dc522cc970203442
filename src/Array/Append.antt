-- ===== src/Array/Append.antt =====
-- An entry put at the end of an array.
use sdp_project_c.Common.{
  ℕ, ◌+◌, ◌*◌, ◌≤◌, ◌<◌, ◌≡◌, refl, ◌⊎◌, inl, inr, true, false, not, Returns, Returns-bind, arith,
  ◌==◌, if◌then◌else◌,
}
use sdp_project_c.AddrSpace.{enomem}
use sdp_project_c.Array.{load_word, Array, array_preallocate, array_setsize}
use sdp_project_c.Array.Entries.{Holds, snoc}
use sdp_project_c.Array.Room.{IsSeparate, Preallocates, array_preallocate-Preallocates}

-- The array has `num` entries, of which the first `n` are what they were.
abbrev pub Resizes : ℕ → ℕ → (ℕ → ℕ) → Array → (ℕ → ℕ) → ℕ × Array × (ℕ → ℕ) → Type 0
Resizes num n f a m r =
    ((r.0 ≡ enomem) × (r.1 ≡ a) × (r.2 ≡ m))
    ⊎ ((r.0 ≡ 0)
        × (r.1.num ≡ num)
        × (num ≤ r.1.max)
        × ((i : ℕ) → i < n → load_word r.2 (r.1.v + i * 4) ≡ f i))

pub array_setsize-Resizes :
    (kmalloc : ℕ → ℕ) (num n : ℕ) (f : ℕ → ℕ) (a : Array) (m : ℕ → ℕ)
    → Holds n f a m
    → IsSeparate kmalloc a
    → num ≤ 0x2000_0000
    → Returns (array_setsize kmalloc num a m) (Resizes num n f a m)
unfolding array_setsize
array_setsize-Resizes kmalloc num n f a m h sep small =
    Returns-bind (Preallocates num n f a m) (Resizes num n f a m)
      (array_preallocate kmalloc num a m) _
      (array_preallocate-Preallocates kmalloc num n f a m h sep small) sized
  where
    sized :
        (r : ℕ × Array × (ℕ → ℕ))
        → Preallocates num n f a m r
        → Resizes num n f a m
            (if not (r.0 == 0) then (r.0, r.1, r.2) else (0, record r.1 { num = num }, r.2))
    sized r (inl (e, same, kept)) =
        let t : (r.0 == 0) ≡ false = ground (arith, e) in rw t (inl (e, same, kept))
    sized r (inr (e, fits, held)) =
        let t : (r.0 == 0) ≡ true = ground (arith, e) in rw t (inr (refl, refl, fits, held.entries))

abbrev pub Adds : ℕ → ℕ → (ℕ → ℕ) → Array → (ℕ → ℕ) → ℕ × ℕ × Array × (ℕ → ℕ) → Type 0
Adds val n f a m r =
    ((r.0 ≡ enomem) × (r.2 ≡ a) × (r.3 ≡ m))
    ⊎ ((r.0 ≡ 0) × (r.1 ≡ n) × Holds (n + 1) (snoc n val f) r.2 r.3)
