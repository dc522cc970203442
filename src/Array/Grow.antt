-- ===== src/Array/Grow.antt =====
-- The new size of an array that is too small.
use sdp_project_c.Common.{
  ℕ, zero, suc, ◌*◌, ◌≤◌, ◌<◌, ◌≡◌, refl, sym, ap, subst, ◌⊎◌, inl, inr, true, ok, Returns,
  Returns-map, arith, ltb, ◌==◌, if◌then◌else◌, u32, ℕ_discrete, dec_lt,
}
use sdp_project_c.Array.{newmax_loop, newmax_rounds}

-- What `n` doublings make of a size.
doubled : ℕ → ℕ → ℕ
doubled zero size = size
doubled (suc n) size = doubled n (size * 2)

le-doubled : (n a b : ℕ) → a ≤ b → doubled n a ≤ doubled n b
unfolding doubled
le-doubled zero a b le = le
le-doubled (suc n) a b le = le-doubled n (a * 2) (b * 2) (omega arith)

le_doubled_self : (n size : ℕ) → size ≤ doubled n size
unfolding doubled
le_doubled_self zero size = omega arith
le_doubled_self (suc n) size = omega (arith, le_doubled_self n (size * 2))

doubled_more : (k n size : ℕ) → k ≤ n → doubled k size ≤ doubled n size
unfolding doubled
doubled_more zero n size le = le_doubled_self n size
doubled_more (suc k) zero size le = absurd (omega arith)
doubled_more (suc k) (suc n) size le = doubled_more k n (size * 2) (omega arith)

doubled_enough : doubled 31 1 ≡ 0x8000_0000
unfolding doubled
doubled_enough = refl

-- A size that is large enough, and not much larger than it needs to be.
abbrev pub Suits : ℕ → ℕ → ℕ → Type 0
Suits num size r = (num ≤ r) × ((r ≡ size) ⊎ (r < num * 2))

newmax_stops : (n num size : ℕ) → num ≤ size → newmax_loop (suc n) num size ≡ ok size
unfolding newmax_loop
newmax_stops n num size le = ground (arith, le)

newmax_doubles :
    (n num size next : ℕ)
    → size < num
    → (if size == 0 then 4 else u32 (size * 2)) ≡ next
    → newmax_loop (suc n) num size ≡ newmax_loop n num next
unfolding newmax_loop
newmax_doubles n num size next lt e =
    let t : ltb size num ≡ true = ground (arith, lt) in
    rw (t, newmax_loop) (ap (newmax_loop n num) e)

module _ (num size : ℕ) where
  stopped : (n : ℕ) → num ≤ size → Returns (newmax_loop (suc n) num size) (Suits num size)
  stopped n le =
      subst (λ m. Returns m (Suits num size)) (sym (newmax_stops n num size le)) (le, inl refl)

newmax_loop-doubled :
    (n num size : ℕ)
    → 0 < size
    → num ≤ 0x8000_0000
    → num ≤ doubled n size
    → Returns (newmax_loop (suc n) num size) (Suits num size)
unfolding doubled
newmax_loop-doubled zero num size pos small enough = stopped num size 0 enough
newmax_loop-doubled (suc n) num size pos small enough = elim (dec_lt size num) [
  | no large ↦ stopped num size (suc n) (omega (arith, large))
  | yes less ↦
      let next : (if size == 0 then 4 else u32 (size * 2)) ≡ size * 2 =
        ground (arith, pos, less, small) in
      subst (λ m. Returns m (Suits num size))
        (sym (newmax_doubles (suc n) num size (size * 2) less next))
        (Returns-map (Suits num (size * 2)) (Suits num size) (newmax_loop (suc n) num (size * 2))
          (λ r (fits, how). (fits, inr (ground (arith, how, less))))
          (newmax_loop-doubled n num (size * 2) (omega (arith, pos)) small enough))
]

abbrev pub Grown : ℕ → ℕ → ℕ → Type 0
Grown num max r = (num ≤ r) × ((r ≡ max) ⊎ ((r ≡ 4) ⊎ (r < num * 2)))

-- The loop ends for at most 2 ^ 31 entries: with the old size if that is enough, and else with one that is
-- less than twice what is needed, or 4.
pub newmax_loop-Suits :
    (num max : ℕ) → num ≤ 0x8000_0000 → Returns (newmax_loop newmax_rounds num max) (Grown num max)
newmax_loop-Suits num max small = elim (ℕ_discrete max 0) [
  | no some ↦
      Returns-map (Suits num max) (Grown num max) (newmax_loop 34 num max)
        (λ r (fits, how). (fits, old r how))
        (newmax_loop-doubled 33 num max (omega arith) small
          (enough 33 max (omega arith) (omega arith)))
  | yes z ↦ elim (ℕ_discrete num 0) [
    | yes nothing ↦
        Returns-map (Suits num max) (Grown num max) (newmax_loop 34 num max)
          (λ r (fits, how). (fits, old r how)) (stopped num max 33 (omega arith))
    | no wanted ↦
        let next : (if max == 0 then 4 else u32 (max * 2)) ≡ 4 = ground (arith, z) in
        subst (λ m. Returns m (Grown num max))
          (sym (newmax_doubles 33 num max 4 (omega arith) next))
          (Returns-map (Suits num 4) (Grown num max) (newmax_loop 33 num 4)
            (λ r (fits, how). (fits, inr how))
            (newmax_loop-doubled 32 num 4 (omega arith) small
              (enough 32 4 (omega arith) (omega arith))))
  ]
]
  where
    old : (r : ℕ) → (r ≡ max) ⊎ (r < num * 2) → (r ≡ max) ⊎ ((r ≡ 4) ⊎ (r < num * 2))
    old r (inl e) = inl e
    old r (inr lt) = inr (inr lt)

    enough : (n size : ℕ) → 31 ≤ n → 0 < size → num ≤ doubled n size
    enough n size le pos =
        omega (arith, doubled_enough, le-doubled 31 1 size (omega arith), doubled_more 31 n size le)
