-- ===== src/Str/Order.antt =====
-- The comparison of strings.
use sdp_project_c.Common.{
  ℕ, zero, suc, ◌+◌, ◌≤◌, ◌<◌, ◌≡◌, ◌≢◌, ◌⊎◌, inl, inr, not, ◌&&◌, Returns, Returns-bind, arith,
  ltb, ◌==◌, if◌then◌else◌, ℕ_discrete, Bool-cases,
}
use sdp_project_c.Str.{minus_one, strcmp_loop, strcmp}
use sdp_project_c.Str.Length.{IsString}

-- The strings agree before `i`, and differ or both end there.
abbrev pub FirstDifference : ℕ → ℕ → ℕ → ℕ → ℕ → (ℕ → ℕ) → Type 0
FirstDifference a b n k i m =
    (i ≤ n)
    × (i ≤ k)
    × ((j : ℕ) → j < i → m (a + j) ≡ m (b + j))
    × ((m (a + i) ≢ m (b + i)) ⊎ ((i ≡ n) × (i ≡ k)))

strcmp_loop-FirstDifference :
    (rounds a b n k i : ℕ) (m : ℕ → ℕ)
    → IsString a n m
    → IsString b k m
    → i ≤ n
    → i ≤ k
    → n < i + rounds
    → ((j : ℕ) → j < i → m (a + j) ≡ m (b + j))
    → Returns (strcmp_loop rounds a b i m) (λ i'. FirstDifference a b n k i' m)
unfolding strcmp_loop
strcmp_loop-FirstDifference zero a b n k i m s t ln lk lt same = absurd (omega arith)
strcmp_loop-FirstDifference (suc rounds) a b n k i m s t ln lk lt same =
    elim (Bool-cases (not (m (a + i) == 0) && m (a + i) == m (b + i))) [
      | inl on ↦
          let before_n : i ≢ n = ground (arith, on, s.last) in
          let before_k : i ≢ k = ground (arith, on, t.last) in
          let here : m (a + i) ≡ m (b + i) = ground (arith, on) in
          rw (on, strcmp_loop)
            (strcmp_loop-FirstDifference rounds a b n k (i + 1) m s t (omega arith) (omega arith)
              (omega arith)
              (λ j l. elim (ℕ_discrete j i) [
                | yes e ↦ ground (arith, e, here)
                | no ne ↦ same j (omega arith)
              ]))
      | inr off ↦
          rw (off, strcmp_loop)
            (
              ln,
              lk,
              same,
              elim (ℕ_discrete (m (a + i)) (m (b + i))) [
                | no ne ↦ inl ne
                | yes e ↦
                    let ended : m (a + i) ≡ 0 = ground (arith, off, e) in
                    inr (ground (arith, ended, s.chars i), ground (arith, ended, e, t.chars i))
              ],
            )
    ]

-- `strcmp` of two strings ends, and gives 0 if they are equal, 1 if the first is greater at the first place
-- where they differ, and -1 if it is less there, the end being less than any character.
pub strcmp-FirstDifference :
    (rounds a b n k : ℕ) (m : ℕ → ℕ)
    → IsString a n m
    → IsString b k m
    → n < rounds
    → Returns (strcmp rounds a b m) (λ r.
      (i : ℕ) × (i ≤ n)
      × (i ≤ k)
      × ((j : ℕ) → j < i → m (a + j) ≡ m (b + j))
      × (((r ≡ 0) × (i ≡ n) × (i ≡ k))
          ⊎ (((r ≡ 1) × (m (b + i) < m (a + i))) ⊎ ((r ≡ minus_one) × (m (a + i) < m (b + i))))))
unfolding strcmp
strcmp-FirstDifference rounds a b n k m s t lt =
    Returns-bind (λ i. FirstDifference a b n k i m) _ (strcmp_loop rounds a b 0 m) _
      (strcmp_loop-FirstDifference rounds a b n k 0 m s t (omega arith) (omega arith) (omega arith)
        (λ j l. absurd (omega arith)))
      (λ i (ln, lk, same, how). (i, ln, lk, same, sign i how))
  where
    sign :
        (i : ℕ)
        → (m (a + i) ≢ m (b + i)) ⊎ ((i ≡ n) × (i ≡ k))
        → (((if ltb (m (b + i)) (m (a + i))
                then 1
                else (if m (a + i) == m (b + i) then 0 else minus_one))
              ≡ 0)
            × (i ≡ n)
            × (i ≡ k))
          ⊎ ((((if ltb (m (b + i)) (m (a + i))
                    then 1
                    else (if m (a + i) == m (b + i) then 0 else minus_one))
                  ≡ 1)
                × (m (b + i) < m (a + i)))
              ⊎ (((if ltb (m (b + i)) (m (a + i))
                      then 1
                      else (if m (a + i) == m (b + i) then 0 else minus_one))
                    ≡ minus_one)
                  × (m (a + i) < m (b + i))))
    sign i (inr (en, ek)) =
        let same : m (a + i) ≡ m (b + i) = ground (arith, en, ek, s.last, t.last) in
        inl (ground (arith, same), en, ek)
    sign i (inl ne) = elim (Bool-cases (ltb (m (b + i)) (m (a + i)))) [
      | inl more ↦ inr (inl (ground (arith, more), ground (arith, more)))
      | inr less ↦ inr (inr (ground (arith, less, ne), ground (arith, less, ne)))
    ]
