-- ===== src/Str/Tests.antt =====
-- Tests of strings: "ls" at 100 and "l" at 200.
use sdp_project_c.Common.{
  ℕ, ◌+◌, ◌≤◌, ◌<◌, ◌≡◌, refl, ◌⊎◌, inl, Returns, arith, ◌==◌, if◌then◌else◌,
}
use sdp_project_c.Str.{minus_one, strcat, strcmp}
use sdp_project_c.Str.Length.{IsString, strcat-IsString}
use sdp_project_c.Str.Order.{strcmp-FirstDifference}

abbrev memory : ℕ → ℕ
memory a = if a == 100 then b'l' else (if a == 101 then b's' else (if a == 200 then b'l' else 0))

ls : IsString 100 2 memory
ls = record { chars = λ i lt. ground arith; last = refl }

l : IsString 200 1 memory
l = record { chars = λ i lt. ground arith; last = refl }

strcat-IsString_example : Returns (strcat 9 100 200 memory) (λ r.
    IsString 100 3 r
    × ((i : ℕ) → i < 2 → r (100 + i) ≡ memory (100 + i))
    × ((i : ℕ) → i < 1 → r (102 + i) ≡ memory (200 + i))
    × ((a : ℕ) → (a < 102) ⊎ (103 < a) → r a ≡ memory a))
strcat-IsString_example =
    strcat-IsString 9 100 200 2 1 memory ls l (omega arith) (omega arith) (inl (omega arith))

strcmp-FirstDifference_example : Returns (strcmp 9 100 200 memory) (λ r.
    (i : ℕ) × (i ≤ 2)
    × (i ≤ 1)
    × ((j : ℕ) → j < i → memory (100 + j) ≡ memory (200 + j))
    × (((r ≡ 0) × (i ≡ 2) × (i ≡ 1))
        ⊎ (((r ≡ 1) × (memory (200 + i) < memory (100 + i)))
            ⊎ ((r ≡ minus_one) × (memory (100 + i) < memory (200 + i))))))
strcmp-FirstDifference_example = strcmp-FirstDifference 9 100 200 2 1 memory ls l (omega arith)
