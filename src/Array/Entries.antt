-- ===== src/Array/Entries.antt =====
-- The entries of an array, as a sequence.
use sdp_project_c.Common.{ℕ, ◌+◌, ◌*◌, ◌≤◌, ◌<◌, ◌≡◌, ap, true, ok, arith, ltb, ◌==◌, if◌then◌else◌}
use sdp_project_c.Array.{load_word, Array, array_get}

-- The array has the `n` entries `f 0`, `f 1` and so on.
pub record Holds (n : ℕ) (f : ℕ → ℕ) (a : Array) (m : ℕ → ℕ) : Type 0 where
  pub num : a.num ≡ n
  pub room : n ≤ a.max
  pub entries : (i : ℕ) → i < n → load_word m (a.v + i * 4) ≡ f i

-- The sequence with `x` at its end, and without its entry `index`.
abbrev pub snoc : ℕ → ℕ → (ℕ → ℕ) → ℕ → ℕ
snoc n x f i = if i == n then x else f i

abbrev pub excise : ℕ → (ℕ → ℕ) → ℕ → ℕ
excise index f i = if ltb i index then f i else f (i + 1)

-- `array_get` of an entry.
pub array_get-Holds :
    (index n : ℕ) (f : ℕ → ℕ) (a : Array) (m : ℕ → ℕ)
    → Holds n f a m
    → index < n
    → array_get a index m ≡ ok (f index)
unfolding array_get
array_get-Holds index n f a m h lt =
    let t : ltb index a.num ≡ true = ground (arith, h.num, lt) in rw t (ap ok (h.entries index lt))
