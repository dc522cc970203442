-- ===== src/Str/Length.antt =====
-- The length of a string, and copies of strings.
use sdp_project_c.Common.{
  ℕ, zero, suc, ◌+◌, ◌-◌, ◌≤◌, ◌<◌, ◌≡◌, refl, ◌≢◌, ◌⊎◌, inl, inr, true, false, none, some, ok,
  Returns, Returns-bind, Returns-map, arith, ◌==◌, update, ℕ_discrete,
}
use sdp_project_c.Mem.{moved}
use sdp_project_c.Str.{strlen_loop, strlen, strcpy_loop, strcpy, strcat, kstrdup}

-- A string of `n` characters at the address `s`.
pub record IsString (s n : ℕ) (m : ℕ → ℕ) : Type 0 where
  pub chars : (i : ℕ) → i < n → m (s + i) ≢ 0
  pub last : m (s + n) ≡ 0

strlen_loop_lem :
    (rounds str ret n : ℕ) (m : ℕ → ℕ)
    → IsString str n m
    → ret ≤ n
    → n < ret + rounds
    → strlen_loop rounds str ret m ≡ ok n
unfolding strlen_loop
strlen_loop_lem zero str ret n m s le lt = absurd (omega arith)
strlen_loop_lem (suc rounds) str ret n m s le lt = elim (ℕ_discrete ret n) [
  | yes e ↦ ground (arith, e, s.last)
  | no ne ↦ ground (arith, s.chars ret, ne, strlen_loop_lem rounds str (ret + 1) n m s)
]

pub strlen-IsString :
    (rounds str n : ℕ) (m : ℕ → ℕ) → IsString str n m → n < rounds → strlen rounds str m ≡ ok n
unfolding strlen
strlen-IsString rounds str n m s lt = strlen_loop_lem rounds str 0 n m s (omega arith) (omega arith)

-- Blocks of `n` bytes that do not overlap.
abbrev pub Apart : ℕ → ℕ → ℕ → Type 0
Apart dest src n = (dest + n ≤ src) ⊎ (src + n ≤ dest)

strcpy_loop_lem :
    (rounds dest src i n : ℕ) (m m' : ℕ → ℕ)
    → IsString src n m
    → Apart dest src (n + 1)
    → ((a : ℕ) → m' a ≡ moved dest src i m a)
    → i ≤ n
    → n < i + rounds
    → Returns (strcpy_loop rounds dest src i m') (λ r. (a : ℕ) → r a ≡ moved dest src (n + 1) m a)
unfolding strcpy_loop
strcpy_loop_lem zero dest src i n m m' s apart done le lt = absurd (omega arith)
strcpy_loop_lem (suc rounds) dest src i n m m' s apart done le lt =
    let unread : m' (src + i) ≡ m (src + i) = ground (arith, done (src + i), apart) in
    elim (ℕ_discrete i n) [
      | yes e ↦
          let t : (m' (src + i) == 0) ≡ true = ground (arith, unread, e, s.last) in
          rw (t, strcpy_loop) (λ a. ground (arith, done a, e, s.last))
      | no ne ↦
          let t : (m' (src + i) == 0) ≡ false = ground (arith, unread, s.chars i, ne) in
          rw (t, strcpy_loop)
            (strcpy_loop_lem rounds dest src (i + 1) n m (update m' (dest + i) (m' (src + i))) s
              apart (λ a. ground (arith, done a, unread)) (omega arith) (omega arith))
    ]

-- `strcpy` of a string to a place that does not overlap with it copies it with its 0, and nothing else changes.
pub strcpy-moved :
    (rounds dest src n : ℕ) (m : ℕ → ℕ)
    → IsString src n m
    → n < rounds
    → Apart dest src (n + 1)
    → Returns (strcpy rounds dest src m) (λ r. (a : ℕ) → r a ≡ moved dest src (n + 1) m a)
unfolding strcpy
strcpy-moved rounds dest src n m s lt apart =
    strcpy_loop_lem rounds dest src 0 n m m s apart (λ a. ground arith) (omega arith) (omega arith)

-- `strcat` of two strings, with room behind the first that does not overlap with the second: the characters of
-- the second come behind those of the first, and nothing else changes.
pub strcat-IsString :
    (rounds dest src n k : ℕ) (m : ℕ → ℕ)
    → IsString dest n m
    → IsString src k m
    → n < rounds
    → k < rounds
    → (dest + n + k < src) ⊎ (src + k < dest)
    → Returns (strcat rounds dest src m) (λ r.
      IsString dest (n + k) r
      × ((i : ℕ) → i < n → r (dest + i) ≡ m (dest + i))
      × ((i : ℕ) → i < k → r (dest + n + i) ≡ m (src + i))
      × ((a : ℕ) → (a < dest + n) ⊎ (dest + n + k < a) → r a ≡ m a))
unfolding strcat
strcat-IsString rounds dest src n k m d s ln lk apart = rw (strlen-IsString rounds dest n m d ln) (
    Returns-map (λ r. (a : ℕ) → r a ≡ moved (dest + n) src (k + 1) m a) _
      (strcpy rounds (dest + n) src m)
      (λ r copy. (
        record {
          chars = λ i lt. elim (ℕ_discrete (i - n) 0) [
            | yes z ↦ elim (ℕ_discrete i n) [
              | yes e ↦
                  let same : dest + i ≡ dest + n = omega arith in
                  ground (arith, copy (dest + i), same, s.chars 0)
              | no ne ↦ ground (arith, copy (dest + i), d.chars i)
            ]
            | no past ↦
                let same : src + (dest + i - (dest + n)) ≡ src + (i - n) = omega arith in
                ground (arith, copy (dest + i), s.chars (i - n), same)
          ];
          last =
              let same : src + (dest + (n + k) - (dest + n)) ≡ src + k = omega arith in
              ground (arith, copy (dest + (n + k)), s.last, same);
        },
        λ i lt. ground (arith, copy (dest + i)),
        λ i lt.
            let same : src + (dest + n + i - (dest + n)) ≡ src + i = omega arith in
            ground (arith, copy (dest + n + i), same),
        λ a out. ground (arith, copy a, out),
      ))
      (strcpy-moved rounds (dest + n) src k m s lk (ground (arith, apart))))

-- `kstrdup`, where `kmalloc` gives a place apart from the string, gives a copy of the string there.
pub kstrdup-IsString :
    (kmalloc : ℕ → ℕ) (rounds s n : ℕ) (m : ℕ → ℕ)
    → IsString s n m
    → n < rounds
    → Apart (kmalloc (n + 1)) s (n + 1)
    → Returns (kstrdup kmalloc rounds s m) (λ r.
      ((kmalloc (n + 1) ≡ 0) × (r.0 ≡ none) × (r.1 ≡ m))
      ⊎ ((r.0 ≡ some (kmalloc (n + 1)))
          × IsString (kmalloc (n + 1)) n r.1
          × ((i : ℕ) → i < n → r.1 (kmalloc (n + 1) + i) ≡ m (s + i))
          × IsString s n r.1))
unfolding kstrdup
kstrdup-IsString kmalloc rounds s n m str lt apart =
    rw (strlen-IsString rounds s n m str lt) (elim (ℕ_discrete (kmalloc (n + 1)) 0) [
      | yes z ↦
          let t : (kmalloc (n + 1) == 0) ≡ true = ground (arith, z) in rw t (inl (z, refl, refl))
      | no some_place ↦
          let t : (kmalloc (n + 1) == 0) ≡ false = ground (arith, some_place) in
          rw t (
            Returns-bind (λ r. (a : ℕ) → r a ≡ moved (kmalloc (n + 1)) s (n + 1) m a) _
              (strcpy rounds (kmalloc (n + 1)) s m) _
              (strcpy-moved rounds (kmalloc (n + 1)) s n m str lt apart)
              (λ r copy. inr (copied (kmalloc (n + 1)) r apart copy)))
    ])
  where
    copied :
        (z : ℕ) (r : ℕ → ℕ)
        → Apart z s (n + 1)
        → ((a : ℕ) → r a ≡ moved z s (n + 1) m a)
        → (some z ≡ some z)
          × IsString z n r
          × ((i : ℕ) → i < n → r (z + i) ≡ m (s + i))
          × IsString s n r
    copied z r away copy = (
      refl,
      record {
        chars = λ i lt'. ground (arith, copy (z + i), str.chars i);
        last = ground (arith, copy (z + n), str.last);
      },
      λ i lt'. ground (arith, copy (z + i)),
      record {
        chars = λ i lt'. ground (arith, copy (s + i), str.chars i, away);
        last = ground (arith, copy (s + n), str.last, away);
      },
    )
