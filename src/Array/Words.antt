-- ===== src/Array/Words.antt =====
-- Pointers in memory.
use sdp_project_c.Common.{ℕ, ◌+◌, ◌/◌, ◌%◌, ◌≤◌, ◌<◌, ◌≡◌, ◌⊎◌, arith}
use sdp_project_c.Array.{load_word, store_word}

-- Four bytes make a pointer.
pub load_word-ext :
    (m m' : ℕ → ℕ) (a b : ℕ)
    → ((k : ℕ) → k < 4 → m (a + k) ≡ m' (b + k))
    → load_word m a ≡ load_word m' b
unfolding load_word
load_word-ext m m' a b same =
    let zeroth : m a ≡ m' b = start (same 0 (omega arith)) in
    omega (arith, zeroth, same 1 (omega arith), same 2 (omega arith), same 3 (omega arith))
  where
    start : m (a + 0) ≡ m' (b + 0) → m a ≡ m' b
    start e =
        let za : a + 0 ≡ a = omega arith in let zb : b + 0 ≡ b = omega arith in rw (za, zb) at e

pub load_word-store_word :
    (a x : ℕ) (m : ℕ → ℕ) → x < 0x1_0000_0000 → load_word (store_word a x m) a ≡ x
unfolding load_word store_word
load_word-store_word a x m small =
    let byte0 : store_word a x m a ≡ x / 0x100_0000 % 256 = ground arith in
    let byte1 : store_word a x m (a + 1) ≡ x / 0x1_0000 % 256 = ground arith in
    let byte2 : store_word a x m (a + 2) ≡ x / 0x100 % 256 = ground arith in
    let byte3 : store_word a x m (a + 3) ≡ x % 256 = ground arith in
    omega (arith, byte0, byte1, byte2, byte3)

pub load_word-store_word_apart :
    (a b x : ℕ) (m : ℕ → ℕ)
    → (a + 4 ≤ b) ⊎ (b + 4 ≤ a)
    → load_word (store_word a x m) b ≡ load_word m b
unfolding store_word
load_word-store_word_apart a b x m apart =
    load_word-ext (store_word a x m) m b b (λ k lt. untouched k lt)
  where
    untouched : (k : ℕ) → k < 4 → store_word a x m (b + k) ≡ m (b + k)
    untouched k lt = ground (arith, apart)
