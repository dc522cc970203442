-- ===== src/Str.antt =====
-- common/libc/string, the functions on strings, and `kstrdup` of kern/lib/misc.c. A string begins at an address
-- of memory and ends at its first 0; a search has `rounds` rounds at most.
use sdp_project_c.Common.{
  ℕ, zero, suc, ◌+◌, Bool, true, false, not, ◌&&◌, Option, none, some, Result, ok, err, ◌>>=◌,
  endless, ltb, ◌==◌, if◌then◌else◌, update, u8,
}
pub mod Length
pub mod Order
pub mod Search
mod Tests

pub strlen_loop : ℕ → ℕ → ℕ → (ℕ → ℕ) → Result ℕ
strlen_loop zero str ret m = err endless
strlen_loop (suc rounds) str ret m = elim (m (str + ret) == 0) [
  | true ↦ ok ret
  | false ↦ strlen_loop rounds str (ret + 1) m
]

pub strlen : ℕ → ℕ → (ℕ → ℕ) → Result ℕ
unfolding strlen_loop
strlen rounds str m = strlen_loop rounds str 0 m

pub strcpy_loop : ℕ → ℕ → ℕ → ℕ → (ℕ → ℕ) → Result (ℕ → ℕ)
strcpy_loop zero dest src i m = err endless
strcpy_loop (suc rounds) dest src i m = elim (m (src + i) == 0) [
  | true ↦ ok (update m (dest + i) 0)
  | false ↦ strcpy_loop rounds dest src (i + 1) (update m (dest + i) (m (src + i)))
]

pub strcpy : ℕ → ℕ → ℕ → (ℕ → ℕ) → Result (ℕ → ℕ)
unfolding strcpy_loop
strcpy rounds dest src m = strcpy_loop rounds dest src 0 m

pub strcat : ℕ → ℕ → ℕ → (ℕ → ℕ) → Result (ℕ → ℕ)
unfolding strlen strcpy
strcat rounds dest src m = do offset ← strlen rounds dest m; strcpy rounds (dest + offset) src m

-- `kstrdup`; `kmalloc` gives an address for a size, or 0. What the heap writes there is left out.
pub kstrdup : (ℕ → ℕ) → ℕ → ℕ → (ℕ → ℕ) → Result (Option ℕ × (ℕ → ℕ))
unfolding strlen strcpy
kstrdup kmalloc rounds s m = do
  len ← strlen rounds s m
  if kmalloc (len + 1) == 0
      then ok (none, m)
      else (do m' ← strcpy rounds (kmalloc (len + 1)) s m; ok (some (kmalloc (len + 1)), m'))

-- -1
abbrev pub minus_one : ℕ
minus_one = 0xffff_ffff

pub strcmp_loop : ℕ → ℕ → ℕ → ℕ → (ℕ → ℕ) → Result ℕ
strcmp_loop zero a b i m = err endless
strcmp_loop (suc rounds) a b i m = elim (not (m (a + i) == 0) && m (a + i) == m (b + i)) [
  | true ↦ strcmp_loop rounds a b (i + 1) m
  | false ↦ ok i
]

pub strcmp : ℕ → ℕ → ℕ → (ℕ → ℕ) → Result ℕ
unfolding strcmp_loop
strcmp rounds a b m = do
  i ← strcmp_loop rounds a b 0 m
  ok (if ltb (m (b + i)) (m (a + i)) then 1 else (if m (a + i) == m (b + i) then 0 else minus_one))

pub strchr_loop : ℕ → ℕ → ℕ → (ℕ → ℕ) → Result (Option ℕ)
strchr_loop zero s ch m = err endless
strchr_loop (suc rounds) s ch m = elim (m s == 0) [
  | true ↦ ok (if m s == ch then some s else none)
  | false ↦ elim (m s == ch) [ true ↦ ok (some s) | false ↦ strchr_loop rounds (s + 1) ch m ]
]

pub strchr : ℕ → ℕ → ℕ → (ℕ → ℕ) → Result (Option ℕ)
unfolding strchr_loop
strchr rounds s ch_arg m = strchr_loop rounds s (u8 ch_arg) m

pub strrchr_loop : ℕ → ℕ → ℕ → (ℕ → ℕ) → Option ℕ
strrchr_loop zero s ch m = none
strrchr_loop (suc i) s ch m = elim (m (s + i) == ch) [
  | true ↦ some (s + i)
  | false ↦ strrchr_loop i s ch m
]

pub strrchr : ℕ → ℕ → ℕ → (ℕ → ℕ) → Result (Option ℕ)
unfolding strlen strrchr_loop
strrchr rounds s ch_arg m = do len ← strlen rounds s m; ok (strrchr_loop (len + 1) s (u8 ch_arg) m)
