-- ===== src/Array.antt =====
-- kern/lib/array.c and the operations of kern/include/array.h: resizeable arrays of pointers, over memory as
-- bytes. What `kmalloc` and `kfree` write is left out; `kmalloc` is the address that it gives for a size, or 0.
use sdp_project_c.Common.{
  ℕ, zero, suc, ◌+◌, ◌-◌, ◌*◌, ◌/◌, ◌%◌, Bool, true, false, not, Option, none, some, Result, ok,
  err, ◌>>=◌, ◌>>◌, require, assertion, endless, ltb, leb, ◌==◌, if◌then◌else◌, u32,
}
use sdp_project_c.Mem.{memcpy, memmove}
use sdp_project_c.AddrSpace.{enomem}
pub mod Words
pub mod Grow
pub mod Entries
pub mod Slide
pub mod Room
pub mod Append
mod Tests

-- A pointer in memory, the high byte first.
pub load_word : (ℕ → ℕ) → ℕ → ℕ
load_word m a = m a * 0x100_0000 + m (a + 1) * 0x1_0000 + m (a + 2) * 0x100 + m (a + 3)

pub store_word : ℕ → ℕ → (ℕ → ℕ) → ℕ → ℕ
store_word a x m b =
    if b == a
    then x / 0x100_0000 % 256
    else (if b == a + 1
        then x / 0x1_0000 % 256
        else (if b == a + 2 then x / 0x100 % 256 else (if b == a + 3 then x % 256 else m b)))

-- `struct array`
pub record Array : Type 0 where
  pub v : ℕ
  pub num : ℕ
  pub max : ℕ

-- `array_init`
pub array_init : Array
array_init = record { v = 0; num = 0; max = 0 }

-- `array_create`, where `memory` says whether there is memory for a `struct array`.
pub array_create : Bool → Option Array
unfolding array_init
array_create memory = if memory then some array_init else none

-- `array_cleanup`
pub array_cleanup : Array → Result Array
array_cleanup a = do require (a.num == 0) assertion; ok (record a { v = 0 })

-- `array_destroy`
pub array_destroy : Array → Result (Unit {0})
unfolding array_cleanup
array_destroy a = do cleaned ← array_cleanup a; ok tt

-- `array_num`
abbrev pub array_num : Array → ℕ
array_num a = a.num

-- `array_get`
pub array_get : Array → ℕ → (ℕ → ℕ) → Result ℕ
unfolding load_word
array_get a index m = do require (ltb index a.num) assertion; ok (load_word m (a.v + index * 4))

-- `array_set`
pub array_set : Array → ℕ → ℕ → (ℕ → ℕ) → Result (ℕ → ℕ)
unfolding store_word
array_set a index val m = do
  require (ltb index a.num) assertion
  ok (store_word (a.v + index * 4) val m)

-- The loop for the new size, in at most `rounds` rounds.
pub newmax_loop : ℕ → ℕ → ℕ → Result ℕ
newmax_loop zero num newmax = err endless
newmax_loop (suc rounds) num newmax = elim (ltb newmax num) [
  | true ↦ newmax_loop rounds num (if newmax == 0 then 4 else u32 (newmax * 2))
  | false ↦ ok newmax
]

abbrev pub newmax_rounds : ℕ
newmax_rounds = 34

-- `array_preallocate`: the error number, the array and memory.
pub array_preallocate : (ℕ → ℕ) → ℕ → Array → (ℕ → ℕ) → Result (ℕ × Array × (ℕ → ℕ))
unfolding newmax_loop
array_preallocate kmalloc num a m = if leb num a.max then ok (0, a, m) else (do
  newmax ← newmax_loop newmax_rounds num a.max
  let newptr = kmalloc (u32 (newmax * 4))
  if newptr == 0
      then ok (enomem, a, m)
      else ok (0, record a { v = newptr; max = newmax }, memcpy newptr a.v (u32 (a.num * 4)) m))

-- `array_setsize`
pub array_setsize : (ℕ → ℕ) → ℕ → Array → (ℕ → ℕ) → Result (ℕ × Array × (ℕ → ℕ))
unfolding array_preallocate
array_setsize kmalloc num a m = do
  (result, a', m') ← array_preallocate kmalloc num a m
  ok (if not (result == 0) then (result, a', m') else (0, record a' { num = num }, m'))

-- `array_add`: also the index of the new entry.
pub array_add : (ℕ → ℕ) → ℕ → Array → (ℕ → ℕ) → Result (ℕ × ℕ × Array × (ℕ → ℕ))
unfolding array_setsize store_word
array_add kmalloc val a m = do
  let index = a.num
  (ret, a', m') ← array_setsize kmalloc (u32 (index + 1)) a m
  ok (
      if not (ret == 0)
      then (ret, 0, a', m')
      else (0, index, a', store_word (a'.v + index * 4) val m'))

-- `array_remove`
pub array_remove : ℕ → Array → (ℕ → ℕ) → Result (Array × (ℕ → ℕ))
array_remove index a m = do
  require (leb a.num a.max) assertion
  require (ltb index a.num) assertion
  let num_to_move = a.num - (index + 1)
  ok (
    record a { num = a.num - 1 },
    memmove (a.v + index * 4) (a.v + (index + 1) * 4) (u32 (num_to_move * 4)) m,
  )
