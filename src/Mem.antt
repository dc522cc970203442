-- ===== src/Mem.antt =====
-- common/libc/string: blocks of memory, a word being four bytes. An address is a natural number, since a block
-- does not go on at address 0 (memmove.c).
use sdp_project_c.Common.{
  ℕ, zero, suc, ◌+◌, ◌-◌, ◌*◌, ◌/◌, ◌%◌, Bool, ◌&&◌, ltb, leb, ◌==◌, if◌then◌else◌, u8,
}
pub mod Copy
pub mod Clear
mod Tests

abbrev pub sizeof_long : ℕ
sizeof_long = 4

-- `*d = *s` of `width` bytes, which are read before one is written.
pub assign : ℕ → ℕ → ℕ → (ℕ → ℕ) → ℕ → ℕ
assign width d s memory a = if leb d a && ltb a (d + width) then memory (s + (a - d)) else memory a

-- `for (i = 0; i < n; i++) d[i] = s[i];`
pub forward : ℕ → ℕ → ℕ → ℕ → (ℕ → ℕ) → ℕ → ℕ
unfolding assign
forward width zero d s memory = memory
forward width (suc n) d s memory =
    assign width (d + n * width) (s + n * width) (forward width n d s memory)

-- `for (i = n; i > 0; i--) d[i-1] = s[i-1];`
pub backward : ℕ → ℕ → ℕ → ℕ → (ℕ → ℕ) → ℕ → ℕ
unfolding assign
backward width zero d s memory = memory
backward width (suc n) d s memory =
    backward width n d s (assign width (d + n * width) (s + n * width) memory)

-- The test for a copy by words.
abbrev pub by_words : ℕ → ℕ → ℕ → Bool
by_words dst src len = dst % sizeof_long == 0 && src % sizeof_long == 0 && len % sizeof_long == 0

unfoldable pub memcpy : ℕ → ℕ → ℕ → (ℕ → ℕ) → ℕ → ℕ
unfolding forward
memcpy dst src len memory =
    if by_words dst src len
    then forward sizeof_long (len / sizeof_long) dst src memory
    else forward 1 len dst src memory

unfoldable pub memmove : ℕ → ℕ → ℕ → (ℕ → ℕ) → ℕ → ℕ
unfolding memcpy backward
memmove dst src len memory =
    if ltb dst src
    then memcpy dst src len memory
    else (if by_words dst src len
        then backward sizeof_long (len / sizeof_long) dst src memory
        else backward 1 len dst src memory)

-- `for (i = 0; i < n; i++) block[i] = x;`, where each of the bytes of `x` is `byte`.
pub put_all : ℕ → ℕ → ℕ → ℕ → (ℕ → ℕ) → ℕ → ℕ
put_all width zero block byte memory a = memory a
put_all width (suc n) block byte memory a =
    if leb (block + n * width) a && ltb a (block + n * width + width)
    then byte
    else put_all width n block byte memory a

unfoldable pub bzero : ℕ → ℕ → (ℕ → ℕ) → ℕ → ℕ
unfolding put_all
bzero vblock len memory =
    if vblock % sizeof_long == 0 && len % sizeof_long == 0
    then put_all sizeof_long (len / sizeof_long) vblock 0 memory
    else put_all 1 len vblock 0 memory

unfoldable pub memset : ℕ → ℕ → ℕ → (ℕ → ℕ) → ℕ → ℕ
unfolding put_all
memset ptr ch len memory = put_all 1 len ptr (u8 ch) memory

-- What a move of `len` bytes is to do, and a store of `len` bytes.
abbrev pub moved : ℕ → ℕ → ℕ → (ℕ → ℕ) → ℕ → ℕ
moved dst src len memory a =
    if leb dst a && ltb a (dst + len) then memory (src + (a - dst)) else memory a

abbrev pub filled : ℕ → ℕ → ℕ → (ℕ → ℕ) → ℕ → ℕ
filled block byte len memory a = if leb block a && ltb a (block + len) then byte else memory a
