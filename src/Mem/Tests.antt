-- ===== src/Mem/Tests.antt =====
-- Tests of blocks of memory.
use sdp_project_c.Common.{◌≡◌}
use sdp_project_c.Mem.{memmove, moved}
use sdp_project_c.Mem.Copy.{memmove-moved}

-- Eight bytes, four of which are overwritten before the copy is done.
memmove-moved_example : memmove 0x104 0x100 8 (λ a. a) 0x108 ≡ moved 0x104 0x100 8 (λ a. a) 0x108
memmove-moved_example = memmove-moved 0x104 0x100 8 (λ a. a) 0x108
