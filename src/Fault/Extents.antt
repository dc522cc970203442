-- ===== src/Fault/Extents.antt =====
-- How much of the program file each page of a segment gets, and from where.
use sdp_project_c.Common.{ℕ, ◌+◌, ◌-◌, ◌*◌, ◌/◌, ◌≤◌, ◌<◌, ◌≡◌, arith, page_size, page_offset, u32}
use sdp_project_c.Fault.{size_to_read, read_target, read_source}
use Prim.Native.Nat.{min}

-- A segment at page `base` of user memory, with `sz` bytes from `offset` on in the file: `npages` pages
-- hold them, and address and offset agree within a page.
pub record Segment (base npages offset sz : ℕ) : Type 0 where
  pub user : base + npages ≤ 0x8_0000
  pub size : npages ≡ (sz + page_offset offset + page_size - 1) / page_size

module _ (base npages offset sz k : ℕ) (seg : Segment base npages offset sz) (lt : k < npages) where
  -- In a segment that begins at a page of the file, page `k` is read at the start of its frame from its
  -- place in the file, and gets its 4096 bytes, or what is left of the segment in the last page.
  pub size_to_read_aligned :
      (paddr : ℕ)
      → page_offset offset ≡ 0
      → (size_to_read ((base + k) * page_size) (base * page_size) npages offset sz
          ≡ min page_size (sz - k * page_size))
        × (read_target ((base + k) * page_size) (base * page_size) offset paddr ≡ paddr)
        × (read_source ((base + k) * page_size) (base * page_size) offset ≡ offset + k * page_size)
  unfolding size_to_read read_target read_source
  size_to_read_aligned paddr zero_offset =
      (ground (arith, seg.user, seg.size), ground arith, ground arith)

  -- In a segment that begins inside a page of the file, the last of several pages is given a size that
  -- differs, on 32 bits, by twice the offset in the page from what is left of the segment.
  pub size_to_read_last_page :
      0 < page_offset offset
      → 0 < k
      → k + 1 ≡ npages
      → u32 (
          size_to_read ((base + k) * page_size) (base * page_size) npages offset sz
          + 2 * page_offset offset)
        ≡ u32 (sz + page_offset offset - k * page_size)
  unfolding size_to_read
  size_to_read_last_page inside pos last = ground (arith, seg.user, seg.size)
