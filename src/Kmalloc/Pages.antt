-- ===== src/Kmalloc/Pages.antt =====
-- A page of the heap, and the heap as pages that lie apart.
use sdp_project_c.Common.{
  ℕ, zero, suc, ◌+◌, ◌*◌, ◌/◌, ◌%◌, ◌≤◌, ◌<◌, ◌≡◌, refl, sym, subst, ◌≢◌, true, arith, length,
  occurrences, ℕ_discrete, page_size,
}
use sdp_project_c.Spinlock.{Spinlock}
use sdp_project_c.Kmalloc.{nsizes, sizes, PageRef, Kheap, set_ref, fresh_list}

-- How many blocks a page of a type has.
abbrev pub capacity : ℕ → ℕ
capacity b = page_size / sizes b

-- The free list has blocks of the page, each once, and the count is right.
pub record IsPage (p : PageRef) : Type 0 where
  pub kind : p.blocktype < nsizes
  pub aligned : p.pageaddr % page_size ≡ 0
  pub mapped : p.pageaddr + page_size < 0x1_0000_0000
  pub count : p.nfree ≡ length p.freelist
  pub within :
      (o : ℕ)
      → 0 < occurrences o p.freelist
      → (k : ℕ) × (k < capacity p.blocktype) × (o ≡ k * sizes p.blocktype)
  pub once : (o : ℕ) → occurrences o p.freelist ≤ 1

-- The pages on the lists are pages of their type, under references in use, and no two are the same.
pub record IsHeap (h : Kheap) : Type 0 where
  pub pages : (pr : ℕ) → 0 < occurrences pr h.allbase → IsPage (h.refs pr)
  pub sized :
      (b pr : ℕ)
      → 0 < occurrences pr (h.sizebases b)
      → (0 < occurrences pr h.allbase) × ((h.refs pr).blocktype ≡ b)
  pub sized_once : (b pr : ℕ) → occurrences pr (h.sizebases b) ≤ 1
  pub used :
      (pr : ℕ)
      → 0 < occurrences pr h.allbase
      → (h.kheaproots (pr / 256)).pagerefs_inuse (pr % 256) ≡ true
  pub apart :
      (pr pr' : ℕ)
      → 0 < occurrences pr h.allbase
      → 0 < occurrences pr' h.allbase
      → pr ≢ pr'
      → (h.refs pr).pageaddr ≢ (h.refs pr').pageaddr
  pub once : (pr : ℕ) → occurrences pr h.allbase ≤ 1

-- The lock is no part of it.
pub lock-IsHeap :
    (lock : Spinlock) (h : Kheap) → IsHeap h → IsHeap (record h { kmalloc_spinlock = lock })
lock-IsHeap lock h v = record {
  pages = v.pages;
  sized = v.sized;
  sized_once = v.sized_once;
  used = v.used;
  apart = v.apart;
  once = v.once;
}

-- A page may change but for its address and type.
pub set_ref-IsHeap :
    (pr : ℕ) (p : PageRef) (h : Kheap)
    → IsHeap h
    → IsPage p
    → p.pageaddr ≡ (h.refs pr).pageaddr
    → p.blocktype ≡ (h.refs pr).blocktype
    → IsHeap (set_ref pr p h)
set_ref-IsHeap pr p h v page same_addr same_type = record {
  pages = λ q on. elim (ℕ_discrete pr q) [
    | yes e ↦ subst IsPage (ground (arith, e)) page
    | no ne ↦ subst IsPage (ground (arith, ne)) (v.pages q on)
  ];
  sized = λ b q on. ground (arith, v.sized b q on, same_type);
  sized_once = v.sized_once;
  used = v.used;
  apart = λ q q' on on' ne. ground (arith, v.apart q q' on on' ne, same_addr);
  once = v.once;
}

-- The sizes, and the blocks of a fresh page.
pub sizes_pos :
    (b : ℕ) → b < nsizes → (0 < sizes b) × (capacity b * sizes b ≡ page_size) × (0 < capacity b)
unfolding sizes
sizes_pos zero lt = omega arith
sizes_pos (suc zero) lt = omega arith
sizes_pos (suc (suc zero)) lt = omega arith
sizes_pos (suc (suc (suc zero))) lt = omega arith
sizes_pos (suc (suc (suc (suc zero)))) lt = omega arith
sizes_pos (suc (suc (suc (suc (suc zero))))) lt = omega arith
sizes_pos (suc (suc (suc (suc (suc (suc zero)))))) lt = omega arith
sizes_pos (suc (suc (suc (suc (suc (suc (suc n))))))) lt = omega arith

length-fresh_list : (size n : ℕ) → length (fresh_list size n) ≡ n
unfolding fresh_list
length-fresh_list size zero = refl
length-fresh_list size (suc n) = omega (arith, length-fresh_list size n)

fresh_list_within :
    (size n o : ℕ) → 0 < occurrences o (fresh_list size n) → (k : ℕ) × (k < n) × (o ≡ k * size)
unfolding fresh_list occurrences
fresh_list_within size zero o on = absurd (omega arith)
fresh_list_within size (suc n) o on = elim (ℕ_discrete (n * size) o) [
  | yes e ↦ (n, omega arith, sym e)
  | no ne ↦ let (k, lt, e) = fresh_list_within size n o (ground arith) in (k, omega arith, e)
]

fresh_list_above : (size n o : ℕ) → 0 < size → n * size ≤ o → occurrences o (fresh_list size n) ≡ 0
unfolding fresh_list occurrences
fresh_list_above size zero o pos le = refl
fresh_list_above size (suc n) o pos le =
    let below : n * size < o = grind arith in ground (arith, fresh_list_above size n o pos, below)

fresh_list_once : (size n o : ℕ) → 0 < size → occurrences o (fresh_list size n) ≤ 1
unfolding fresh_list occurrences
fresh_list_once size zero o pos = omega arith
fresh_list_once size (suc n) o pos =
    ground (arith, fresh_list_once size n o pos, fresh_list_above size n o pos)

-- A fresh page.
pub fresh-IsPage :
    (prpage b : ℕ)
    → b < nsizes
    → prpage % page_size ≡ 0
    → prpage + page_size < 0x1_0000_0000
    → IsPage (record {
      pageaddr = prpage;
      blocktype = b;
      freelist = fresh_list (sizes b) (capacity b);
      nfree = capacity b;
    })
fresh-IsPage prpage b lt aligned mapped = record {
  kind = lt;
  aligned = aligned;
  mapped = mapped;
  count = sym (length-fresh_list (sizes b) (capacity b));
  within = fresh_list_within (sizes b) (capacity b);
  once = λ o. fresh_list_once (sizes b) (capacity b) o (sizes_pos b lt).0;
}

-- A block lies within its page, and starts at a multiple of its size.
pub block_within : (b k : ℕ) → b < nsizes → k < capacity b → k * sizes b + sizes b ≤ page_size
block_within b k lt within =
    let (pos, whole, _) = sizes_pos b lt in
    let le : (k + 1) * sizes b ≤ capacity b * sizes b = grind arith in grind (arith, le, whole)
