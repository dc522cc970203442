-- ===== src/Kmalloc.antt =====
-- kern/vm/kmalloc.c without its debugging options: the kernel's heap. What blocks hold is left out; a free
-- list is the sequence of the offsets of its blocks, and a list of pages that of their references.
use sdp_project_c.Common.{
  ℕ, zero, suc, ◌+◌, ◌-◌, ◌*◌, ◌/◌, ◌%◌, Bool, true, false, not, ◌&&◌, ◌||◌, Option, none, some,
  Result, ok, err, ◌>>=◌, ◌>>◌, require, assertion, too_large, invalid_free, leb, ltb, ◌==◌,
  if◌then◌else◌, update, u32, List, [], ◌∷◌, first_index, without, page_size,
}
use sdp_project_c.Spinlock.{Spinlock, spinlock_acquire, spinlock_release}
pub mod Pages
pub mod Refs
pub mod Take
pub mod Fresh
pub mod Alloc
pub mod Return
pub mod Gone
pub mod Free
mod Tests

abbrev pub nsizes : ℕ
nsizes = 8

-- `sizes`
pub sizes : ℕ → ℕ
sizes zero = 16
sizes (suc zero) = 32
sizes (suc (suc zero)) = 64
sizes (suc (suc (suc zero))) = 128
sizes (suc (suc (suc (suc zero)))) = 256
sizes (suc (suc (suc (suc (suc zero))))) = 512
sizes (suc (suc (suc (suc (suc (suc zero)))))) = 1024
sizes (suc (suc (suc (suc (suc (suc (suc n))))))) = 2048

abbrev pub largest_subpage_size : ℕ
largest_subpage_size = 2048

abbrev pub npagerefs_per_page : ℕ
npagerefs_per_page = 256

abbrev pub num_pagerefpages : ℕ
num_pagerefpages = 16

-- `struct pageref`: the page, its block type and its free list, with the count that the code keeps.
pub record PageRef : Type 0 where
  pub pageaddr : ℕ
  pub blocktype : ℕ
  pub freelist : List ℕ
  pub nfree : ℕ

-- `struct kheap_root`: whether there is a page for its references, which of them are in use, and how many.
pub record KheapRoot : Type 0 where
  pub page : Bool
  pub pagerefs_inuse : ℕ → Bool
  pub numinuse : ℕ

-- The statics of kmalloc.c. Reference `j` of root `r` has number `256 r + j`. `given_back` has the pages that
-- went to `free_kpages`.
pub record Kheap : Type 0 where
  pub kheaproots : ℕ → KheapRoot
  pub refs : ℕ → PageRef
  pub sizebases : ℕ → List ℕ
  pub allbase : List ℕ
  pub kmalloc_spinlock : Spinlock
  pub given_back : List ℕ

abbrev pub set_root : ℕ → KheapRoot → Kheap → Kheap
set_root r root h = record h { kheaproots = update h.kheaproots r root }

abbrev pub set_ref : ℕ → PageRef → Kheap → Kheap
set_ref pr p h = record h { refs = update h.refs pr p }

-- `allocpageref`, from root `r` on, of which `left` are left: `page` says whether `alloc_kpages` has a page
-- for references if one is wanted. A reference stays in use also if it has not.
pub allocpageref : ℕ → ℕ → Bool → Kheap → Option ℕ × Kheap
allocpageref zero r page h = (none, h)
allocpageref (suc left) r page h =
    let root = h.kheaproots r in
    let rest = allocpageref left (r + 1) page h in
    if leb npagerefs_per_page root.numinuse
    then rest
    else (elim (first_index npagerefs_per_page (λ j. not (root.pagerefs_inuse j))) [
      | none ↦ rest
      | some j ↦
          let page' = root.page || page in
          (
            if page' then some (r * npagerefs_per_page + j) else none,
            set_root r
                (record {
                  page = page';
                  pagerefs_inuse = update root.pagerefs_inuse j true;
                  numinuse = root.numinuse + 1;
                })
                h,
          )
    ])

-- `freepageref` of reference `pr`, from root `r` on.
pub freepageref : ℕ → ℕ → ℕ → Kheap → Result Kheap
freepageref zero r pr h = err assertion
freepageref (suc left) r pr h =
    let root = h.kheaproots r in
    elim (root.page && r == pr / npagerefs_per_page) [
      | true ↦ do
        require (root.pagerefs_inuse (pr % npagerefs_per_page)) assertion
        require (ltb 0 root.numinuse) assertion
        ok (
            set_root r
              (record root {
                pagerefs_inuse = update root.pagerefs_inuse (pr % npagerefs_per_page) false;
                numinuse = root.numinuse - 1;
              })
              h)
      | false ↦ do
        require (root.page || root.numinuse == 0) assertion
        freepageref left (r + 1) pr h
    ]

-- `remove_lists`
pub remove_lists : ℕ → ℕ → Kheap → Result Kheap
remove_lists pr blktype h = do
  require (ltb blktype nsizes) assertion
  ok (record h {
    sizebases = update h.sizebases blktype (without pr (h.sizebases blktype));
    allbase = without pr h.allbase;
  })

-- `blocktype`
pub blocktype : ℕ → Result ℕ
unfolding sizes
blocktype clientsz = elim (first_index nsizes (λ i. leb clientsz (sizes i))) [
  | none ↦ err too_large
  | some i ↦ ok i
]

abbrev pub is_nil : List ℕ → Bool
is_nil [] = true
is_nil (o ∷ os) = false

abbrev pub starts_below : ℕ → List ℕ → Bool
starts_below n [] = true
starts_below n (o ∷ os) = ltb o n

-- The block that `doalloc` takes off the free list of page `pr`, and the list without it.
pub take_block : ℕ → List ℕ → Kheap → Result (ℕ × Kheap)
take_block pr [] h = err assertion
take_block pr (fla ∷ fl) h = do
  let p = h.refs pr
  require (ltb fla page_size) assertion
  let nfree = p.nfree - 1
  require (if is_nil fl then nfree == 0 else ltb 0 nfree && starts_below page_size fl) assertion
  lock ← spinlock_release h.kmalloc_spinlock
  ok (
    p.pageaddr + fla,
    record (set_ref pr (record p { freelist = fl; nfree = nfree }) h) { kmalloc_spinlock = lock },
  )

-- The search for a page with a free block among those of the right size.
pub find_page : List ℕ → ℕ → Kheap → Result (Option ℕ)
find_page [] blktype h = ok none
find_page (pr ∷ prs) blktype h = do
  require ((h.refs pr).blocktype == blktype) assertion
  elim (ltb 0 (h.refs pr).nfree) [ true ↦ ok (some pr) | false ↦ find_page prs blktype h ]

-- The free list of a fresh page of `n` blocks: the last block first.
pub fresh_list : ℕ → ℕ → List ℕ
fresh_list size zero = []
fresh_list size (suc n) = n * size ∷ fresh_list size n

-- The page `prpage` as the first of its size and of all, under reference `pr`.
abbrev pub add_page : ℕ → ℕ → ℕ → Kheap → Kheap
add_page prpage blktype pr h =
    record (set_ref pr
      (record {
        pageaddr = prpage;
        blocktype = blktype;
        freelist = fresh_list (sizes blktype) (page_size / sizes blktype);
        nfree = page_size / sizes blktype;
      })
      h) {
        sizebases = update h.sizebases blktype (pr ∷ h.sizebases blktype);
        allbase = pr ∷ h.allbase;
      }

-- The new page `prpage` with a reference for it, or without one, when the page is given back.
pub take_ref : Option ℕ → ℕ → ℕ → Kheap → Result (ℕ × Kheap)
unfolding take_block sizes fresh_list
take_ref none blktype prpage h = do
  lock ← spinlock_release h.kmalloc_spinlock
  ok (0, record h { kmalloc_spinlock = lock; given_back = prpage ∷ h.given_back })
take_ref (some pr) blktype prpage h =
    take_block pr (fresh_list (sizes blktype) (page_size / sizes blktype))
      (add_page prpage blktype pr h)

-- `subpage_kmalloc` after the search: with a page that was found, or with a new one. `prpage` is the answer
-- of `alloc_kpages(1)`, 0 for NULL, and `refpage` its answer for a page of references.
pub take_page : Option ℕ → ℕ → ℕ → Bool → Kheap → Result (ℕ × Kheap)
unfolding take_block take_ref allocpageref
take_page (some pr) blktype prpage refpage h = take_block pr (h.refs pr).freelist h
take_page none blktype prpage refpage h = do
  lock ← spinlock_release h.kmalloc_spinlock
  if prpage == 0 then ok (0, record h { kmalloc_spinlock = lock }) else (do
    require (prpage % page_size == 0) assertion
    lock' ← spinlock_acquire lock
    let (found, h') =
        allocpageref num_pagerefpages 0 refpage (record h { kmalloc_spinlock = lock' })
    take_ref found blktype prpage h')

-- `subpage_kmalloc`: the address of the block, 0 for NULL.
pub subpage_kmalloc : ℕ → ℕ → Bool → Kheap → Result (ℕ × Kheap)
unfolding blocktype find_page take_page
subpage_kmalloc sz prpage refpage h = do
  blktype ← blocktype sz
  lock ← spinlock_acquire h.kmalloc_spinlock
  let h' = record h { kmalloc_spinlock = lock }
  found ← find_page (h.sizebases blktype) blktype h'
  take_page found blktype prpage refpage h'

-- The search of `subpage_kfree` for the page of an address.
pub page_of : List ℕ → ℕ → Kheap → Result (Option ℕ)
page_of [] ptraddr h = ok none
page_of (pr ∷ prs) ptraddr h = do
  require (ltb (h.refs pr).blocktype nsizes) assertion
  elim (leb (h.refs pr).pageaddr ptraddr && ltb ptraddr (u32 ((h.refs pr).pageaddr + page_size))) [
    | true ↦ ok (some pr)
    | false ↦ page_of prs ptraddr h
  ]

abbrev pub starts_with : ℕ → List ℕ → Bool
starts_with offset [] = false
starts_with offset (o ∷ os) = o == offset

-- The return of a block at `offset` of page `pr`, and of the page if all its blocks are free.
pub give_block : ℕ → ℕ → Kheap → Result Kheap
unfolding sizes remove_lists freepageref
give_block pr offset h = do
  let p = h.refs pr
  require (ltb offset page_size && offset % sizes p.blocktype == 0) invalid_free
  require (not (starts_with offset p.freelist)) assertion
  let h₁ = set_ref pr (record p { freelist = offset ∷ p.freelist; nfree = p.nfree + 1 }) h
  require (leb (p.nfree + 1) (page_size / sizes p.blocktype)) assertion
  if p.nfree + 1 == page_size / sizes p.blocktype
      then (do
        h₂ ← remove_lists pr p.blocktype h₁
        h₃ ← freepageref num_pagerefpages 0 pr h₂
        lock ← spinlock_release h₃.kmalloc_spinlock
        ok (record h₃ { kmalloc_spinlock = lock; given_back = p.pageaddr ∷ h₃.given_back }))
      else (do
        lock ← spinlock_release h₁.kmalloc_spinlock
        ok (record h₁ { kmalloc_spinlock = lock }))

-- `subpage_kfree`: whether the address is on a page of the heap, and the heap.
pub subpage_kfree : ℕ → Kheap → Result (Bool × Kheap)
unfolding page_of give_block
subpage_kfree ptr h = do
  lock ← spinlock_acquire h.kmalloc_spinlock
  let h' = record h { kmalloc_spinlock = lock }
  found ← page_of h.allbase ptr h'
  elim found [
    | none ↦ do lock' ← spinlock_release lock; ok (false, record h { kmalloc_spinlock = lock' })
    | some pr ↦ do h₁ ← give_block pr (ptr - (h.refs pr).pageaddr) h'; ok (true, h₁)
  ]

-- `kmalloc`; `alloc_kpages` is the answer for whole pages.
pub kmalloc : (ℕ → ℕ) → ℕ → Bool → Kheap → Result (ℕ × Kheap)
unfolding subpage_kmalloc
kmalloc alloc_kpages sz refpage h =
    if leb largest_subpage_size sz
    then (do
      let address = alloc_kpages (u32 (sz + page_size - 1) / page_size)
      require (address % page_size == 0) assertion
      ok (address, h))
    else subpage_kmalloc sz (alloc_kpages 1) refpage h

-- `kfree`
pub kfree : ℕ → Kheap → Result Kheap
unfolding subpage_kfree
kfree ptr h = if ptr == 0 then ok h else (do
  (on_heap, h') ← subpage_kfree ptr h
  require (on_heap || ptr % page_size == 0) assertion
  ok (if on_heap then h' else record h' { given_back = ptr ∷ h'.given_back }))
