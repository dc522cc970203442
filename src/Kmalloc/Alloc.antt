-- ===== src/Kmalloc/Alloc.antt =====
-- What `subpage_kmalloc` hands out.
use sdp_project_c.Common.{
  ℕ, ◌%◌, ◌≤◌, ◌<◌, ◌≡◌, refl, ◌∙◌, subst, ap, ◌≢◌, ◌⊎◌, inl, inr, Bool, true, false, Option, none,
  some, Result, ok, err, Returns, Returns-bind, Returns-map, too_large, arith, leb, ◌==◌,
  ℕ_discrete, first_index, FirstIn, first_index-FirstIn, page_size,
}
use sdp_project_c.Spinlock.{Spinlock, unheld, held_here, spinlock_acquire, spinlock_release}
use sdp_project_c.Kmalloc.{
  nsizes, sizes, Kheap, take_block, find_page, allocpageref, num_pagerefpages, take_ref, take_page,
  blocktype, subpage_kmalloc,
}
use sdp_project_c.Kmalloc.Pages.{IsHeap, lock-IsHeap}
use sdp_project_c.Kmalloc.Take.{Gives, take_listed, Finds, find_page-Finds}
use sdp_project_c.Kmalloc.Refs.{Reserves, allocpageref-Fresh}
use sdp_project_c.Kmalloc.Fresh.{IsNew, Keeps-IsHeap, new_page-Gives}

-- Nothing is handed out, and no page or block changes.
pub record Fails (h : Kheap) (r : ℕ × Kheap) : Type 0 where
  pub address : r.0 ≡ 0
  pub refs : r.1.refs ≡ h.refs
  pub allbase : r.1.allbase ≡ h.allbase
  pub heap : IsHeap r.1
  pub free : r.1.kmalloc_spinlock ≡ unheld

abbrev pub Outcome : ℕ → Kheap → ℕ × Kheap → Type 0
Outcome b h r = Fails h r ⊎ ((pr k : ℕ) × Gives b pr k h r)

-- The new page with its reference, or given back.
take_ref-Outcome :
    (o : Option ℕ) (b prpage : ℕ) (h h' : Kheap)
    → IsHeap h
    → h.kmalloc_spinlock ≡ held_here
    → b < nsizes
    → IsNew prpage h
    → Reserves h (o, h')
    → Returns (take_ref o b prpage h') (Outcome b h)
unfolding take_ref spinlock_release
take_ref-Outcome none b prpage h h' v held kind new (same, _) = rw (same.lock ∙ held) (
    inl (record {
      address = refl;
      refs = same.refs;
      allbase = same.allbase;
      heap = record {
        pages = w.pages;
        sized = w.sized;
        sized_once = w.sized_once;
        used = w.used;
        apart = w.apart;
        once = w.once;
      };
      free = refl;
    }))
  where
    w : IsHeap h'
    w = Keeps-IsHeap h h' same v
take_ref-Outcome (some pr) b prpage h h' v held kind new (same, fresh) =
    Returns-map (λ r. (k : ℕ) × Gives b pr k h r) (Outcome b h) (take_ref (some pr) b prpage h')
      (λ r (k, g). inr (pr, k, g))
      (new_page-Gives prpage b pr h h' v new kind same fresh (same.lock ∙ held))

-- The second half of `subpage_kmalloc`, under the lock.
take_page-Outcome :
    (o : Option ℕ) (b prpage : ℕ) (refpage : Bool) (h : Kheap)
    → IsHeap h
    → h.kmalloc_spinlock ≡ held_here
    → b < nsizes
    → Finds b h o
    → (prpage ≢ 0 → IsNew prpage h)
    → Returns (take_page o b prpage refpage h) (Outcome b h)
unfolding take_page spinlock_acquire spinlock_release
take_page-Outcome (some pr) b prpage refpage h v held kind (on, type, some_free) new =
    Returns-map (λ r. (k : ℕ) × Gives (h.refs pr).blocktype pr k h r) (Outcome b h)
      (take_block pr (h.refs pr).freelist h)
      (λ r (k, g). inr (pr, k, subst (λ c. Gives c pr k h r) type g))
      (take_listed pr h v on some_free held)
take_page-Outcome none b prpage refpage h v held kind found new =
    rw held (elim (ℕ_discrete prpage 0) [
      | yes z ↦
          let t : (prpage == 0) ≡ true = ground arith in
          rw t (
            inl (record {
              address = refl;
              refs = refl;
              allbase = refl;
              heap = lock-IsHeap unheld h v;
              free = refl;
            }))
      | no some_page ↦
          let t : (prpage == 0) ≡ false = ground arith in
          let s : (prpage % page_size == 0) ≡ true = ground (arith, (new some_page).0) in
          rw (t, s)
            (take_ref-Outcome
              (allocpageref num_pagerefpages 0 refpage
                (record h { kmalloc_spinlock = held_here })).0
              b prpage (record h { kmalloc_spinlock = held_here })
              (allocpageref num_pagerefpages 0 refpage
                (record h { kmalloc_spinlock = held_here })).1
              (lock-IsHeap held_here h v) refl kind (new some_page)
              (allocpageref-Fresh num_pagerefpages 0 refpage
                (record h { kmalloc_spinlock = held_here }) (omega arith)))
    ])

-- The block type of a size: the first that is large enough.
blocktype_first :
    (sz : ℕ)
    → sz ≤ 2048
    → (b : ℕ) × (blocktype sz ≡ ok b)
      × (b < nsizes)
      × (sz ≤ sizes b)
      × ((j : ℕ) → j < b → sizes j < sz)
unfolding blocktype sizes
blocktype_first sz le =
    found (first_index nsizes (λ i. leb sz (sizes i))) refl
      (first_index-FirstIn nsizes (λ i. leb sz (sizes i)))
  where
    from : Option ℕ → Result ℕ
    from o = elim o [ none ↦ err too_large | some i ↦ ok i ]

    found :
        (o : Option ℕ)
        → first_index nsizes (λ i. leb sz (sizes i)) ≡ o
        → FirstIn 0 nsizes (λ i. leb sz (sizes i)) o
        → (b : ℕ) × (blocktype sz ≡ ok b)
          × (b < nsizes)
          × (sz ≤ sizes b)
          × ((j : ℕ) → j < b → sizes j < sz)
    found none e h = absurd (ground (arith, h 7))
    found (some b) e (_, lt, fits, before) =
        (b, ap from e, lt, ground (arith, fits), λ j l. ground (arith, before j))

-- The lock is no part of what changes.
unlock-Outcome :
    (b : ℕ) (lock : Spinlock) (h : Kheap) (r : ℕ × Kheap)
    → Outcome b (record h { kmalloc_spinlock = lock }) r
    → Outcome b h r
unlock-Outcome b lock h r (inl x) = inl (record {
  address = x.address;
  refs = x.refs;
  allbase = x.allbase;
  heap = x.heap;
  free = x.free;
})
unlock-Outcome b lock h r (inr (pr, k, g)) = inr (
  pr,
  k,
  record {
    kind = g.kind;
    address = g.address;
    within = g.within;
    listed = g.listed;
    taken = g.taken;
    page = g.page;
    others = g.others;
    heap = g.heap;
    free = g.free;
  },
)

-- `subpage_kmalloc` of at most 2048 bytes on a valid heap, with the lock free, where a page that
-- `alloc_kpages` gives is aligned and not of the heap: it gives NULL and changes no page and no block; or a
-- block of the smallest size that is large enough, which was free or on a new page, is not free any more, and
-- is the only one whose state changes. The pages of the heap stay apart, and the lock is free.
pub subpage_kmalloc-Gives :
    (sz prpage : ℕ) (refpage : Bool) (h : Kheap)
    → IsHeap h
    → h.kmalloc_spinlock ≡ unheld
    → sz ≤ 2048
    → (prpage ≢ 0 → IsNew prpage h)
    → Returns (subpage_kmalloc sz prpage refpage h) (λ r.
      (b : ℕ) × (sz ≤ sizes b)
      × ((j : ℕ) → j < b → sizes j < sz)
      × (Fails h r ⊎ ((pr k : ℕ) × Gives b pr k h r)))
unfolding subpage_kmalloc spinlock_acquire
subpage_kmalloc-Gives sz prpage refpage h v free le new =
    let (b, e, kind, fits, least) = blocktype_first sz le in
    let v' = lock-IsHeap held_here h v in
    rw (e, free)
      (Returns-bind (Finds b (record h { kmalloc_spinlock = held_here })) _
        (find_page (h.sizebases b) b (record h { kmalloc_spinlock = held_here })) _
        (find_page-Finds (h.sizebases b) b (record h { kmalloc_spinlock = held_here })
          (λ pr on. v.sized b pr on))
        (λ o found.
          Returns-map (Outcome b (record h { kmalloc_spinlock = held_here })) _
            (take_page o b prpage refpage (record h { kmalloc_spinlock = held_here }))
            (λ r out. (b, fits, least, unlock-Outcome b held_here _ r out))
            (take_page-Outcome o b prpage refpage (record h { kmalloc_spinlock = held_here }) v'
              refl kind found new)))
