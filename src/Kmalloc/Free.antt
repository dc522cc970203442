-- ===== src/Kmalloc/Free.antt =====
-- What `subpage_kfree` does with a block of the heap.
use sdp_project_c.Common.{
  ℕ, ◌+◌, ◌-◌, ◌*◌, ◌/◌, ◌%◌, ◌<◌, ◌≡◌, refl, sym, subst, ap, ◌≢◌, ◌⊎◌, inl, inr, Bool, true, false,
  ◌&&◌, Result, ok, ◌>>=◌, Returns, Returns-bind, arith, leb, ltb, ◌==◌, update, [], ◌∷◌,
  occurrences, without, ℕ_discrete, page_size,
}
use native.Mathlib.Nat.{mul-mod_left}
use sdp_project_c.Spinlock.{unheld, held_here, spinlock_acquire, spinlock_release}
use sdp_project_c.Kmalloc.{
  nsizes, sizes, num_pagerefpages, PageRef, Kheap, set_ref, remove_lists, give_block, subpage_kfree,
}
use sdp_project_c.Kmalloc.Pages.{capacity, IsHeap, lock-IsHeap, set_ref-IsHeap}
use sdp_project_c.Kmalloc.Return.{
  returned, returned-IsPage, returned_fits, offset_within, not_head, page_of_lem,
}
use sdp_project_c.Kmalloc.Gone.{
  IsCounted, released_bit, freepageref_lem, left_out-IsHeap, off, stays,
}

-- What becomes of the page: the block is free again, and the page goes if all its blocks are.
pub record Frees (pr k : ℕ) (h : Kheap) (r : Bool × Kheap) : Type 0 where
  pub found : r.0 ≡ true
  pub heap : IsHeap r.1
  pub free : r.1.kmalloc_spinlock ≡ unheld
  pub others :
      (q : ℕ)
      → q ≢ pr
      → (r.1.refs q ≡ h.refs q) × (occurrences q r.1.allbase ≡ occurrences q h.allbase)
  pub block : r.1.refs pr ≡ returned (h.refs pr) k
  pub page :
      (((h.refs pr).nfree + 1 < capacity (h.refs pr).blocktype)
        × (r.1.allbase ≡ h.allbase)
        × (r.1.given_back ≡ h.given_back))
      ⊎ (((h.refs pr).nfree + 1 ≡ capacity (h.refs pr).blocktype)
          × (occurrences pr r.1.allbase ≡ 0)
          × ((r.1.kheaproots (pr / 256)).pagerefs_inuse (pr % 256) ≡ false)
          × (r.1.given_back ≡ (h.refs pr).pageaddr ∷ h.given_back))

module _ (pr k : ℕ) (h : Kheap) (v : IsHeap h) (c : IsCounted h) (on : 0 < occurrences pr h.allbase)
    (lt : k < capacity (h.refs pr).blocktype)
    (taken : occurrences (k * sizes (h.refs pr).blocktype) (h.refs pr).freelist ≡ 0) where
  abbrev back : PageRef
  back = returned (h.refs pr) k

  abbrev with_block : Kheap
  with_block = set_ref pr back h

  with_block-IsHeap : IsHeap with_block
  with_block-IsHeap =
      set_ref-IsHeap pr back h v (returned-IsPage (h.refs pr) k (v.pages pr on) lt taken) refl refl

  at_block : with_block.refs pr ≡ back
  at_block = ground arith

  elsewhere : (q : ℕ) → q ≢ pr → with_block.refs q ≡ h.refs q
  elsewhere q ne = ground (arith, ne)

  multiple : (k * sizes (h.refs pr).blocktype) % sizes (h.refs pr).blocktype ≡ 0
  multiple = mul-mod_left k (sizes (h.refs pr).blocktype)

  placed :
      (ltb (k * sizes (h.refs pr).blocktype) page_size
        && k * sizes (h.refs pr).blocktype % sizes (h.refs pr).blocktype == 0)
      ≡ true
  placed = ground (arith, multiple, offset_within (h.refs pr) k (v.pages pr on) lt taken)

  fits : leb ((h.refs pr).nfree + 1) (capacity (h.refs pr).blocktype) ≡ true
  fits = ground (arith, returned_fits (h.refs pr) k (v.pages pr on) lt taken)

  kind : ltb (h.refs pr).blocktype nsizes ≡ true
  kind = ground (arith, (v.pages pr on).kind)

  -- Other blocks of the page are in use.
  give_block-stays :
      h.kmalloc_spinlock ≡ held_here
      → (h.refs pr).nfree + 1 ≢ capacity (h.refs pr).blocktype
      → Returns (give_block pr (k * sizes (h.refs pr).blocktype) h) (λ h'. Frees pr k h (true, h'))
  unfolding give_block spinlock_release
  give_block-stays held more =
      let head = not_head (h.refs pr) k (v.pages pr on) lt taken in
      let some_used : ((h.refs pr).nfree + 1 == page_size / sizes (h.refs pr).blocktype) ≡ false =
        ground (arith, more) in
      rw (placed, head, fits, some_used, held)
        (record {
          found = refl;
          heap = lock-IsHeap unheld with_block with_block-IsHeap;
          free = refl;
          others = λ q ne. (elsewhere q ne, refl);
          block = at_block;
          page = inl (
            omega (arith, returned_fits (h.refs pr) k (v.pages pr on) lt taken, more),
            refl,
            refl,
          );
        })

  remove_lists_lem :
      remove_lists pr (h.refs pr).blocktype with_block
      ≡ ok (record with_block {
        sizebases =
            update h.sizebases
              (h.refs pr).blocktype
              (without pr (h.sizebases (h.refs pr).blocktype));
        allbase = without pr h.allbase;
      })
  unfolding remove_lists
  remove_lists_lem = rw kind refl

  -- It was the last block of the page in use.
  give_block-goes :
      h.kmalloc_spinlock ≡ held_here
      → (h.refs pr).nfree + 1 ≡ capacity (h.refs pr).blocktype
      → Returns (give_block pr (k * sizes (h.refs pr).blocktype) h) (λ h'. Frees pr k h (true, h'))
  unfolding give_block spinlock_release
  give_block-goes held full =
      let head = not_head (h.refs pr) k (v.pages pr on) lt taken in
      let all_free : ((h.refs pr).nfree + 1 == page_size / sizes (h.refs pr).blocktype) ≡ true =
        ground (arith, full) in
      let ref =
        freepageref_lem num_pagerefpages 0 pr
          (record with_block {
            sizebases =
                update h.sizebases (h.refs pr).blocktype
                  (without pr (h.sizebases (h.refs pr).blocktype));
            allbase = without pr h.allbase;
          })
          c.none_lost (c.has_page pr on) (v.used pr on) (c.counted pr on) (omega arith)
          (omega (arith, c.bounded pr on)) in
      let type : (with_block.refs pr).blocktype ≡ (h.refs pr).blocktype =
        ap (λ (p : PageRef). p.blocktype) at_block in
      rw (placed, head, fits, all_free, remove_lists_lem, ref, held)
        (record {
          found = refl;
          heap =
              left_out-IsHeap pr (h.refs pr).blocktype ((h.refs pr).pageaddr ∷ h.given_back)
                with_block with_block-IsHeap on type;
          free = refl;
          others = λ q ne. (
            elsewhere q ne,
            stays pr (h.refs pr).blocktype [] with_block with_block-IsHeap on type q
                (λ e. ne (sym e)),
          );
          block = at_block;
          page = inr (
            full,
            off pr (h.refs pr).blocktype [] with_block with_block-IsHeap on type,
            released_bit pr with_block,
            refl,
          );
        })

-- `subpage_kfree` of the address of block `k` of a page of a valid heap, which is not on its free list, with
-- the lock free and the references counted: the block is on the free list again, and no other page changes.
-- Unless that was the last block of the page in use, the page stays; else it leaves the heap, its reference
-- is free, and it goes back to `free_kpages`. The pages of the heap stay apart, and the lock is free.
pub subpage_kfree-Frees :
    (pr k : ℕ) (h : Kheap)
    → IsHeap h
    → IsCounted h
    → h.kmalloc_spinlock ≡ unheld
    → 0 < occurrences pr h.allbase
    → k < capacity (h.refs pr).blocktype
    → occurrences (k * sizes (h.refs pr).blocktype) (h.refs pr).freelist ≡ 0
    → Returns
        (subpage_kfree ((h.refs pr).pageaddr + k * sizes (h.refs pr).blocktype) h)
        (Frees pr k h)
unfolding subpage_kfree spinlock_acquire
subpage_kfree-Frees pr k h v c free on lt taken =
    let found =
      page_of_lem h.allbase pr (k * sizes (h.refs pr).blocktype) locked v' (λ q on'. on') on
        (offset_within (h.refs pr) k (v.pages pr on) lt taken) in
    let offset : (h.refs pr).pageaddr + k * sizes (h.refs pr).blocktype - (h.refs pr).pageaddr
        ≡ k * sizes (h.refs pr).blocktype =
      omega arith in
    let run : subpage_kfree ((h.refs pr).pageaddr + k * sizes (h.refs pr).blocktype) h
        ≡ given_back =
      rw (free, found, offset) refl in
    subst (λ m. Returns m (Frees pr k h)) (sym run)
      (Returns-bind (λ h'. Frees pr k locked (true, h')) (Frees pr k h)
        (give_block pr (k * sizes (h.refs pr).blocktype) locked) (λ h'. ok (true, h')) given
        (λ h' f. unlocked h' f))
  where
    locked : Kheap
    locked = record h { kmalloc_spinlock = held_here }

    given_back : Result (Bool × Kheap)
    given_back = do h' ← give_block pr (k * sizes (h.refs pr).blocktype) locked; ok (true, h')

    v' : IsHeap locked
    v' = lock-IsHeap held_here h v

    c' : IsCounted locked
    c' = record {
      none_lost = c.none_lost;
      has_page = c.has_page;
      counted = c.counted;
      bounded = c.bounded;
    }

    given :
        Returns
          (give_block pr (k * sizes (h.refs pr).blocktype) locked)
          (λ h'. Frees pr k locked (true, h'))
    given = elim (ℕ_discrete ((h.refs pr).nfree + 1) (capacity (h.refs pr).blocktype)) [
      | yes full ↦ give_block-goes pr k locked v' c' on lt taken refl full
      | no more ↦ give_block-stays pr k locked v' c' on lt taken refl more
    ]

    unlocked : (h' : Kheap) → Frees pr k locked (true, h') → Frees pr k h (true, h')
    unlocked h' f = record {
      found = refl;
      heap = f.heap;
      free = f.free;
      others = f.others;
      block = f.block;
      page = f.page;
    }
