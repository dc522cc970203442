-- ===== src/Kmalloc/Take.antt =====
-- A block taken off the free list of a page.
use sdp_project_c.Common.{
  ℕ, suc, ◌+◌, ◌-◌, ◌*◌, ◌<◌, ◌≡◌, refl, sym, ◌∙◌, subst, ap, ◌≢◌, ◌⊎◌, inl, inr, true, ◌&&◌,
  Option, none, some, ok, Returns, arith, ltb, ◌==◌, if◌then◌else◌, List, [], ◌∷◌, length,
  occurrences, Bool-cases, page_size,
}
use sdp_project_c.Spinlock.{unheld, held_here, spinlock_release}
use sdp_project_c.Kmalloc.{
  sizes, PageRef, Kheap, set_ref, is_nil, starts_below, take_block, find_page,
}
use sdp_project_c.Kmalloc.Pages.{
  capacity, IsPage, IsHeap, lock-IsHeap, set_ref-IsHeap, sizes_pos, block_within,
}

-- What is handed out: block `k` of page `pr` of type `b`, which was free or on a page that is new, and is not free any
-- more; every other block is as it was, and the pages stay apart.
pub record Gives (b pr k : ℕ) (h : Kheap) (r : ℕ × Kheap) : Type 0 where
  pub kind : (r.1.refs pr).blocktype ≡ b
  pub address : r.0 ≡ (r.1.refs pr).pageaddr + k * sizes (r.1.refs pr).blocktype
  pub within : k < capacity (r.1.refs pr).blocktype
  pub listed : 0 < occurrences pr r.1.allbase
  pub taken : occurrences (k * sizes (r.1.refs pr).blocktype) (r.1.refs pr).freelist ≡ 0
  pub page :
      ((0 < occurrences pr h.allbase)
        × (occurrences (k * sizes (r.1.refs pr).blocktype) (h.refs pr).freelist ≡ 1)
        × ((o : ℕ)
            → o ≢ k * sizes (r.1.refs pr).blocktype
            → occurrences o (r.1.refs pr).freelist ≡ occurrences o (h.refs pr).freelist))
      ⊎ (occurrences pr h.allbase ≡ 0)
  pub others :
      (q : ℕ)
      → q ≢ pr
      → (r.1.refs q ≡ h.refs q) × (occurrences q r.1.allbase ≡ occurrences q h.allbase)
  pub heap : IsHeap r.1
  pub free : r.1.kmalloc_spinlock ≡ unheld

-- The first block of a free list is taken.
module _ (pr o : ℕ) (os : List ℕ) (h : Kheap) (v : IsHeap h) (on : 0 < occurrences pr h.allbase)
    (list : (h.refs pr).freelist ≡ o ∷ os) (held : h.kmalloc_spinlock ≡ held_here) where
  abbrev rest_page : PageRef
  rest_page = record (h.refs pr) { freelist = os; nfree = (h.refs pr).nfree - 1 }

  abbrev rest_heap : Kheap
  rest_heap = record (set_ref pr rest_page h) { kmalloc_spinlock = unheld }

  rest-IsPage : IsPage rest_page
  unfolding occurrences
  rest-IsPage =
      let p = v.pages pr on in
      record {
        kind = p.kind;
        aligned = p.aligned;
        mapped = p.mapped;
        count = omega (arith, p.count, ap (length {A = ℕ}) list);
        within = λ x free. p.within x (rw list (omega arith));
        once = λ x. omega (arith, p.once x, ap (occurrences x) list);
      }

  first_on : 0 < occurrences o (o ∷ os)
  unfolding occurrences
  first_on = ground arith

  free_below : (x : ℕ) → 0 < occurrences x (h.refs pr).freelist → x < page_size
  free_below x free =
      let p = v.pages pr on in
      let (k, lt, e) = p.within x free in
      omega (
        arith,
        block_within (h.refs pr).blocktype k p.kind lt,
        (sizes_pos (h.refs pr).blocktype p.kind).0,
        e,
      )

  rest_checks :
      (xs : List ℕ)
      → os ≡ xs
      → (if is_nil xs
          then (h.refs pr).nfree - 1 == 0
          else ltb 0 ((h.refs pr).nfree - 1) && starts_below page_size xs)
        ≡ true
  unfolding occurrences
  rest_checks [] e =
      ground (arith, (v.pages pr on).count, ap (length {A = ℕ}) (list ∙ ap (λ ys. o ∷ ys) e))
  rest_checks (x ∷ xs) e =
      let few : (h.refs pr).nfree ≡ suc (suc (length xs)) =
        (v.pages pr on).count ∙ ap (length {A = ℕ}) (list ∙ ap (λ ys. o ∷ ys) e) in
      let below : x < page_size = free_below x (rw (list, e) (ground arith)) in
      ground (arith, few, below)

  pub take_block-rest : take_block pr (o ∷ os) h ≡ ok ((h.refs pr).pageaddr + o, rest_heap)
  unfolding take_block spinlock_release
  take_block-rest =
      let first : ltb o page_size ≡ true = ground (arith, free_below o (rw list (first_on))) in
      rw (first, rest_checks os refl, held) refl

  same_ref : rest_heap.refs pr ≡ rest_page
  same_ref = ground arith

  rest-IsHeap : IsHeap rest_heap
  rest-IsHeap =
      lock-IsHeap unheld (set_ref pr rest_page h)
        (set_ref-IsHeap pr rest_page h v rest-IsPage refl refl)

  other :
      (x : ℕ)
      → x ≢ o
      → occurrences x (rest_heap.refs pr).freelist ≡ occurrences x (h.refs pr).freelist
  unfolding occurrences
  other x ne = rw (same_ref, list) (ground (arith, ne))

  rest-Gives :
      (k : ℕ)
      → k < capacity (h.refs pr).blocktype
      → o ≡ k * sizes (h.refs pr).blocktype
      → Gives (h.refs pr).blocktype pr k h ((h.refs pr).pageaddr + o, rest_heap)
  unfolding occurrences
  rest-Gives k lt e =
      let once_here : occurrences o os ≡ 0 = ground (arith, (v.pages pr on).once o, list) in
      let was : occurrences o (h.refs pr).freelist ≡ 1 = ground (arith, once_here, list) in
      record {
        kind = rw same_ref refl;
        address = rw (same_ref, e) refl;
        within = rw same_ref lt;
        listed = on;
        taken = rw (same_ref, ← e) once_here;
        page = inl (
          on,
          rw (same_ref, ← e) was,
          λ x ne.
              other x
                (λ q. ne (q ∙ e ∙ ap (λ (p : PageRef). k * sizes p.blocktype) (sym same_ref))),
        );
        others = λ q ne. (ground (arith, ne), refl);
        heap = rest-IsHeap;
        free = refl;
      }

  pub take_block-Gives :
      Returns (take_block pr (o ∷ os) h) (λ r. (k : ℕ) × Gives (h.refs pr).blocktype pr k h r)
  take_block-Gives =
      let (k, lt, e) = (v.pages pr on).within o (rw list first_on) in
      subst (λ m. Returns m (λ r. (j : ℕ) × Gives (h.refs pr).blocktype pr j h r))
        (sym take_block-rest) (k, rest-Gives k lt e)

-- A page on the lists with a count above 0 has a block to take.
pub take_listed :
    (pr : ℕ) (h : Kheap)
    → IsHeap h
    → 0 < occurrences pr h.allbase
    → 0 < (h.refs pr).nfree
    → h.kmalloc_spinlock ≡ held_here
    → Returns
        (take_block pr (h.refs pr).freelist h)
        (λ r. (k : ℕ) × Gives (h.refs pr).blocktype pr k h r)
take_listed pr h v on some_free held = blocks (h.refs pr).freelist refl
  where
    blocks :
        (os : List ℕ)
        → (h.refs pr).freelist ≡ os
        → Returns (take_block pr os h) (λ r. (k : ℕ) × Gives (h.refs pr).blocktype pr k h r)
    blocks [] e = absurd (omega (arith, (v.pages pr on).count, ap (length {A = ℕ}) e))
    blocks (o ∷ os) e = take_block-Gives pr o os h v on e held

-- What the search for a page finds.
abbrev pub Finds : ℕ → Kheap → Option ℕ → Type 0
Finds b h none = Unit {0}
Finds b h (some pr) =
    (0 < occurrences pr h.allbase) × ((h.refs pr).blocktype ≡ b) × (0 < (h.refs pr).nfree)

pub find_page-Finds :
    (prs : List ℕ) (b : ℕ) (h : Kheap)
    → ((pr : ℕ)
        → 0 < occurrences pr prs
        → (0 < occurrences pr h.allbase) × ((h.refs pr).blocktype ≡ b))
    → Returns (find_page prs b h) (Finds b h)
unfolding find_page occurrences
find_page-Finds [] b h listed = tt
find_page-Finds (pr ∷ prs) b h listed =
    let (on, kind) = listed pr (ground arith) in
    let t : ((h.refs pr).blocktype == b) ≡ true = ground (arith, kind) in
    rw t (elim (Bool-cases (ltb 0 (h.refs pr).nfree)) [
      | inl some_free ↦ rw some_free (on, kind, ground (arith, some_free))
      | inr full ↦ rw full (find_page-Finds prs b h (λ q o. listed q (omega arith)))
    ])
