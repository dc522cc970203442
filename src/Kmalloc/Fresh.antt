-- ===== src/Kmalloc/Fresh.antt =====
-- A block of a new page.
use sdp_project_c.Common.{
  ℕ, ◌+◌, ◌%◌, ◌≤◌, sym, ◌<◌, ◌≡◌, ◌∙◌, subst, ap, ◌≢◌, ◌⊎◌, inl, inr, true, some, Returns,
  Returns-map, arith, update, List, ◌∷◌, occurrences, ℕ_discrete, page_size,
}
use sdp_project_c.Spinlock.{held_here}
use sdp_project_c.Kmalloc.{nsizes, sizes, PageRef, Kheap, take_block, fresh_list, add_page}
use sdp_project_c.Kmalloc.Pages.{capacity, IsPage, IsHeap, sizes_pos, fresh-IsPage}
use sdp_project_c.Kmalloc.Take.{Gives, take_listed}
use sdp_project_c.Kmalloc.Refs.{in_use, Keeps, Fresh}

-- The answer of `alloc_kpages(1)`: a page that is not of the heap, or NULL.
abbrev pub IsNew : ℕ → Kheap → Type 0
IsNew prpage h =
    (prpage % page_size ≡ 0)
    × (prpage + page_size < 0x1_0000_0000)
    × ((pr : ℕ) → 0 < occurrences pr h.allbase → (h.refs pr).pageaddr ≢ prpage)

-- A new page under a reference that was not in use.
module _ (prpage b pr : ℕ) (h : Kheap) (v : IsHeap h) (new : IsNew prpage h) (kind : b < nsizes)
    (off : occurrences pr h.allbase ≡ 0) (used : in_use h pr ≡ true) where
  add_page-IsHeap : IsHeap (add_page prpage b pr h)
  unfolding occurrences
  add_page-IsHeap = record {
    pages = λ q on. elim (ℕ_discrete pr q) [
      | yes e ↦ subst IsPage (ground (arith, e)) (fresh-IsPage prpage b kind new.0 new.1)
      | no ne ↦ subst IsPage (ground (arith, ne)) (v.pages q (ground (arith, on, ne)))
    ];
    sized = sized;
    sized_once = sized_once;
    used = λ q on. ground (arith, v.used q, used, on);
    apart = apart;
    once = λ q. ground (arith, v.once q, off);
  }
    where
      old :
          (c q : ℕ)
          → 0 < occurrences q (update h.sizebases b (pr ∷ h.sizebases b) c)
          → (pr ≢ q) ⊎ (b ≢ c)
          → 0 < occurrences q (h.sizebases c)
      old c q on differ = ground (arith, on, differ)

      sized_once : (c q : ℕ) → occurrences q (update h.sizebases b (pr ∷ h.sizebases b) c) ≤ 1
      sized_once c q = elim (ℕ_discrete (occurrences pr (h.sizebases b)) 0) [
        | yes z ↦ ground (arith, v.sized_once c q, v.sized_once b q, z)
        | no on ↦
            let (listed, _) = v.sized b pr (omega (arith, on)) in
            absurd (omega (arith, listed, off))
      ]

      sized :
          (c q : ℕ)
          → 0 < occurrences q (update h.sizebases b (pr ∷ h.sizebases b) c)
          → (0 < occurrences q (pr ∷ h.allbase)) × (((add_page prpage b pr h).refs q).blocktype ≡ c)
      sized c q on = elim (ℕ_discrete pr q) [
        | yes e ↦ elim (ℕ_discrete b c) [
          | yes same ↦ (ground (arith, e), ground (arith, e, same))
          | no differ ↦
              let (listed, _) = v.sized c q (old c q on (inr differ)) in
              absurd (ground (arith, listed, off, e))
        ]
        | no ne ↦
            let (listed, type) = v.sized c q (old c q on (inl ne)) in
            (ground (arith, listed), ground (arith, type, ne))
      ]

      apart :
          (q q' : ℕ)
          → 0 < occurrences q (pr ∷ h.allbase)
          → 0 < occurrences q' (pr ∷ h.allbase)
          → q ≢ q'
          → ((add_page prpage b pr h).refs q).pageaddr ≢ ((add_page prpage b pr h).refs q').pageaddr
      apart q q' on on' ne = elim (ℕ_discrete pr q) [
        | yes e ↦ λ same. new.2 q' (ground (arith, on', e, ne)) (ground (arith, same, e, ne))
        | no other ↦ elim (ℕ_discrete pr q') [
          | yes e' ↦ λ same. new.2 q (ground (arith, on, other)) (ground (arith, same, e', other))
          | no other' ↦ λ same.
              v.apart q q' (ground (arith, on, other)) (ground (arith, on', other')) ne
                (ground (arith, same, other, other'))
        ]
      ]

pub Keeps-IsHeap : (h h' : Kheap) → Keeps h h' → IsHeap h → IsHeap h'
Keeps-IsHeap h h' same v = record {
  pages = λ pr on. rw same.refs (v.pages pr (rw (← same.allbase) on));
  sized_once = λ b pr.
      subst (λ (s : ℕ → List ℕ). occurrences pr (s b) ≤ 1) (sym same.sizebases) (v.sized_once b pr);
  sized = λ b pr on.
      let (listed, type) =
        v.sized b pr (subst (λ (s : ℕ → List ℕ). 0 < occurrences pr (s b)) same.sizebases on) in
      (rw same.allbase listed, rw same.refs type);
  used = λ pr on. same.used pr (v.used pr (rw (← same.allbase) on));
  apart = λ pr pr' on on' ne.
      rw same.refs (v.apart pr pr' (rw (← same.allbase) on) (rw (← same.allbase) on') ne);
  once = λ pr. rw same.allbase (v.once pr);
}

-- A block of a new page.
module _ (prpage b pr : ℕ) (h h' : Kheap) (v : IsHeap h) (new : IsNew prpage h) (kind : b < nsizes)
    (same : Keeps h h') (fresh : Fresh h h' (some pr))
    (held : h'.kmalloc_spinlock ≡ held_here) where
  unlisted : occurrences pr h.allbase ≡ 0
  unlisted = elim (ℕ_discrete (occurrences pr h.allbase) 0) [
    | yes z ↦ z
    | no on ↦
        let used : in_use h pr ≡ true = v.used pr (omega arith) in
        absurd (ground (arith, used, fresh.1))
  ]

  added-IsHeap : IsHeap (add_page prpage b pr h')
  added-IsHeap =
      add_page-IsHeap prpage b pr h' (Keeps-IsHeap h h' same v)
        (new.0, new.1, λ q on. rw same.refs (new.2 q (rw (← same.allbase) on))) kind
        (rw same.allbase unlisted) fresh.2

  new_ref : (add_page prpage b pr h').refs pr ≡ record {
    pageaddr = prpage;
    blocktype = b;
    freelist = fresh_list (sizes b) (capacity b);
    nfree = capacity b;
  }
  new_ref = ground arith

  as_given :
      (r : ℕ × Kheap) (k : ℕ)
      → Gives ((add_page prpage b pr h').refs pr).blocktype pr k (add_page prpage b pr h') r
      → Gives b pr k h r
  unfolding occurrences
  as_given r k g = record {
    kind = g.kind ∙ ap (λ (p : PageRef). p.blocktype) new_ref;
    address = g.address;
    within = g.within;
    listed = g.listed;
    taken = g.taken;
    page = inr unlisted;
    others = λ q ne.
        let (refs, list) = g.others q ne in
        (
          refs ∙ ground (arith, ne) ∙ ap (λ (f : ℕ → PageRef). f q) same.refs,
          list ∙ ground (arith, ne) ∙ ap (occurrences q) same.allbase,
        );
    heap = g.heap;
    free = g.free;
  }

  on_list : 0 < occurrences pr (pr ∷ h'.allbase)
  unfolding occurrences
  on_list = ground arith

  pub new_page-Gives :
      Returns
        (take_block pr (fresh_list (sizes b) (capacity b)) (add_page prpage b pr h'))
        (λ r. (k : ℕ) × Gives b pr k h r)
  new_page-Gives =
      Returns-map _ (λ r. (k : ℕ) × Gives b pr k h r)
        (take_block pr (fresh_list (sizes b) (capacity b)) (add_page prpage b pr h'))
        (λ r (k, g). (k, as_given r k g))
        (subst
          (λ os. Returns (take_block pr os (add_page prpage b pr h')) (λ r.
            (k : ℕ) × Gives ((add_page prpage b pr h').refs pr).blocktype pr k
              (add_page prpage b pr h') r))
          (ap (λ (p : PageRef). p.freelist) new_ref)
          (take_listed pr (add_page prpage b pr h') added-IsHeap on_list
            (rw new_ref (sizes_pos b kind).2) held))
