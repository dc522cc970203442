-- ===== src/Kmalloc/Return.antt =====
-- A block put back on the free list of its page.
use sdp_project_c.Common.{
  ℕ, zero, suc, ◌+◌, ◌*◌, ◌≤◌, ◌<◌, ◌≡◌, refl, sym, ◌∙◌, ap, ◌≢◌, true, false, ◌&&◌, ok, arith, leb,
  ltb, u32, List, [], ◌∷◌, length, occurrences, without, occurrences-without, length-without,
  ℕ_discrete, page_size, some, ◌⊎◌,
}
use sdp_project_c.Kmalloc.{nsizes, sizes, PageRef, Kheap, page_of, starts_with}
use sdp_project_c.Kmalloc.Pages.{capacity, IsPage, IsHeap, sizes_pos, block_within}

-- Different multiples of `size` below `n * size` are at most `n`.
multiples_bound :
    (n size : ℕ) (xs : List ℕ)
    → 0 < size
    → ((o : ℕ) → occurrences o xs ≤ 1)
    → ((o : ℕ) → 0 < occurrences o xs → (k : ℕ) × (k < n) × (o ≡ k * size))
    → length xs ≤ n
unfolding occurrences
multiples_bound zero size [] pos once within = omega arith
multiples_bound zero size (x ∷ xs) pos once within =
    let (k, lt, _) = within x (ground arith) in absurd (omega (arith, lt))
multiples_bound (suc n) size xs pos once within = omega (
  arith,
  length-without (n * size) xs,
  multiples_bound n size (without (n * size) xs) pos once' within',
)
  where
    once' : (o : ℕ) → occurrences o (without (n * size) xs) ≤ 1
    once' o = omega (arith, occurrences-without o (n * size) xs, once o)

    within' :
        (o : ℕ) → 0 < occurrences o (without (n * size) xs) → (k : ℕ) × (k < n) × (o ≡ k * size)
    within' o on =
        let (k, lt, e) = within o (omega (arith, occurrences-without o (n * size) xs)) in
        elim (ℕ_discrete k n) [
          | yes top ↦
              let same : n * size ≡ o = ap (λ j. j * size) (sym top) ∙ sym e in
              absurd (ground (arith, occurrences-without o (n * size) xs, once o, same, on))
          | no below ↦ (k, omega arith, e)
        ]

-- Block `k` of a page is free again.
abbrev pub returned : PageRef → ℕ → PageRef
returned p k = record p { freelist = k * sizes p.blocktype ∷ p.freelist; nfree = p.nfree + 1 }

-- Block `k` of a page, which is not on its free list.
module _ (p : PageRef) (k : ℕ) (page : IsPage p) (lt : k < capacity p.blocktype)
    (taken : occurrences (k * sizes p.blocktype) p.freelist ≡ 0) where
  pub returned-IsPage : IsPage (returned p k)
  unfolding occurrences
  returned-IsPage = record {
    kind = page.kind;
    aligned = page.aligned;
    mapped = page.mapped;
    count = omega (arith, page.count);
    within = λ o on. elim (ℕ_discrete (k * sizes p.blocktype) o) [
      | yes e ↦ (k, lt, sym e)
      | no ne ↦ page.within o (ground (arith, on, ne))
    ];
    once = λ o. ground (arith, page.once o, taken);
  }

  pub returned_fits : p.nfree + 1 ≤ capacity p.blocktype
  returned_fits =
      let q = returned-IsPage in
      omega (
        arith,
        q.count,
        multiples_bound (capacity p.blocktype) (sizes p.blocktype) (returned p k).freelist
            (sizes_pos p.blocktype page.kind).0 q.once q.within,
      )

  pub offset_within : k * sizes p.blocktype < page_size
  offset_within =
      omega (arith, block_within p.blocktype k page.kind lt, (sizes_pos p.blocktype page.kind).0)

  pub not_head : starts_with (k * sizes p.blocktype) p.freelist ≡ false
  unfolding occurrences
  not_head = head p.freelist taken
    where
      head :
          (os : List ℕ)
          → occurrences (k * sizes p.blocktype) os ≡ 0
          → starts_with (k * sizes p.blocktype) os ≡ false
      head [] e = refl
      head (o ∷ os) e = ground (arith, e)

-- The search for the page of an address finds the page on which it lies.
pub page_of_lem :
    (prs : List ℕ) (pr o : ℕ) (h : Kheap)
    → IsHeap h
    → ((q : ℕ) → 0 < occurrences q prs → 0 < occurrences q h.allbase)
    → 0 < occurrences pr prs
    → o < page_size
    → page_of prs ((h.refs pr).pageaddr + o) h ≡ ok (some pr)
unfolding page_of occurrences
page_of_lem [] pr o h v listed on lt = absurd (omega (arith, on))
page_of_lem (q ∷ prs) pr o h v listed on lt =
    let q_on = listed q (ground arith) in
    let p = v.pages q q_on in
    let kind : ltb (h.refs q).blocktype nsizes ≡ true = ground (arith, p.kind) in
    let small : u32 ((h.refs q).pageaddr + page_size) ≡ (h.refs q).pageaddr + page_size =
      omega (arith, p.mapped) in
    rw kind (elim (ℕ_discrete q pr) [
      | yes e ↦
          let here : (leb (h.refs q).pageaddr ((h.refs pr).pageaddr + o)
                && ltb ((h.refs pr).pageaddr + o) (u32 ((h.refs q).pageaddr + page_size)))
              ≡ true =
            ground (arith, small, e, lt) in
          rw here (ap (λ x. ok (some x)) e)
      | no ne ↦
          let pr_on : 0 < occurrences pr h.allbase = listed pr on in
          let differ : (h.refs q).pageaddr ≢ (h.refs pr).pageaddr = v.apart q pr q_on pr_on ne in
          let apart : ((h.refs pr).pageaddr + o < (h.refs q).pageaddr)
              ⊎ ((h.refs q).pageaddr + page_size ≤ (h.refs pr).pageaddr + o) =
            omega (arith, p.aligned, (v.pages pr pr_on).aligned, differ, lt) in
          let away : (leb (h.refs q).pageaddr ((h.refs pr).pageaddr + o)
                && ltb ((h.refs pr).pageaddr + o) (u32 ((h.refs q).pageaddr + page_size)))
              ≡ false =
            ground (arith, small, apart) in
          rw away (
            page_of_lem prs pr o h v (λ x on'. listed x (omega (arith, on')))
              (ground (arith, on, ne)) lt)
    ])
