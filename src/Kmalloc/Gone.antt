-- ===== src/Kmalloc/Gone.antt =====
-- A page that leaves the heap, and its reference.
use sdp_project_c.Common.{
  ℕ, zero, suc, ◌+◌, ◌-◌, ◌/◌, ◌%◌, ◌≤◌, ◌<◌, ◌≡◌, sym, ◌∙◌, ap, ◌≢◌, true, false, ◌&&◌, ◌||◌, ok,
  arith, ltb, ◌==◌, update, List, occurrences, without, occurrences-without, ℕ_discrete,
}
use sdp_project_c.Spinlock.{unheld}
use sdp_project_c.Kmalloc.{Kheap, set_root, freepageref}
use sdp_project_c.Kmalloc.Pages.{IsHeap}

-- A root without a page has no references in use, and the root of a listed page counts it.
pub record IsCounted (h : Kheap) : Type 0 where
  pub none_lost : (r : ℕ) → (h.kheaproots r).page ≡ false → (h.kheaproots r).numinuse ≡ 0
  pub has_page : (pr : ℕ) → 0 < occurrences pr h.allbase → (h.kheaproots (pr / 256)).page ≡ true
  pub counted : (pr : ℕ) → 0 < occurrences pr h.allbase → 0 < (h.kheaproots (pr / 256)).numinuse
  pub bounded : (pr : ℕ) → 0 < occurrences pr h.allbase → pr < 4096

-- The reference is not in use any more.
abbrev pub released : ℕ → Kheap → Kheap
released pr h =
    set_root (pr / 256)
      (record (h.kheaproots (pr / 256)) {
        pagerefs_inuse = update (h.kheaproots (pr / 256)).pagerefs_inuse (pr % 256) false;
        numinuse = (h.kheaproots (pr / 256)).numinuse - 1;
      })
      h

pub released_bit :
    (pr : ℕ) (h : Kheap) → ((released pr h).kheaproots (pr / 256)).pagerefs_inuse (pr % 256) ≡ false
released_bit pr h = ground arith

pub freepageref_lem :
    (left r pr : ℕ) (h : Kheap)
    → ((q : ℕ) → (h.kheaproots q).page ≡ false → (h.kheaproots q).numinuse ≡ 0)
    → (h.kheaproots (pr / 256)).page ≡ true
    → (h.kheaproots (pr / 256)).pagerefs_inuse (pr % 256) ≡ true
    → 0 < (h.kheaproots (pr / 256)).numinuse
    → r ≤ pr / 256
    → pr / 256 < r + left
    → freepageref left r pr h ≡ ok (released pr h)
unfolding freepageref
freepageref_lem zero r pr h empty page used count le lt = absurd (omega (arith, le, lt))
freepageref_lem (suc left) r pr h empty page used count le lt = elim (ℕ_discrete r (pr / 256)) [
  | yes e ↦
      let here : ((h.kheaproots r).page && r == pr / 256) ≡ true = ground (arith, e, page) in
      let bit : (h.kheaproots r).pagerefs_inuse (pr % 256) ≡ true =
        ap (λ q. (h.kheaproots q).pagerefs_inuse (pr % 256)) e ∙ used in
      let some_use : ltb 0 (h.kheaproots r).numinuse ≡ true = ground (arith, e, count) in
      rw (here, bit, some_use, freepageref)
        (ap
          (λ q. ok (
            set_root q
              (record (h.kheaproots q) {
                pagerefs_inuse = update (h.kheaproots q).pagerefs_inuse (pr % 256) false;
                numinuse = (h.kheaproots q).numinuse - 1;
              })
              h))
          e)
  | no ne ↦
      let away : ((h.kheaproots r).page && r == pr / 256) ≡ false = ground (arith, ne) in
      let fine : ((h.kheaproots r).page || (h.kheaproots r).numinuse == 0) ≡ true =
        ground (arith, empty r) in
      rw (away, fine, freepageref)
        (freepageref_lem left (r + 1) pr h empty page used count (omega (arith, le, ne))
          (omega (arith, lt)))
]

-- The page whose last block comes back leaves the heap.
module _ (pr b : ℕ) (given : List ℕ) (h : Kheap) (v : IsHeap h) (on : 0 < occurrences pr h.allbase)
    (kind : (h.refs pr).blocktype ≡ b) where
  abbrev pub left_out : Kheap
  left_out =
      record (released pr (record h {
        sizebases = update h.sizebases b (without pr (h.sizebases b));
        allbase = without pr h.allbase;
      })) { kmalloc_spinlock = unheld; given_back = given }

  left :
      (q : ℕ) → 0 < occurrences q (without pr h.allbase) → (pr ≢ q) × (0 < occurrences q h.allbase)
  left q on' = ground (arith, on', occurrences-without q pr h.allbase, v.once q)

  pub off : occurrences pr (without pr h.allbase) ≡ 0
  off = ground (arith, occurrences-without pr pr h.allbase, v.once pr)

  pub stays : (q : ℕ) → pr ≢ q → occurrences q (without pr h.allbase) ≡ occurrences q h.allbase
  stays q ne = ground (arith, occurrences-without q pr h.allbase, ne)

  pub left_out-IsHeap : IsHeap left_out
  left_out-IsHeap = record {
    pages = λ q on'. v.pages q (left q on').1;
    sized = sized;
    sized_once = λ c q.
        ground
          (arith, v.sized_once c q, occurrences-without q pr (h.sizebases b), v.sized_once b q);
    used = λ q on'. used q (left q on').0 (v.used q (left q on').1);
    apart = λ q q' on' on''. v.apart q q' (left q on').1 (left q' on'').1;
    once = λ q. omega (arith, occurrences-without q pr h.allbase, v.once q);
  }
    where
      was : (c q : ℕ) → 0 < occurrences q (left_out.sizebases c) → 0 < occurrences q (h.sizebases c)
      was c q on' = ground (arith, on', occurrences-without q pr (h.sizebases b))

      gone : (c : ℕ) → b ≡ c → occurrences pr (left_out.sizebases c) ≡ 0
      gone c e = ground (arith, e, occurrences-without pr pr (h.sizebases b), v.sized_once b pr)

      sized :
          (c q : ℕ)
          → 0 < occurrences q (left_out.sizebases c)
          → (0 < occurrences q left_out.allbase) × ((h.refs q).blocktype ≡ c)
      sized c q on' =
          let (listed, type) = v.sized c q (was c q on') in
          elim (ℕ_discrete pr q) [
            | yes e ↦ absurd (
                ground (arith, on', e, gone c (sym kind ∙ ap (λ x. (h.refs x).blocktype) e ∙ type)))
            | no ne ↦ (rw (stays q ne) listed, type)
          ]

      used :
          (q : ℕ)
          → pr ≢ q
          → (h.kheaproots (q / 256)).pagerefs_inuse (q % 256) ≡ true
          → (left_out.kheaproots (q / 256)).pagerefs_inuse (q % 256) ≡ true
      used q ne e = elim (ℕ_discrete (pr / 256) (q / 256)) [
        | yes same ↦
            let bit : pr % 256 ≢ q % 256 = omega (arith, same, ne) in ground (arith, same, bit, e)
        | no differ ↦ ground (arith, differ, e)
      ]
