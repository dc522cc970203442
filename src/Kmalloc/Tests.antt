-- ===== src/Kmalloc/Tests.antt =====
-- Tests of the heap: an empty one, and one with a page.
use sdp_project_c.Common.{
  ℕ, ◌≤◌, ◌<◌, ◌≡◌, refl, sym, ◌∙◌, ◌⊎◌, true, false, ok, Returns, arith, [], ◌∷◌, occurrences,
  without, ◌==◌, if◌then◌else◌, update,
}
use sdp_project_c.Spinlock.{unheld, spinlock_acquire, spinlock_release}
use sdp_project_c.Kmalloc.{
  sizes, PageRef, Kheap, subpage_kmalloc, subpage_kfree, freepageref, remove_lists,
}
use sdp_project_c.Kmalloc.Pages.{IsPage, IsHeap}
use sdp_project_c.Kmalloc.Take.{Gives}
use sdp_project_c.Kmalloc.Free.{Frees, subpage_kfree-Frees}
use sdp_project_c.Kmalloc.Gone.{IsCounted}
use sdp_project_c.Kmalloc.Alloc.{Fails, subpage_kmalloc-Gives}

abbrev heap : Kheap
heap = record {
  kheaproots = λ r. record { page = false; pagerefs_inuse = λ j. false; numinuse = 0 };
  refs = λ pr. record { pageaddr = 0; blocktype = 0; freelist = []; nfree = 0 };
  sizebases = λ b. [];
  allbase = [];
  kmalloc_spinlock = unheld;
  given_back = [];
}

heap-IsHeap : IsHeap heap
unfolding occurrences
heap-IsHeap = record {
  pages = λ pr on. absurd (omega (arith, on));
  sized = λ b pr on. absurd (omega (arith, on));
  sized_once = λ b pr. omega arith;
  used = λ pr on. absurd (omega (arith, on));
  apart = λ pr pr' on on' ne. absurd (omega (arith, on));
  once = λ pr. omega arith;
}

subpage_kmalloc-Gives_example : Returns (subpage_kmalloc 20 0x8000_1000 true heap) (λ r.
    (b : ℕ) × (20 ≤ sizes b)
    × ((j : ℕ) → j < b → sizes j < 20)
    × (Fails heap r ⊎ ((pr k : ℕ) × Gives b pr k heap r)))
unfolding occurrences
subpage_kmalloc-Gives_example =
    subpage_kmalloc-Gives 20 0x8000_1000 true heap heap-IsHeap refl (omega arith)
      (λ some_page. (refl, omega arith, λ pr on. absurd (omega (arith, on))))

-- A heap of one page at reference 5, of two blocks of 2048 bytes, of which the second is in use.
abbrev half_page : PageRef
half_page = record { pageaddr = 0x8000_1000; blocktype = 7; freelist = 0 ∷ []; nfree = 1 }

abbrev one_page : Kheap
one_page = record heap {
  kheaproots = λ r.
      if r == 0
      then record { page = true; pagerefs_inuse = λ j. j == 5; numinuse = 1 }
      else record { page = false; pagerefs_inuse = λ j. false; numinuse = 0 };
  refs = λ pr. half_page;
  sizebases = λ b. if b == 7 then (5 ∷ []) else [];
  allbase = (5 ∷ []);
}

half_page-IsPage : IsPage half_page
unfolding occurrences sizes
half_page-IsPage = record {
  kind = omega arith;
  aligned = refl;
  mapped = omega arith;
  count = refl;
  within = λ o on. (0, omega arith, ground (arith, on));
  once = λ o. ground arith;
}

only : (pr : ℕ) → 0 < occurrences pr (5 ∷ []) → pr ≡ 5
unfolding occurrences
only pr on = ground (arith, on)

one_page-IsHeap : IsHeap one_page
unfolding occurrences
one_page-IsHeap = record {
  pages = λ pr on. half_page-IsPage;
  sized = λ b pr on. (ground (arith, on), ground (arith, on));
  sized_once = λ b pr. ground arith;
  used = λ pr on. let e = only pr on in ground (arith, e);
  apart = λ pr pr' on on' ne. absurd (ne (only pr on ∙ sym (only pr' on')));
  once = λ pr. ground arith;
}

one_page-IsCounted : IsCounted one_page
one_page-IsCounted = record {
  none_lost = λ r e. ground (arith, e);
  has_page = λ pr on. let e = only pr on in ground (arith, e);
  counted = λ pr on. let e = only pr on in ground (arith, e);
  bounded = λ pr on. omega (arith, only pr on);
}

subpage_kfree-Frees_example : Returns (subpage_kfree 0x8000_1800 one_page) (Frees 5 1 one_page)
unfolding occurrences sizes
subpage_kfree-Frees_example =
    subpage_kfree-Frees 5 1 one_page one_page-IsHeap one_page-IsCounted refl (omega arith)
      (omega arith) refl

-- That page goes.
one_page_goes :
    subpage_kfree 0x8000_1800 one_page
    ≡ ok (
      true,
      record one_page {
        kheaproots =
            update one_page.kheaproots 0
              (record { page = true; pagerefs_inuse = update (λ j. j == 5) 5 false; numinuse = 0 });
        refs = update one_page.refs 5 (record half_page { freelist = 2048 ∷ 0 ∷ []; nfree = 2 });
        sizebases = update one_page.sizebases 7 [];
        allbase = [];
        given_back = 0x8000_1000 ∷ [];
      },
    )
unfolding subpage_kfree spinlock_acquire spinlock_release sizes freepageref remove_lists without
one_page_goes = refl
