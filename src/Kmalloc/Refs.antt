-- ===== src/Kmalloc/Refs.antt =====
-- The references to pages that are in use.
use sdp_project_c.Common.{
  ℕ, zero, suc, ◌+◌, ◌*◌, ◌/◌, ◌%◌, ◌<◌, ◌≡◌, refl, inl, inr, Bool, true, false, not, ◌||◌, Option,
  none, some, arith, leb, if◌then◌else◌, update, Bool-cases, first_index, FirstIn,
  first_index-FirstIn,
}
use sdp_project_c.Kmalloc.{npagerefs_per_page, Kheap, set_root, allocpageref}

abbrev pub in_use : Kheap → ℕ → Bool
in_use h pr = (h.kheaproots (pr / 256)).pagerefs_inuse (pr % 256)

-- Only the roots change, and what was in use stays so.
pub record Keeps (h h' : Kheap) : Type 0 where
  pub refs : h'.refs ≡ h.refs
  pub sizebases : h'.sizebases ≡ h.sizebases
  pub allbase : h'.allbase ≡ h.allbase
  pub lock : h'.kmalloc_spinlock ≡ h.kmalloc_spinlock
  pub given_back : h'.given_back ≡ h.given_back
  pub used : (pr : ℕ) → in_use h pr ≡ true → in_use h' pr ≡ true

-- The reference that is handed out was not in use and is.
abbrev pub Fresh : Kheap → Kheap → Option ℕ → Type 0
Fresh h h' none = Unit {0}
Fresh h h' (some pr) = (pr < 4096) × (in_use h pr ≡ false) × (in_use h' pr ≡ true)

Keeps-refl : (h : Kheap) → Keeps h h
Keeps-refl h = record {
  refs = refl;
  sizebases = refl;
  allbase = refl;
  lock = refl;
  given_back = refl;
  used = λ pr e. e;
}

-- Reference `j` of root `r` is taken.
abbrev taken : ℕ → ℕ → Bool → Kheap → Kheap
taken r j page h =
    set_root r
      (record {
        page = page;
        pagerefs_inuse = update (h.kheaproots r).pagerefs_inuse j true;
        numinuse = (h.kheaproots r).numinuse + 1;
      })
      h

taken-Keeps : (r j : ℕ) (page : Bool) (h : Kheap) → Keeps h (taken r j page h)
taken-Keeps r j page h = record {
  refs = refl;
  sizebases = refl;
  allbase = refl;
  lock = refl;
  given_back = refl;
  used = λ pr e. ground (arith, e);
}

taken-Fresh :
    (r j : ℕ) (page : Bool) (h : Kheap)
    → r < 16
    → j < 256
    → (h.kheaproots r).pagerefs_inuse j ≡ false
    → Fresh h (taken r j page h) (some (r * 256 + j))
taken-Fresh r j page h lr lj free =
    let q : (r * 256 + j) / 256 ≡ r = omega arith in
    let s : (r * 256 + j) % 256 ≡ j = omega arith in
    (omega arith, ground (arith, q, s, free), ground (arith, q, s))

-- What `allocpageref` gives.
abbrev pub Reserves : Kheap → Option ℕ × Kheap → Type 0
Reserves h r = Keeps h r.1 × Fresh h r.1 r.0

module _ (r : ℕ) (page : Bool) (h : Kheap) (lr : r < 16) (rest : Option ℕ × Kheap)
    (found : Reserves h rest) where
  handed :
      (j : ℕ) (page' : Bool)
      → j < 256
      → (h.kheaproots r).pagerefs_inuse j ≡ false
      → Reserves h (if page' then some (r * npagerefs_per_page + j) else none, taken r j page' h)
  handed j true lj free = (taken-Keeps r j true h, taken-Fresh r j true h lr lj free)
  handed j false lj free = (taken-Keeps r j false h, tt)

  chosen :
      (o : Option ℕ)
      → FirstIn 0 256 (λ j. not ((h.kheaproots r).pagerefs_inuse j)) o
      → Reserves h (elim o [
        | none ↦ rest
        | some j ↦ (
          if (h.kheaproots r).page || page then some (r * npagerefs_per_page + j) else none,
          taken r j ((h.kheaproots r).page || page) h,
        )
      ])
  chosen none none_free = found
  chosen (some j) (_, lj, free, _) =
      handed j ((h.kheaproots r).page || page) lj (ground (arith, free))

pub allocpageref-Fresh :
    (left r : ℕ) (page : Bool) (h : Kheap) → r + left ≡ 16 → Reserves h (allocpageref left r page h)
unfolding allocpageref
allocpageref-Fresh zero r page h e = (Keeps-refl h, tt)
allocpageref-Fresh (suc left) r page h e =
    let rest = allocpageref-Fresh left (r + 1) page h (omega arith) in
    elim (Bool-cases (leb npagerefs_per_page (h.kheaproots r).numinuse)) [
      | inl full ↦ rw full rest
      | inr some_free ↦ rw some_free (
          chosen r page h (omega arith) (allocpageref left (r + 1) page h) rest
            (first_index 256 (λ j. not ((h.kheaproots r).pagerefs_inuse j)))
            (first_index-FirstIn 256 (λ j. not ((h.kheaproots r).pagerefs_inuse j))))
    ]
