-- ===== src/Elf/Segments.antt =====
-- The regions that the first loop of `load_elf` defines.
use sdp_project_c.Common.{
  ℕ, zero, suc, ◌+◌, ◌≤◌, ◌<◌, ◌≡◌, refl, sym, ◌∙◌, subst, ap, ◌≢◌, ◌⊎◌, inl, inr, true, false,
  Result, ok, Returns, Returns-bind, Returns-map, arith, ◌==◌, if◌then◌else◌, List, [], ◌∷◌, ◌++◌,
  append_assoc, append-nil, length, length-append, page_size, kseg0, ℕ_discrete,
}
use sdp_project_c.Machine.{AddrSpace}
use sdp_project_c.AddrSpace.{Cpu, as_define_region, enosys}
use sdp_project_c.AddrSpace.Regions.{
  Covers, DefinesFirst, DefinesSecond, MaySleep, as_define_region-Covers,
}
use sdp_project_c.Elf.{
  Ehdr, Phdr, Image, pt_null, pt_load, pt_phdr, pt_mips_reginfo, phdr_offset, complete, by_type,
  define_segment, each_phdr,
}

-- Program header `i`.
abbrev pub phdr : Image → Ehdr → ℕ → Phdr
phdr image eh i = (image.read_phdr (phdr_offset eh i)).2

-- The segments to load, from header `i` on, of which `left` are left.
unfoldable pub loadable : Image → Ehdr → ℕ → ℕ → List Phdr
loadable image eh zero i = []
loadable image eh (suc left) i =
    let rest = loadable image eh left (i + 1) in
    if (phdr image eh i).p_type == pt_load then phdr image eh i ∷ rest else rest

-- A segment of user memory that is not on page 0.
abbrev pub IsUser : Phdr → Type 0
IsUser ph = (page_size ≤ ph.p_vaddr) × (ph.p_vaddr + ph.p_memsz ≤ kseg0)

-- Header `i` is read, and is of a type that is left out or that is loaded into user memory.
pub record IsReadable (image : Image) (eh : Ehdr) (i : ℕ) : Type 0 where
  pub read :
      ((image.read_phdr (phdr_offset eh i)).0 ≡ 0) × ((image.read_phdr (phdr_offset eh i)).1 ≡ 0)
  pub known :
      ((phdr image eh i).p_type ≡ pt_null)
      ⊎ ((phdr image eh i).p_type ≡ pt_phdr)
      ⊎ ((phdr image eh i).p_type ≡ pt_mips_reginfo)
      ⊎ (((phdr image eh i).p_type ≡ pt_load) × IsUser (phdr image eh i))

-- The address space has a region for each of the segments, in their order, and no other.
abbrev pub Laid : List Phdr → AddrSpace → Type 0
Laid [] s = (s.as_vbase1 ≡ 0) × (s.as_vbase2 ≡ 0)
Laid (p ∷ []) s =
    (s.as_vbase1 ≢ 0)
    × (s.as_vbase2 ≡ 0)
    × Covers p.p_vaddr p.p_memsz s.as_vbase1 s.as_npages1
    × (s.fi.code_offset ≡ p.p_offset)
    × (s.fi.code_sz ≡ p.p_memsz)
Laid (p ∷ q ∷ []) s =
    (s.as_vbase1 ≢ 0)
    × (s.as_vbase2 ≢ 0)
    × Covers p.p_vaddr p.p_memsz s.as_vbase1 s.as_npages1
    × Covers q.p_vaddr q.p_memsz s.as_vbase2 s.as_npages2
    × (s.fi.code_offset ≡ p.p_offset)
    × (s.fi.code_sz ≡ p.p_memsz)
    × (s.fi.data_offset ≡ q.p_offset)
    × (s.fi.data_sz ≡ q.p_memsz)
Laid (p ∷ q ∷ r ∷ ps) s = ⊥

-- What comes of the segments `all`: each has its region, or there are more than two.
abbrev pub Outcome : List Phdr → ℕ × AddrSpace → Type 0
Outcome all r = ((r.0 ≡ 0) × Laid all r.1) ⊎ ((2 < length all) × (r.0 ≡ enosys))

-- What `as_define_region` says of one region more.
extend :
    (done : List Phdr) (p : Phdr) (s : AddrSpace) (r : ℕ × AddrSpace)
    → Laid done s
    → ((s.as_vbase1 ≡ 0) × (r.0 ≡ 0) × DefinesFirst p.p_vaddr p.p_memsz p.p_offset s r.1)
      ⊎ ((s.as_vbase1 ≢ 0)
          × (s.as_vbase2 ≡ 0)
          × (r.0 ≡ 0)
          × DefinesSecond p.p_vaddr p.p_memsz p.p_offset s r.1)
      ⊎ ((s.as_vbase1 ≢ 0) × (s.as_vbase2 ≢ 0) × (r.0 ≡ enosys) × (r.1 ≡ s))
    → Outcome (done ++ (p ∷ [])) r
extend [] p s r (a, b) (inl (_, z, (ne, covers, o, n, b2, _, _, _))) =
    inl (z, (ne, b2 ∙ b, covers, o, n))
extend [] p s r (a, b) (inr (inl (ne, _, _, _))) = absurd (ne a)
extend [] p s r (a, b) (inr (inr (ne, _, _, _))) = absurd (ne a)
extend (q ∷ []) p s r (a, b, covers, o, n) (inl (z, _, _)) = absurd (a z)
extend (q ∷ []) p s r (a, b, covers, o, n)
      (inr (inl (_, _, z, (ne, covers', o', n', b1, n1, co, cn)))) =
    inl (
      z,
      (
        λ e. a (sym b1 ∙ e),
        ne,
        subst (λ base. Covers q.p_vaddr q.p_memsz base r.1.as_npages1) (sym b1)
            (subst (λ pages. Covers q.p_vaddr q.p_memsz s.as_vbase1 pages) (sym n1) covers),
        covers',
        co ∙ o,
        cn ∙ n,
        o',
        n',
      ),
    )
extend (q ∷ []) p s r (a, b, covers, o, n) (inr (inr (_, ne, _, _))) = absurd (ne b)
extend (q ∷ q' ∷ []) p s r (a, b, _, _, _, _, _, _) (inl (z, _, _)) = absurd (a z)
extend (q ∷ q' ∷ []) p s r (a, b, _, _, _, _, _, _) (inr (inl (_, z, _, _))) = absurd (b z)
extend (q ∷ q' ∷ []) p s r (a, b, _, _, _, _, _, _) (inr (inr (_, _, e, _))) = inr (omega arith, e)
extend (q ∷ q' ∷ q'' ∷ qs) p s r laid h = elim laid [ ]

module _ (image : Image) (eh : Ehdr) (i : ℕ) where
  loadable_load : (phdr image eh i).p_type ≡ pt_load → loadable image eh 1 i ≡ phdr image eh i ∷ []
  unfolding loadable
  loadable_load load = ground arith

  loadable_skip : (phdr image eh i).p_type ≢ pt_load → loadable image eh 1 i ≡ []
  unfolding loadable
  loadable_skip other = ground arith

  user : IsReadable image eh i → (phdr image eh i).p_type ≡ pt_load → IsUser (phdr image eh i)
  user readable load = elim readable.known [
    | inl z ↦ absurd (omega arith)
    | inr (inl z) ↦ absurd (omega arith)
    | inr (inr (inl z)) ↦ absurd (omega arith)
    | inr (inr (inr (_, h))) ↦ h
  ]

-- The two ways of a header through the `switch`.
pub by_type_load :
    {S : Type 0} (ph : Phdr) (s : S) (m : Result (ℕ × S)) → ph.p_type ≡ pt_load → by_type ph s m ≡ m
by_type_load ph s m load = ground (arith, load)

pub by_type_skip :
    {S : Type 0} (image : Image) (eh : Ehdr) (i : ℕ) (s : S) (m : Result (ℕ × S))
    → IsReadable image eh i
    → (phdr image eh i).p_type ≢ pt_load
    → by_type (phdr image eh i) s m ≡ ok (0, s)
by_type_skip image eh i s m readable other = ground (arith, readable.known, other)

module _ (cpu : Cpu) (sleep : MaySleep cpu) where
  -- One region more.
  region-Laid :
      (done : List Phdr) (p : Phdr) (s : AddrSpace)
      → IsUser p
      → Laid done s
      → Returns (as_define_region cpu s p.p_vaddr p.p_memsz p.p_offset) (Outcome (done ++ (p ∷ [])))
  region-Laid done p s (low, fits) laid =
      Returns-map _ (Outcome (done ++ (p ∷ [])))
        (as_define_region cpu s p.p_vaddr p.p_memsz p.p_offset) (λ r h. extend done p s r laid h)
        (as_define_region-Covers cpu s p.p_vaddr p.p_memsz p.p_offset sleep.0 sleep.1 low fits)

  module _ (image : Image) (eh : Ehdr) where
    -- One header more: it is left out, or it is a segment more.
    define_segment-Outcome :
        (done : List Phdr) (i : ℕ) (s : AddrSpace)
        → IsReadable image eh i
        → Laid done s
        → Returns (define_segment image eh cpu i s) (Outcome (done ++ loadable image eh 1 i))
    unfolding define_segment
    define_segment-Outcome done i s readable laid =
        let whole : (complete (image.read_phdr (phdr_offset eh i)).0
                (image.read_phdr (phdr_offset eh i)).1
              == 0)
            ≡ true =
          ground (arith, readable.read) in
        rw whole (elim (ℕ_discrete (phdr image eh i).p_type pt_load) [
          | yes load ↦
              rw
                (
                  by_type_load (phdr image eh i) s
                      (as_define_region cpu s (phdr image eh i).p_vaddr (phdr image eh i).p_memsz
                        (phdr image eh i).p_offset)
                      load,
                  loadable_load image eh i load,
                )
                (region-Laid done (phdr image eh i) s (user image eh i readable load) laid)
          | no other ↦
              rw
                (
                  by_type_skip image eh i s
                      (as_define_region cpu s (phdr image eh i).p_vaddr (phdr image eh i).p_memsz
                        (phdr image eh i).p_offset)
                      readable other,
                  loadable_skip image eh i other,
                  append-nil done,
                )
                (inl (refl, laid))
        ])

    loadable-suc :
        (left i : ℕ)
        → loadable image eh (suc left) i ≡ loadable image eh 1 i ++ loadable image eh left (i + 1)
    unfolding loadable
    loadable-suc left i = ground arith

    pub each_phdr-Outcome :
        (left i : ℕ) (done : List Phdr) (s : AddrSpace)
        → ((j : ℕ) → j < i + left → IsReadable image eh j)
        → Laid done s
        → Returns
            (each_phdr (define_segment image eh cpu) left i s)
            (Outcome (done ++ loadable image eh left i))
    unfolding each_phdr loadable
    each_phdr-Outcome zero i done s readable laid = rw (append-nil done) (inl (refl, laid))
    each_phdr-Outcome (suc left) i done s readable laid =
        Returns-bind (Outcome (done ++ loadable image eh 1 i))
          (Outcome (done ++ loadable image eh (suc left) i)) (define_segment image eh cpu i s) _
          (define_segment-Outcome done i s (readable i (omega arith)) laid)
          (λ r h.
            further r
              (λ laid'.
                each_phdr-Outcome left (i + 1) (done ++ loadable image eh 1 i) r.1
                  (λ j lt. readable j (omega arith)) laid')
              h)
      where
        further :
            (r : ℕ × AddrSpace)
            → (Laid (done ++ loadable image eh 1 i) r.1
                → Returns
                    (each_phdr (define_segment image eh cpu) left (i + 1) r.1)
                    (Outcome ((done ++ loadable image eh 1 i) ++ loadable image eh left (i + 1))))
            → Outcome (done ++ loadable image eh 1 i) r
            → Returns
                (elim (r.0 == 0) [
                  | true ↦ each_phdr (define_segment image eh cpu) left (i + 1) r.1
                  | false ↦ ok r
                ])
                (Outcome (done ++ loadable image eh (suc left) i))
        further r rest (inl (z, laid')) =
            let t : (r.0 == 0) ≡ true = ground arith in
            rw
              (
                t,
                loadable-suc left i,
                ← append_assoc done (loadable image eh 1 i) (loadable image eh left (i + 1)),
              )
              (rest laid')
        further r rest (inr (many, e)) =
            let t : (r.0 == 0) ≡ false = ground arith in
            rw (t, loadable-suc left i)
              (inr (
                omega (
                  arith,
                  many,
                  length-append {0} (done ++ loadable image eh 1 i)
                      (loadable image eh left (i + 1)),
                  ap (length {A = Phdr})
                      (append_assoc done (loadable image eh 1 i) (loadable image eh left (i + 1))),
                ),
                e,
              ))
