-- ===== src/Elf/Programs.antt =====
-- What `load_elf` and `runprogram` do with a program, and with a file that is none.
use sdp_project_c.Common.{
  ℕ, zero, suc, ◌+◌, ◌≤◌, ◌<◌, ◌≡◌, refl, sym, subst, ap, ◌≢◌, ◌⊎◌, inl, inr, true, false, none,
  some, ok, Returns, Returns-bind, arith, ◌==◌, List, [], ◌∷◌, length, ℕ_discrete,
}
use sdp_project_c.Machine.{Machine, AddrSpace}
use sdp_project_c.AddrSpace.{Cpu, as_prepare_load, as_complete_load, enosys, enoexec}
use sdp_project_c.AddrSpace.Regions.{MaySleep}
use sdp_project_c.Elf.{
  Ehdr, Phdr, Image, pt_load, phdr_offset, complete, is_program, load_segment, fill_segment,
  define_segment, each_phdr, Loading, loading, Loaded, stops, fill_program, load_program, load_elf,
}
use sdp_project_c.Files.{Files}
use sdp_project_c.Elf.Segments.{
  phdr, loadable, IsReadable, Laid, Outcome, by_type_load, by_type_skip, each_phdr-Outcome,
}

-- A program whose headers can be read, and whose segments too: where the regions are those of its segments and the
-- machine has the property `fine`, the read of a segment is complete, and leaves both so.
pub record IsLoadable (image : Image) (eh : Ehdr) (fine : Machine → Type 0) : Type 0 where
  pub header : image.read_ehdr ≡ (0, 0, eh)
  pub program : is_program eh ≡ true
  pub readable : (i : ℕ) → i < eh.e_phnum → IsReadable image eh i
  pub filled :
      (i : ℕ) (s : AddrSpace) (m : Machine)
      → i < eh.e_phnum
      → (phdr image eh i).p_type ≡ pt_load
      → Laid (loadable image eh eh.e_phnum 0) s
      → fine m
      → Returns
          (load_segment image (phdr image eh i) (loading s m))
          (λ r. (r.0 ≡ 0) × Laid (loadable image eh eh.e_phnum 0) r.1.space × fine r.1.machine)

module _ (image : Image) (eh : Ehdr) (fine : Machine → Type 0) (l : IsLoadable image eh fine) where
  abbrev Filled : ℕ × Loading → Type 0
  Filled r = (r.0 ≡ 0) × Laid (loadable image eh eh.e_phnum 0) r.1.space × fine r.1.machine

  fill_one :
      (i : ℕ) (s : AddrSpace) (m : Machine)
      → i < eh.e_phnum
      → Laid (loadable image eh eh.e_phnum 0) s
      → fine m
      → Returns (fill_segment image eh i (loading s m)) Filled
  unfolding fill_segment
  fill_one i s m lt laid good =
      let r = l.readable i lt in
      let whole : (complete (image.read_phdr (phdr_offset eh i)).0
              (image.read_phdr (phdr_offset eh i)).1
            == 0)
          ≡ true =
        ground (arith, r.read) in
      rw whole (elim (ℕ_discrete (phdr image eh i).p_type pt_load) [
        | yes load ↦
            rw
              (by_type_load {S = Loading} (phdr image eh i) (loading s m)
                (load_segment image (phdr image eh i) (loading s m)) load)
              (l.filled i s m lt load laid good)
        | no other ↦
            rw
              (by_type_skip {S = Loading} image eh i (loading s m)
                (load_segment image (phdr image eh i) (loading s m)) r other)
              (refl, laid, good)
      ])

  -- The second loop keeps the regions.
  fill_each :
      (left i : ℕ) (s : AddrSpace) (m : Machine)
      → i + left ≤ eh.e_phnum
      → Laid (loadable image eh eh.e_phnum 0) s
      → fine m
      → Returns (each_phdr (fill_segment image eh) left i (loading s m)) Filled
  unfolding each_phdr
  fill_each zero i s m le laid good = (refl, laid, good)
  fill_each (suc left) i s m le laid good =
      Returns-bind Filled Filled (fill_segment image eh i (loading s m)) _
        (fill_one i s m (omega arith) laid good)
        (λ r (z, laid', good').
          let t : (r.0 == 0) ≡ true = ground (arith, z) in
          rw t (fill_each left (i + 1) r.1.space r.1.machine (omega arith) laid' good'))

-- What `load_elf` gives for a program with the segments `all`.
abbrev pub Loads : (Machine → Type 0) → Ehdr → List Phdr → Loaded → Type 0
Loads fine eh all r =
    ((length all ≤ 2)
      × (r.error ≡ 0)
      × (r.entrypoint ≡ some eh.e_entry)
      × Laid all r.space
      × fine r.machine)
    ⊎ ((2 < length all) × (r.error ≡ enosys) × (r.entrypoint ≡ none))

load_elf_program :
    (image : Image) (eh : Ehdr) (cpu : Cpu) (s : AddrSpace) (m : Machine)
    → image.read_ehdr ≡ (0, 0, eh)
    → is_program eh ≡ true
    → load_elf image cpu s m ≡ load_program image eh cpu s m
unfolding load_elf
load_elf_program image eh cpu s m header program =
    let whole : (complete image.read_ehdr.0 image.read_ehdr.1 == 0) ≡ true =
      ground (arith, header) in
    let same : image.read_ehdr.2 ≡ eh = ap (λ (r : ℕ × ℕ × Ehdr). r.2) header in
    rw (whole, same, program) refl

few : (all : List Phdr) (s : AddrSpace) → Laid all s → length all ≤ 2
few [] s laid = omega arith
few (p ∷ []) s laid = omega arith
few (p ∷ q ∷ []) s laid = omega arith
few (p ∷ q ∷ q' ∷ ps) s laid = elim laid [ ]

fill_program-Loads :
    (image : Image) (eh : Ehdr) (fine : Machine → Type 0) (s : AddrSpace) (m : Machine)
    → IsLoadable image eh fine
    → Laid (loadable image eh eh.e_phnum 0) s
    → fine m
    → Returns (fill_program image eh s m) (Loads fine eh (loadable image eh eh.e_phnum 0))
unfolding fill_program as_complete_load
fill_program-Loads image eh fine s m l laid good =
    Returns-bind _ _ (each_phdr (fill_segment image eh) eh.e_phnum 0 (loading s m)) _
      (fill_each image eh fine l eh.e_phnum 0 s m (omega arith) laid good)
      (λ r (z, laid', good').
        let t : (r.0 == 0) ≡ true = ground (arith, z) in
        rw t (inl (few (loadable image eh eh.e_phnum 0) r.1.space laid', refl, refl, laid', good')))

load_program-Loads :
    (cpu : Cpu) (image : Image) (eh : Ehdr) (fine : Machine → Type 0) (s : AddrSpace) (m : Machine)
    → MaySleep cpu
    → IsLoadable image eh fine
    → (s.as_vbase1 ≡ 0) × (s.as_vbase2 ≡ 0)
    → fine m
    → Returns (load_program image eh cpu s m) (Loads fine eh (loadable image eh eh.e_phnum 0))
unfolding load_program as_prepare_load
load_program-Loads cpu image eh fine s m sleep l none_yet good =
    Returns-bind (Outcome (loadable image eh eh.e_phnum 0)) _
      (each_phdr (define_segment image eh cpu) eh.e_phnum 0 s) _
      (each_phdr-Outcome cpu sleep image eh eh.e_phnum 0 [] s (λ j lt. l.readable j (omega arith))
        none_yet)
      (λ r h. elim h [
        | inl (z, laid) ↦
            let t : (r.0 == 0) ≡ true = ground arith in
            rw t (fill_program-Loads image eh fine r.1 m l laid good)
        | inr (many, e) ↦ let t : (r.0 == 0) ≡ false = ground arith in rw t (inr (many, e, refl))
      ])

-- `load_elf` of a program whose headers can be read and whose segments are of known types, those to load in user
-- memory and not on page 0, into an address space without regions, where sleeping is allowed and the reads of
-- segments are complete: with at most two segments to load it gives 0 and the entry point, and each segment has its
-- region, in their order; with more it gives ENOSYS and no entry point.
pub load_elf-Loads :
    (cpu : Cpu) (image : Image) (eh : Ehdr) (fine : Machine → Type 0) (s : AddrSpace) (m : Machine)
    → MaySleep cpu
    → IsLoadable image eh fine
    → s.as_vbase1 ≡ 0
    → s.as_vbase2 ≡ 0
    → fine m
    → Returns (load_elf image cpu s m) (Loads fine eh (loadable image eh eh.e_phnum 0))
load_elf-Loads cpu image eh fine s m sleep l e1 e2 good =
    subst (λ w. Returns w (Loads fine eh (loadable image eh eh.e_phnum 0)))
      (sym (load_elf_program image eh cpu s m l.header l.program))
      (load_program-Loads cpu image eh fine s m sleep l (e1, e2) good)

-- A file that ends before its header does, or whose header is not that of a program, leaves the address
-- space and the machine alone and gives ENOEXEC and no entry point.
pub load_elf_refuses :
    (cpu : Cpu) (image : Image) (s : AddrSpace) (m : Machine)
    → image.read_ehdr.0 ≡ 0
    → (image.read_ehdr.1 ≢ 0) ⊎ (is_program image.read_ehdr.2 ≡ false)
    → load_elf image cpu s m ≡ ok (stops enoexec s m)
unfolding load_elf
load_elf_refuses cpu image s m read bad = elim (ℕ_discrete image.read_ehdr.1 0) [
  | yes all_read ↦
      let whole : (complete image.read_ehdr.0 image.read_ehdr.1 == 0) ≡ true =
        ground (arith, read, all_read) in
      let none_such : is_program image.read_ehdr.2 ≡ false = ground (arith, bad, all_read) in
      rw (whole, none_such) refl
  | no cut ↦
      let code : complete image.read_ehdr.0 image.read_ehdr.1 ≡ enoexec =
        ground (arith, read, cut) in
      rw code refl
]
