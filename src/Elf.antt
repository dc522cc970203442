-- ===== src/Elf.antt =====
-- kern/syscall/loadelf.c and kern/syscall/runprogram.c: the start of a program. The bytes that a read moves
-- into a header are the header; those that it moves into user memory go through `vm_fault`, which changes the
-- address space and the machine or panics.
use sdp_project_c.Common.{
  ℕ, zero, suc, ◌+◌, ◌*◌, ◌%◌, Bool, true, false, not, ◌&&◌, ◌||◌, Option, none, some, Result, ok,
  err, ◌>>=◌, ◌>>◌, require, assertion, ltb, ◌==◌, if◌then◌else◌, u32, List, [], ◌∷◌,
}
use sdp_project_c.Machine.{Machine, AddrSpace, FileInfo}
use sdp_project_c.AddrSpace.{
  Cpu, Process, as_create, as_activate, as_define_region, as_prepare_load, as_complete_load,
  as_define_stack, enoexec, enomem,
}
use sdp_project_c.Files.{Files, vfs_close}
pub mod Segments
pub mod Programs
mod Tests

-- The fields of `Elf32_Ehdr` and of `Elf32_Phdr` that the code reads.
pub record Ehdr : Type 0 where
  pub e_ident : ℕ → ℕ
  pub e_type : ℕ
  pub e_machine : ℕ
  pub e_version : ℕ
  pub e_entry : ℕ
  pub e_phoff : ℕ
  pub e_phentsize : ℕ
  pub e_phnum : ℕ

pub record Phdr : Type 0 where
  pub p_type : ℕ
  pub p_offset : ℕ
  pub p_vaddr : ℕ
  pub p_filesz : ℕ
  pub p_memsz : ℕ
  pub p_flags : ℕ

abbrev pub pt_null : ℕ
pt_null = 0

abbrev pub pt_load : ℕ
pt_load = 1

abbrev pub pt_phdr : ℕ
pt_phdr = 6

abbrev pub pt_mips_reginfo : ℕ
pt_mips_reginfo = 0x7000_0000

-- What `VOP_READ` answers: the error number, `uio_resid`, and the header that it has filled in. A segment
-- is read from an offset to an address, into `iov_len` bytes, with `uio_resid` bytes to read, as code or
-- as data; what it leaves of the address space and the machine is part of the answer.
pub record Image : Type 0 where
  pub read_ehdr : ℕ × ℕ × Ehdr
  pub read_phdr : ℕ → ℕ × ℕ × Phdr
  pub read_segment :
      ℕ → ℕ → ℕ → ℕ → Bool → AddrSpace → Machine → Result (ℕ × ℕ × AddrSpace × Machine)

-- A read of a header that must be complete.
abbrev pub complete : ℕ → ℕ → ℕ
complete result resid =
    if not (result == 0) then result else (if not (resid == 0) then enoexec else 0)

-- The test of the header: a 32-bit executable of version 1 for this processor.
pub is_program : Ehdr → Bool
is_program eh =
    eh.e_ident 0 == 0x7f
    && eh.e_ident 1 == b'E'
    && eh.e_ident 2 == b'L'
    && eh.e_ident 3 == b'F'
    && eh.e_ident 4 == 1
    && eh.e_ident 5 == 2
    && eh.e_ident 6 == 1
    && eh.e_version == 1
    && eh.e_type == 2
    && eh.e_machine == 8

-- Where program header `i` is in the file.
abbrev pub phdr_offset : Ehdr → ℕ → ℕ
phdr_offset eh i = u32 (eh.e_phoff + i * eh.e_phentsize)

-- The `switch` on the type of a segment, for one that is to be loaded by `load`; the error number and what
-- has become of the state, which is the address space, in the second loop with the machine.
abbrev pub by_type : {S : Type 0} → Phdr → S → Result (ℕ × S) → Result (ℕ × S)
by_type ph s load =
    if ph.p_type == pt_null || (ph.p_type == pt_phdr || ph.p_type == pt_mips_reginfo)
    then ok (0, s)
    else (if ph.p_type == pt_load then load else ok (enoexec, s))

-- A round of the first loop of `load_elf`.
pub define_segment : Image → Ehdr → Cpu → ℕ → AddrSpace → Result (ℕ × AddrSpace)
define_segment image eh cpu i s =
    let (result, resid, ph) = image.read_phdr (phdr_offset eh i) in
    if not (complete result resid == 0)
    then ok (complete result resid, s)
    else by_type ph s (as_define_region cpu s ph.p_vaddr ph.p_memsz ph.p_offset)

-- The address space and the machine, which the second loop changes.
pub record Loading : Type 0 where
  pub space : AddrSpace
  pub machine : Machine

abbrev pub loading : AddrSpace → Machine → Loading
loading s m = record { space = s; machine = m }

-- `load_segment`: the error number, and what the read leaves.
pub load_segment : Image → Phdr → Loading → Result (ℕ × Loading)
load_segment image ph w =
    let filesize = (if ltb ph.p_memsz ph.p_filesz then ph.p_memsz else ph.p_filesz) in
    do
      (result, resid, s', m') ←
          image.read_segment ph.p_offset ph.p_vaddr ph.p_memsz filesize (ph.p_flags % 2 == 1)
            w.space w.machine
      ok (complete result resid, loading s' m')

-- A round of the second loop.
pub fill_segment : Image → Ehdr → ℕ → Loading → Result (ℕ × Loading)
unfolding load_segment
fill_segment image eh i w =
    let (result, resid, ph) = image.read_phdr (phdr_offset eh i) in
    if not (complete result resid == 0)
    then ok (complete result resid, w)
    else by_type ph w (load_segment image ph w)

-- A loop over the program headers from `i` on, of which `left` are left: the first error ends it.
pub each_phdr : {S : Type 0} → (ℕ → S → Result (ℕ × S)) → ℕ → ℕ → S → Result (ℕ × S)
each_phdr body zero i s = ok (0, s)
each_phdr body (suc left) i s = do
  r ← body i s
  elim (r.0 == 0) [ true ↦ each_phdr body left (i + 1) r.1 | false ↦ ok r ]

-- What `load_elf` leaves: the error number, `*entrypoint`, which is set if the number is 0, the address space and
-- the machine.
pub record Loaded : Type 0 where
  pub error : ℕ
  pub entrypoint : Option ℕ
  pub space : AddrSpace
  pub machine : Machine

abbrev pub stops : ℕ → AddrSpace → Machine → Loaded
stops error s m = record { error = error; entrypoint = none; space = s; machine = m }

-- The second loop, and what follows it.
pub fill_program : Image → Ehdr → AddrSpace → Machine → Result Loaded
unfolding each_phdr fill_segment
fill_program image eh s m = do
  (filled, w) ← each_phdr (fill_segment image eh) eh.e_phnum 0 (loading s m)
  ok (
      if not (filled == 0)
      then stops filled w.space w.machine
      else (if not (as_complete_load w.space == 0)
          then stops (as_complete_load w.space) w.space w.machine
          else record {
            error = 0;
            entrypoint = some eh.e_entry;
            space = w.space;
            machine = w.machine;
          }))

-- The part of `load_elf` after the test of the header.
pub load_program : Image → Ehdr → Cpu → AddrSpace → Machine → Result Loaded
unfolding each_phdr define_segment fill_program
load_program image eh cpu s m = do
  (defined, s₁) ← each_phdr (define_segment image eh cpu) eh.e_phnum 0 s
  if not (defined == 0)
      then ok (stops defined s₁ m)
      else (if not (as_prepare_load s₁ == 0)
          then ok (stops (as_prepare_load s₁) s₁ m)
          else fill_program image eh s₁ m)

-- `load_elf`
pub load_elf : Image → Cpu → AddrSpace → Machine → Result Loaded
unfolding is_program load_program
load_elf image cpu s m =
    let (result, resid, eh) = image.read_ehdr in
    if not (complete result resid == 0)
    then ok (stops (complete result resid) s m)
    else (if not (is_program eh) then ok (stops enoexec s m) else load_program image eh cpu s m)

-- What `runprogram` comes to: it fails, or goes to user mode at an address with a stack.
pub data Started : Type 0 where
  fails : ℕ → Process → Started
  enters_user : ℕ → ℕ → Process → Started

-- `runprogram` in the process `curproc`: `opened` is the answer of `vfs_open`, the error number and the
-- vnode; `memory` says whether `as_create` has memory, and `raw` is what its file information then holds.
pub runprogram :
    ℕ × ℕ
    → Bool
    → FileInfo
    → Image
    → Cpu
    → Process
    → Machine
    → Files
    → Result (Started × Machine × Files)
unfolding load_elf
runprogram opened memory raw image cpu curproc m f =
    let (result, v) = opened in
    if not (result == 0) then ok (fails result curproc, m, f) else (do
      require (elim curproc.space [ none ↦ true | some _ ↦ false ]) assertion
      elim (as_create memory raw) [
        | none ↦ do f' ← vfs_close v f; ok (fails enomem curproc, m, f')
        | some s ↦ do
          m' ← as_activate (record curproc { space = some s }) m
          l ← load_elf image cpu s m'
          let loaded = record curproc { space = some l.space }
          ok (elim l.entrypoint [
            | none ↦ (fails l.error loaded, l.machine, f)
            | some entrypoint ↦
                let (error', stackptr) = as_define_stack l.space in
                if not (error' == 0)
                then (fails error' loaded, l.machine, f)
                else (enters_user entrypoint stackptr loaded, l.machine, f)
          ])
      ])
