-- ===== src/Elf/Tests.antt =====
-- Tests of the loader: a program with a header to leave out, a code segment and a data segment.
use sdp_project_c.Common.{ℕ, ◌*◌, ◌≡◌, true, false, none, ok, ◌==◌, if◌then◌else◌, [], update, ◌%◌}
use sdp_project_c.Spinlock.{unheld}
use sdp_project_c.Sample.{machine, tlb}
use sdp_project_c.Machine.{Machine, AddrSpace}
use sdp_project_c.AddrSpace.{Cpu}
use sdp_project_c.Files.{Files}
use sdp_project_c.Elf.{Ehdr, Phdr, Image}

abbrev thread : Cpu
thread = record { present = true; c_spinlocks = 0; in_interrupt = false }

abbrev header : Ehdr
header = record {
  e_ident = λ i.
      if i == 0
      then 0x7f
      else (if i == 1
          then b'E'
          else (if i == 2 then b'L' else (if i == 3 then b'F' else (if i == 5 then 2 else 1))));
  e_type = 2;
  e_machine = 8;
  e_version = 1;
  e_entry = 0x400200;
  e_phoff = 52;
  e_phentsize = 32;
  e_phnum = 3;
}

abbrev segment : ℕ → ℕ → Phdr
segment type vaddr = record {
  p_type = type;
  p_offset = 0x1000;
  p_vaddr = vaddr;
  p_filesz = 0x800;
  p_memsz = 0x1800;
  p_flags = 5;
}

abbrev program : Image
program = record {
  read_ehdr = (0, 0, header);
  read_phdr = λ offset. (
    0,
    0,
    if offset == 52
        then segment 0x7000_0000 0
        else (if offset == 84 then segment 1 0x400000 else segment 1 0x1000_0000),
  );
  read_segment = λ offset vaddr memsize filesize code s m.
      ok (0, 0, s, record m { memory = update m.memory (vaddr % 0x10000) 7 });
}

-- The translation buffer has only entries of process 0.
abbrev own : Machine
own = record machine { tlb = record tlb { entry_hi = λ i. 0x1000 * i } }

-- The reads leave the translation buffer alone.
abbrev SameTlb : Machine → Type 0
SameTlb m = m.tlb ≡ own.tlb

-- A file of 51 bytes.
abbrev cut : Image
cut = record program { read_ehdr = (0, 1, header) }

abbrev no_files : Files
no_files = record {
  system = λ k. record { vn = none; offset = 0; count_ref = 0 };
  table = λ p fd. none;
  vnodes = λ v. record { vn_refcount = 1; vn_countlock = unheld };
  reclaimed = [];
}
