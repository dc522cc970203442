-- ===== src/Sample.antt =====
-- A machine for the tests of several components: process 7 has its page 0x400000 in frame 2 and its page
-- 0x401000 in slot 0 of the swap file.
use sdp_project_c.Common.{◌+◌, ◌*◌, true, false, ◌||◌, some, ltb, ◌==◌, if◌then◌else◌}
use sdp_project_c.Spinlock.{unheld}
use sdp_project_c.Coremap.{Coremap}
use sdp_project_c.PageTable.{Entry, Table, read_write, no_pid}
use sdp_project_c.Stats.{init_stats}
use sdp_project_c.Tlb.{Tlb}
use sdp_project_c.Machine.{SwapFile, Machine, Devices, AddrSpace, FileInfo}
use sdp_project_c.AddrSpace.{Process}

abbrev pub coremap : Coremap
coremap = record {
  free_ram_frames = λ j. j == 3 || j == 4;
  alloc_size = λ j. if j == 2 then 4 else 0;
  n_ram_frames = 8;
  alloc_table_active = true;
  freemem_lock = unheld;
  stealmem_lock = unheld;
  firstpaddr = 0x6000;
  lastpaddr = 0x8000;
}

abbrev pub vacant : Entry
vacant = record {
  vaddr = 0;
  pid = no_pid;
  status = 0;
  permission_flag = read_write;
  position_fifo = 0;
}

abbrev pub resident : Entry
resident = record {
  vaddr = 0x400000;
  pid = 7;
  status = 1;
  permission_flag = read_write;
  position_fifo = 0;
}

abbrev pub table : Table
table = record {
  next_entry = λ i. if i == 2 then resident else vacant;
  length = 8;
  table_lock = unheld;
}

abbrev pub no_pages : Table
no_pages = record { next_entry = λ _. vacant; length = 8; table_lock = unheld }

abbrev pub swap : SwapFile
swap = record {
  track = λ i. record {
    permission_flag = read_write;
    pid = if i == 0 then 7 else no_pid;
    vaddr = 0x401000;
    valid = i == 0;
  };
  slock = unheld;
  file = λ i o. i + o;
}

-- Entry 0 holds a page of process 9.
abbrev pub tlb : Tlb
tlb = record {
  bitmap = λ i. ltb i 2;
  entry_hi = λ i. 0x1000 * i + 9 * 64;
  entry_lo = λ i. 0x3600;
  next_victim = 5;
  slock = unheld;
}

abbrev pub machine : Machine
machine = record {
  table = table;
  coremap = coremap;
  swap = swap;
  tlb = tlb;
  stats = init_stats;
  memory = λ a. a;
}

abbrev pub working : Devices
working = record {
  write_fails = λ _. false;
  read_fails = λ _. false;
  read_short = λ _. false;
  elf_read_fails = λ _. false;
  elf_bytes = λ o. o;
}

abbrev pub info : FileInfo
info = record { code_offset = 0x1000; code_sz = 0x2345; data_offset = 0x4000; data_sz = 0x10 }

abbrev pub space : AddrSpace
space = record {
  as_vbase1 = 0x400000;
  as_npages1 = 3;
  as_vbase2 = 0x1000_0000;
  as_npages2 = 1;
  as_stackpbase = 0;
  allocated_pages = 1;
  fi = info;
}

abbrev pub process : Process
process = record { pid = 7; space = some space }
