-- ===== src/Fault/Tests.antt =====
-- Tests of the page faults.
use sdp_project_c.Common.{◌≡◌, refl, inl, inr, none, some, ok, ◌>>=◌, Returns, arith}
use sdp_project_c.Sample.{machine, working, space, process}
use sdp_project_c.Stats.{increment_tlb_faults}
use sdp_project_c.PageTable.{page_table_get_paddr_entry}
use sdp_project_c.AddrSpace.{efault}
use sdp_project_c.Fault.{read, write, Outcome, Claim, served, record_page, vm_fault}
use sdp_project_c.Fault.Extents.{Segment}
use sdp_project_c.Fault.Resident.{Reloaded, vm_fault-Reloaded}
use sdp_project_c.Fault.Refused.{vm_fault-Outside}
use sdp_project_c.Fault.Demand.{record_page_not_found}

vm_fault-Reloaded_example :
    Returns
      (vm_fault working 0 (some process) write 0x400abc machine)
      (λ a. (o : Outcome) × (a ≡ served o) × Reloaded 7 0x400000 2 space machine o)
vm_fault-Reloaded_example =
    vm_fault-Reloaded working 0 0x400abc 2 write process space machine (inr refl) refl refl refl
      refl (omega arith) (omega arith) (omega arith) refl (λ i lt h. ground arith)

vm_fault-Outside_example :
    vm_fault working 0 (some process) read 0x5000_0123 machine
    ≡ ok (
        served (record {
          code = efault;
          space = space;
          machine = record machine { stats = increment_tlb_faults machine.stats };
        }))
vm_fault-Outside_example =
    vm_fault-Outside working 0 0x5000_0123 read process space machine (inl refl) refl refl refl refl
      (λ j lt. ground arith) (λ j lt. ground arith) (refl, refl, refl)

abbrev loaded : Claim
loaded = record { paddr = 0x3000; index_tlb = none; space = space; machine = machine }

record_page_not_found_example :
    Returns
      (record_page 7 0x401000 1 loaded >>= λ r'.
        page_table_get_paddr_entry 7 0x401000 r'.machine.table)
      (λ a. a.0 ≡ none)
record_page_not_found_example =
    record_page_not_found 7 0x401000 1 loaded refl (omega arith) (omega arith)
      (λ j lt. ground arith)

abbrev aligned : Segment 0x400 3 0x1000 0x2345
aligned = record { user = omega arith; size = refl }

abbrev unaligned : Segment 0x400 3 0x1123 0x2345
unaligned = record { user = omega arith; size = refl }
