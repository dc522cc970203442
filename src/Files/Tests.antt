-- ===== src/Files/Tests.antt =====
-- Tests of the open files: of two processes, the first has vnode 5 open as descriptor 3.
use sdp_project_c.Common.{ℕ, ◌≡◌, refl, ◌⊎◌, none, some, Returns, arith, [], total-eq-zero}
use sdp_project_c.Spinlock.{unheld}
use sdp_project_c.Vnode.{Vnode}
use sdp_project_c.Files.{
  open_max, system_open_max, OpenFile, Files, set_descriptor, set_file, sys_open, sys_close,
}
use sdp_project_c.Files.References.{openings, Counted}
use sdp_project_c.Files.Close.{Drops, sys_close-Drops}
use sdp_project_c.Files.Open.{
  Granted, Opens, SystemFull, ProcessFull, fresh_file, opens-Counted, sys_open-Opens,
}

abbrev referenced : ℕ → ℕ → Vnode
referenced count v = record { vn_refcount = count; vn_countlock = unheld }

abbrev closed : OpenFile
closed = record { vn = none; offset = 0; count_ref = 0 }

abbrev none_open : Files
none_open = record {
  system = λ k. closed;
  table = λ p fd. none;
  vnodes = referenced 0;
  reclaimed = [];
}

no_openings : (v : ℕ) → openings v none_open.system ≡ 0
no_openings v = total-eq-zero system_open_max _ (λ k lt. refl)

none_open-Counted : Counted 2 none_open
none_open-Counted = record {
  counted = λ k lt o. absurd (o refl);
  closed = λ k lt o. total-eq-zero 2 _ (λ p lp. total-eq-zero open_max _ (λ fd lfd. refl));
  within = λ p fd k lp lfd e. absurd (cc);
  few = omega arith;
  held = λ v. omega (arith, no_openings v);
  unlocked = λ v. refl;
}

one_reference : Granted 5 none_open (referenced 1)
one_reference = record { enough = λ w. ground (arith, no_openings w); unlocked = λ w. refl }

abbrev one_open : Files
one_open =
    set_descriptor 0 3 (some 0)
      (set_file 0 (fresh_file 5) (record none_open { vnodes = referenced 1 }))

one_open-Counted : Counted 2 one_open
one_open-Counted =
    opens-Counted 2 0 5 none_open none_open-Counted (referenced 1) one_reference (omega arith) 0
      (omega arith) refl 3 (omega arith) refl

sys_close-Drops_example : Returns (sys_close 0 3 one_open) (λ r.
    ((one_open.table 0 3 ≡ none) × (r ≡ (none, one_open)))
    ⊎ ((k : ℕ) × (one_open.table 0 3 ≡ some k) × Drops 2 0 3 k one_open r))
sys_close-Drops_example =
    sys_close-Drops 2 0 3 one_open one_open-Counted (omega arith) (omega arith)

sys_open-Opens_example : Returns (sys_open (λ vs. (some 5, referenced 1)) 0 none_open) (λ r.
    ((k fd : ℕ) × Opens 2 0 5 fd k (referenced 1) none_open r)
    ⊎ SystemFull 2 5 (referenced 1) none_open r
    ⊎ ((k : ℕ) × ProcessFull 2 0 5 k (referenced 1) none_open r))
sys_open-Opens_example =
    sys_open-Opens 2 0 5 (λ vs. (some 5, referenced 1)) none_open none_open-Counted refl
      one_reference (omega arith)
