-- ===== src/Coremap/Search.antt =====
-- The search loop of `getfreeppages`: first fit over the runs of free frames.
use sdp_project_c.Common.{
  ℕ, zero, suc, ◌+◌, ◌-◌, ◌≤◌, ◌<◌, ◌≡◌, refl, ◌≢◌, ◌⊎◌, inl, inr, Bool, true, false, Option, none,
  some, arith, leb, Bool-cases, dec_lt,
}
use sdp_project_c.Coremap.{run_start, find_run}

module _ (free : ℕ → Bool) (np : ℕ) where
  -- The `np` frames from `f` on are free.
  abbrev pub FreeRun : ℕ → Type 0
  FreeRun f = (j : ℕ) → f ≤ j → j < f + np → free j ≡ true

  -- What a search below `n` has found: the lowest run that fits, or that no run fits.
  abbrev pub FoundRun : ℕ → Option ℕ → Type 0
  FoundRun n none = (f : ℕ) → f + np ≤ n → ¬ FreeRun f
  FoundRun n (some f) = (f + np ≤ n) × FreeRun f × ((g : ℕ) → g < f → ¬ FreeRun g)

  -- The frames from `s` up to `i` are free, and they are a whole run on the left, too short yet.
  record Current (i s : ℕ) : Type 0 where
    started : s ≤ i
    run : (j : ℕ) → s ≤ j → j < i → free j ≡ true
    left_end : (s ≡ 0) ⊎ (free (s - 1) ≡ false)
    short : i < s + np

  record Searching (i : ℕ) (first : Option ℕ) : Type 0 where
    current : i ≢ 0 → free (i - 1) ≡ true → (s : ℕ) × (first ≡ some s) × Current i s
    none_before : (f : ℕ) → f + np ≤ i → ¬ FreeRun f

  module _ (pos : 0 < np) (i : ℕ) (first : Option ℕ) (inv : Searching i first) where
    -- The start of the run that a free frame `i` belongs to.
    start_of : free i ≡ true → (s : ℕ) × (run_start free i first ≡ some s) × Current i s
    start_of here = elim (dec_lt 0 i) [
      | yes p ↦ elim (Bool-cases (free (i - 1))) [
        | inl more ↦ let (s, e, c) = inv.current (omega arith) more in (s, ground arith, c)
        | inr fresh ↦ (i, ground arith, begins (inr fresh))
      ]
      | no p ↦ (i, ground arith, begins (inl (omega arith)))
    ]
      where
        begins : (i ≡ 0) ⊎ (free (i - 1) ≡ false) → Current i i
        begins edge = record {
          started = omega arith;
          run = λ j p q. absurd (omega arith);
          left_end = edge;
          short = omega arith;
        }

    -- No run that fits ends at frame `i` unless the current one does.
    none_through : (s : ℕ) → Current i s → i + 1 < s + np → (f : ℕ) → f + np ≤ i + 1 → ¬ FreeRun f
    none_through s c short f le all = elim (dec_lt i (f + np)) [
      | yes new ↦ edge new c.left_end
      | no old ↦ inv.none_before f (omega arith) all
    ]
      where
        edge : i < f + np → (s ≡ 0) ⊎ (free (s - 1) ≡ false) → ⊥
        edge new (inl z) = omega arith
        edge new (inr e) = ground (arith, all (s - 1), c.started)

    extend : (s : ℕ) → free i ≡ true → Current i s → i + 1 < s + np → Searching (i + 1) (some s)
    extend s here c short = record {
      current = λ _ _. (
        s,
        refl,
        record {
          started = omega (arith, c.started);
          run = λ j p q. ground (arith, c.run j);
          left_end = c.left_end;
          short = short;
        },
      );
      none_before = none_through s c short;
    }

    skip : free i ≡ false → Searching (i + 1) first
    skip busy = record {
      current = λ _ e. absurd (ground arith);
      none_before = λ f le all. elim (dec_lt i (f + np)) [
        | yes new ↦ ground (arith, all i)
        | no old ↦ inv.none_before f (omega arith) all
      ];
    }

  find_run-FoundRun :
      (pos : 0 < np) (left i n : ℕ) (first : Option ℕ)
      → i + left ≡ n
      → Searching i first
      → FoundRun n (find_run free np left i first)
  unfolding find_run
  find_run-FoundRun pos zero i n first e inv = λ f le. inv.none_before f (omega arith)
  find_run-FoundRun pos (suc left) i n first e inv = elim (Bool-cases (free i)) [
    | inr busy ↦
        rw busy
          (find_run-FoundRun pos left (i + 1) n first (omega arith) (skip pos i first inv busy))
    | inl here ↦
        let (s, e', c) = start_of pos i first inv here in
        rw (here, e')
          (elim (dec_lt (i + 1) (s + np)) [
            | yes short ↦
                let t : leb np (i + 1 - s) ≡ false = ground (arith, c.started) in
                rw t (
                  find_run-FoundRun pos left (i + 1) n (some s) (omega arith)
                    (extend pos i first inv s here c short))
            | no fits ↦
                let t : leb np (i + 1 - s) ≡ true = ground (arith, c.started, c.short) in
                rw t (
                  omega (arith, c.short),
                  λ j p q. ground (arith, c.run j, c.short),
                  λ g lt all. inv.none_before g (omega (arith, c.short)) all,
                )
          ])
  ]

  -- From the start the search decides whether any run fits.
  pub find_run-first : (n : ℕ) → 0 < np → FoundRun n (find_run free np n 0 none)
  find_run-first n pos =
      find_run-FoundRun pos n 0 n none (omega arith)
        (record { current = λ ne _. absurd (ne refl); none_before = λ f le _. omega arith })
