-- ===== src/Proc/Numbers.antt =====
-- The search for a free process number.
use sdp_project_c.Common.{
  ℕ, zero, suc, ◌+◌, ◌-◌, ◌%◌, ◌≤◌, ◌<◌, ◌≡◌, refl, ◌≢◌, inl, inr, true, false, Option, none, some,
  arith, ◌==◌, ℕ_discrete, Bool-cases, subst,
}
use sdp_project_c.Proc.{max_proc, after, is_null, find_slot}

-- How many steps of the search lead from `i` to `j`.
abbrev pub steps : ℕ → ℕ → ℕ
steps i j = (j + max_proc - i) % max_proc

-- What the search from `i` on has found: the free slot that it comes to first, or that every slot before
-- `last_i` is taken.
abbrev pub FirstFree : ℕ → ℕ → (ℕ → Option ℕ) → Option ℕ → Type 0
FirstFree i last_i proc none =
    (j : ℕ) → 0 < j → j ≤ max_proc → steps i j < steps i last_i → is_null (proc j) ≡ false
FirstFree i last_i proc (some k) =
    (0 < k)
    × (k ≤ max_proc)
    × (steps i k < steps i last_i)
    × (is_null (proc k) ≡ true)
    × ((j : ℕ) → 0 < j → j ≤ max_proc → steps i j < steps i k → is_null (proc j) ≡ false)

-- One step brings every other slot nearer by one.
steps-after :
    (i j : ℕ)
    → 0 < i
    → i ≤ max_proc
    → 0 < j
    → j ≤ max_proc
    → i ≢ j
    → steps i j ≡ steps (after i) j + 1
steps-after i j p q r s ne = ground arith

after_range : (i : ℕ) → (0 < after i) × (after i ≤ max_proc)
after_range i = ground arith

module _ (i last_i : ℕ) (proc : ℕ → Option ℕ) (p : 0 < i) (q : i ≤ max_proc) (r : 0 < last_i)
    (s : last_i ≤ max_proc) (away : i ≢ last_i) (taken : is_null (proc i) ≡ false) where
  -- A slot other than `i` that is taken as seen from the next one.
  before :
      (n : ℕ)
      → ((j : ℕ) → 0 < j → j ≤ max_proc → steps (after i) j < n → is_null (proc j) ≡ false)
      → (j : ℕ) → 0 < j
      → j ≤ max_proc
      → steps i j < n + 1
      → is_null (proc j) ≡ false
  before n h j a b c = elim (ℕ_discrete i j) [
    | yes same ↦ subst (λ k. is_null (proc k) ≡ false) same taken
    | no other ↦ h j a b (omega (arith, steps-after i j p q a b other))
  ]

  further : (o : Option ℕ) → FirstFree (after i) last_i proc o → FirstFree i last_i proc o
  further none h = λ j a b c.
      before (steps (after i) last_i) h j a b (omega (arith, steps-after i last_i p q r s away))
  further (some k) (a, b, c, d, e) =
      let other : i ≢ k = λ same. absurd (ground (arith, taken, d)) in
      (
        a,
        b,
        omega (arith, steps-after i last_i p q r s away, steps-after i k p q a b other),
        d,
        λ j x y z.
            before (steps (after i) k) e j x y (omega (arith, steps-after i k p q a b other)),
      )

-- The search ends before it has made a round for each slot.
pub find_slot-FirstFree :
    (rounds i last_i : ℕ) (proc : ℕ → Option ℕ)
    → 0 < i
    → i ≤ max_proc
    → 0 < last_i
    → last_i ≤ max_proc
    → steps i last_i < rounds
    → (o : Option ℕ) × (find_slot rounds i last_i proc ≡ some o) × FirstFree i last_i proc o
unfolding find_slot
find_slot-FirstFree zero i last_i proc p q r s fuel = absurd (omega arith)
find_slot-FirstFree (suc rounds) i last_i proc p q r s fuel = elim (ℕ_discrete i last_i) [
  | yes here ↦
      let t : (i == last_i) ≡ true = ground arith in
      (none, rw t refl, λ j a b c. absurd (omega arith))
  | no away ↦
      let t : (i == last_i) ≡ false = ground arith in
      elim (Bool-cases (is_null (proc i))) [
        | inl free ↦
            (some i, rw (t, free) refl, (p, q, omega arith, free, λ j a b c. absurd (omega arith)))
        | inr taken ↦
            let (o, e, h) =
              find_slot-FirstFree rounds (after i) last_i proc (after_range i).0 (after_range i).1 r
                s (omega (arith, steps-after i last_i p q r s away)) in
            (o, rw (t, taken) e, further i last_i proc p q r s away taken o h)
      ]
]

-- A free slot where the search starts is taken.
pub find_slot_at_once :
    (rounds i last_i : ℕ) (proc : ℕ → Option ℕ)
    → i ≢ last_i
    → is_null (proc i) ≡ true
    → find_slot (suc rounds) i last_i proc ≡ some (some i)
unfolding find_slot
find_slot_at_once rounds i last_i proc away free =
    let t : (i == last_i) ≡ false = ground arith in rw (t, free) refl
