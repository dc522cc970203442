-- ===== src/Tlb/Victims.antt =====
-- Which entry `add_entry` fills: the lowest free one, or else the next in turn.
use sdp_project_c.Common.{
  ℕ, ◌+◌, ◌%◌, ◌<◌, ◌≡◌, refl, ◌⊎◌, inl, inr, Bool, true, false, not, Option, none, some, Result,
  ok, err, ap, page_frame, ◌>>=◌, Returns, arith, update, first_index, first_index-FirstIn, FirstIn,
  List, [], ◌∷◌, deadlock,
}
use sdp_project_c.Spinlock.{unheld, held_here, spinlock_acquire, spinlock_release}
use sdp_project_c.Stats.{
  Stats, next, increment_tlb_faults, increment_tlb_faults_free, increment_tlb_faults_replace,
}
use sdp_project_c.Tlb.{
  Tlb, num_tlb, tlb_write, tlb_get_rr_victim, choose_entry, write_entry, add_entry, read_entry,
}

-- One more miss, with a free entry or without.
abbrev pub counted : Bool → Stats → Stats
counted true s = record s {
  tlb_faults_free = next s.tlb_faults_free;
  tlb_faults = next s.tlb_faults;
}
counted false s = record s {
  tlb_faults_replace = next s.tlb_faults_replace;
  tlb_faults = next s.tlb_faults;
}

-- `t` with entry `i` holding the two words.
abbrev pub filled : ℕ → ℕ → ℕ → Tlb → Tlb
filled i hi lo t = tlb_write hi lo i (record t { bitmap = update t.bitmap i true })

abbrev pub advanced : Tlb → Tlb
advanced t = record t { next_victim = (t.next_victim + 1) % num_tlb }

module _ (hi lo raw : ℕ) (t : Tlb) (s : Stats) (free : t.slock ≡ unheld) where
  add_to_vacant :
      (i : ℕ)
      → i < num_tlb
      → first_index num_tlb (λ i. not (t.bitmap i)) ≡ some i
      → add_entry none raw hi lo t s ≡ ok (i, filled i hi lo t, counted true s)
  unfolding add_entry choose_entry write_entry increment_tlb_faults spinlock_acquire
      spinlock_release increment_tlb_faults_free
  add_to_vacant i lt e = ground arith

  add_to_full :
      t.next_victim < num_tlb
      → first_index num_tlb (λ i. not (t.bitmap i)) ≡ none
      → add_entry none raw hi lo t s
        ≡ ok (t.next_victim, filled t.next_victim hi lo (advanced t), counted false s)
  unfolding add_entry choose_entry write_entry increment_tlb_faults spinlock_acquire
      spinlock_release tlb_get_rr_victim increment_tlb_faults_replace
  add_to_full lt e = ground arith

-- Every entry is marked as used.
abbrev pub IsFull : Tlb → Type 0
IsFull t = (j : ℕ) → j < num_tlb → t.bitmap j ≡ true

-- What `add_entry` did with a miss: it filled the lowest free entry, or, with none free, the entry
-- whose turn it is, and passed the turn on. The counters say which.
abbrev pub Adds : ℕ → ℕ → Tlb → Stats → ℕ × Tlb × Stats → Type 0
Adds hi lo t s (i, t', s') =
    ((i < num_tlb)
      × (t.bitmap i ≡ false)
      × ((j : ℕ) → j < i → t.bitmap j ≡ true)
      × (t' ≡ filled i hi lo t)
      × (s' ≡ counted true s))
    ⊎ (IsFull t × (i ≡ t.next_victim) × (t' ≡ filled i hi lo (advanced t)) × (s' ≡ counted false s))

-- `add_entry` without an index, under a free lock, writes the two words into the lowest free entry, or
-- into the next victim if all are used; it changes no other entry, and counts one miss.
pub add_entry-Adds :
    (hi lo raw : ℕ) (t : Tlb) (s : Stats)
    → t.slock ≡ unheld
    → t.next_victim < num_tlb
    → Returns (add_entry none raw hi lo t s) (Adds hi lo t s)
add_entry-Adds hi lo raw t s free lt = go _ refl (first_index-FirstIn num_tlb vacant)
  where
    vacant : ℕ → Bool
    vacant i = not (t.bitmap i)

    go :
        (o : Option ℕ)
        → first_index num_tlb vacant ≡ o
        → FirstIn 0 num_tlb vacant o
        → Returns (add_entry none raw hi lo t s) (Adds hi lo t s)
    go none e h =
        rw (add_to_full hi lo raw t s free lt e)
          (inr (λ j p. ground (arith, h j), refl, refl, refl))
    go (some i) e (a, b, c, d) =
        rw (add_to_vacant hi lo raw t s free i b e)
          (inl (b, ground arith, λ j p. ground (arith, d j), refl, refl))

-- The entries that a run of misses fills, in order, with the buffer after them.
pub fill_all : List (ℕ × ℕ) → Tlb → Stats → Result (List ℕ × Tlb)
unfolding add_entry
fill_all [] t s = ok ([], t)
fill_all ((hi, lo) ∷ ms) t s = do
  (i, t', s') ← add_entry none 0 hi lo t s
  (is, t'') ← fill_all ms t' s'
  ok (i ∷ is, t'')

-- `n` numbers from `k` on, going round at 64.
abbrev pub in_turn : ℕ → List (ℕ × ℕ) → List ℕ
in_turn k [] = []
in_turn k (m ∷ ms) = k ∷ in_turn ((k + 1) % num_tlb) ms

full_search : (t : Tlb) → IsFull t → first_index num_tlb (λ i. not (t.bitmap i)) ≡ none
full_search t full = go (first_index num_tlb _) (first_index-FirstIn num_tlb _)
  where
    go : (o : Option ℕ) → FirstIn 0 num_tlb (λ i. not (t.bitmap i)) o → o ≡ none
    go none h = refl
    go (some i) (a, b, c, d) = absurd (ground (arith, full i b))

-- In a full buffer the victims of any run of misses are consecutive entries from `next_victim` on,
-- going round at 64: no entry is replaced again before the 63 others.
pub fill_all-in_turn :
    (ms : List (ℕ × ℕ)) (t : Tlb) (s : Stats)
    → t.slock ≡ unheld
    → t.next_victim < num_tlb
    → IsFull t
    → Returns (fill_all ms t s) (λ r. (r.0 ≡ in_turn t.next_victim ms) × IsFull r.1)
unfolding fill_all
fill_all-in_turn [] t s free lt full = (refl, full)
fill_all-in_turn ((hi, lo) ∷ ms) t s free lt full =
    rw (add_to_full hi lo 0 t s free lt (full_search t full)) (
      go (fill_all ms t' _)
        (fill_all-in_turn ms t' _ free (omega arith) (λ j p. ground (arith, full j))))
  where
    t' : Tlb
    t' = filled t.next_victim hi lo (advanced t)

    go :
        (m : Result (List ℕ × Tlb))
        → Returns m (λ r. (r.0 ≡ in_turn t'.next_victim ms) × IsFull r.1)
        → Returns {A = List ℕ × Tlb}
            (m >>= λ r. ok (t.next_victim ∷ r.0, r.1))
            (λ r. (r.0 ≡ in_turn t.next_victim ((hi, lo) ∷ ms)) × IsFull r.1)
    go (ok (is, t'')) (e, f) = (ap (λ k. t.next_victim ∷ k) e, f)
    go (err x) h = h

-- A miss in `read_entry` leaves the lock held: whatever the next `add_entry` is asked for, it panics.
pub read_entry_miss_deadlock :
    (tlb_probe : ℕ → Tlb → Option ℕ) (vaddr : ℕ) (t : Tlb)
    → t.slock ≡ unheld
    → tlb_probe (page_frame vaddr) (record t { slock = held_here }) ≡ none
    → Returns (read_entry tlb_probe vaddr t) (λ r.
      (r.0 ≡ none)
      × ((i : Option ℕ) (raw hi lo : ℕ) (s : Stats) → add_entry i raw hi lo r.1 s ≡ err deadlock))
unfolding read_entry add_entry spinlock_acquire
read_entry_miss_deadlock tlb_probe vaddr t free miss = rw (free, miss) (refl, λ i raw hi lo s. refl)
