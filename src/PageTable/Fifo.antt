-- ===== src/PageTable/Fifo.antt =====
-- The pages of one process as a queue: `position_fifo` counts from the oldest page, 0, to the
-- newest; pages are added at the end, and the victim of a replacement is the front.
use sdp_project_c.Common.{
  dec_lt, ℕ, zero, suc, ◌+◌, ◌*◌, ◌≤◌, ◌<◌, ◌≡◌, refl, sym, ◌≢◌, ◌⊎◌, Bool, false, ◌&&◌, Option,
  none, some, ok, Returns, arith, ◌==◌, if◌then◌else◌, update, sweep_at, first_index,
  first_index-FirstIn, FirstIn, page_size,
}
use sdp_project_c.Spinlock.{unheld}
use sdp_project_c.PageTable.Locked.{added, removed, add_unheld, reset_unheld}
use sdp_project_c.PageTable.{
  Entry, Table, no_pid, moved_up, cleared, next_position, page_table_replacement,
  page_table_add_entry, page_table_reset_entry,
}

-- Frame `i` holds the page of process `pid` that is at place `d` of its queue.
abbrev pub Holds : ℕ → Table → ℕ → ℕ → Type 0
Holds pid t d i =
    (i < t.length) × ((t.next_entry i).pid ≡ pid) × ((t.next_entry i).position_fifo ≡ d)

-- The places of the pages of `pid` are 0, 1, ... up to `n - 1`, each taken once.
pub record IsQueue (pid : ℕ) (n : ℕ) (t : Table) : Type 0 where
  pub below : (i d : ℕ) → Holds pid t d i → d < n
  pub unique : (i j d : ℕ) → Holds pid t d i → Holds pid t d j → i ≡ j
  pub covered : (d : ℕ) → d < n → (i : ℕ) × Holds pid t d i

module _ (pid : ℕ) (entries : ℕ → Entry) where
  next_position-le :
      (n m : ℕ)
      → ((i : ℕ) → i < n → (entries i).pid ≡ pid → (entries i).position_fifo < m)
      → next_position n pid entries ≤ m
  unfolding next_position
  next_position-le zero m h = omega arith
  next_position-le (suc n) m h =
      ground (arith, h n, next_position-le n m (λ i lt e. h i (omega arith) e))

  lt-next_position :
      (n i : ℕ)
      → i < n
      → (entries i).pid ≡ pid
      → (entries i).position_fifo < next_position n pid entries
  unfolding next_position
  lt-next_position zero i lt e = absurd (omega arith)
  lt-next_position (suc n) i lt e = ground (arith, lt-next_position n i)

-- The place that `page_table_add_entry` computes is the number of pages that the process has.
next_position-eq :
    (pid n : ℕ) (t : Table) → IsQueue pid n t → next_position t.length pid t.next_entry ≡ n
next_position-eq pid zero t q =
    omega
      (arith, next_position-le pid t.next_entry t.length 0 (λ i lt e. q.below i _ (lt, e, refl)))
next_position-eq pid (suc n) t q =
    let (i, h) = q.covered n (omega arith) in
    omega (
      arith,
      next_position-le pid t.next_entry t.length (suc n) (λ i lt e. q.below i _ (lt, e, refl)),
      lt-next_position pid t.next_entry t.length i h.0 h.1,
      h.2,
    )

added-IsQueue :
    (pid vaddr frame status n : ℕ) (t : Table)
    → frame < t.length
    → (t.next_entry frame).pid ≡ no_pid
    → pid ≢ no_pid
    → IsQueue pid n t
    → IsQueue pid (n + 1) (added pid vaddr frame status t)
added-IsQueue pid vaddr frame status n t lt vacant user q = record {
  below = λ i d h. ground (arith, next_position-eq pid n t q, q.below i d);
  unique = λ i j d h k.
      ground (arith, next_position-eq pid n t q, q.unique i j d, q.below i d, q.below j d);
  covered = cover;
}
  where
    cover : (d : ℕ) → d < n + 1 → (i : ℕ) × Holds pid (added pid vaddr frame status t) d i
    cover d h = elim (dec_lt d n) [
      | yes old ↦ let (i, p) = q.covered d old in (i, ground arith)
      | no new ↦ (frame, ground (arith, next_position-eq pid n t q))
    ]

-- Another process's pages are not touched by an addition to a vacant frame.
added-others :
    (pid vaddr frame status p n : ℕ) (t : Table)
    → (t.next_entry frame).pid ≡ no_pid
    → pid ≢ p
    → p ≢ no_pid
    → IsQueue p n t
    → IsQueue p n (added pid vaddr frame status t)
added-others pid vaddr frame status p n t vacant ne user q = record {
  below = λ i d h. ground (arith, q.below i d);
  unique = λ i j d h k. ground (arith, q.unique i j d);
  covered = λ d h. let (i, p) = q.covered d h in (i, ground arith);
}

-- `page_table_add_entry`, with its lock free and a vacant frame, puts the page at the end of the
-- queue of its process: every page that the process had keeps its place, the new one takes the next
-- place, and the queue of any other process stays as it was.
pub page_table_add_entry-IsQueue :
    (pid vaddr frame status n p m : ℕ) (t : Table)
    → t.table_lock ≡ unheld
    → frame < t.length
    → t.length ≤ 0x8_0000
    → (t.next_entry frame).pid ≡ no_pid
    → pid ≢ no_pid
    → IsQueue pid n t
    → p ≢ pid
    → p ≢ no_pid
    → IsQueue p m t
    → Returns (page_table_add_entry pid vaddr (frame * page_size) status t) (λ t'.
      IsQueue pid (n + 1) t'
      × Holds pid t' n frame
      × ((d i : ℕ) → Holds pid t d i → Holds pid t' d i)
      × IsQueue p m t')
page_table_add_entry-IsQueue pid vaddr frame status n p m t free lt small vacant user q ne other r =
    rw add (
      added-IsQueue pid vaddr frame status n t lt vacant user q,
      ground (arith, next_position-eq pid n t q),
      λ d i h. ground arith,
      added-others pid vaddr frame status p m t vacant (λ e. ne (sym e)) other r,
    )
  where
    add :
        page_table_add_entry pid vaddr (frame * page_size) status t
        ≡ ok (added pid vaddr frame status t)
    add = ground (arith, add_unheld t free pid vaddr (frame * page_size) status)

-- One entry after a reset.
removed_at :
    (frame i : ℕ) (t : Table)
    → i < t.length
    → (removed frame t).next_entry i
      ≡ moved_up
          (t.next_entry frame).pid
          (t.next_entry frame).position_fifo
          (if frame == i then cleared (t.next_entry frame) else t.next_entry i)
removed_at frame i t lt = ground (
  arith,
  sweep_at t.length (λ _ e. moved_up (t.next_entry frame).pid (t.next_entry frame).position_fifo e)
      (update t.next_entry frame (cleared (t.next_entry frame))) i,
)

module _ (pid frame k n : ℕ) (t : Table) (user : pid ≢ no_pid) (here : Holds pid t k frame)
    (q : IsQueue pid (suc n) t) where
  before_victim : (d i : ℕ) → d < k → Holds pid t d i → Holds pid (removed frame t) d i
  before_victim d i lt h = ground (arith, removed_at frame i t)

  behind_victim : (d i : ℕ) → k ≤ d → Holds pid t (suc d) i → Holds pid (removed frame t) d i
  behind_victim d i le h = ground (arith, removed_at frame i t)

  -- Where a page that is left stood before.
  came_from :
      (d i : ℕ)
      → Holds pid (removed frame t) d i
      → ((d < k) × Holds pid t d i) ⊎ ((k ≤ d) × Holds pid t (suc d) i)
  came_from d i h = ground (arith, removed_at frame i t, q.unique i frame k)

  removed-IsQueue : IsQueue pid n (removed frame t)
  removed-IsQueue = record {
    below = λ i d h. ground (arith, came_from d i h, q.below i (suc d), q.below frame k here);
    unique = λ i j d h l.
        ground (arith, came_from d i h, came_from d j l, q.unique i j d, q.unique i j (suc d));
    covered = cover;
  }
    where
      cover : (d : ℕ) → d < n → (i : ℕ) × Holds pid (removed frame t) d i
      cover d h = elim (dec_lt d k) [
        | yes lt ↦ let (i, p) = q.covered d (omega arith) in (i, before_victim d i lt p)
        | no ge ↦
            let (i, p) = q.covered (suc d) (omega arith) in (i, behind_victim d i (omega arith) p)
      ]

-- The queues of the other processes survive a reset.
removed-others :
    (pid frame p m : ℕ) (t : Table)
    → frame < t.length
    → (t.next_entry frame).pid ≡ pid
    → pid ≢ p
    → p ≢ no_pid
    → IsQueue p m t
    → IsQueue p m (removed frame t)
removed-others pid frame p m t lt owner ne user q = record {
  below = λ i d h. ground (arith, removed_at frame i t, q.below i d);
  unique = λ i j d h l. ground (arith, removed_at frame i t, removed_at frame j t, q.unique i j d);
  covered = λ d h. let (i, p) = q.covered d h in (i, ground (arith, removed_at frame i t));
}

-- `page_table_reset_entry`, with its lock free, takes one page out of the queue of its process: its
-- frame is vacant, the older pages keep their places, the younger ones move up by one, and the
-- queue of another process stays as it was.
pub page_table_reset_entry-IsQueue :
    (pid frame k n p m : ℕ) (t : Table)
    → t.table_lock ≡ unheld
    → pid ≢ no_pid
    → Holds pid t k frame
    → IsQueue pid (suc n) t
    → p ≢ pid
    → p ≢ no_pid
    → IsQueue p m t
    → Returns (page_table_reset_entry frame t) (λ t'.
      IsQueue pid n t'
      × ((t'.next_entry frame).pid ≡ no_pid)
      × ((d i : ℕ) → d < k → Holds pid t d i → Holds pid t' d i)
      × ((d i : ℕ) → k ≤ d → Holds pid t (suc d) i → Holds pid t' d i)
      × IsQueue p m t')
page_table_reset_entry-IsQueue pid frame k n p m t free user here q ne other r =
    rw (reset_unheld t free frame here.0) (
      removed-IsQueue pid frame k n t user here q,
      ground (arith, removed_at frame frame t),
      before_victim pid frame k n t user here q,
      behind_victim pid frame k n t user here q,
      removed-others pid frame p m t here.0 here.1 (λ e. ne (sym e)) other r,
    )

-- What `page_table_replacement` may answer for a process with `n` pages.
abbrev pub Victim : ℕ → ℕ → Table → Option (ℕ × Entry) → Type 0
Victim pid n t none = n ≡ 0
Victim pid n t (some (i, e)) = Holds pid t 0 i × (e ≡ t.next_entry i)

-- Where the positions of the pages of a process are those of a queue, `page_table_replacement` gives its oldest page,
-- with a copy of the entry; it finds none only if the process has no page in memory.
pub page_table_replacement-Victim :
    (pid n : ℕ) (t : Table) → IsQueue pid n t → Victim pid n t (page_table_replacement pid t)
unfolding page_table_replacement
page_table_replacement-Victim pid n t q =
    go (first_index t.length front) (first_index-FirstIn t.length front)
  where
    front : ℕ → Bool
    front i = (t.next_entry i).position_fifo == 0 && (t.next_entry i).pid == pid

    empty : (n : ℕ) → IsQueue pid n t → ((j : ℕ) → 0 ≤ j → j < t.length → front j ≡ false) → n ≡ 0
    empty zero q h = refl
    empty (suc n) q h = let (i, p) = q.covered 0 (omega arith) in absurd (ground (arith, h i))

    go :
        (o : Option ℕ)
        → FirstIn 0 t.length front o
        → Victim pid n t (elim o [ none ↦ none | some i ↦ some (i, t.next_entry i) ])
    go none h = empty n q h
    go (some i) (a, b, c, d) = ((b, ground arith, ground arith), refl)
