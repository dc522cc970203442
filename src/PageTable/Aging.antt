-- ===== src/PageTable/Aging.antt =====
-- The table before the first page, and `lru_update_cnt`, which `hardclock` calls on every tick.
use sdp_project_c.Common.{
  ℕ, ◌/◌, ◌<◌, ◌≡◌, refl, ◌≢◌, Bool, true, ◌&&◌, Option, none, some, Returns, arith, ◌==◌, sweep,
  sweep_at, first_index, first_index-FirstIn, FirstIn, page_size,
}
use sdp_project_c.Spinlock.{unheld, spinlock_init, spinlock_acquire, spinlock_release}
use sdp_project_c.PageTable.Locked.{lru_unheld}
use sdp_project_c.PageTable.Fifo.{IsQueue}
use sdp_project_c.PageTable.{
  Entry, Table, no_pid, aged, cleared, lru_update_cnt, page_table_init, page_table_replacement,
}

-- The fresh table has an entry for each frame of memory, a free lock, and an empty queue for every
-- process, whatever the array held.
pub page_table_init-IsQueue :
    (ramsize : ℕ) (raw : ℕ → Entry)
    → Returns (page_table_init ramsize true raw) (λ t.
      (t.length ≡ ramsize / page_size)
      × (t.table_lock ≡ unheld)
      × ((pid : ℕ) → pid ≢ no_pid → IsQueue pid 0 t))
unfolding page_table_init spinlock_init spinlock_acquire spinlock_release
page_table_init-IsQueue ramsize raw = (
  refl,
  refl,
  λ pid user. record {
    below =
        λ i d h. absurd (ground (arith, sweep_at (ramsize / page_size) (λ _ e. cleared e) raw i));
    unique = λ i j d h k.
        absurd (ground (arith, sweep_at (ramsize / page_size) (λ _ e. cleared e) raw i));
    covered = λ d h. absurd (omega arith);
  },
)

-- After a tick of the clock, where the lock of the table is free and no position has reached the greatest `int`,
-- `page_table_replacement` finds no victim for the process, however many pages it has: none stands at place 0.
pub lru_update_cnt_hides_victims :
    (pid : ℕ) (t : Table)
    → t.table_lock ≡ unheld
    → pid ≢ no_pid
    → ((i : ℕ) → i < t.length → (t.next_entry i).position_fifo < 0x7fff_ffff)
    → Returns
        (lru_update_cnt (some t))
        (λ o. (t' : Table) × (o ≡ some t') × (page_table_replacement pid t' ≡ none))
unfolding page_table_replacement
lru_update_cnt_hides_victims pid t free user small =
    rw (lru_unheld t free) (_, refl, go (first_index t.length _) (first_index-FirstIn t.length _))
  where
    entries : ℕ → Entry
    entries = sweep t.length (λ _ e. aged e) t.next_entry

    front : ℕ → Bool
    front i = (entries i).position_fifo == 0 && (entries i).pid == pid

    go :
        (o : Option ℕ)
        → FirstIn 0 t.length front o
        → ◌≡◌ {A = Option (ℕ × Entry)} (elim o [ none ↦ none | some i ↦ some (i, entries i) ]) none
    go none h = refl
    go (some i) (a, b, c, d) =
        absurd (ground (arith, sweep_at t.length (λ _ e. aged e) t.next_entry i, small i))
