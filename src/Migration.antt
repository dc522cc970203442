-- ===== src/Migration.antt =====
-- `thread_consider_migration` of kern/thread/thread.c: the processors share out the threads that wait to run. A
-- run queue is its sequence, as ThreadList refines it; the other processors do nothing meanwhile.
use sdp_project_c.Common.{
  ℕ, zero, suc, ◌+◌, ◌-◌, ◌/◌, Bool, true, false, Option, none, some, Result, ok, err, ◌>>=◌, ◌>>◌,
  require, out_of_bounds, assertion, ltb, ◌==◌, if◌then◌else◌, update, List, [], ◌∷◌, ◌++◌, length,
}
use sdp_project_c.Spinlock.{Spinlock, spinlock_acquire, spinlock_release}
pub mod Victims
pub mod Shares
pub mod Rounds
pub mod Balance
mod Tests

-- `allcpus`, with `t_cpu` of the threads, and the processors that `ipi_send` has woken, the last one first.
pub record Cpus : Type 0 where
  pub numcpus : ℕ
  pub c_runqueue : ℕ → List ℕ
  pub c_runqueue_lock : ℕ → Spinlock
  pub c_isidle : ℕ → Bool
  pub t_cpu : ℕ → ℕ
  pub unidled : List ℕ

-- The loop that counts the threads on the first `n` run queues.
pub count_threads : ℕ → Cpus → Result ℕ
count_threads zero c = ok 0
count_threads (suc n) c = do
  total_count ← count_threads n c
  lock ← spinlock_acquire (c.c_runqueue_lock n)
  lock' ← spinlock_release lock
  ok (total_count + length (c.c_runqueue n))

-- `DIVROUNDUP`
abbrev pub div_round_up : ℕ → ℕ → ℕ
div_round_up a b = (a + b - 1) / b

-- `threadlist_remtail`
pub remtail : List ℕ → Option (ℕ × List ℕ)
remtail [] = none
remtail (t ∷ ts) = elim (remtail ts) [ none ↦ some (t, []) | some (l, rest) ↦ some (l, t ∷ rest) ]

-- The loop that takes `to_send` threads off the queue: what is left of it, and the victims.
pub take_victims : ℕ → List ℕ → List ℕ → Result (List ℕ × List ℕ)
unfolding remtail
take_victims zero queue victims = ok (queue, victims)
take_victims (suc n) queue victims = elim (remtail queue) [
  | none ↦ err out_of_bounds
  | some (t, queue') ↦ take_victims n queue' (t ∷ victims)
]

-- The thread `t` goes to processor `i`.
abbrev pub migrate : ℕ → ℕ → Cpus → Cpus
migrate i t c = record c {
  c_runqueue = update c.c_runqueue i (c.c_runqueue i ++ (t ∷ []));
  t_cpu = update c.t_cpu t i;
  unidled = if c.c_isidle i then i ∷ c.unidled else c.unidled;
}

-- The `while` loop for the processor `i`, under its lock: how many threads are still to send, and the victims.
pub give : ℕ → ℕ → ℕ → ℕ → List ℕ → Cpus → Result (ℕ × List ℕ × Cpus)
give i one_share cur zero victims c = ok (0, victims, c)
give i one_share cur (suc n) victims c = elim (ltb (length (c.c_runqueue i)) one_share) [
  | false ↦ ok (suc n, victims, c)
  | true ↦ elim victims [
    | [] ↦ err out_of_bounds
    | t ∷ ts ↦ elim (t == cur) [
      | true ↦ give i one_share cur n (ts ++ (t ∷ [])) c
      | false ↦ give i one_share cur n ts (migrate i t c)
    ]
  ]
]

-- The round of the loop for the processor `i`.
pub serve : ℕ → ℕ → ℕ → ℕ → List ℕ → Cpus → Result (ℕ × List ℕ × Cpus)
unfolding give
serve i one_share cur to_send victims c = do
  lock ← spinlock_acquire (c.c_runqueue_lock i)
  (to_send', victims', c') ← give i one_share cur to_send victims c
  lock' ← spinlock_release lock
  ok (to_send', victims', record c' { c_runqueue_lock = update c'.c_runqueue_lock i lock' })

-- The loop over the processors from `i` on, of which `left` are left.
pub give_all : ℕ → ℕ → ℕ → ℕ → ℕ → ℕ → List ℕ → Cpus → Result (List ℕ × Cpus)
unfolding serve
give_all self one_share cur zero i to_send victims c = ok (victims, c)
give_all self one_share cur (suc left) i to_send victims c = elim (to_send == 0) [
  | true ↦ ok (victims, c)
  | false ↦ elim (i == self) [
    | true ↦ give_all self one_share cur left (i + 1) to_send victims c
    | false ↦ do
      (to_send', victims', c') ← serve i one_share cur to_send victims c
      give_all self one_share cur left (i + 1) to_send' victims' c'
  ]
]

-- What is left goes back on the processor's own run queue.
pub put_back : ℕ → List ℕ → Cpus → Result Cpus
put_back self [] c = ok c
put_back self (t ∷ ts) c = do
  lock ← spinlock_acquire (c.c_runqueue_lock self)
  lock' ← spinlock_release lock
  ok (record c {
    c_runqueue = update c.c_runqueue self (c.c_runqueue self ++ (t ∷ ts));
    c_runqueue_lock = update c.c_runqueue_lock self lock';
  })

-- What follows when this processor has its share or more: `to_send` threads are taken and given.
pub send_away : ℕ → ℕ → ℕ → ℕ → Cpus → Result Cpus
unfolding take_victims give_all put_back
send_away self cur one_share to_send c = do
  lock ← spinlock_acquire (c.c_runqueue_lock self)
  (queue, victims) ← take_victims to_send (c.c_runqueue self) []
  lock' ← spinlock_release lock
  (victims', c') ← give_all self one_share cur c.numcpus 0 to_send victims (record c {
    c_runqueue = update c.c_runqueue self queue;
    c_runqueue_lock = update c.c_runqueue_lock self lock';
  })
  put_back self victims' c'

-- `thread_consider_migration` of the processor `self` in the thread `cur`.
pub thread_consider_migration : ℕ → ℕ → Cpus → Result Cpus
unfolding count_threads send_away
thread_consider_migration self cur c = do
  total_count ← count_threads c.numcpus c
  let my_count = length (c.c_runqueue self)
  let one_share = div_round_up total_count c.numcpus
  if ltb my_count one_share then ok c else send_away self cur one_share (my_count - one_share) c
