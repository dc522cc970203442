-- ===== src/Migration/Balance.antt =====
-- `thread_consider_migration` as a whole: what becomes of the threads, the shares and the locks.
use sdp_project_c.Common.{
  ℕ, zero, suc, ◌+◌, ◌-◌, ◌≤◌, ◌<◌, ◌≡◌, refl, sym, ◌∙◌, ap, subst, ◌≢◌, inr, Bool, true, false, ok,
  ◌>>=◌, Returns, Returns-map, Returns-bind, arith, ltb, ◌==◌, if◌then◌else◌, List, [], ◌∷◌, ◌++◌,
  length, occurrences, occurrences-append, total, total-update, update,
}
use sdp_project_c.Spinlock.{unheld, spinlock_acquire, spinlock_release}
use sdp_project_c.Migration.{
  Cpus, div_round_up, count_threads, give_all, put_back, take_victims, send_away,
  thread_consider_migration,
}
use sdp_project_c.Migration.Victims.{take_victims-Parts}
use sdp_project_c.Migration.Shares.{kept, Shared}
use sdp_project_c.Migration.Rounds.{update-unheld, give_all-Gave}

-- The locks are free one after another, and the count is the sum.
pub count_threads-total :
    (n : ℕ) (c : Cpus)
    → ((j : ℕ) → j < n → c.c_runqueue_lock j ≡ unheld)
    → count_threads n c ≡ ok (total n (λ j. length (c.c_runqueue j)))
unfolding count_threads total spinlock_acquire spinlock_release
count_threads-total zero c free = refl
count_threads-total (suc n) c free =
    rw (count_threads-total n c (λ j l. free j (omega arith))) (rw (free n (omega arith)) refl)

-- The victims that are left are back, on the processor's own queue.
pub record Back (self : ℕ) (victims : List ℕ) (c c' : Cpus) : Type 0 where
  pub numcpus : c'.numcpus ≡ c.numcpus
  pub locks : (j : ℕ) → c.c_runqueue_lock j ≡ unheld → c'.c_runqueue_lock j ≡ unheld
  pub kept_same : (u : ℕ) → kept u [] c' ≡ kept u victims c
  pub others : (j : ℕ) → j ≢ self → c'.c_runqueue j ≡ c.c_runqueue j

update-other :
    (i : ℕ) (queues : ℕ → List ℕ) (queue : List ℕ) (j : ℕ)
    → j ≢ i
    → update queues i queue j ≡ queues j
update-other i queues queue j ne =
    let differs : (i == j) ≡ false = ground (arith, ne) in rw differs refl

pub put_back-Back :
    (self : ℕ) (victims : List ℕ) (c : Cpus)
    → self < c.numcpus
    → c.c_runqueue_lock self ≡ unheld
    → Returns (put_back self victims c) (Back self victims c)
unfolding put_back occurrences spinlock_acquire spinlock_release
put_back-Back self [] c lt free = record {
  numcpus = refl;
  locks = λ j l. l;
  kept_same = λ u. refl;
  others = λ j ne. refl;
}
put_back-Back self (t ∷ ts) c lt free = rw free (record {
  numcpus = refl;
  locks = λ j l. update-unheld self c.c_runqueue_lock j l;
  kept_same = λ u. omega (
    arith,
    total-update c.numcpus self (occurrences u) c.c_runqueue (c.c_runqueue self ++ (t ∷ ts)) lt,
    occurrences-append u (c.c_runqueue self) (t ∷ ts),
  );
  others = λ j ne. update-other self c.c_runqueue (c.c_runqueue self ++ (t ∷ ts)) j ne;
})

-- One processor's share of the threads that wait.
abbrev pub share : Cpus → ℕ
share c = div_round_up (total c.numcpus (λ j. length (c.c_runqueue j))) c.numcpus

-- What the migration keeps and brings about.
pub record Balanced (self cur one_share : ℕ) (c c' : Cpus) : Type 0 where
  pub numcpus : c'.numcpus ≡ c.numcpus
  pub locks : (j : ℕ) → j < c.numcpus → c'.c_runqueue_lock j ≡ unheld
  pub conserved :
      (u : ℕ)
      → total c.numcpus (λ j. occurrences u (c'.c_runqueue j))
        ≡ total c.numcpus (λ j. occurrences u (c.c_runqueue j))
  pub shares : (j : ℕ) → j ≢ self → Shared one_share (c.c_runqueue j) (c'.c_runqueue j)
  pub not_cur :
      (j : ℕ) → j ≢ self → occurrences cur (c'.c_runqueue j) ≡ occurrences cur (c.c_runqueue j)

-- The processor's own victims are taken, given and put back.
pub send_away-Balanced :
    (self cur one_share n : ℕ) (c : Cpus)
    → self < c.numcpus
    → n ≤ length (c.c_runqueue self)
    → ((j : ℕ) → j < c.numcpus → c.c_runqueue_lock j ≡ unheld)
    → Returns (send_away self cur one_share n c) (Balanced self cur one_share c)
unfolding send_away occurrences spinlock_acquire spinlock_release
send_away-Balanced self cur one_share n c lt le free = rw (free self lt) (
    Returns-bind _ _ (take_victims n (c.c_runqueue self) []) _
      (take_victims-Parts n (c.c_runqueue self) [] le) (λ r h. given r.0 r.1 h.0 h.1))
  where
    without_victims : List ℕ → Cpus
    without_victims queue = record c {
      c_runqueue = update c.c_runqueue self queue;
      c_runqueue_lock = update c.c_runqueue_lock self unheld;
    }

    given :
        (queue victims : List ℕ)
        → length victims ≡ 0 + n
        → ((u : ℕ)
            → occurrences u queue + occurrences u victims ≡ occurrences u (c.c_runqueue self) + 0)
        → Returns
            (give_all self one_share cur c.numcpus 0 n victims (without_victims queue) >>= λ r.
              put_back self r.0 r.1)
            (Balanced self cur one_share c)
    given queue victims len same =
        Returns-bind _ _ (give_all self one_share cur c.numcpus 0 n victims (without_victims queue))
          _
          (give_all-Gave self one_share cur c.numcpus 0 n victims (without_victims queue)
            (omega arith) (λ j l. update-unheld self c.c_runqueue_lock j (free j l))
            (omega (arith, len)))
          (λ r g.
            Returns-map _ _ (put_back self r.0 r.1)
              (λ c' b. record {
                numcpus = b.numcpus ∙ g.numcpus;
                locks = λ j l.
                    b.locks j (g.locks j (update-unheld self c.c_runqueue_lock j (free j l)));
                conserved = λ u. omega (
                  arith,
                  ap (λ m. total m (λ j. occurrences u (c'.c_runqueue j))) (b.numcpus ∙ g.numcpus),
                  b.kept_same u,
                  g.kept_same u,
                  same u,
                  total-update c.numcpus self (occurrences u) c.c_runqueue queue lt,
                );
                shares = λ j ne.
                    subst (λ q. Shared one_share (c.c_runqueue j) q) (sym (b.others j ne))
                      (subst (λ q. Shared one_share q (r.1.c_runqueue j))
                        (update-other self c.c_runqueue queue j ne) (g.shares j));
                not_cur = λ j ne.
                    ap (occurrences cur) (b.others j ne)
                    ∙ g.not_cur j
                    ∙ ap (occurrences cur) (update-other self c.c_runqueue queue j ne);
              })
              (put_back-Back self r.0 r.1 (omega (arith, g.numcpus))
                (g.locks self (update-unheld self c.c_runqueue_lock self (free self lt)))))

-- With the locks of all run queues free, `thread_consider_migration` follows no NULL and returns: every thread is on
-- the run queues as often as before, the queue of another processor is as it was or is one share of the threads at
-- most, the current thread has come to no other processor, and the locks are free again.
pub thread_consider_migration-Balanced :
    (self cur : ℕ) (c : Cpus)
    → self < c.numcpus
    → ((j : ℕ) → j < c.numcpus → c.c_runqueue_lock j ≡ unheld)
    → Returns (thread_consider_migration self cur c) (Balanced self cur (share c) c)
unfolding thread_consider_migration
thread_consider_migration-Balanced self cur c lt free =
    rw (count_threads-total c.numcpus c free) (decided (ltb (length (c.c_runqueue self)) (share c)))
  where
    decided :
        (b : Bool)
        → Returns
            (if b
              then ok c
              else send_away self cur (share c) (length (c.c_runqueue self) - share c) c)
            (Balanced self cur (share c) c)
    decided true = record {
      numcpus = refl;
      locks = free;
      conserved = λ u. refl;
      shares = λ j ne. inr refl;
      not_cur = λ j ne. refl;
    }
    decided false =
        send_away-Balanced self cur (share c) (length (c.c_runqueue self) - share c) c lt
          (omega arith) free
