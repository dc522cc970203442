-- ===== src/Migration/Shares.antt =====
-- The processors' shares of the threads that wait to run.
use sdp_project_c.Common.{
  ℕ, ◌+◌, ◌≤◌, ◌<◌, ◌≡◌, refl, ◌∙◌, subst, ◌⊎◌, inl, inr, true, false, arith, ltb, ◌==◌, List, [],
  ◌∷◌, ◌++◌, length, occurrences, occurrences-append, ℕ_discrete, length-append, total,
  total-update, update,
}
use sdp_project_c.Spinlock.{unheld}
use sdp_project_c.Migration.{Cpus, migrate}

-- How often a thread is on the victims' list and the run queues.
abbrev pub kept : ℕ → List ℕ → Cpus → ℕ
kept u victims c = occurrences u victims + total c.numcpus (λ j. occurrences u (c.c_runqueue j))

-- A queue that has not grown, or has grown to one share at most.
abbrev pub Shared : ℕ → List ℕ → List ℕ → Type 0
Shared one_share queue queue' = (length queue' ≤ one_share) ⊎ (queue' ≡ queue)

-- What the giving of victims keeps: `to_send` of them are there, none is lost or doubled, `cur` goes nowhere, the
-- other queues grow to one share at most, and the locks are as before.
pub record Gave (self one_share cur to_send : ℕ) (victims : List ℕ) (c : Cpus) (victims' : List ℕ)
    (c' : Cpus) : Type 0 where
  pub numcpus : c'.numcpus ≡ c.numcpus
  pub locks : (j : ℕ) → c.c_runqueue_lock j ≡ unheld → c'.c_runqueue_lock j ≡ unheld
  pub enough : to_send ≤ length victims'
  pub kept_same : (u : ℕ) → kept u victims' c' ≡ kept u victims c
  pub own : c'.c_runqueue self ≡ c.c_runqueue self
  pub shares : (j : ℕ) → Shared one_share (c.c_runqueue j) (c'.c_runqueue j)
  pub not_cur : (j : ℕ) → occurrences cur (c'.c_runqueue j) ≡ occurrences cur (c.c_runqueue j)

pub Gave-refl :
    (self one_share cur to_send : ℕ) (victims : List ℕ) (c : Cpus)
    → to_send ≤ length victims
    → Gave self one_share cur to_send victims c victims c
Gave-refl self one_share cur to_send victims c le = record {
  numcpus = refl;
  locks = λ j h. h;
  enough = le;
  kept_same = λ u. refl;
  own = refl;
  shares = λ j. inr refl;
  not_cur = λ j. refl;
}

-- A migration of a thread that is not `cur`, to a queue below one share.
pub Gave-migrate :
    (self one_share cur n i t : ℕ) (ts : List ℕ) (c : Cpus)
    → n ≤ length ts
    → i < c.numcpus
    → (i == self) ≡ false
    → (t == cur) ≡ false
    → ltb (length (c.c_runqueue i)) one_share ≡ true
    → Gave self one_share cur n (t ∷ ts) c ts (migrate i t c)
unfolding occurrences
Gave-migrate self one_share cur n i t ts c le lt apart other below = record {
  numcpus = refl;
  locks = λ j h. h;
  enough = le;
  kept_same = λ u. omega (
    arith,
    total-update c.numcpus i (occurrences u) c.c_runqueue (c.c_runqueue i ++ (t ∷ [])) lt,
    occurrences-append u (c.c_runqueue i) (t ∷ []),
  );
  own = rw apart refl;
  shares = λ j. shares_at j;
  not_cur = λ j. not_cur_at j;
}
  where
    shares_at :
        (j : ℕ)
        → Shared one_share (c.c_runqueue j) (update c.c_runqueue i (c.c_runqueue i ++ (t ∷ [])) j)
    shares_at j = elim (ℕ_discrete i j) [
      | yes here ↦
          let same : (i == j) ≡ true = ground arith in
          inl (rw same ground (arith, below, length-append (c.c_runqueue i) (t ∷ [])))
      | no elsewhere ↦ let differs : (i == j) ≡ false = ground arith in inr (rw differs refl)
    ]

    not_cur_at :
        (j : ℕ)
        → occurrences cur (update c.c_runqueue i (c.c_runqueue i ++ (t ∷ [])) j)
          ≡ occurrences cur (c.c_runqueue j)
    not_cur_at j = elim (ℕ_discrete i j) [
      | yes here ↦
          let same : (i == j) ≡ true = ground arith in
          rw same (
            subst
              (λ k. occurrences cur (c.c_runqueue i ++ (t ∷ [])) ≡ occurrences cur (c.c_runqueue k))
              here (ground (arith, other, occurrences-append cur (c.c_runqueue i) (t ∷ []))))
      | no elsewhere ↦ let differs : (i == j) ≡ false = ground arith in rw differs refl
    ]

-- The victim that is `cur` goes to the end of the list.
pub Gave-skip :
    (self one_share cur n t : ℕ) (ts : List ℕ) (c : Cpus)
    → n ≤ length ts
    → Gave self one_share cur n (t ∷ ts) c (ts ++ (t ∷ [])) c
unfolding occurrences
Gave-skip self one_share cur n t ts c le = record {
  numcpus = refl;
  locks = λ j h. h;
  enough = omega (arith, length-append ts (t ∷ []));
  kept_same = λ u. omega (arith, occurrences-append u ts (t ∷ []));
  own = refl;
  shares = λ j. inr refl;
  not_cur = λ j. refl;
}

Shared-then :
    (one_share : ℕ) (p q r : List ℕ)
    → Shared one_share p q
    → Shared one_share q r
    → Shared one_share p r
Shared-then one_share p q r h (inl le) = inl le
Shared-then one_share p q r (inl le) (inr same) = inl (rw same le)
Shared-then one_share p q r (inr e) (inr same) = inr (same ∙ e)

-- One giving after another.
pub Gave-then :
    (self one_share cur n n' : ℕ) (v v' v'' : List ℕ) (c c' c'' : Cpus)
    → Gave self one_share cur n v c v' c'
    → Gave self one_share cur n' v' c' v'' c''
    → Gave self one_share cur n' v c v'' c''
Gave-then self one_share cur n n' v v' v'' c c' c'' h k = record {
  numcpus = k.numcpus ∙ h.numcpus;
  locks = λ j l. k.locks j (h.locks j l);
  enough = k.enough;
  kept_same = λ u. k.kept_same u ∙ h.kept_same u;
  own = k.own ∙ h.own;
  shares = λ j.
      Shared-then one_share (c.c_runqueue j) (c'.c_runqueue j) (c''.c_runqueue j) (h.shares j)
        (k.shares j);
  not_cur = λ j. k.not_cur j ∙ h.not_cur j;
}
