-- ===== src/Migration/Rounds.antt =====
-- The rounds of the giving: for one processor, and for all of them.
use sdp_project_c.Common.{
  ℕ, zero, suc, ◌+◌, ◌≤◌, ◌<◌, ◌≡◌, refl, Bool, true, false, ok, ◌>>=◌, Returns, Returns-map,
  Returns-bind, arith, ltb, ◌==◌, if◌then◌else◌, List, [], ◌∷◌, ◌++◌, length, length-append, update,
}
use sdp_project_c.Spinlock.{Spinlock, unheld, spinlock_acquire, spinlock_release}
use sdp_project_c.Migration.{Cpus, migrate, give, serve, give_all}
use sdp_project_c.Migration.Shares.{Gave, Gave-refl, Gave-migrate, Gave-skip, Gave-then}

-- The victims for one processor.
pub give-Gave :
    (self i one_share cur n : ℕ) (victims : List ℕ) (c : Cpus)
    → i < c.numcpus
    → (i == self) ≡ false
    → n ≤ length victims
    → Returns
        (give i one_share cur n victims c)
        (λ r. Gave self one_share cur r.0 victims c r.1 r.2)
unfolding give
give-Gave self i one_share cur zero victims c lt apart le =
    Gave-refl self one_share cur 0 victims c le
give-Gave self i one_share cur (suc n) [] c lt apart le = absurd (omega arith)
give-Gave self i one_share cur (suc n) (t ∷ ts) c lt apart le =
    room (λ v c' lt' le'. give-Gave self i one_share cur n v c' lt' apart le')
      (ltb (length (c.c_runqueue i)) one_share) refl
  where
    post : List ℕ → Cpus → ℕ × List ℕ × Cpus → Type 0
    post v c' r = Gave self one_share cur r.0 v c' r.1 r.2

    chosen :
        ((v : List ℕ) (c' : Cpus)
          → i < c'.numcpus
          → n ≤ length v
          → Returns (give i one_share cur n v c') (post v c'))
        → ltb (length (c.c_runqueue i)) one_share ≡ true
        → (b : Bool) → (t == cur) ≡ b
        → Returns
            (elim b [
              | true ↦ give i one_share cur n (ts ++ (t ∷ [])) c
              | false ↦ give i one_share cur n ts (migrate i t c)
            ])
            (post (t ∷ ts) c)
    chosen next below true same =
        Returns-map _ _ (give i one_share cur n (ts ++ (t ∷ [])) c)
          (λ r h.
            Gave-then self one_share cur n r.0 _ _ _ c c r.2
              (Gave-skip self one_share cur n t ts c (omega arith)) h)
          (next (ts ++ (t ∷ [])) c lt (omega (arith, length-append ts (t ∷ []))))
    chosen next below false other =
        Returns-map _ _ (give i one_share cur n ts (migrate i t c))
          (λ r h.
            Gave-then self one_share cur n r.0 _ _ _ c (migrate i t c) r.2
              (Gave-migrate self one_share cur n i t ts c (omega arith) lt apart other below) h)
          (next ts (migrate i t c) lt (omega arith))

    room :
        ((v : List ℕ) (c' : Cpus)
          → i < c'.numcpus
          → n ≤ length v
          → Returns (give i one_share cur n v c') (post v c'))
        → (b : Bool) → ltb (length (c.c_runqueue i)) one_share ≡ b
        → Returns
            (elim b [
              | false ↦ ok (suc n, t ∷ ts, c)
              | true ↦ elim (t == cur) [
                | true ↦ give i one_share cur n (ts ++ (t ∷ [])) c
                | false ↦ give i one_share cur n ts (migrate i t c)
              ]
            ])
            (post (t ∷ ts) c)
    room next false full = Gave-refl self one_share cur (suc n) (t ∷ ts) c le
    room next true below = chosen next below (t == cur) refl

-- A lock released.
pub update-unheld :
    (i : ℕ) (locks : ℕ → Spinlock) (j : ℕ) → locks j ≡ unheld → update locks i unheld j ≡ unheld
update-unheld i locks j l = elim (i == j) as (λ b. (if b then unheld else locks j) ≡ unheld) [
  | true ↦ refl
  | false ↦ l
]

-- The round for one processor, with its lock free.
pub serve-Gave :
    (self i one_share cur n : ℕ) (victims : List ℕ) (c : Cpus)
    → i < c.numcpus
    → (i == self) ≡ false
    → c.c_runqueue_lock i ≡ unheld
    → n ≤ length victims
    → Returns
        (serve i one_share cur n victims c)
        (λ r. Gave self one_share cur r.0 victims c r.1 r.2)
unfolding serve spinlock_acquire spinlock_release
serve-Gave self i one_share cur n victims c lt apart free le = rw free (
    Returns-bind _ _ (give i one_share cur n victims c) _
      (give-Gave self i one_share cur n victims c lt apart le)
      (λ r h. record {
        numcpus = h.numcpus;
        locks = λ j l. update-unheld i r.2.c_runqueue_lock j (h.locks j l);
        enough = h.enough;
        kept_same = h.kept_same;
        own = h.own;
        shares = h.shares;
        not_cur = h.not_cur;
      }))

pub give_all-Gave :
    (self one_share cur left i n : ℕ) (victims : List ℕ) (c : Cpus)
    → i + left ≡ c.numcpus
    → ((j : ℕ) → j < c.numcpus → c.c_runqueue_lock j ≡ unheld)
    → n ≤ length victims
    → Returns
        (give_all self one_share cur left i n victims c)
        (λ r. Gave self one_share cur 0 victims c r.0 r.1)
unfolding give_all
give_all-Gave self one_share cur zero i n victims c all free le =
    Gave-refl self one_share cur 0 victims c (omega arith)
give_all-Gave self one_share cur (suc left) i n victims c all free le =
    sending (λ n' v c' a f l. give_all-Gave self one_share cur left (i + 1) n' v c' a f l) (n == 0)
      (i == self) refl
  where
    Next : Type 0
    Next =
        (n' : ℕ) (v : List ℕ) (c' : Cpus)
        → i + 1 + left ≡ c'.numcpus
        → ((j : ℕ) → j < c'.numcpus → c'.c_runqueue_lock j ≡ unheld)
        → n' ≤ length v
        → Returns (give_all self one_share cur left (i + 1) n' v c')
            (λ r. Gave self one_share cur 0 v c' r.0 r.1)

    sending :
        Next
        → (b o : Bool) → (i == self) ≡ o
        → Returns
            (elim b [
              | true ↦ ok (victims, c)
              | false ↦ elim o [
                | true ↦ give_all self one_share cur left (i + 1) n victims c
                | false ↦ do
                  (to_send', victims', c') ← serve i one_share cur n victims c
                  give_all self one_share cur left (i + 1) to_send' victims' c'
              ]
            ])
            (λ r. Gave self one_share cur 0 victims c r.0 r.1)
    sending next true o e = Gave-refl self one_share cur 0 victims c (omega arith)
    sending next false true e = next n victims c (omega arith) free le
    sending next false false e =
        Returns-bind _ _ (serve i one_share cur n victims c) _
          (serve-Gave self i one_share cur n victims c (omega arith) e (free i (omega arith)) le)
          (λ r h.
            Returns-map _ _ (give_all self one_share cur left (i + 1) r.0 r.1 r.2)
              (λ r' k. Gave-then self one_share cur r.0 0 _ _ _ c r.2 r'.1 h k)
              (next r.0 r.1 r.2 (omega (arith, h.numcpus))
                (λ j l. h.locks j (free j (omega (arith, h.numcpus)))) h.enough))
