-- ===== src/ThreadList/Order.antt =====
-- The list as a sequence of threads.
use sdp_project_c.Common.{
  ℕ, ◌+◌, ◌-◌, ◌≤◌, ◌<◌, ◌≡◌, ◌≢◌, none, some, arith, ltb, leb, ◌==◌, if◌then◌else◌, update, u32,
  sub_u32,
}
use sdp_project_c.ThreadList.{ThreadList, tl_head, tl_tail}

-- The list has `n` threads: `node` gives its nodes in order, from `tl_head`, place 0, to `tl_tail`, place
-- `n + 1`, all different, and each is linked with the next in both directions.
pub record IsList (n : ℕ) (node : ℕ → ℕ) (l : ThreadList) : Type 0 where
  pub head : node 0 ≡ tl_head
  pub tail : node (n + 1) ≡ tl_tail
  pub next : (i : ℕ) → i ≤ n → l.tln_next (node i) ≡ some (node (i + 1))
  pub prev : (i : ℕ) → i ≤ n → l.tln_prev (node (i + 1)) ≡ some (node i)
  pub first : l.tln_prev tl_head ≡ none
  pub last : l.tln_next tl_tail ≡ none
  pub distinct : (i j : ℕ) → i ≤ n + 1 → j ≤ n + 1 → node i ≡ node j → i ≡ j
  pub count : l.tl_count ≡ n
  pub small : n < 0xffff_ffff

-- The sequence with `x` after place `g`, and without place `g`.
abbrev pub insert : ℕ → ℕ → (ℕ → ℕ) → ℕ → ℕ
insert g x node i = if leb i g then node i else (if i == g + 1 then x else node (i - 1))

abbrev pub delete : ℕ → (ℕ → ℕ) → ℕ → ℕ
delete g node i = if ltb i g then node i else node (i + 1)

-- Node `x` between its neighbours `a` and `b`.
abbrev pub spliced : ℕ → ℕ → ℕ → ThreadList → ThreadList
spliced a x b l = record l {
  tln_next = update (update l.tln_next x (some b)) a (some x);
  tln_prev = update (update l.tln_prev x (some a)) b (some x);
  tl_count = u32 (l.tl_count + 1);
}

module _ (n g x : ℕ) (node : ℕ → ℕ) (l : ThreadList) (h : IsList n node l) (within : g ≤ n)
    (fresh : (i : ℕ) → i ≤ n + 1 → node i ≢ x) (room : n + 1 < 0xffff_ffff) where
  spliced-next :
      (i : ℕ)
      → i ≤ n + 1
      → (spliced (node g) x (node (g + 1)) l).tln_next (insert g x node i)
        ≡ some (insert g x node (i + 1))
  spliced-next i le = ground (
    arith,
    h.next i,
    h.next (i - 1),
    h.distinct i g,
    h.distinct (i - 1) g,
    fresh i,
    fresh (i - 1),
    fresh g,
  )

  spliced-prev :
      (i : ℕ)
      → i ≤ n + 1
      → (spliced (node g) x (node (g + 1)) l).tln_prev (insert g x node (i + 1))
        ≡ some (insert g x node i)
  spliced-prev i le = ground (
    arith,
    h.prev i,
    h.prev (i - 1),
    h.distinct (i + 1) (g + 1),
    h.distinct i (g + 1),
    fresh i,
    fresh (i + 1),
    fresh (g + 1),
  )

  insert-distinct :
      (i j : ℕ) → i ≤ n + 1 + 1 → j ≤ n + 1 + 1 → insert g x node i ≡ insert g x node j → i ≡ j
  insert-distinct i j p q e = ground (
    arith,
    h.distinct i j,
    h.distinct (i - 1) j,
    h.distinct i (j - 1),
    h.distinct (i - 1) (j - 1),
    fresh i,
    fresh j,
    fresh (i - 1),
    fresh (j - 1),
  )

  pub spliced-IsList : IsList (n + 1) (insert g x node) (spliced (node g) x (node (g + 1)) l)
  spliced-IsList = record {
    head = ground (arith, h.head);
    tail = ground (arith, h.tail);
    next = spliced-next;
    prev = spliced-prev;
    first = ground (arith, h.first, h.head, fresh 0, h.distinct 0 (g + 1));
    last = ground (arith, h.last, h.tail, fresh (n + 1), h.distinct (n + 1) g);
    distinct = insert-distinct;
    count = omega (arith, h.count);
    small = room;
  }

-- Node `x` taken out from between `a` and `b`.
abbrev pub unspliced : ℕ → ℕ → ℕ → ThreadList → ThreadList
unspliced a x b l = record l {
  tln_next = update (update l.tln_next a (some b)) x none;
  tln_prev = update (update l.tln_prev b (some a)) x none;
  tl_count = sub_u32 l.tl_count 1;
}

module _ (n p : ℕ) (node : ℕ → ℕ) (l : ThreadList) (h : IsList (n + 1) node l)
    (within : p ≤ n) where
  unspliced-next :
      (i : ℕ)
      → i ≤ n
      → (unspliced (node p) (node (p + 1)) (node (p + 1 + 1)) l).tln_next (delete (p + 1) node i)
        ≡ some (delete (p + 1) node (i + 1))
  unspliced-next i le = ground (
    arith,
    h.next i,
    h.next (i + 1),
    h.distinct i (p + 1),
    h.distinct (i + 1) (p + 1),
    h.distinct i p,
    h.distinct (i + 1) p,
  )

  unspliced-prev :
      (i : ℕ)
      → i ≤ n
      → (unspliced (node p) (node (p + 1)) (node (p + 1 + 1)) l).tln_prev
          (delete (p + 1) node (i + 1))
        ≡ some (delete (p + 1) node i)
  unspliced-prev i le = ground (
    arith,
    h.prev i,
    h.prev (i + 1),
    h.distinct (i + 1) (p + 1),
    h.distinct (i + 2) (p + 1),
    h.distinct (i + 1) (p + 2),
    h.distinct (i + 2) (p + 2),
  )

  delete-distinct :
      (i j : ℕ) → i ≤ n + 1 → j ≤ n + 1 → delete (p + 1) node i ≡ delete (p + 1) node j → i ≡ j
  delete-distinct i j a b e = ground (
    arith,
    h.distinct i j,
    h.distinct (i + 1) j,
    h.distinct i (j + 1),
    h.distinct (i + 1) (j + 1),
  )

  pub unspliced-IsList :
      IsList n (delete (p + 1) node) (unspliced (node p) (node (p + 1)) (node (p + 1 + 1)) l)
  unspliced-IsList = record {
    head = ground (arith, h.head);
    tail = ground (arith, h.tail);
    next = unspliced-next;
    prev = unspliced-prev;
    first = ground (arith, h.first, h.head, h.distinct 0 (p + 1), h.distinct 0 (p + 2));
    last = ground (arith, h.last, h.tail, h.distinct (n + 2) (p + 1), h.distinct (n + 2) p);
    distinct = delete-distinct;
    count = omega (arith, h.count, h.small);
    small = omega (arith, h.small);
  }
