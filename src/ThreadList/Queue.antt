-- ===== src/ThreadList/Queue.antt =====
-- The operations on the list, as changes of the sequence of threads.
use sdp_project_c.Common.{
  ℕ, ◌+◌, ◌-◌, ◌≤◌, ◌<◌, ◌≡◌, refl, ◌≢◌, true, false, none, some, ok, ◌>>=◌, Returns, subst, sym,
  arith, ◌==◌,
}
use sdp_project_c.ThreadList.{
  ThreadList, count_up, threadlist_insertafternode, threadlist_insertbeforenode,
  threadlist_removenode, threadlist_addhead, threadlist_addtail, threadlist_remhead,
  threadlist_remtail, threadlist_init, threadlist_remove,
}
use sdp_project_c.ThreadList.Order.{
  IsList, insert, delete, spliced, spliced-IsList, unspliced, unspliced-IsList,
}

insertafter_lem :
    (a x b : ℕ) (l : ThreadList)
    → a ≢ x
    → l.tln_next a ≡ some b
    → (threadlist_insertafternode a x l >>= λ l'. ok (count_up l')) ≡ ok (spliced a x b l)
unfolding threadlist_insertafternode
insertafter_lem a x b l ne e =
    let self : (x == x) ≡ true = ground arith in
    let other : (a == x) ≡ false = ground arith in rw (self, other, e) refl

insertbefore_lem :
    (a x b : ℕ) (l : ThreadList)
    → a ≢ x
    → l.tln_prev b ≡ some a
    → (threadlist_insertbeforenode x b l >>= λ l'. ok (count_up l')) ≡ ok (spliced a x b l)
unfolding threadlist_insertbeforenode
insertbefore_lem a x b l ne e =
    let self : (x == x) ≡ true = ground arith in
    let other : (a == x) ≡ false = ground arith in rw (self, e, other) refl

remove_lem :
    (a x b : ℕ) (l : ThreadList)
    → a ≢ x
    → b ≢ x
    → l.tln_prev x ≡ some a
    → l.tln_next x ≡ some b
    → threadlist_removenode x l ≡ ok (record (unspliced a x b l) { tl_count = l.tl_count })
unfolding threadlist_removenode
remove_lem a x b l ne ne' p q =
    let self : (x == x) ≡ true = ground arith in
    let other : (a == x) ≡ false = ground arith in rw (p, other, q) refl

-- A fresh list is empty.
pub threadlist_init-IsList : (l : ThreadList) → IsList 0 (λ i. i) (threadlist_init l)
unfolding threadlist_init
threadlist_init-IsList l = record {
  head = refl;
  tail = refl;
  next = λ i p. ground arith;
  prev = λ i p. ground arith;
  first = refl;
  last = refl;
  distinct = λ i j p q e. e;
  count = refl;
  small = omega arith;
}

-- The node of `t` stands in no place of the list.
abbrev pub IsApart : ℕ → (ℕ → ℕ) → ℕ → Type 0
IsApart n node t = (i : ℕ) → i ≤ n + 1 → node i ≢ t + 2

module _ (n t : ℕ) (node : ℕ → ℕ) (l : ThreadList) (h : IsList n node l) (apart : IsApart n node t)
    (room : n + 1 < 0xffff_ffff) where
  -- `threadlist_addhead` of a thread that is not on the list puts it first.
  pub threadlist_addhead-insert :
      Returns (threadlist_addhead t l) (IsList (n + 1) (insert 0 (t + 2) node))
  unfolding threadlist_addhead
  threadlist_addhead-insert =
      subst (λ r. Returns r (IsList (n + 1) (insert 0 (t + 2) node))) (sym added)
        (spliced-IsList n 0 (t + 2) node l h (omega arith) apart room)
    where
      added : threadlist_addhead t l ≡ ok (spliced (node 0) (t + 2) (node 1) l)
      added =
          subst
            (λ a.
              (threadlist_insertafternode a (t + 2) l >>= λ l'. ok (count_up l'))
              ≡ ok (spliced (node 0) (t + 2) (node 1) l))
            h.head
            (insertafter_lem (node 0) (t + 2) (node 1) l (apart 0 (omega arith))
              (h.next 0 (omega arith)))

  -- `threadlist_addtail` of a thread that is not on the list puts it last.
  pub threadlist_addtail-insert :
      Returns (threadlist_addtail t l) (IsList (n + 1) (insert n (t + 2) node))
  unfolding threadlist_addtail
  threadlist_addtail-insert =
      subst (λ r. Returns r (IsList (n + 1) (insert n (t + 2) node))) (sym added)
        (spliced-IsList n n (t + 2) node l h (omega arith) apart room)
    where
      added : threadlist_addtail t l ≡ ok (spliced (node n) (t + 2) (node (n + 1)) l)
      added =
          subst
            (λ b.
              (threadlist_insertbeforenode (t + 2) b l >>= λ l'. ok (count_up l'))
              ≡ ok (spliced (node n) (t + 2) (node (n + 1)) l))
            h.tail
            (insertbefore_lem (node n) (t + 2) (node (n + 1)) l (apart n (omega arith))
              (h.prev n (omega arith)))

-- `threadlist_remhead` of an empty list gives NULL and changes nothing.
pub threadlist_remhead_empty :
    (node : ℕ → ℕ) (l : ThreadList) → IsList 0 node l → threadlist_remhead l ≡ ok (none, l)
unfolding threadlist_remhead
threadlist_remhead_empty node l h =
    let e : l.tln_next 0 ≡ some 1 = ground (arith, h.next 0, h.head, h.tail) in rw (e, h.last) refl

module _ (n : ℕ) (node : ℕ → ℕ) (l : ThreadList) (h : IsList (n + 1) node l) where
  apart_from : (i j : ℕ) → i ≤ n + 2 → j ≤ n + 2 → i ≢ j → node i ≢ node j
  apart_from i j a b ne e = ne (h.distinct i j (omega arith) (omega arith) e)

  -- The thread in place `p + 1` unlinked.
  unlinked :
      (p : ℕ)
      → p ≤ n
      → threadlist_removenode (node (p + 1)) l
        ≡ ok (record (unspliced (node p) (node (p + 1)) (node (p + 1 + 1)) l) {
          tl_count = l.tl_count;
        })
  unlinked p le =
      remove_lem (node p) (node (p + 1)) (node (p + 1 + 1)) l
        (apart_from p (p + 1) (omega arith) (omega arith) (omega arith))
        (apart_from (p + 1 + 1) (p + 1) (omega arith) (omega arith) (omega arith))
        (h.prev p (omega arith)) (h.next (p + 1) (omega arith))

  -- `threadlist_remhead` of a list with a thread gives the first, and leaves the others in their order.
  pub threadlist_remhead-delete :
      Returns (threadlist_remhead l) (λ r. (r.0 ≡ some (node 1 - 2)) × IsList n (delete 1 node) r.1)
  unfolding threadlist_remhead
  threadlist_remhead-delete =
      let e : l.tln_next 0 ≡ some (node 1) = ground (arith, h.next 0, h.head) in
      rw (e, unlinked 0 (omega arith), h.next 1 (omega arith))
        (refl, unspliced-IsList n 0 node l h (omega arith))

  -- `threadlist_remtail` of a list with a thread gives the last, and leaves the others in their order.
  pub threadlist_remtail-delete :
      Returns
        (threadlist_remtail l)
        (λ r. (r.0 ≡ some (node (n + 1) - 2)) × IsList n (delete (n + 1) node) r.1)
  unfolding threadlist_remtail
  threadlist_remtail-delete =
      let e : l.tln_prev 1 ≡ some (node (n + 1)) = ground (arith, h.prev (n + 1), h.tail) in
      rw (e, unlinked n (omega arith), h.prev n (omega arith))
        (refl, unspliced-IsList n n node l h (omega arith))

  -- `threadlist_remove` of a thread on the list, in whatever place, takes out that thread alone.
  pub threadlist_remove-delete :
      (p t : ℕ)
      → p ≤ n
      → node (p + 1) ≡ t + 2
      → Returns (threadlist_remove t l) (IsList n (delete (p + 1) node))
  unfolding threadlist_remove
  threadlist_remove-delete p t le e = rw (← e, unlinked p le) (unspliced-IsList n p node l h le)
