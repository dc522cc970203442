-- ===== src/ThreadList/Tests.antt =====
-- Tests of the thread list: threads 5 and 9 are on it.
use sdp_project_c.Common.{ℕ, refl, none, some, Returns, arith, ◌==◌, if◌then◌else◌}
use sdp_project_c.ThreadList.{ThreadList, threadlist_remove}
use sdp_project_c.ThreadList.Order.{IsList, delete}
use sdp_project_c.ThreadList.Queue.{threadlist_remove-delete}

abbrev nodes : ℕ → ℕ
nodes i = if i == 0 then 0 else (if i == 1 then 7 else (if i == 2 then 11 else 1))

abbrev two : ThreadList
two = record {
  tln_next = λ x.
      if x == 0 then some 7 else (if x == 7 then some 11 else (if x == 11 then some 1 else none));
  tln_prev = λ x.
      if x == 1 then some 11 else (if x == 11 then some 7 else (if x == 7 then some 0 else none));
  tl_count = 2;
}

two-IsList : IsList 2 nodes two
two-IsList = record {
  head = refl;
  tail = refl;
  next = λ i p. ground arith;
  prev = λ i p. ground arith;
  first = refl;
  last = refl;
  distinct = λ i j p q e. ground arith;
  count = refl;
  small = omega arith;
}

threadlist_remove-delete_example : Returns (threadlist_remove 9 two) (IsList 1 (delete 2 nodes))
threadlist_remove-delete_example =
    threadlist_remove-delete 1 nodes two two-IsList 1 9 (omega arith) refl
