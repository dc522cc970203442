-- ===== src/ThreadList.antt =====
-- kern/thread/threadlist.c: a doubly linked list of threads between two nodes of its own.
use sdp_project_c.Common.{
  ℕ, ◌+◌, ◌-◌, Bool, true, false, not, ◌&&◌, Option, none, some, Result, ok, err, ◌>>=◌, ◌>>◌,
  require, assertion, out_of_bounds, ◌==◌, if◌then◌else◌, update, u32, sub_u32,
}
pub mod Order
pub mod Queue
mod Tests

-- The nodes `tl_head` and `tl_tail`; that of thread `t` is `t + 2`.
abbrev pub tl_head : ℕ
tl_head = 0

abbrev pub tl_tail : ℕ
tl_tail = 1

-- `struct threadlist` with `tln_next` and `tln_prev` of every node; `none` is NULL.
pub record ThreadList : Type 0 where
  pub tln_next : ℕ → Option ℕ
  pub tln_prev : ℕ → Option ℕ
  pub tl_count : ℕ

-- A pointer that is followed.
abbrev pub follow : Option ℕ → Result ℕ
follow none = err out_of_bounds
follow (some node) = ok node

abbrev pub set_next : ℕ → Option ℕ → ThreadList → ThreadList
set_next node x l = record l { tln_next = update l.tln_next node x }

abbrev pub set_prev : ℕ → Option ℕ → ThreadList → ThreadList
set_prev node x l = record l { tln_prev = update l.tln_prev node x }

-- `threadlistnode_init`, but for `tln_self`, which the number of the node says.
pub threadlistnode_init : ℕ → ThreadList → ThreadList
threadlistnode_init node l = set_prev node none (set_next node none l)

abbrev pub is_null : Option ℕ → Bool
is_null none = true
is_null (some node) = false

-- `threadlistnode_cleanup`
pub threadlistnode_cleanup : ℕ → ThreadList → Result (Unit {0})
threadlistnode_cleanup node l = do
  require (is_null (l.tln_next node)) assertion
  require (is_null (l.tln_prev node)) assertion

-- `threadlist_init`
pub threadlist_init : ThreadList → ThreadList
threadlist_init l =
    let l₁ = set_prev tl_head none (set_next tl_head (some tl_tail) l) in
    let l₂ = set_prev tl_tail (some tl_head) (set_next tl_tail none l₁) in
    record l₂ { tl_count = 0 }

-- `threadlist_isempty`
pub threadlist_isempty : ThreadList → Bool
threadlist_isempty l = l.tl_count == 0

-- `threadlist_cleanup`
pub threadlist_cleanup : ThreadList → Result (Unit {0})
unfolding threadlist_isempty
threadlist_cleanup l = do
  require (threadlist_isempty l) assertion
  require (l.tl_count == 0) assertion

-- `threadlist_insertafternode`
pub threadlist_insertafternode : ℕ → ℕ → ThreadList → Result ThreadList
threadlist_insertafternode onlist addee l = do
  let l₁ = set_prev addee (some onlist) l
  let l₂ = set_next addee (l₁.tln_next onlist) l₁
  before ← follow (l₂.tln_prev addee)
  let l₃ = set_next before (some addee) l₂
  after ← follow (l₃.tln_next addee)
  ok (set_prev after (some addee) l₃)

-- `threadlist_insertbeforenode`
pub threadlist_insertbeforenode : ℕ → ℕ → ThreadList → Result ThreadList
threadlist_insertbeforenode addee onlist l = do
  let l₁ = set_prev addee (l.tln_prev onlist) l
  let l₂ = set_next addee (some onlist) l₁
  before ← follow (l₂.tln_prev addee)
  let l₃ = set_next before (some addee) l₂
  after ← follow (l₃.tln_next addee)
  ok (set_prev after (some addee) l₃)

-- `threadlist_removenode`
pub threadlist_removenode : ℕ → ThreadList → Result ThreadList
threadlist_removenode tln l = do
  before ← follow (l.tln_prev tln)
  let l₁ = set_next before (l.tln_next tln) l
  after ← follow (l₁.tln_next tln)
  let l₂ = set_prev after (l₁.tln_prev tln) l₁
  ok (set_next tln none (set_prev tln none l₂))

-- `tl->tl_count++` and `tl->tl_count--`
abbrev pub count_up : ThreadList → ThreadList
count_up l = record l { tl_count = u32 (l.tl_count + 1) }

abbrev pub count_down : ThreadList → ThreadList
count_down l = record l { tl_count = sub_u32 l.tl_count 1 }

-- `threadlist_addhead`
pub threadlist_addhead : ℕ → ThreadList → Result ThreadList
unfolding threadlist_insertafternode
threadlist_addhead t l = do l' ← threadlist_insertafternode tl_head (t + 2) l; ok (count_up l')

-- `threadlist_addtail`
pub threadlist_addtail : ℕ → ThreadList → Result ThreadList
unfolding threadlist_insertbeforenode
threadlist_addtail t l = do l' ← threadlist_insertbeforenode (t + 2) tl_tail l; ok (count_up l')

-- `threadlist_remhead`: the thread, `none` for NULL.
pub threadlist_remhead : ThreadList → Result (Option ℕ × ThreadList)
unfolding threadlist_removenode
threadlist_remhead l = do
  tln ← follow (l.tln_next tl_head)
  if is_null (l.tln_next tln)
      then ok (none, l)
      else do l' ← threadlist_removenode tln l; ok (some (tln - 2), count_down l')

-- `threadlist_remtail`
pub threadlist_remtail : ThreadList → Result (Option ℕ × ThreadList)
unfolding threadlist_removenode
threadlist_remtail l = do
  tln ← follow (l.tln_prev tl_tail)
  if is_null (l.tln_prev tln)
      then ok (none, l)
      else do l' ← threadlist_removenode tln l; ok (some (tln - 2), count_down l')

-- `threadlist_insertafter`
pub threadlist_insertafter : ℕ → ℕ → ThreadList → Result ThreadList
unfolding threadlist_insertafternode
threadlist_insertafter onlist addee l = do
  l' ← threadlist_insertafternode (onlist + 2) (addee + 2) l
  ok (count_up l')

-- `threadlist_insertbefore`
pub threadlist_insertbefore : ℕ → ℕ → ThreadList → Result ThreadList
unfolding threadlist_insertbeforenode
threadlist_insertbefore addee onlist l = do
  l' ← threadlist_insertbeforenode (addee + 2) (onlist + 2) l
  ok (count_up l')

-- `threadlist_remove`
pub threadlist_remove : ℕ → ThreadList → Result ThreadList
unfolding threadlist_removenode
threadlist_remove t l = do l' ← threadlist_removenode (t + 2) l; ok (count_down l')
