-- ===== src/Files.antt =====
-- kern/syscall/file_syscalls.c, with `proc_file_table_copy` of kern/proc/proc.c and `vfs_close` of
-- kern/vfs/vfspath.c: the open files of the system and the descriptors of each process. `vfs_open` and the
-- transfers of the vnode layer are arguments.
use sdp_project_c.Common.{
  ℕ, zero, suc, ◌+◌, ◌-◌, ◌*◌, Bool, true, false, not, ◌&&◌, ◌||◌, Option, none, some, Result, ok,
  err, ◌>>=◌, ◌>>◌, require, assertion, out_of_bounds, ltb, leb, ◌==◌, if◌then◌else◌, update,
  first_index, first_from, u8, u32, sub_u32, List, [], ◌∷◌,
}
use sdp_project_c.Vnode.{Vnode, vnode_decref}
pub mod References
pub mod Close
pub mod Open
pub mod Copy
mod Tests

abbrev pub open_max : ℕ
open_max = 128

abbrev pub system_open_max : ℕ
system_open_max = 10 * open_max

abbrev pub stderr_fileno : ℕ
stderr_fileno = 2

abbrev pub enoent : ℕ
enoent = 19

abbrev pub emfile : ℕ
emfile = 28

abbrev pub enfile : ℕ
enfile = 29

-- `struct openfile`; `vn` is the number of the vnode.
pub record OpenFile : Type 0 where
  pub vn : Option ℕ
  pub offset : ℕ
  pub count_ref : ℕ

-- `systemFileTable`; `fileTable` of each process, with indices for the pointers into `systemFileTable`;
-- the vnodes, and the calls of `VOP_RECLAIM`, the last one first.
pub record Files : Type 0 where
  pub system : ℕ → OpenFile
  pub table : ℕ → ℕ → Option ℕ
  pub vnodes : ℕ → Vnode
  pub reclaimed : List ℕ

-- `fileTable[fd] = of` of process `p`
abbrev pub set_descriptor : ℕ → ℕ → Option ℕ → Files → Files
set_descriptor p fd o f = record f { table = update f.table p (update (f.table p) fd o) }

abbrev pub set_file : ℕ → OpenFile → Files → Files
set_file k of f = record f { system = update f.system k of }

-- `vfs_close`, which is `VOP_DECREF`
pub vfs_close : ℕ → Files → Result Files
vfs_close v f = do
  (destroy, vn) ← vnode_decref (f.vnodes v)
  ok (record f {
    vnodes = update f.vnodes v vn;
    reclaimed = if destroy then v ∷ f.reclaimed else f.reclaimed;
  })

-- `openfileIncrRefCount`
pub openfile_incr_ref_count : Option ℕ → Files → Files
openfile_incr_ref_count none f = f
openfile_incr_ref_count (some k) f =
    set_file k (record (f.system k) { count_ref = u32 ((f.system k).count_ref + 1) }) f

-- What a call returns: a number, or -1 with `*errp`.
pub data Reply : Type 0 where
  returned : ℕ → Reply
  failed : ℕ → Reply

abbrev pub is_none : Option ℕ → Bool
is_none none = true
is_none (some k) = false

-- The second half of `sys_open`, for the vnode `v` that `vfs_open` gave.
pub open_vnode : ℕ → ℕ → Files → Result (Reply × Files)
unfolding vfs_close
open_vnode p v f = elim (first_index system_open_max (λ i. is_none (f.system i).vn)) [
  | none ↦ do f' ← vfs_close v f; ok (failed enfile, f')
  | some i ↦
      let f₁ = set_file i (record { vn = some v; offset = 0; count_ref = 1 }) f in
      elim (first_from (open_max - (stderr_fileno + 1)) (stderr_fileno + 1)
        (λ fd. is_none (f₁.table p fd))) [
          | some fd ↦ ok (returned fd, set_descriptor p fd (some i) f₁)
          | none ↦ do f₂ ← vfs_close v f₁; ok (failed emfile, f₂)
        ]
]

-- `sys_open` of process `p`; `vfs_open` gives the vnode, and what it makes of the references.
pub sys_open : ((ℕ → Vnode) → Option ℕ × (ℕ → Vnode)) → ℕ → Files → Result (Reply × Files)
unfolding open_vnode
sys_open vfs_open p f =
    let (opened, vnodes') = vfs_open f.vnodes in
    elim opened [
      | none ↦ ok (failed enoent, record f { vnodes = vnodes' })
      | some v ↦ open_vnode p v (record f { vnodes = vnodes' })
    ]

-- `fd<0||fd>OPEN_MAX`; a negative number is 2 ^ 31 or more.
abbrev pub out_of_range : ℕ → Bool
out_of_range fd = leb 0x8000_0000 fd || ltb open_max fd

-- `curproc->fileTable[fd]`, which has `OPEN_MAX` entries.
pub descriptor : ℕ → ℕ → Files → Result (Option ℕ)
descriptor p fd f = do require (ltb fd open_max) out_of_bounds; ok (f.table p fd)

-- `if (--of->countRef > 0) return 0;` and what follows it in `sys_close`; `none` is -1.
pub drop_reference : ℕ → Files → Result (Option ℕ × Files)
unfolding vfs_close
drop_reference k f =
    let of = f.system k in
    let count = sub_u32 of.count_ref 1 in
    if ltb 0 count
    then ok (some 0, set_file k (record of { count_ref = count }) f)
    else (elim of.vn [
      | none ↦ ok (none, set_file k (record of { vn = none; count_ref = count }) f)
      | some v ↦ do
        f' ← vfs_close v (set_file k (record of { vn = none; count_ref = count }) f)
        ok (some 0, f')
    ])

-- `sys_close` of process `p`; `none` is -1.
pub sys_close : ℕ → ℕ → Files → Result (Option ℕ × Files)
unfolding descriptor drop_reference
sys_close p fd f = if out_of_range fd then ok (none, f) else (do
  of ← descriptor p fd f
  elim of [ none ↦ ok (none, f) | some k ↦ drop_reference k (set_descriptor p fd none f) ])

-- What `VOP_READ` or `VOP_WRITE` does at an offset with a size: its result, `uio_offset` and `uio_resid`.
abbrev pub Transfer : Type 0
Transfer = ℕ → ℕ → ℕ → ℕ × ℕ × ℕ

-- The part of `file_read` and `file_write` after the tests: the result, or the count of bytes.
abbrev pub transfer : Transfer → ℕ → ℕ → ℕ → Files → ℕ × Files
transfer vop k v size f =
    let (result, offset, resid) = vop v (f.system k).offset size in
    if not (result == 0)
    then (result, f)
    else (sub_u32 size resid, set_file k (record (f.system k) { offset = offset }) f)

-- `file_read` and `file_write`, without a kernel buffer; `none` is -1.
pub file_read : Transfer → ℕ → ℕ → ℕ → Files → Result (Option ℕ × Files)
unfolding descriptor
file_read vop_read p fd size f = if out_of_range fd then ok (none, f) else (do
  of ← descriptor p fd f
  elim of [
    | none ↦ ok (none, f)
    | some k ↦ elim (f.system k).vn [
      | none ↦ ok (none, f)
      | some v ↦ ok (some (transfer vop_read k v size f).0, (transfer vop_read k v size f).1)
    ]
  ])

pub file_write : Transfer → ℕ → ℕ → ℕ → Files → Result (Option ℕ × Files)
unfolding descriptor
file_write vop_write p fd size f = if out_of_range fd then ok (none, f) else (do
  of ← descriptor p fd f
  elim of [
    | none ↦ ok (none, f)
    | some k ↦ elim (f.system k).vn [
      | none ↦ ok (none, f)
      | some v ↦ ok (some (transfer vop_write k v size f).0, (transfer vop_write k v size f).1)
    ]
  ])

-- The first `n` rounds of `proc_file_table_copy`.
pub copy_descriptors : ℕ → ℕ → ℕ → Files → Files
unfolding openfile_incr_ref_count
copy_descriptors zero psrc pdest f = f
copy_descriptors (suc n) psrc pdest f =
    let f' = copy_descriptors n psrc pdest f in
    let of = f'.table psrc n in openfile_incr_ref_count of (set_descriptor pdest n of f')

-- `proc_file_table_copy`
pub proc_file_table_copy : ℕ → ℕ → Files → Files
unfolding copy_descriptors
proc_file_table_copy psrc pdest f = copy_descriptors open_max psrc pdest f

-- The loops of `sys_write` and `sys_read` on the console: what goes to `putch`, and what `getch` gives,
-- with the count that is returned. A `char` is signed; one that is negative ends the loop.
pub put_chars : ℕ → (ℕ → ℕ) → List ℕ
put_chars zero p = []
put_chars (suc n) p = p 0 ∷ put_chars n (λ i. p (i + 1))

pub get_chars : ℕ → ℕ → (ℕ → ℕ) → ℕ × List ℕ
get_chars zero i getch = (i, [])
get_chars (suc left) i getch =
    let rest = get_chars left (i + 1) getch in
    if leb 0x80 (u8 (getch i)) then (i, u8 (getch i) ∷ []) else (rest.0, u8 (getch i) ∷ rest.1)

-- `(int)size` as a bound of a loop.
abbrev pub rounds : ℕ → ℕ
rounds size = if leb 0x8000_0000 size then 0 else size

-- `sys_write` of the bytes at `p`: the reply, and what goes to the console.
pub sys_write : Transfer → ℕ → ℕ → (ℕ → ℕ) → ℕ → Files → Result (Option ℕ × List ℕ × Files)
unfolding file_write put_chars
sys_write vop_write proc fd p size f =
    if not (fd == 1) && not (fd == stderr_fileno)
    then (do (reply, f') ← file_write vop_write proc fd size f; ok (reply, [], f'))
    else ok (some size, put_chars (rounds size) p, f)

-- `sys_read`: the reply, and the bytes that the console gives.
pub sys_read : Transfer → ℕ → ℕ → (ℕ → ℕ) → ℕ → Files → Result (Option ℕ × List ℕ × Files)
unfolding file_read get_chars
sys_read vop_read proc fd getch size f =
    if not (fd == 0)
    then (do (reply, f') ← file_read vop_read proc fd size f; ok (reply, [], f'))
    else (let (count, bytes) = get_chars (rounds size) 0 getch in
        ok (some (if leb 0x8000_0000 size then size else count), bytes, f))
