-- ===== src/Files/Copy.antt =====
-- Copying the descriptors of one process to another.
use sdp_project_c.Common.{
  ℕ, zero, suc, ◌+◌, ◌<◌, ◌≡◌, refl, ◌≢◌, none, arith, ltb, if◌then◌else◌, u32, total,
  total-eq-zero, total-ext, total-change, le-total, ap, sym, ◌∙◌, ℕ_discrete, inl, inr,
  Option-cases,
}
use sdp_project_c.Vnode.{Vnode}
use sdp_project_c.Files.{
  open_max, system_open_max, Files, set_descriptor, openfile_incr_ref_count, copy_descriptors,
  proc_file_table_copy,
}
use sdp_project_c.Files.References.{points, descriptors, references, Counted, references-le}

-- What `n` rounds of the copy have done.
pub record Copied (n psrc pdest : ℕ) (f f' : Files) : Type 0 where
  pub to : (fd : ℕ) → f'.table pdest fd ≡ (if ltb fd n then f.table psrc fd else f.table pdest fd)
  pub apart : (p : ℕ) → p ≢ pdest → f'.table p ≡ f.table p
  pub counts :
      (k : ℕ)
      → (f.system k).count_ref < 0x1_0000_0000
      → (f'.system k).count_ref
        ≡ u32 ((f.system k).count_ref + total n (λ fd. points k (f.table psrc fd)))
  pub vn : (k : ℕ) → (f'.system k).vn ≡ (f.system k).vn
  pub vnodes : f'.vnodes ≡ f.vnodes

copy_round :
    (n psrc pdest : ℕ) (f : Files)
    → psrc ≢ pdest
    → (f' : Files) → Copied n psrc pdest f f'
    → Copied
        (suc n)
        psrc
        pdest
        f
        (openfile_incr_ref_count (f'.table psrc n) (set_descriptor pdest n (f'.table psrc n) f'))
unfolding openfile_incr_ref_count total
copy_round n psrc pdest f ne f' h = elim (Option-cases (f.table psrc n)) [
  | inl e ↦
      rw (h.apart psrc ne, e)
        (record {
          to = λ fd. ground (arith, h.to fd);
          apart = λ p q. ground (arith, h.apart p);
          counts = λ k small. ground (arith, h.counts k);
          vn = h.vn;
          vnodes = h.vnodes;
        })
  | inr (j, e) ↦
      rw (h.apart psrc ne, e)
        (record {
          to = λ fd. ground (arith, h.to fd);
          apart = λ p q. ground (arith, h.apart p);
          counts = λ k small. ground (arith, h.counts k);
          vn = λ k. ground (arith, h.vn k);
          vnodes = h.vnodes;
        })
]

pub copy_descriptors-Copied :
    (n psrc pdest : ℕ) (f : Files)
    → psrc ≢ pdest
    → Copied n psrc pdest f (copy_descriptors n psrc pdest f)
unfolding copy_descriptors total
copy_descriptors-Copied zero psrc pdest f ne = record {
  to = λ fd. ground arith;
  apart = λ p q. refl;
  counts = λ k small. omega arith;
  vn = λ k. refl;
  vnodes = refl;
}
copy_descriptors-Copied (suc n) psrc pdest f ne =
    copy_round n psrc pdest f ne (copy_descriptors n psrc pdest f)
      (copy_descriptors-Copied n psrc pdest f ne)

pub proc_file_table_copy-Copied :
    (psrc pdest : ℕ) (f : Files)
    → psrc ≢ pdest
    → Copied open_max psrc pdest f (proc_file_table_copy psrc pdest f)
unfolding proc_file_table_copy
proc_file_table_copy-Copied psrc pdest f ne = copy_descriptors-Copied open_max psrc pdest f ne

module _ (n psrc pdest : ℕ) (f : Files) (ne : psrc ≢ pdest) (ls : psrc < n) (ld : pdest < n) where
  copied : Copied open_max psrc pdest f (proc_file_table_copy psrc pdest f)
  copied = proc_file_table_copy-Copied psrc pdest f ne

  module _ (c : Counted n f) (vacant : (fd : ℕ) → fd < open_max → f.table pdest fd ≡ none) where
    -- The references that the copy adds.
    added :
        (k : ℕ)
        → references n k (proc_file_table_copy psrc pdest f).table
          ≡ references n k f.table + descriptors k (f.table psrc)
    added k = omega (
      arith,
      total-change n pdest (λ p. descriptors k ((proc_file_table_copy psrc pdest f).table p))
          (λ p. descriptors k (f.table p)) ld (λ p lp q. ap (descriptors k) (copied.apart p q)),
      total-ext open_max (λ fd. points k ((proc_file_table_copy psrc pdest f).table pdest fd))
          (λ fd. points k (f.table psrc fd))
          (λ fd lt. ap (points k) (ground (arith, copied.to fd))),
      total-eq-zero open_max (λ fd. points k (f.table pdest fd))
          (λ fd lt. ground (arith, vacant fd)),
    )

    -- `proc_file_table_copy` to a process without descriptors gives it those of the other, and keeps the
    -- counts right.
    pub proc_file_table_copy-Counted :
        Counted n (proc_file_table_copy psrc pdest f)
        × ((fd : ℕ)
            → fd < open_max
            → (proc_file_table_copy psrc pdest f).table pdest fd ≡ f.table psrc fd)
        × ((p : ℕ) → p ≢ pdest → (proc_file_table_copy psrc pdest f).table p ≡ f.table p)
    proc_file_table_copy-Counted = (
      record {
        counted = λ k lt o.
            let before : (f.system k).count_ref ≡ references n k f.table =
              c.counted k lt (λ q. o (copied.vn k ∙ q)) in
            omega (
              arith,
              before,
              added k,
              copied.counts k,
              references-le n k (proc_file_table_copy psrc pdest f).table,
              c.few,
            );
        closed = λ k lt o. omega (
          arith,
          added k,
          c.closed k lt (sym (copied.vn k) ∙ o),
          le-total n psrc (λ p. descriptors k (f.table p)) ls,
        );
        within = λ p fd k lp lfd e. elim (ℕ_discrete p pdest) [
          | yes same ↦ c.within psrc fd k ls lfd (ground (arith, copied.to fd, same, e))
          | no other ↦ c.within p fd k lp lfd (ground (arith, copied.apart p other, e))
        ];
        few = c.few;
        held = λ v. omega (
          arith,
          total-ext system_open_max
              (λ k. points v ((proc_file_table_copy psrc pdest f).system k).vn)
              (λ k. points v (f.system k).vn) (λ k lt. ap (points v) (copied.vn k)),
          ap (λ (vs : ℕ → Vnode). (vs v).vn_refcount) copied.vnodes,
          c.held v,
        );
        unlocked = λ v. rw copied.vnodes (c.unlocked v);
      },
      λ fd lt. ground (arith, copied.to fd),
      copied.apart,
    )

  -- The call in `sys_fork` has the new process, which has no descriptors, where the function takes the
  -- source, and the current process as the destination: this loses every descriptor of the current
  -- process, and no open file is counted down or closed.
  pub proc_file_table_copy_swapped :
      ((fd : ℕ) → fd < open_max → f.table psrc fd ≡ none)
      → ((fd : ℕ) → fd < open_max → (proc_file_table_copy psrc pdest f).table pdest fd ≡ none)
        × ((k : ℕ)
            → (f.system k).count_ref < 0x1_0000_0000
            → ((proc_file_table_copy psrc pdest f).system k).count_ref ≡ (f.system k).count_ref)
        × ((k : ℕ) → ((proc_file_table_copy psrc pdest f).system k).vn ≡ (f.system k).vn)
  proc_file_table_copy_swapped empty = (
    λ fd lt. ground (arith, copied.to fd, empty fd),
    λ k small. omega (
      arith,
      copied.counts k,
      total-eq-zero open_max (λ fd. points k (f.table psrc fd)) (λ fd lt. ground (arith, empty fd)),
    ),
    copied.vn,
  )
