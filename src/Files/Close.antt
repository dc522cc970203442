-- ===== src/Files/Close.antt =====
-- Closing descriptors.
use sdp_project_c.Common.{
  ℕ, ◌+◌, ◌-◌, ◌≤◌, ◌<◌, ◌≡◌, refl, ◌≢◌, ◌⊎◌, inl, inr, true, false, Option, none, some, Returns,
  Returns-map, Returns-bind, arith, ltb, ◌==◌, if◌then◌else◌, sub_u32, subst, ◌∷◌, dec_lt,
  Option-cases, le-total,
}
use sdp_project_c.Spinlock.{unheld, spinlock_acquire, spinlock_release}
use sdp_project_c.Vnode.{vnode_decref}
use sdp_project_c.Files.{
  open_max, system_open_max, Files, set_descriptor, set_file, vfs_close, out_of_range, descriptor,
  drop_reference, sys_close,
}
use sdp_project_c.Files.References.{
  points, references, Counted, references-set_descriptor, references-le, le-references,
  openings-set_file,
}

-- A reference to `v` is given up: it is counted down, or the last one is handed over to `VOP_RECLAIM`.
pub record Released (v : ℕ) (f f' : Files) : Type 0 where
  pub counts :
      (w : ℕ)
      → (f.vnodes w).vn_refcount
        ≡ (f'.vnodes w).vn_refcount
          + (if ltb 1 (f.vnodes v).vn_refcount then points w (some v) else 0)
  pub reclaimed :
      f'.reclaimed ≡ (if ltb 1 (f.vnodes v).vn_refcount then f.reclaimed else v ∷ f.reclaimed)

-- What `vfs_close` does.
pub record Closed (v : ℕ) (f f' : Files) : Type 0 where
  pub same_system : f'.system ≡ f.system
  pub same_table : f'.table ≡ f.table
  pub released : Released v f f'
  pub still_unlocked : (w : ℕ) → (f'.vnodes w).vn_countlock ≡ unheld

pub released-le :
    (v w : ℕ) (f f' : Files)
    → Released v f f'
    → (f.vnodes w).vn_refcount ≤ (f'.vnodes w).vn_refcount + points w (some v)
released-le v w f f' h = ground (arith, h.counts w)

pub vfs_close-Closed :
    (v : ℕ) (f : Files)
    → 0 < (f.vnodes v).vn_refcount
    → ((w : ℕ) → (f.vnodes w).vn_countlock ≡ unheld)
    → Returns (vfs_close v f) (Closed v f)
unfolding vfs_close vnode_decref spinlock_acquire spinlock_release
vfs_close-Closed v f pos free = elim (dec_lt 1 (f.vnodes v).vn_refcount) [
  | yes many ↦
      let t : ltb 0 (f.vnodes v).vn_refcount ≡ true = ground arith in
      let u : ltb 1 (f.vnodes v).vn_refcount ≡ true = ground arith in
      rw (free v, t, u)
        (record {
          same_system = refl;
          same_table = refl;
          released = record { counts = λ w. ground (arith, u); reclaimed = rw u refl };
          still_unlocked = λ w. ground (arith, free w);
        })
  | no one ↦
      let t : ltb 0 (f.vnodes v).vn_refcount ≡ true = ground arith in
      let u : ltb 1 (f.vnodes v).vn_refcount ≡ false = ground arith in
      rw (free v, t, u)
        (record {
          same_system = refl;
          same_table = refl;
          released = record { counts = λ w. ground (arith, u); reclaimed = rw u refl };
          still_unlocked = λ w. ground (arith, free w);
        })
]

-- What `sys_close` of a descriptor of open file `k` leaves: the descriptor is free, every other one is as
-- it was. If another descriptor refers to the file, it keeps its vnode, and every vnode its references; if
-- none does, the vnode has lost the reference of the file.
pub record Drops (n p fd k : ℕ) (f : Files) (r : Option ℕ × Files) : Type 0 where
  pub reply : r.0 ≡ some 0
  pub table : r.1.table ≡ (set_descriptor p fd none f).table
  pub kept :
      1 < references n k f.table
      → ((r.1.system k).vn ≡ (f.system k).vn)
        × (r.1.vnodes ≡ f.vnodes)
        × (r.1.reclaimed ≡ f.reclaimed)
  pub last :
      references n k f.table ≡ 1
      → (v : ℕ) → (f.system k).vn ≡ some v
      → ((r.1.system k).vn ≡ none) × Released v f r.1
  pub others : (j : ℕ) → j ≢ k → r.1.system j ≡ f.system j
  pub valid : Counted n r.1

module _ (n p fd k : ℕ) (f : Files) (c : Counted n f) (lp : p < n) (lfd : fd < open_max)
    (e : f.table p fd ≡ some k) where
  abbrev f₁ : Files
  f₁ = set_descriptor p fd none f

  inside : k < system_open_max
  inside = c.within p fd k lp lfd e

  pos : 1 ≤ references n k f.table
  pos = le-references n k p fd f.table lp lfd e

  is_open : (f.system k).vn ≢ none
  is_open q = omega (arith, pos, c.closed k inside q)

  count : (f.system k).count_ref ≡ references n k f.table
  count = c.counted k inside is_open

  -- The references after the descriptor is gone.
  fewer : (j : ℕ) → references n j f₁.table + (if j == k then 1 else 0) ≡ references n j f.table
  fewer j = ground (arith, references-set_descriptor n j p fd none f lp lfd)

  left : sub_u32 (f.system k).count_ref 1 ≡ references n k f.table - 1
  left = omega (arith, count, pos, references-le n k f.table, c.few)

  within₁ : (q d j : ℕ) → q < n → d < open_max → f₁.table q d ≡ some j → j < system_open_max
  within₁ q d j lq ld h = ground (arith, c.within q d j)

  -- The file with one reference less, and with vnode `o`.
  abbrev after : Option ℕ → Files
  after o = set_file k (record (f.system k) { vn = o; count_ref = references n k f.table - 1 }) f₁

  module _ (many : 1 < references n k f.table) where
    many-Counted : Counted n (after (f.system k).vn)
    many-Counted = record {
      counted = λ j lt h. ground (arith, fewer j, c.counted j, is_open);
      closed = λ j lt h. ground (arith, fewer j, c.closed j, is_open);
      within = λ q d j. within₁ q d j;
      few = c.few;
      held = λ v. omega (
        arith,
        openings-set_file v k (record (f.system k) { count_ref = references n k f.table - 1 }) f₁
            inside,
        c.held v,
      );
      unlocked = c.unlocked;
    }

    many-Drops : Returns (drop_reference k f₁) (Drops n p fd k f)
    unfolding drop_reference
    many-Drops =
        let t : ltb 0 (references n k f.table - 1) ≡ true = ground arith in
        rw (left, t)
          (record {
            reply = refl;
            table = refl;
            kept = λ h. (ground arith, refl, refl);
            last = λ h v has. absurd (omega arith);
            others = λ j ne. ground arith;
            valid = many-Counted;
          })

  -- The vnode has a reference to give up.
  refcount_pos : (v : ℕ) → (f.system k).vn ≡ some v → 0 < (f.vnodes v).vn_refcount
  refcount_pos v has = omega (
    arith,
    c.held v,
    one_opening,
    le-total system_open_max k (λ j. points v (f.system j).vn) inside,
  )
    where
      one_opening : points v (f.system k).vn ≡ 1
      one_opening = ground arith

  module _ (one : references n k f.table ≡ 1) (v : ℕ) (has : (f.system k).vn ≡ some v) where
    opened : (w : ℕ) → points w (f.system k).vn ≡ points w (some v)
    opened w = rw has refl

    one-Drops : (f' : Files) → Closed v (after none) f' → Drops n p fd k f (some 0, f')
    one-Drops f' h = record {
      reply = refl;
      table = h.same_table;
      kept = λ q. absurd (omega arith);
      last = λ q w e'.
          let same : v ≡ w = ground (arith, has, e') in
          (
            rw h.same_system (ground arith),
            subst (λ x. Released x f f') same
                (record { counts = h.released.counts; reclaimed = h.released.reclaimed }),
          );
      others = λ j ne. rw h.same_system (ground arith);
      valid = record {
        counted =
            rw (h.same_system, h.same_table)
              (λ j lt q. ground (arith, fewer j, c.counted j, is_open));
        closed =
            rw (h.same_system, h.same_table) (λ j lt q. ground (arith, fewer j, c.closed j, one));
        within = rw h.same_table (λ q d j. within₁ q d j);
        few = c.few;
        held = rw h.same_system (λ w. omega (
          arith,
          opened w,
          openings-set_file w k
              (record (f.system k) { vn = none; count_ref = references n k f.table - 1 }) f₁ inside,
          c.held w,
          released-le v w (after none) f' h.released,
        ));
        unlocked = h.still_unlocked;
      };
    }

    one-returns : Returns (drop_reference k f₁) (Drops n p fd k f)
    unfolding drop_reference
    one-returns =
        let t : ltb 0 (references n k f.table - 1) ≡ false = ground arith in
        rw (left, t, has, left)
          (Returns-bind (Closed v (after none)) _ (vfs_close v (after none)) _
            (vfs_close-Closed v (after none) (refcount_pos v has) c.unlocked)
            (λ f' h. one-Drops f' h))

  drop_reference-Drops : Returns (drop_reference k f₁) (Drops n p fd k f)
  drop_reference-Drops = elim (dec_lt 1 (references n k f.table)) [
    | yes many ↦ many-Drops many
    | no few ↦ elim (Option-cases (f.system k).vn) [
      | inl e ↦ absurd (is_open e)
      | inr (v, has) ↦ one-returns (omega (arith, pos)) v has
    ]
  ]

-- `sys_close` of a descriptor in range, where the counts are right, keeps them right. If the descriptor is not
-- open, it returns -1 and changes nothing; otherwise the descriptor is free, and the last one of an open file gives
-- up the reference of the file to its vnode: the reference is counted down, or the last one handed to `VOP_RECLAIM`.
pub sys_close-Drops :
    (n p fd : ℕ) (f : Files)
    → Counted n f
    → p < n
    → fd < open_max
    → Returns (sys_close p fd f) (λ r.
      ((f.table p fd ≡ none) × (r ≡ (none, f)))
      ⊎ ((k : ℕ) × (f.table p fd ≡ some k) × Drops n p fd k f r))
unfolding sys_close descriptor
sys_close-Drops n p fd f c lp lfd =
    let range : out_of_range fd ≡ false = ground arith in
    let t : ltb fd open_max ≡ true = ground arith in
    rw (range, t)
      (elim (Option-cases (f.table p fd)) [
        | inl e ↦ rw e (inl (refl, refl))
        | inr (k, e) ↦ rw e (
            Returns-map _ _ (drop_reference k (set_descriptor p fd none f))
              (λ r h. inr (k, refl, h)) (drop_reference-Drops n p fd k f c lp lfd e))
      ])
