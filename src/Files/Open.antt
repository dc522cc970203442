-- ===== src/Files/Open.antt =====
-- Opening files.
use sdp_project_c.Common.{
  ℕ, ◌+◌, ◌-◌, ◌≤◌, ◌<◌, ◌≡◌, refl, ◌≢◌, ◌⊎◌, inl, inr, false, Option, none, some, ok, ◌>>=◌,
  Returns, Returns-map, Returns-bind, arith, ◌==◌, if◌then◌else◌, first_index, first_index-FirstIn,
  FirstIn, first_from, first_from-FirstIn,
}
use sdp_project_c.Spinlock.{unheld}
use sdp_project_c.Vnode.{Vnode}
use sdp_project_c.Files.{
  open_max, system_open_max, stderr_fileno, emfile, enfile, OpenFile, Files, Reply, returned,
  failed, set_descriptor, set_file, vfs_close, is_none, open_vnode, sys_open,
}
use sdp_project_c.Files.References.{
  points, references, openings, Counted, references-set_descriptor, openings-set_file,
}
use sdp_project_c.Files.Close.{Closed, Released, released-le, vfs_close-Closed}

-- What `vfs_open` guarantees of the vnode that it gives: a reference more than open files have, and the
-- other vnodes lose none that they need.
pub record Granted (v : ℕ) (f : Files) (vnodes' : ℕ → Vnode) : Type 0 where
  pub enough : (w : ℕ) → openings w f.system + points w (some v) ≤ (vnodes' w).vn_refcount
  pub unlocked : (w : ℕ) → (vnodes' w).vn_countlock ≡ unheld

abbrev pub fresh_file : ℕ → OpenFile
fresh_file v = record { vn = some v; offset = 0; count_ref = 1 }

-- The lowest free descriptor above the three standard ones refers to an unused slot, which has the vnode.
pub record Opens (n p v fd k : ℕ) (vnodes' : ℕ → Vnode) (f : Files) (r : Reply × Files)
    : Type 0 where
  pub reply : r.0 ≡ returned fd
  pub range : (stderr_fileno < fd) × (fd < open_max)
  pub lowest : (d : ℕ) → stderr_fileno < d → d < fd → f.table p d ≢ none
  pub free : f.table p fd ≡ none
  pub unused : (f.system k).vn ≡ none
  pub table : r.1.table ≡ (set_descriptor p fd (some k) f).table
  pub vnodes : (r.1.vnodes ≡ vnodes') × (r.1.reclaimed ≡ f.reclaimed)
  pub system : r.1.system ≡ (set_file k (fresh_file v) f).system
  pub valid : Counted n r.1

-- Every slot of the system is in use; the reference that `vfs_open` gave is given back.
pub record SystemFull (n v : ℕ) (vnodes' : ℕ → Vnode) (f : Files) (r : Reply × Files) : Type 0 where
  pub reply : r.0 ≡ failed enfile
  pub used : (k : ℕ) → k < system_open_max → (f.system k).vn ≢ none
  pub table : r.1.table ≡ f.table
  pub system : r.1.system ≡ f.system
  pub released : Released v (record f { vnodes = vnodes' }) r.1
  pub valid : Counted n r.1

-- Every descriptor of the process is in use. The slot `k` keeps the vnode, whose reference has been given
-- back, with a count of 1 though no descriptor refers to it.
pub record ProcessFull (n p v k : ℕ) (vnodes' : ℕ → Vnode) (f : Files) (r : Reply × Files)
    : Type 0 where
  pub reply : r.0 ≡ failed emfile
  pub used : (d : ℕ) → stderr_fileno < d → d < open_max → f.table p d ≢ none
  pub unused : (f.system k).vn ≡ none
  pub table : r.1.table ≡ f.table
  pub released : Released v (record f { vnodes = vnodes' }) r.1
  pub leaked : (r.1.system k ≡ fresh_file v) × (references n k r.1.table ≡ 0)

module _ (n p v : ℕ) (f : Files) (c : Counted n f) (vnodes' : ℕ → Vnode) (g : Granted v f vnodes')
    (lp : p < n) where
  abbrev pub granted : Files
  granted = record f { vnodes = vnodes' }

  has_reference : 0 < (vnodes' v).vn_refcount
  has_reference = ground (arith, g.enough v)

  full :
      ((k : ℕ) → k < system_open_max → (f.system k).vn ≢ none)
      → (f' : Files) → Closed v granted f'
      → SystemFull n v vnodes' f (failed enfile, f')
  full used f' h = record {
    reply = refl;
    used = used;
    table = h.same_table;
    system = h.same_system;
    released = h.released;
    valid = record {
      counted = rw (h.same_system, h.same_table) c.counted;
      closed = rw (h.same_system, h.same_table) c.closed;
      within = rw h.same_table c.within;
      few = c.few;
      held =
          rw h.same_system (λ w. omega (arith, g.enough w, released-le v w granted f' h.released));
      unlocked = h.still_unlocked;
    };
  }

  module _ (k : ℕ) (lt : k < system_open_max) (unused : (f.system k).vn ≡ none) where
    abbrev pub f₁ : Files
    f₁ = set_file k (fresh_file v) granted

    nothing : (w : ℕ) → points w (f.system k).vn ≡ 0
    nothing w = rw unused refl

    opened : (w : ℕ) → openings w f₁.system ≤ (vnodes' w).vn_refcount
    opened w = omega (arith, openings-set_file w k (fresh_file v) granted lt, nothing w, g.enough w)

    module _ (fd : ℕ) (lfd : fd < open_max) (free : f.table p fd ≡ none) where
      more :
          (j : ℕ)
          → references n j (set_descriptor p fd (some k) f₁).table
            ≡ references n j f.table + (if j == k then 1 else 0)
      more j = ground (arith, references-set_descriptor n j p fd (some k) f₁ lp lfd)

      pub opens-Counted : Counted n (set_descriptor p fd (some k) f₁)
      opens-Counted = record {
        counted = λ j q h. ground (arith, more j, c.counted j, c.closed k, unused);
        closed = λ j q h. ground (arith, more j, c.closed j);
        within = λ q d j. ground (arith, c.within q d j, lt);
        few = c.few;
        held = opened;
        unlocked = g.unlocked;
      }

      free_is_first :
          ((d : ℕ) → stderr_fileno + 1 ≤ d → d < fd → is_none (f.table p d) ≡ false)
          → stderr_fileno + 1 ≤ fd
          → Opens n p v fd k vnodes' f (returned fd, set_descriptor p fd (some k) f₁)
      free_is_first before above = record {
        reply = refl;
        range = (omega (arith, above), lfd);
        lowest = λ d q r. ground (arith, before d);
        free = free;
        unused = unused;
        table = refl;
        vnodes = (refl, refl);
        system = refl;
        valid = opens-Counted;
      }

    leaks :
        ((d : ℕ) → stderr_fileno + 1 ≤ d → d < open_max → is_none (f.table p d) ≡ false)
        → (f' : Files) → Closed v f₁ f'
        → ProcessFull n p v k vnodes' f (failed emfile, f')
    leaks used f' h = record {
      reply = refl;
      used = λ d q r. ground (arith, used d);
      unused = unused;
      table = h.same_table;
      released = record { counts = h.released.counts; reclaimed = h.released.reclaimed };
      leaked = rw (h.same_system, h.same_table) (ground arith, c.closed k lt unused);
    }

    with_slot :
        first_index system_open_max (λ i. is_none (f.system i).vn) ≡ some k
        → Returns
            (open_vnode p v granted)
            (λ r. ((fd : ℕ) × Opens n p v fd k vnodes' f r) ⊎ ProcessFull n p v k vnodes' f r)
    unfolding open_vnode
    with_slot e =
        rw (e, open_vnode)
          (descriptors _ refl (
            first_from-FirstIn (open_max - (stderr_fileno + 1)) (stderr_fileno + 1) open_max _
              (omega arith)))
      where
        descriptors :
            (o : Option ℕ)
            → first_from
                (open_max - (stderr_fileno + 1))
                (stderr_fileno + 1)
                (λ fd. is_none (f.table p fd))
              ≡ o
            → FirstIn (stderr_fileno + 1) open_max (λ fd. is_none (f.table p fd)) o
            → Returns
                (elim (first_from
                  (open_max - (stderr_fileno + 1))
                  (stderr_fileno + 1)
                  (λ fd. is_none (f.table p fd))) [
                    | some fd ↦ ok (returned fd, set_descriptor p fd (some k) f₁)
                    | none ↦ do f₂ ← vfs_close v f₁; ok (failed emfile, f₂)
                  ])
                (λ r. ((fd : ℕ) × Opens n p v fd k vnodes' f r) ⊎ ProcessFull n p v k vnodes' f r)
        descriptors none q h = rw q (
            Returns-bind (Closed v f₁) _ (vfs_close v f₁) (λ f₂. ok (failed emfile, f₂))
              (vfs_close-Closed v f₁ has_reference g.unlocked)
              (λ f' closed. inr (leaks h f' closed)))
        descriptors (some fd) q (above, below, hit, before) =
            rw q (inl (fd, free_is_first fd below (ground (arith, hit)) before above))

-- `sys_open` of process `p`, where the counts are right and `vfs_open` has given a vnode with a reference more
-- than its open files: the file is opened with the lowest free descriptor, the counts stay right and every vnode
-- keeps its references; or the system has no free slot, and the reference that `vfs_open` gave is given back; or
-- the process has no free descriptor, and the reference is given back, but the slot keeps the vnode with a count of
-- 1 though no descriptor refers to it.
pub sys_open-Opens :
    (n p v : ℕ) (vfs_open : (ℕ → Vnode) → Option ℕ × (ℕ → Vnode)) (f : Files)
    → Counted n f
    → (vfs_open f.vnodes).0 ≡ some v
    → Granted v f (vfs_open f.vnodes).1
    → p < n
    → Returns (sys_open vfs_open p f) (λ r.
      ((k fd : ℕ) × Opens n p v fd k (vfs_open f.vnodes).1 f r)
      ⊎ SystemFull n v (vfs_open f.vnodes).1 f r
      ⊎ ((k : ℕ) × ProcessFull n p v k (vfs_open f.vnodes).1 f r))
unfolding sys_open open_vnode
sys_open-Opens n p v vfs_open f c e g lp =
    rw (e, sys_open)
      (slots _ refl (first_index-FirstIn system_open_max (λ i. is_none (f.system i).vn)))
  where
    vnodes' : ℕ → Vnode
    vnodes' = (vfs_open f.vnodes).1

    slots :
        (o : Option ℕ)
        → first_index system_open_max (λ i. is_none (f.system i).vn) ≡ o
        → FirstIn 0 system_open_max (λ i. is_none (f.system i).vn) o
        → Returns (open_vnode p v (record f { vnodes = vnodes' })) (λ r.
          ((k fd : ℕ) × Opens n p v fd k vnodes' f r)
          ⊎ SystemFull n v vnodes' f r
          ⊎ ((k : ℕ) × ProcessFull n p v k vnodes' f r))
    slots none q h =
        rw (q, open_vnode)
          (Returns-bind (Closed v (record f { vnodes = vnodes' })) _
            (vfs_close v (record f { vnodes = vnodes' })) (λ f'. ok (failed enfile, f'))
            (vfs_close-Closed v (record f { vnodes = vnodes' })
              (has_reference n p v f c vnodes' g lp) g.unlocked)
            (λ f' closed.
              inr (inl (full n p v f c vnodes' g lp (λ k lt. ground (arith, h k)) f' closed))))
    slots (some k) q (_, lt, hit, _) =
        Returns-map _ _ (open_vnode p v (record f { vnodes = vnodes' })) (λ r h. pick r k h)
          (with_slot n p v f c vnodes' g lp k lt (ground (arith, hit)) q)
      where
        pick :
            (r : Reply × Files) (k : ℕ)
            → ((fd : ℕ) × Opens n p v fd k vnodes' f r) ⊎ ProcessFull n p v k vnodes' f r
            → ((k fd : ℕ) × Opens n p v fd k vnodes' f r)
              ⊎ SystemFull n v vnodes' f r
              ⊎ ((k : ℕ) × ProcessFull n p v k vnodes' f r)
        pick r k (inl (fd, h)) = inl (k, fd, h)
        pick r k (inr h) = inr (inr (k, h))
