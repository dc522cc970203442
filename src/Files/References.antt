-- ===== src/Files/References.antt =====
-- The reference counts of the open files and of their vnodes.
use sdp_project_c.Common.{
  ℕ, ◌+◌, ◌*◌, ◌≤◌, ◌<◌, ◌≡◌, ◌≢◌, Option, none, some, arith, ◌==◌, if◌then◌else◌, update, total,
  total-update, le-total, total-le,
}
use sdp_project_c.Spinlock.{unheld}
use sdp_project_c.Files.{open_max, system_open_max, OpenFile, Files, set_descriptor, set_file}

-- Whether a pointer is `k`.
abbrev pub points : ℕ → Option ℕ → ℕ
points k none = 0
points k (some j) = if k == j then 1 else 0

-- How many descriptors of a process refer to open file `k`.
abbrev pub descriptors : ℕ → (ℕ → Option ℕ) → ℕ
descriptors k fds = total open_max (λ fd. points k (fds fd))

-- How many descriptors of the first `n` processes do.
abbrev pub references : ℕ → ℕ → (ℕ → ℕ → Option ℕ) → ℕ
references n k table = total n (λ p. descriptors k (table p))

-- How many open files have vnode `v`.
abbrev pub openings : ℕ → (ℕ → OpenFile) → ℕ
openings v system = total system_open_max (λ k. points v (system k).vn)

-- With `n` processes: the count of each open file is the number of its descriptors, a slot without a vnode
-- has none, and no vnode has fewer references than open files.
pub record Counted (n : ℕ) (f : Files) : Type 0 where
  pub counted :
      (k : ℕ)
      → k < system_open_max
      → (f.system k).vn ≢ none
      → (f.system k).count_ref ≡ references n k f.table
  pub closed : (k : ℕ) → k < system_open_max → (f.system k).vn ≡ none → references n k f.table ≡ 0
  pub within : (p fd k : ℕ) → p < n → fd < open_max → f.table p fd ≡ some k → k < system_open_max
  pub few : n < 0x100_0000
  pub held : (v : ℕ) → openings v f.system ≤ (f.vnodes v).vn_refcount
  pub unlocked : (v : ℕ) → (f.vnodes v).vn_countlock ≡ unheld

points-le-one : (k : ℕ) (o : Option ℕ) → points k o ≤ 1
points-le-one k none = omega arith
points-le-one k (some j) = ground arith

-- One descriptor changed.
pub references-set_descriptor :
    (n k p fd : ℕ) (o : Option ℕ) (f : Files)
    → p < n
    → fd < open_max
    → references n k (set_descriptor p fd o f).table + points k (f.table p fd)
      ≡ references n k f.table + points k o
references-set_descriptor n k p fd o f lp lfd = omega (
  arith,
  total-update open_max fd (points k) (f.table p) o lfd,
  total-update n p (descriptors k) f.table (update (f.table p) fd o) lp,
)

pub references-le : (n k : ℕ) (table : ℕ → ℕ → Option ℕ) → references n k table ≤ n * open_max
references-le n k table = total-le n open_max _ (λ p lp. omega (
  arith,
  total-le open_max 1 (λ fd. points k (table p fd)) (λ fd lt. points-le-one k (table p fd)),
))

-- A descriptor that refers to a file is counted.
pub le-references :
    (n k p fd : ℕ) (table : ℕ → ℕ → Option ℕ)
    → p < n
    → fd < open_max
    → table p fd ≡ some k
    → 1 ≤ references n k table
le-references n k p fd table lp lfd e = omega (
  arith,
  is_one,
  le-total open_max fd (λ i. points k (table p i)) lfd,
  le-total n p (λ q. descriptors k (table q)) lp,
)
  where
    is_one : points k (table p fd) ≡ 1
    is_one = ground arith

-- One open file changed.
pub openings-set_file :
    (v k : ℕ) (of : OpenFile) (f : Files)
    → k < system_open_max
    → openings v (set_file k of f).system + points v (f.system k).vn
      ≡ openings v f.system + points v of.vn
openings-set_file v k of f lt =
    total-update system_open_max k (λ (x : OpenFile). points v x.vn) f.system of lt
