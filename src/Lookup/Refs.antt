-- ===== src/Lookup/Refs.antt =====
-- The references that the start of a path takes.
use sdp_project_c.Common.{
  ℕ, ap, ◌+◌, ◌<◌, ◌≡◌, refl, sym, ◌∙◌, true, false, Option, none, some, ok, ◌>>=◌, ◌>>◌, require,
  assertion, Returns, Returns-bind, arith, ltb, ◌==◌, if◌then◌else◌, ℕ_discrete,
}
use sdp_project_c.Spinlock.{unheld, spinlock_acquire, spinlock_release}
use sdp_project_c.Files.{enoent}
use sdp_project_c.Vnode.{vnode_incref, vnode_decref}
use sdp_project_c.Lookup.{
  Answer, refused, gives, Vfs, Devices, vop_incref, vop_decref, receive, vfs_getcurdir,
  current_root, boot_root,
}

-- The reference that comes with an answer.
abbrev pub owes : Answer → ℕ → ℕ
owes (refused e) x = 0
owes (gives u) x = if u == x then 1 else 0

-- Nobody has the lock of a vnode, and the references are those of `s` and that of the answer.
pub record Counted (s : Vfs) (answer : Answer) (s' : Vfs) : Type 0 where
  pub free : (x : ℕ) → (s'.vnodes x).vn_countlock ≡ unheld
  pub refs : (x : ℕ) → (s'.vnodes x).vn_refcount ≡ (s.vnodes x).vn_refcount + owes answer x

pub vop_incref-Counted :
    (u : ℕ) (s : Vfs)
    → ((x : ℕ) → (s.vnodes x).vn_countlock ≡ unheld)
    → Returns (vop_incref u s) (Counted s (gives u))
unfolding vop_incref vnode_incref spinlock_acquire spinlock_release
vop_incref-Counted u s free = rw (free u) (record {
  free = λ x. elim (ℕ_discrete u x) [
    | yes here ↦ let same : (u == x) ≡ true = ground arith in rw same refl
    | no other ↦ let differs : (u == x) ≡ false = ground arith in rw differs (free x)
  ];
  refs = λ x. elim (ℕ_discrete u x) [
    | yes here ↦ let same : (u == x) ≡ true = ground arith in rw (same, here) refl
    | no other ↦ let differs : (u == x) ≡ false = ground arith in rw differs (omega arith)
  ];
})

pub receive-Counted :
    (answer : Answer) (s : Vfs)
    → ((x : ℕ) → (s.vnodes x).vn_countlock ≡ unheld)
    → Returns (receive answer s) (Counted s answer)
unfolding receive
receive-Counted (refused e) s free = record { free = free; refs = λ x. omega arith }
receive-Counted (gives u) s free = vop_incref-Counted u s free

-- A reference of two or more is given back.
pub vop_decref-Counted :
    (u : ℕ) (s : Vfs)
    → ((x : ℕ) → (s.vnodes x).vn_countlock ≡ unheld)
    → 1 < (s.vnodes u).vn_refcount
    → Returns
        (vop_decref u s)
        (λ s'. Counted s' (gives u) s × ((x : ℕ) → (s'.vnodes x).vn_countlock ≡ unheld))
unfolding vop_decref vnode_decref spinlock_acquire spinlock_release
vop_decref-Counted u s free two =
    let some_left : ltb 0 (s.vnodes u).vn_refcount ≡ true = ground (arith, two) in
    let more_left : ltb 1 (s.vnodes u).vn_refcount ≡ true = ground (arith, two) in
    rw (free u, some_left, more_left)
      (
        record {
          free = free;
          refs = λ x. elim (ℕ_discrete u x) [
            | yes here ↦
                let same : (u == x) ≡ true = ground arith in
                rw (same, sym here) (omega (arith, two))
            | no other ↦ let differs : (u == x) ≡ false = ground arith in rw differs (omega arith)
          ];
        },
        λ x. elim (ℕ_discrete u x) [
          | yes here ↦ let same : (u == x) ≡ true = ground arith in rw same refl
          | no other ↦ let differs : (u == x) ≡ false = ground arith in rw differs (free x)
        ],
      )

-- Where a path starts: the boot file system, the current directory, or the root of its file system.
abbrev pub boot_start : Vfs → Answer
boot_start s = elim s.bootfs_vnode [ none ↦ refused enoent | some u ↦ gives u ]

abbrev pub cwd_start : Vfs → Answer
cwd_start s = elim s.p_cwd [ none ↦ refused enoent | some u ↦ gives u ]

abbrev pub cwd_root : Devices → Vfs → Answer
cwd_root d s = elim s.p_cwd [ none ↦ refused enoent | some u ↦ d.fsop_getroot u ]

-- The current directory, where it is the answer.
abbrev pub IsCwd : Vfs → Answer → Type 0
IsCwd s (refused e) = Unit
IsCwd s (gives u) = s.p_cwd ≡ some u

pub vfs_getcurdir-Counted :
    (s : Vfs)
    → ((x : ℕ) → (s.vnodes x).vn_countlock ≡ unheld)
    → s.p_lock ≡ unheld
    → Returns (vfs_getcurdir s) (λ r. Counted s r.0 r.1 × IsCwd s r.0 × (r.0 ≡ cwd_start s))
unfolding vfs_getcurdir spinlock_acquire spinlock_release
vfs_getcurdir-Counted s free unlocked = rw unlocked (by_cwd s.p_cwd refl)
  where
    s₀ : Vfs
    s₀ = record s { p_lock = unheld }

    by_cwd :
        (cwd : Option ℕ)
        → s.p_cwd ≡ cwd
        → Returns
            (◌>>=◌ {Before = Answer × Vfs} {After = Answer × Vfs}
              (elim cwd [
                | none ↦ ok (refused enoent, s)
                | some u ↦ (vop_incref u s >>= λ s'. ok (gives u, s'))
              ])
              (λ r. ok (r.0, record r.1 { p_lock = unheld })))
            (λ r.
              Counted s₀ r.0 r.1
              × IsCwd s₀ r.0
              × (r.0 ≡ elim cwd [ none ↦ refused enoent | some u ↦ gives u ]))
    by_cwd none e = (record { free = free; refs = λ x. omega arith }, tt, refl)
    by_cwd (some u) e =
        Returns-bind (λ r. Counted s r.0 r.1 × IsCwd s r.0 × (r.0 ≡ gives u)) _
          (do s' ← vop_incref u s; ok (gives u, s')) _
          (Returns-bind _ (λ r. Counted s r.0 r.1 × IsCwd s r.0 × (r.0 ≡ gives u)) (vop_incref u s)
            _ (vop_incref-Counted u s free) (λ s' h. (h, e, refl)))
          (λ r h. (record { free = h.0.free; refs = h.0.refs }, h.1, h.2))

pub boot_root-Counted :
    (s : Vfs)
    → ((x : ℕ) → (s.vnodes x).vn_countlock ≡ unheld)
    → Returns (boot_root s) (λ r. Counted s r.0 r.1 × (r.0 ≡ boot_start s))
unfolding boot_root
boot_root-Counted s free = by_boot s.bootfs_vnode
  where
    by_boot :
        (boot : Option ℕ)
        → Returns {A = Answer × Vfs}
            (elim boot [
              | none ↦ ok (refused enoent, s)
              | some u ↦ (do s' ← vop_incref u s; ok (gives u, s'))
            ])
            (λ r.
              Counted s r.0 r.1 × (r.0 ≡ elim boot [ none ↦ refused enoent | some u ↦ gives u ]))
    by_boot none = (record { free = free; refs = λ x. omega arith }, refl)
    by_boot (some u) =
        Returns-bind _ _ (vop_incref u s) _ (vop_incref-Counted u s free) (λ s' h. (h, refl))

pub current_root-Counted :
    (d : Devices) (s : Vfs)
    → ((x : ℕ) → (s.vnodes x).vn_countlock ≡ unheld)
    → s.p_lock ≡ unheld
    → ((u : ℕ) → s.p_cwd ≡ some u → (d.has_fs u ≡ true) × (0 < (s.vnodes u).vn_refcount))
    → Returns (current_root d s) (λ r. Counted s r.0 r.1 × (r.0 ≡ cwd_root d s))
unfolding current_root
current_root-Counted d s free unlocked cwd =
    Returns-bind _ _ (vfs_getcurdir s) _ (vfs_getcurdir-Counted s free unlocked)
      (λ r h. root r.0 r.1 h.0 h.1 (root_of r.0 s.p_cwd h.2))
  where
    root_of :
        (answer : Answer) (cwd : Option ℕ)
        → answer ≡ elim cwd [ none ↦ refused enoent | some u ↦ gives u ]
        → ◌≡◌ {A = Answer}
            (elim answer [ refused e ↦ refused e | gives u ↦ d.fsop_getroot u ])
            (elim cwd [ none ↦ refused enoent | some u ↦ d.fsop_getroot u ])
    root_of answer none e =
        ap (λ (a : Answer). elim a [ refused e ↦ refused e | gives u ↦ d.fsop_getroot u ]) e
    root_of answer (some u) e =
        ap (λ (a : Answer). elim a [ refused e ↦ refused e | gives u ↦ d.fsop_getroot u ]) e

    two_of :
        (u : ℕ) (s' s₂ : Vfs)
        → Counted s (gives u) s'
        → Counted s' (d.fsop_getroot u) s₂
        → 0 < (s.vnodes u).vn_refcount
        → 1 < (s₂.vnodes u).vn_refcount
    two_of u s' s₂ h k counted =
        let same : (u == u) ≡ true = ground arith in
        let taken : (s'.vnodes u).vn_refcount ≡ (s.vnodes u).vn_refcount + 1 =
          h.refs u ∙ rw same refl in
        omega (arith, taken, k.refs u, counted)

    root :
        (answer : Answer) (s' : Vfs)
        → Counted s answer s'
        → IsCwd s answer
        → ◌≡◌ {A = Answer}
            (elim answer [ refused e ↦ refused e | gives u ↦ d.fsop_getroot u ])
            (cwd_root d s)
        → Returns {A = Answer × Vfs}
            (elim answer [
              | refused e ↦ ok (refused e, s')
              | gives u ↦ do
                require (d.has_fs u) assertion
                s₂ ← receive (d.fsop_getroot u) s'
                s₃ ← vop_decref u s₂
                ok (d.fsop_getroot u, s₃)
            ])
            (λ r. Counted s r.0 r.1 × (r.0 ≡ cwd_root d s))
    root (refused e) s' h is at = (h, at)
    root (gives u) s' h is at = rw ((cwd u is).0) (
        Returns-bind _ _ (receive (d.fsop_getroot u) s') _
          (receive-Counted (d.fsop_getroot u) s' h.free)
          (λ s₂ k.
            Returns-bind _ _ (vop_decref u s₂) _
              (vop_decref-Counted u s₂ k.free (two_of u s' s₂ h k (cwd u is).1))
              (λ s₃ l. (
                record { free = l.1; refs = λ x. omega (arith, l.0.refs x, k.refs x, h.refs x) },
                at,
              ))))
