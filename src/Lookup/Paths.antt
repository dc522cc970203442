-- ===== src/Lookup/Paths.antt =====
-- `getdevice` as a whole: the device name, the rest of the path and the vnode to start from.
use sdp_project_c.Common.{
  ℕ, zero, suc, ◌+◌, ◌-◌, ◌≤◌, ◌<◌, ◌≡◌, ◌∙◌, ap, subst, ◌≢◌, ◌⊎◌, inl, inr, true, false, Option,
  none, some, Returns, Returns-map, Bool-cases, arith, ◌==◌, update, ℕ_discrete,
}
use sdp_project_c.Str.Length.{IsString}
use sdp_project_c.Lookup.{Answer, refused, gives, Vfs, Devices, Start, find_loop, skip_slashes}
use sdp_project_c.Lookup.Refs.{Counted, boot_start, cwd_start, cwd_root}

-- Neither a colon nor a slash.
abbrev pub Plain : ℕ → Type 0
Plain ch = (ch ≢ 58) × (ch ≢ 47)

abbrev pub AllPlain : ℕ → ℕ → ℕ → (ℕ → ℕ) → Type 0
AllPlain path i k m = (x : ℕ) → i ≤ x → x < k → Plain (m (path + x))

-- The first colon or slash of a path of `n` characters, from the character `i` on.
abbrev pub Found : ℕ → ℕ → ℕ → (ℕ → ℕ) → Option ℕ × Option ℕ → Type 0
Found path n i m (slash, some k) = (i ≤ k) × (k < n) × (m (path + k) ≡ 58) × AllPlain path i k m
Found path n i m (some k, none) = (i ≤ k) × (k < n) × (m (path + k) ≡ 47) × AllPlain path i k m
Found path n i m (none, none) = AllPlain path i n m

AllPlain-wider :
    (path i k : ℕ) (m : ℕ → ℕ)
    → Plain (m (path + i))
    → AllPlain path (i + 1) k m
    → AllPlain path i k m
AllPlain-wider path i k m plain h x p q = elim (ℕ_discrete i x) [
  | yes e ↦ subst (λ j. Plain (m (path + j))) e plain
  | no ne ↦ h x (omega arith) q
]

wider :
    (path n i : ℕ) (m : ℕ → ℕ) (r : Option ℕ × Option ℕ)
    → Plain (m (path + i))
    → Found path n (i + 1) m r
    → Found path n i m r
wider path n i m (slash, some k) plain (a, b, c, h) =
    (omega arith, b, c, AllPlain-wider path i k m plain h)
wider path n i m (some k, none) plain (a, b, c, h) =
    (omega arith, b, c, AllPlain-wider path i k m plain h)
wider path n i m (none, none) plain h = AllPlain-wider path i n m plain h

pub find_loop-Found :
    (rounds path n i : ℕ) (m : ℕ → ℕ)
    → IsString path n m
    → i ≤ n
    → n < i + rounds
    → Returns (find_loop rounds path i m) (Found path n i m)
unfolding find_loop
find_loop-Found zero path n i m str le lt = absurd (omega arith)
find_loop-Found (suc rounds) path n i m str le lt = elim (ℕ_discrete i n) [
  | yes e ↦
      let t : (m (path + i) == 0) ≡ true = ground (arith, e, str.last) in
      rw (t, find_loop) (λ x p q. absurd (omega arith))
  | no ne ↦
      let t : (m (path + i) == 0) ≡ false = ground (arith, str.chars i, ne) in
      elim (Bool-cases (m (path + i) == 58)) [
        | inl colon ↦
            rw (t, colon, find_loop)
              (omega arith, omega arith, ground (arith, colon), λ x p q. absurd (omega arith))
        | inr other ↦ elim (Bool-cases (m (path + i) == 47)) [
          | inl slash ↦
              rw (t, other, slash, find_loop)
                (omega arith, omega arith, ground (arith, slash), λ x p q. absurd (omega arith))
          | inr plain ↦
              rw (t, other, plain, find_loop)
                (Returns-map (Found path n (i + 1) m) (Found path n i m)
                  (find_loop rounds path (i + 1) m)
                  (λ r h. wider path n i m r (ground (arith, other), ground (arith, plain)) h)
                  (find_loop-Found rounds path n (i + 1) m str (omega arith) (omega arith)))
        ]
      ]
]

-- The address `b` of the last slash behind the character `a`, or of that.
abbrev pub Landed : ℕ → ℕ → ℕ → (ℕ → ℕ) → ℕ → Type 0
Landed path n a m b =
    (o : ℕ) × (b + 1 ≡ path + o)
    × (a < o)
    × (o ≤ n)
    × (m (path + o) ≢ 47)
    × ((x : ℕ) → a < x → x < o → m (path + x) ≡ 47)

-- Nothing but slashes are passed.
pub skip_slashes-Landed :
    (rounds path n a : ℕ) (m : ℕ → ℕ)
    → m (path + n) ≡ 0
    → a < n
    → n < a + 1 + rounds
    → Returns (skip_slashes rounds (path + a) m) (Landed path n a m)
unfolding skip_slashes
skip_slashes-Landed zero path n a m last below lt = absurd (omega arith)
skip_slashes-Landed (suc rounds) path n a m last below lt =
    elim (Bool-cases (m (path + a + 1) == 47)) [
      | inl slash ↦
          let further : a + 1 < n = elim (ℕ_discrete (a + 1) n) [
            | yes e ↦
                let ends : m (path + a + 1) ≡ 0 = ap m (omega (arith, e)) ∙ last in
                absurd (ground (arith, slash, ends))
            | no ne ↦ omega arith
          ] in
          let here : path + (a + 1) ≡ path + a + 1 = omega arith in
          rw (slash, skip_slashes)
            (Returns-map (Landed path n (a + 1) m) (Landed path n a m)
              (skip_slashes rounds (path + a + 1) m)
              (λ b (o, e, p, q, clean, between). (
                o,
                e,
                omega arith,
                q,
                clean,
                λ x l u. elim (ℕ_discrete (a + 1) x) [
                  | yes at ↦
                      (let moved : path + x ≡ path + a + 1 = omega (arith, at) in
                        ap m moved ∙ ground (arith, slash))
                  | no ne ↦ between x (omega arith) u
                ],
              ))
              (subst (λ b. Returns (skip_slashes rounds b m) (Landed path n (a + 1) m)) here
                (skip_slashes-Landed rounds path n (a + 1) m last further (omega arith))))
      | inr other ↦
          rw (other, skip_slashes)
            (
              a + 1,
              omega arith,
              omega arith,
              omega arith,
              subst (λ b. m b ≢ 47) (omega arith) (the_other other),
              λ x l u. absurd (omega arith),
            )
    ]
  where
    the_other : (m (path + a + 1) == 47) ≡ false → m (path + a + 1) ≢ 47
    the_other other = ground (arith, other)

-- What is left of the path, if it is set: it begins at one of the characters, and not with a slash if there is a
-- vnode to start from.
abbrev pub Rest : ℕ → ℕ → (ℕ → ℕ) → Option ℕ → Type 0
Rest path n m none = Unit
Rest path n m (some sub) =
    (o : ℕ) × (sub ≡ path + o) × (o ≤ n) × IsString (path + o) (n - o) m × (m sub ≢ 47)

abbrev pub IsWritten : Option ℕ → Type 0
IsWritten none = ⊥
IsWritten (some a) = Unit

-- `*subpath` behind leading slashes is set if there is a vnode to start from, and only then.
abbrev pub SetBy : Answer → Option ℕ → Type 0
SetBy (refused e) sub = sub ≡ none
SetBy (gives u) sub = IsWritten sub

-- The four kinds of paths: `name` or `name/...`, `/...`, `:...` and `device:...`.
pub data Kind (d : Devices) (path n : ℕ) (m : ℕ → ℕ) (s : Vfs) (r : Start) : Type 0 where
  by_relative :
      ((AllPlain path 0 n m)
        ⊎ ((k : ℕ) × (0 < k) × (k < n) × (m (path + k) ≡ 47) × AllPlain path 0 k m))
      → r.memory ≡ m
      → r.startvn ≡ cwd_start s
      → r.subpath ≡ some path
      → Kind d path n m s r
  by_slash :
      0 < n
      → m path ≡ 47
      → r.memory ≡ m
      → r.startvn ≡ boot_start s
      → SetBy r.startvn r.subpath
      → Kind d path n m s r
  by_colon :
      0 < n
      → m path ≡ 58
      → r.memory ≡ m
      → r.startvn ≡ cwd_root d s
      → SetBy r.startvn r.subpath
      → Kind d path n m s r
  by_device :
      (k : ℕ)
      → 0 < k
      → k < n
      → m (path + k) ≡ 58
      → AllPlain path 0 k m
      → IsString path k r.memory
      → r.memory ≡ update m (path + k) 0
      → r.startvn ≡ d.vfs_getroot r.memory path
      → IsWritten r.subpath
      → Kind d path n m s r

-- What `getdevice` leaves of a path of `n` characters.
pub record Begins (d : Devices) (path n : ℕ) (m : ℕ → ℕ) (s : Vfs) (r : Start) : Type 0 where
  pub counted : Counted s r.startvn r.vfs
  pub rest : Rest path n r.memory r.subpath
  pub kind : Kind d path n m s r

-- The rest of a path, from its character `o` on.
pub rest-IsString :
    (path n o : ℕ) (m : ℕ → ℕ) → IsString path n m → o ≤ n → IsString (path + o) (n - o) m
rest-IsString path n o m str le = record {
  chars = λ i lt e. str.chars (o + i) (omega arith) (ap m (omega arith) ∙ e);
  last = ap m (omega arith) ∙ str.last;
}
