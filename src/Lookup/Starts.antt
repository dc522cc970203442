-- ===== src/Lookup/Starts.antt =====
-- `getdevice` as a whole: the device name, the rest of the path and the vnode to start from.
use sdp_project_c.Common.{
  ℕ, zero, suc, ◌+◌, ◌-◌, ◌≤◌, ◌<◌, ◌≡◌, refl, sym, ◌∙◌, ap, subst, ◌≢◌, ◌⊎◌, inl, inr, true, false,
  Option, none, some, Returns, Returns-map, ◌>>=◌, Returns-bind, arith, ◌==◌, update,
}
use sdp_project_c.Spinlock.{unheld}
use sdp_project_c.Str.Length.{IsString}
use sdp_project_c.Lookup.{
  Answer, refused, gives, Vfs, Devices, Start, find_loop, skip_slashes, receive, vfs_getcurdir,
  current_root, boot_root, after_slashes, start_from, getdevice,
}
use sdp_project_c.Lookup.Refs.{
  cwd_start, Counted, receive-Counted, vfs_getcurdir-Counted, current_root-Counted,
  boot_root-Counted,
}
use sdp_project_c.Lookup.Paths.{
  Found, find_loop-Found, Landed, skip_slashes-Landed, Rest, AllPlain, SetBy, Kind, by_relative,
  by_slash, by_colon, by_device, Begins, rest-IsString,
}

module _ (d : Devices) (rounds path n : ℕ) (m : ℕ → ℕ) (s : Vfs) (str : IsString path n m)
    (lt : n < rounds) (free : (x : ℕ) → (s.vnodes x).vn_countlock ≡ unheld) where
  from_cwd :
      (r : Answer × Vfs)
      → Counted s r.0 r.1
      → r.0 ≡ cwd_start s
      → m path ≢ 47
      → ((AllPlain path 0 n m)
          ⊎ ((k : ℕ) × (0 < k) × (k < n) × (m (path + k) ≡ 47) × AllPlain path 0 k m))
      → Begins d path n m s (record { startvn = r.0; subpath = some path; memory = m; vfs = r.1 })
  from_cwd r counted at clean plain = record {
    counted = counted;
    rest = (0, omega arith, omega arith, rest-IsString path n 0 m str (omega arith), clean);
    kind = by_relative plain refl at refl;
  }

  -- What `after_slashes` sets.
  Skipped : Answer → Vfs → Start → Type 0
  Skipped answer s' r =
      (r.startvn ≡ answer)
      × (r.memory ≡ m)
      × (r.vfs ≡ s')
      × Rest path n r.memory r.subpath
      × SetBy r.startvn r.subpath

  after_slashes-Skipped :
      (answer : Answer) (s' : Vfs)
      → 0 < n
      → Returns (after_slashes rounds path m answer s') (Skipped answer s')
  unfolding after_slashes Skipped
  after_slashes-Skipped (refused e) s' pos = (refl, refl, refl, tt, refl)
  after_slashes-Skipped (gives u) s' pos =
      let here : path + 0 ≡ path = omega arith in
      Returns-bind (Landed path n 0 m) _ (skip_slashes rounds path m) _
        (subst (λ b. Returns (skip_slashes rounds b m) (Landed path n 0 m)) here
          (skip_slashes-Landed rounds path n 0 m str.last pos (omega arith)))
        (λ b (o, e, p, q, clean, between). (
          refl,
          refl,
          refl,
          (o, e, q, rest-IsString path n o m str q, subst (λ a. m a ≢ 47) (sym e) clean),
          tt,
        ))

  after_slashes-Begins :
      (answer : Answer) (s' : Vfs)
      → Counted s answer s'
      → 0 < n
      → ((r : Start)
          → r.startvn ≡ answer
          → r.memory ≡ m
          → SetBy r.startvn r.subpath
          → Kind d path n m s r)
      → Returns (after_slashes rounds path m answer s') (Begins d path n m s)
  unfolding Skipped
  after_slashes-Begins answer s' counted pos kind =
      Returns-map (Skipped answer s') _ (after_slashes rounds path m answer s')
        (λ r (start, same, vfs, rest, set). record {
          counted = rw (start, vfs) counted;
          rest = rest;
          kind = kind r start same set;
        })
        (after_slashes-Skipped answer s' pos)

  first_clean :
      (k : ℕ)
      → k ≤ n
      → ((x : ℕ) → 0 ≤ x → x < k → (m (path + x) ≢ 58) × (m (path + x) ≢ 47))
      → (0 < k) ⊎ (k ≡ n)
      → m path ≢ 47
  first_clean k le plain (inl pos) =
      let here : path + 0 ≡ path = omega arith in
      subst (λ a. m a ≢ 47) here ((plain 0 (omega arith) pos).1)
  first_clean zero le plain (inr all) = λ e.
      let ends : m path ≡ 0 = ap m (let z : path ≡ path + n = omega (arith, all) in z) ∙ str.last in
      absurd (omega (arith, e, ends))
  first_clean (suc k) le plain (inr all) =
      let here : path + 0 ≡ path = omega arith in
      subst (λ a. m a ≢ 47) here ((plain 0 (omega arith) (omega arith)).1)

  -- The path with its colon at `k` made an end.
  cut : ℕ → ℕ → ℕ
  cut k = update m (path + k) 0

  cut-other : (k x : ℕ) → x ≢ k → cut k (path + x) ≡ m (path + x)
  unfolding cut
  cut-other k x ne =
      let differs : (path + k == path + x) ≡ false = ground (arith, ne) in rw differs refl

  cut-here : (k : ℕ) → cut k (path + k) ≡ 0
  unfolding cut
  cut-here k = let same : (path + k == path + k) ≡ true = ground arith in rw same refl

  name-IsString : (k : ℕ) → k < n → IsString path k (cut k)
  name-IsString k below = record {
    chars = λ i li e. str.chars i (omega arith) (sym (cut-other k i (omega arith)) ∙ e);
    last = cut-here k;
  }

  behind-IsString : (k o : ℕ) → k < o → o ≤ n → IsString (path + o) (n - o) (cut k)
  behind-IsString k o above le = record {
    chars = λ i li e.
        let at : path + (o + i) ≡ path + o + i = omega arith in
        str.chars (o + i) (omega arith)
          (sym (cut-other k (o + i) (omega arith)) ∙ ap (cut k) at ∙ e);
    last =
        let at : path + o + (n - o) ≡ path + n = omega (arith, le) in
        ap (cut k) at ∙ cut-other k n (omega arith) ∙ str.last;
  }

  start_from-Begins :
      (slash colon : Option ℕ)
      → Found path n 0 m (slash, colon)
      → s.p_lock ≡ unheld
      → ((u : ℕ) → s.p_cwd ≡ some u → (d.has_fs u ≡ true) × (0 < (s.vnodes u).vn_refcount))
      → Returns (start_from d rounds path m slash colon s) (Begins d path n m s)
  unfolding start_from cut
  start_from-Begins none none found unlocked cwd =
      Returns-bind _ _ (vfs_getcurdir s) _ (vfs_getcurdir-Counted s free unlocked)
        (λ r h. from_cwd r h.0 h.2 (first_clean n (omega arith) found (inr refl)) (inl found))
  start_from-Begins (some (suc k)) none (_, below, is_slash, plain) unlocked cwd =
      Returns-bind _ _ (vfs_getcurdir s) _ (vfs_getcurdir-Counted s free unlocked) (λ r h.
        from_cwd r h.0 h.2 (first_clean (suc k) (omega arith) plain (inl (omega arith)))
          (inr (suc k, omega arith, below, is_slash, plain)))
  start_from-Begins (some zero) none (_, below, is_slash, _) unlocked cwd =
      let here : path + 0 ≡ path = omega arith in
      Returns-bind _ _ (boot_root s) _ (boot_root-Counted s free) (λ r h.
        after_slashes-Begins r.0 r.1 h.0 below
          (λ r' start same set. by_slash below (sym (ap m here) ∙ is_slash) same (start ∙ h.1) set))
  start_from-Begins found_slash (some zero) (_, below, is_colon, _) unlocked cwd =
      let here : path + 0 ≡ path = omega arith in
      Returns-bind _ _ (current_root d s) _ (current_root-Counted d s free unlocked cwd) (λ r h.
        after_slashes-Begins r.0 r.1 h.0 below
          (λ r' start same set. by_colon below (sym (ap m here) ∙ is_colon) same (start ∙ h.1) set))
  start_from-Begins found_slash (some (suc k)) (_, below, is_colon, plain) unlocked cwd =
      Returns-bind (Landed path n (suc k) (cut (suc k))) _
        (skip_slashes rounds (path + suc k) (cut (suc k))) _
        (skip_slashes-Landed rounds path n (suc k) (cut (suc k))
          (cut-other (suc k) n (omega arith) ∙ str.last) below (omega arith))
        (λ b (o, e, p, q, clean, between).
          Returns-bind _ _ (receive (d.vfs_getroot (cut (suc k)) path) s) _
            (receive-Counted (d.vfs_getroot (cut (suc k)) path) s free)
            (λ s' h. record {
              counted = h;
              rest = (
                o,
                e,
                q,
                behind-IsString (suc k) o p q,
                subst (λ a. cut (suc k) a ≢ 47) (sym e) clean,
              );
              kind =
                  by_device (suc k) (omega arith) below is_colon plain (name-IsString (suc k) below)
                    refl refl tt;
            }))

-- `getdevice` of a path of `n` characters, where the thread holds the lock of the vnode layer, `p_lock` and the locks
-- of the vnodes are free, and the current directory, if there is one, has a file system and a reference, ends.
-- A path that begins with a slash starts from the boot file system, one that begins with a colon from the root of
-- the file system of the current directory; a path whose first colon comes before any slash from what `vfs_getroot`
-- gives for the name before it, which is made a string; any other from the current directory, as it is. `*subpath`,
-- if it is set, is what is left of the path from one of its characters on, and begins with no slash; it is left alone
-- if a path that begins with a slash or a colon has nothing to start from. No vnode has gained or lost a reference,
-- but that to start from one.
pub getdevice-Begins :
    (d : Devices) (rounds path n : ℕ) (m : ℕ → ℕ) (s : Vfs)
    → IsString path n m
    → n < rounds
    → s.biglock_held ≡ true
    → ((x : ℕ) → (s.vnodes x).vn_countlock ≡ unheld)
    → s.p_lock ≡ unheld
    → ((u : ℕ) → s.p_cwd ≡ some u → (d.has_fs u ≡ true) × (0 < (s.vnodes u).vn_refcount))
    → Returns (getdevice d rounds path m s) (Begins d path n m s)
unfolding getdevice
getdevice-Begins d rounds path n m s str lt held free unlocked cwd =
    let there : Returns (find_loop rounds path 0 m >>= λ r. start_from d rounds path m r.0 r.1 s)
        (Begins d path n m s) =
      Returns-bind (Found path n 0 m) _ (find_loop rounds path 0 m) _
        (find_loop-Found rounds path n 0 m str (omega arith) (omega arith))
        (λ r found. start_from-Begins d rounds path n m s str lt free r.0 r.1 found unlocked cwd) in
    ground (arith, held, there)
