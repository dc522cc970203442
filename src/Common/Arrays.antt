-- ===== src/Common/Arrays.antt =====
-- C arrays as functions of the index, with the loops that the kernel runs over them.
use Prim.Native.Nat.{ℕ, zero, suc, ◌+◌, ◌*◌, ◌≤◌, ◌<◌}
use mathlib.Core.Path.{◌≡◌, refl}
use mathlib.Core.Bool.{Bool, true, false}
use mathlib.Core.Logic.{◌≢◌, inl, inr}
use native.Mathlib.Decide.{dec_lt}
use mathlib.Core.Option.{Option, none, some}
use native.Mathlib.Omega.{arith}
use sdp_project_c.Common.Tests.{ltb, leb, ◌==◌, if◌then◌else◌, Bool-cases}

module _ {ℓ} {A : Type ℓ} where
  -- `a[i] = x`
  abbrev pub update : (ℕ → A) → ℕ → A → ℕ → A
  update a i x j = if i == j then x else a j

  -- `for (i = 0; i < n; i++) a[i] = body(i, a[i]);`
  pub sweep : ℕ → (ℕ → A → A) → (ℕ → A) → ℕ → A
  sweep zero body a = a
  sweep (suc n) body a = let a' = sweep n body a in update a' n (body n (a' n))

  -- `for (i = first; i < first + n; i++) a[i] = x;`
  pub fill : ℕ → ℕ → A → (ℕ → A) → ℕ → A
  fill zero first x a = a
  fill (suc n) first x a = update (fill n first x a) (first + n) x

  -- A sweep changes the first `n` entries, each by its own round.
  pub sweep_at :
      (n : ℕ) (body : ℕ → A → A) (a : ℕ → A) (j : ℕ)
      → sweep n body a j ≡ (if ltb j n then body j (a j) else a j)
  unfolding sweep
  sweep_at zero body a j = ground arith
  sweep_at (suc n) body a j = ground (arith, sweep_at n body a j, sweep_at n body a n)

  pub fill_at :
      (n first : ℕ) (x : A) (a : ℕ → A) (j : ℕ)
      → fill n first x a j ≡ (if leb first j then if ltb j (first + n) then x else a j else a j)
  unfolding fill
  fill_at zero first x a j = ground arith
  fill_at (suc n) first x a j = ground (arith, fill_at n first x a j)

-- `for (i = i; i < i + left; i++) if (test(i)) break;`
unfoldable pub first_from : ℕ → ℕ → (ℕ → Bool) → Option ℕ
first_from zero i test = none
first_from (suc left) i test =
    let rest = first_from left (i + 1) test in if test i then some i else rest

-- The first index below `n` that passes the test.
unfoldable pub first_index : ℕ → (ℕ → Bool) → Option ℕ
unfolding first_from
first_index n test = first_from n 0 test

-- `for (i = 0; i < n; i++) if (test(i)) last = i;`
unfoldable pub last_index : ℕ → (ℕ → Bool) → Option ℕ
last_index zero test = none
last_index (suc n) test = if test n then some n else last_index n test

-- What a search for the first index has found.
abbrev pub FirstIn : ℕ → ℕ → (ℕ → Bool) → Option ℕ → Type 0
FirstIn i n test none = (j : ℕ) → i ≤ j → j < n → test j ≡ false
FirstIn i n test (some k) =
    (i ≤ k) × (k < n) × (test k ≡ true) × ((j : ℕ) → i ≤ j → j < k → test j ≡ false)

pub first_from-FirstIn :
    (left i n : ℕ) (test : ℕ → Bool) → i + left ≡ n → FirstIn i n test (first_from left i test)
unfolding first_from
first_from-FirstIn zero i n test e = λ j p q. absurd (omega arith)
first_from-FirstIn (suc left) i n test e = elim (Bool-cases (test i)) [
  | inl hit ↦ rw hit (omega arith, omega arith, hit, λ j p q. absurd (omega arith))
  | inr miss ↦ rw miss (
      widen miss (first_from left (i + 1) test)
        (first_from-FirstIn left (i + 1) n test (omega arith)))
]
  where
    widen : test i ≡ false → (o : Option ℕ) → FirstIn (i + 1) n test o → FirstIn i n test o
    widen miss none h = λ j p q. ground (arith, h j)
    widen miss (some k) (a, b, c, d) = (omega arith, b, c, λ j p q. ground (arith, d j))

pub first_index-FirstIn : (n : ℕ) (test : ℕ → Bool) → FirstIn 0 n test (first_index n test)
unfolding first_index
first_index-FirstIn n test = first_from-FirstIn n 0 n test (omega arith)

abbrev pub LastIn : ℕ → (ℕ → Bool) → Option ℕ → Type 0
LastIn n test none = (j : ℕ) → j < n → test j ≡ false
LastIn n test (some k) = (k < n) × (test k ≡ true) × ((j : ℕ) → k < j → j < n → test j ≡ false)

pub last_index-LastIn : (n : ℕ) (test : ℕ → Bool) → LastIn n test (last_index n test)
unfolding last_index
last_index-LastIn zero test = λ j p. absurd (omega arith)
last_index-LastIn (suc n) test = elim (Bool-cases (test n)) [
  | inl hit ↦ rw hit (omega arith, hit, λ j p q. absurd (omega arith))
  | inr miss ↦ rw miss (widen miss (last_index n test) (last_index-LastIn n test))
]
  where
    widen : test n ≡ false → (o : Option ℕ) → LastIn n test o → LastIn (suc n) test o
    widen miss none h = λ j p. ground (arith, h j)
    widen miss (some k) (a, b, c) = (omega arith, b, λ j p q. ground (arith, c j))

-- The search finds an index wherever one passes.
pub first_index-ne-none :
    (n : ℕ) (test : ℕ → Bool) (i : ℕ)
    → i < n
    → test i ≡ true
    → (k : ℕ) × (first_index n test ≡ some k)
first_index-ne-none n test i lt hit = found (first_index n test) refl (first_index-FirstIn n test)
  where
    found :
        (o : Option ℕ)
        → first_index n test ≡ o
        → FirstIn 0 n test o
        → (k : ℕ) × (first_index n test ≡ some k)
    found none e h = absurd (ground (arith, h i))
    found (some k) e h = (k, e)

-- Two scans that agree on every index find the same.
pub last_index-ext :
    (n : ℕ) (f g : ℕ → Bool) → ((i : ℕ) → i < n → f i ≡ g i) → last_index n f ≡ last_index n g
unfolding last_index
last_index-ext zero f g h = refl
last_index-ext (suc n) f g h =
    rw (h n (omega arith), last_index-ext n f g (λ i lt. h i (omega arith))) refl

-- A scan that only index `k` passes finds `k`.
pub last_index-only :
    (n k : ℕ) (f : ℕ → Bool)
    → k < n
    → f k ≡ true
    → ((i : ℕ) → i < n → f i ≡ true → i ≡ k)
    → last_index n f ≡ some k
last_index-only n k f lt hit only = go (last_index n f) (last_index-LastIn n f)
  where
    go : (o : Option ℕ) → LastIn n f o → o ≡ some k
    go none h = absurd (ground (arith, h k))
    go (some j) (a, b, c) = ground (arith, only j a)

-- The sum of the first `n` values.
unfoldable pub total : ℕ → (ℕ → ℕ) → ℕ
total zero f = 0
total (suc n) f = total n f + f n

pub total-ext : (n : ℕ) (f g : ℕ → ℕ) → ((i : ℕ) → i < n → f i ≡ g i) → total n f ≡ total n g
unfolding total
total-ext zero f g h = refl
total-ext (suc n) f g h =
    omega (arith, h n (omega arith), total-ext n f g (λ i lt. h i (omega arith)))

-- One value changed in a sum.
pub total-change :
    (n k : ℕ) (f g : ℕ → ℕ)
    → k < n
    → ((i : ℕ) → i < n → i ≢ k → f i ≡ g i)
    → total n f + g k ≡ total n g + f k
unfolding total
total-change zero k f g lt h = absurd (omega arith)
total-change (suc n) k f g lt h = elim (dec_lt k n) [
  | yes below ↦ omega (
    arith,
    total-change n k f g below (λ i p. h i (omega arith)),
    h n (omega arith) (omega arith),
  )
  | no last ↦
      let e : k ≡ n = omega arith in
      rw e (omega (arith, total-ext n f g (λ i p. h i (omega arith) (omega arith))))
]

pub total-eq-zero : (n : ℕ) (f : ℕ → ℕ) → ((i : ℕ) → i < n → f i ≡ 0) → total n f ≡ 0
unfolding total
total-eq-zero zero f h = refl
total-eq-zero (suc n) f h =
    omega (arith, h n (omega arith), total-eq-zero n f (λ i lt. h i (omega arith)))

-- Each value counts in the sum.
pub le-total : (n k : ℕ) (f : ℕ → ℕ) → k < n → f k ≤ total n f
unfolding total
le-total zero k f lt = absurd (omega arith)
le-total (suc n) k f lt = elim (dec_lt k n) [
  | yes below ↦ omega (arith, le-total n k f below)
  | no last ↦ let e : k ≡ n = omega arith in rw e (omega arith)
]

-- A sum of values that are at most `b`.
pub total-le : (n b : ℕ) (f : ℕ → ℕ) → ((i : ℕ) → i < n → f i ≤ b) → total n f ≤ n * b
unfolding total
total-le zero b f h = omega arith
total-le (suc n) b f h =
    grind (arith, h n (omega arith), total-le n b f (λ i lt. h i (omega arith)))

-- One entry of an array changed, in a sum over its entries.
pub total-update {ℓ} :
    {A : Type ℓ} (n k : ℕ) (w : A → ℕ) (a : ℕ → A) (x : A)
    → k < n
    → total n (λ i. w (update a k x i)) + w (a k) ≡ total n (λ i. w (a i)) + w x
total-update n k w a x lt =
    let same : (k == k) ≡ true = ground arith in
    let here : w (update a k x k) ≡ w x = rw same refl in
    omega (
      arith,
      here,
      total-change n k (λ i. w (update a k x i)) (λ i. w (a i)) lt
          (λ i p ne. let other : (k == i) ≡ false = ground arith in rw other refl),
    )
