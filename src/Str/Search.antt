-- ===== src/Str/Search.antt =====
-- The search for a character in a string.
use sdp_project_c.Common.{
  ℕ, zero, suc, ◌+◌, ◌≤◌, ◌<◌, ◌≡◌, subst, ◌≢◌, inl, inr, true, false, Option, none, some, Returns,
  Returns-map, arith, ◌==◌, ℕ_discrete, Bool-cases, u8,
}
use sdp_project_c.Str.{strchr_loop, strchr, strrchr_loop, strrchr}
use sdp_project_c.Str.Length.{IsString, strlen-IsString}

-- The first place of `ch` from `from` up to the end `end_at`, that included; and the last.
abbrev pub FirstPlace : ℕ → ℕ → ℕ → (ℕ → ℕ) → Option ℕ → Type 0
FirstPlace from end_at ch m none = (a : ℕ) → from ≤ a → a ≤ end_at → m a ≢ ch
FirstPlace from end_at ch m (some p) =
    (from ≤ p) × (p ≤ end_at) × (m p ≡ ch) × ((a : ℕ) → from ≤ a → a < p → m a ≢ ch)

abbrev pub LastPlace : ℕ → ℕ → ℕ → (ℕ → ℕ) → Option ℕ → Type 0
LastPlace from end_at ch m none = (a : ℕ) → from ≤ a → a < end_at → m a ≢ ch
LastPlace from end_at ch m (some p) =
    (from ≤ p) × (p < end_at) × (m p ≡ ch) × ((a : ℕ) → p < a → a < end_at → m a ≢ ch)

widen :
    (from end_at ch : ℕ) (m : ℕ → ℕ) (o : Option ℕ)
    → m from ≢ ch
    → FirstPlace (from + 1) end_at ch m o
    → FirstPlace from end_at ch m o
widen from end_at ch m none miss h = λ a p q. elim (ℕ_discrete a from) [
  | yes e ↦ ground (arith, e, miss)
  | no ne ↦ h a (omega arith) q
]
widen from end_at ch m (some k) miss (a, b, c, d) = (
  omega arith,
  b,
  c,
  λ x p q. elim (ℕ_discrete x from) [
    | yes e ↦ ground (arith, e, miss)
    | no ne ↦ d x (omega arith) q
  ],
)

strchr_loop-FirstPlace :
    (rounds s n i ch : ℕ) (m : ℕ → ℕ)
    → IsString s n m
    → i ≤ n
    → n < i + rounds
    → Returns (strchr_loop rounds (s + i) ch m) (FirstPlace (s + i) (s + n) ch m)
unfolding strchr_loop
strchr_loop-FirstPlace zero s n i ch m str le lt = absurd (omega arith)
strchr_loop-FirstPlace (suc rounds) s n i ch m str le lt = elim (ℕ_discrete i n) [
  | yes e ↦
      let t : (m (s + i) == 0) ≡ true = ground (arith, e, str.last) in
      rw (t, strchr_loop)
        (elim (Bool-cases (m (s + i) == ch)) [
          | inl hit ↦
              rw hit (omega arith, omega arith, ground (arith, hit), λ a p q. absurd (omega arith))
          | inr miss ↦
              rw miss (λ a p q. let same : a ≡ s + i = omega arith in ground (arith, same, miss))
        ])
  | no ne ↦
      let t : (m (s + i) == 0) ≡ false = ground (arith, str.chars i, ne) in
      elim (Bool-cases (m (s + i) == ch)) [
        | inl hit ↦
            rw (t, hit, strchr_loop)
              (omega arith, omega arith, ground (arith, hit), λ a p q. absurd (omega arith))
        | inr miss ↦
            rw (t, miss, strchr_loop)
              (Returns-map (FirstPlace (s + i + 1) (s + n) ch m) (FirstPlace (s + i) (s + n) ch m)
                (strchr_loop rounds (s + i + 1) ch m)
                (λ o h. widen (s + i) (s + n) ch m o (ground (arith, miss)) h)
                (further (omega arith)
                  (strchr_loop-FirstPlace rounds s n (i + 1) ch m str (omega arith) (omega arith))))
      ]
]
  where
    further :
        s + (i + 1) ≡ s + i + 1
        → Returns (strchr_loop rounds (s + (i + 1)) ch m) (FirstPlace (s + (i + 1)) (s + n) ch m)
        → Returns (strchr_loop rounds (s + i + 1) ch m) (FirstPlace (s + i + 1) (s + n) ch m)
    further e h = subst (λ x. Returns (strchr_loop rounds x ch m) (FirstPlace x (s + n) ch m)) e h

-- `strchr` in a string ends, and gives the first place of the character, which may be the 0 at the end, or none
-- if it is not in the string.
pub strchr-FirstPlace :
    (rounds s n ch : ℕ) (m : ℕ → ℕ)
    → IsString s n m
    → n < rounds
    → Returns (strchr rounds s ch m) (FirstPlace s (s + n) (u8 ch) m)
unfolding strchr
strchr-FirstPlace rounds s n ch m str lt =
    let e : s + 0 ≡ s = omega arith in
    subst (λ x. Returns (strchr_loop rounds x (u8 ch) m) (FirstPlace x (s + n) (u8 ch) m)) e
      (strchr_loop-FirstPlace rounds s n 0 (u8 ch) m str (omega arith) (omega arith))

strrchr_loop-LastPlace : (n s ch : ℕ) (m : ℕ → ℕ) → LastPlace s (s + n) ch m (strrchr_loop n s ch m)
unfolding strrchr_loop
strrchr_loop-LastPlace zero s ch m = λ a p q. absurd (omega arith)
strrchr_loop-LastPlace (suc n) s ch m = elim (Bool-cases (m (s + n) == ch)) [
  | inl hit ↦
      rw (hit, strrchr_loop)
        (omega arith, omega arith, ground (arith, hit), λ a p q. absurd (omega arith))
  | inr miss ↦
      rw (miss, strrchr_loop)
        (more (ground (arith, miss)) (strrchr_loop n s ch m) (strrchr_loop-LastPlace n s ch m))
]
  where
    more :
        m (s + n) ≢ ch
        → (o : Option ℕ) → LastPlace s (s + n) ch m o
        → LastPlace s (s + suc n) ch m o
    more off none h = λ a p q. elim (ℕ_discrete a (s + n)) [
      | yes e ↦ ground (arith, e, off)
      | no ne ↦ h a p (omega arith)
    ]
    more off (some k) (a, b, c, d) = (
      a,
      omega arith,
      c,
      λ x p q. elim (ℕ_discrete x (s + n)) [
        | yes e ↦ ground (arith, e, off)
        | no ne ↦ d x p (omega arith)
      ],
    )

-- `strrchr` likewise gives the last place.
pub strrchr-LastPlace :
    (rounds s n ch : ℕ) (m : ℕ → ℕ)
    → IsString s n m
    → n < rounds
    → Returns (strrchr rounds s ch m) (LastPlace s (s + n + 1) (u8 ch) m)
unfolding strrchr
strrchr-LastPlace rounds s n ch m str lt =
    let e : s + (n + 1) ≡ s + n + 1 = omega arith in
    rw (strlen-IsString rounds s n m str lt) (
      subst (λ x. LastPlace s x (u8 ch) m (strrchr_loop (n + 1) s (u8 ch) m)) e
        (strrchr_loop-LastPlace (n + 1) s (u8 ch) m))
