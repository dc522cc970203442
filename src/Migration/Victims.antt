-- ===== src/Migration/Victims.antt =====
-- The threads that are taken off a run queue.
use sdp_project_c.Common.{
  ℕ, zero, suc, ◌+◌, ◌≤◌, ◌≡◌, refl, ap, Option, none, some, err, Returns, Returns-map,
  out_of_bounds, arith, List, [], ◌∷◌, length, occurrences,
}
use sdp_project_c.Migration.{remtail, take_victims}

-- The last thread and the others.
abbrev pub Parts : List ℕ → Option (ℕ × List ℕ) → Type 0
Parts queue none = queue ≡ []
Parts queue (some (t, rest)) =
    (length queue ≡ length rest + 1) × ((u : ℕ) → occurrences u queue ≡ occurrences u (t ∷ rest))

pub remtail-Parts : (queue : List ℕ) → Parts queue (remtail queue)
unfolding remtail occurrences
remtail-Parts [] = refl
remtail-Parts (t ∷ ts) = behind (remtail ts) (remtail-Parts ts)
  where
    behind :
        (o : Option (ℕ × List ℕ))
        → Parts ts o
        → Parts (t ∷ ts) (elim o [ none ↦ some (t, []) | some (l, rest) ↦ some (l, t ∷ rest) ])
    behind none h = (ap length (ap (λ xs. t ∷ xs) h), λ u. ap (occurrences u) (ap (λ xs. t ∷ xs) h))
    behind (some (l, rest)) (len, same) = (omega arith, λ u. omega (arith, same u))

-- Enough threads on the queue: the victims are taken, and no thread is lost.
pub take_victims-Parts :
    (n : ℕ) (queue victims : List ℕ)
    → n ≤ length queue
    → Returns (take_victims n queue victims) (λ r.
      (length r.1 ≡ length victims + n)
      × ((u : ℕ)
          → occurrences u r.0 + occurrences u r.1 ≡ occurrences u queue + occurrences u victims))
unfolding take_victims occurrences
take_victims-Parts zero queue victims le = (omega arith, λ u. refl)
take_victims-Parts (suc n) queue victims le =
    step (λ q v. take_victims-Parts n q v) (remtail queue) (remtail-Parts queue)
  where
    step :
        ((q v : List ℕ)
          → n ≤ length q
          → Returns (take_victims n q v) (λ r.
            (length r.1 ≡ length v + n)
            × ((u : ℕ)
                → occurrences u r.0 + occurrences u r.1 ≡ occurrences u q + occurrences u v)))
        → (o : Option (ℕ × List ℕ)) → Parts queue o
        → Returns
            (elim o [
              | none ↦ err out_of_bounds
              | some (t, queue') ↦ take_victims n queue' (t ∷ victims)
            ])
            (λ r.
              (length r.1 ≡ length victims + suc n)
              × ((u : ℕ)
                  → occurrences u r.0 + occurrences u r.1
                    ≡ occurrences u queue + occurrences u victims))
    step rest none h = absurd (omega (arith, le, ap length h))
    step next (some (t, rest)) (len, same) =
        Returns-map _ _ (take_victims n rest (t ∷ victims))
          (λ r h. (omega (arith, h.0), λ u. omega (arith, h.1 u, same u)))
          (next rest (t ∷ victims) (omega arith))
