-- ===== src/LowerBound/Partition.antt =====
-- The search by halving returns the partition point of a range that has one.
use tupl_native.Common.{
  ℕ, zero, suc, ◌+◌, ◌-◌, ◌/◌, ◌≤◌, ◌<◌, ◌≡◌, Bool, true, false, arith, ◌==◌, Bool-cases, inl, inr,
}
use tupl_native.LowerBound.{lower_bound_loop, lower_bound}

-- All positions of the range up to `r` are before the value, and none from `r` on.
pub record Splits (before : ℕ → Bool) (first last r : ℕ) : Type 0 where
  pub at_least : first ≤ r
  pub at_most : r ≤ last
  pub below : (i : ℕ) → first ≤ i → i < r → before i ≡ true
  pub above : (i : ℕ) → r ≤ i → i < last → before i ≡ false

-- The range is partitioned: what stands in front of a position that is before the value is too.
abbrev pub IsPartitioned : (ℕ → Bool) → (first last : ℕ) → Type 0
IsPartitioned before first last =
    (i j : ℕ) → first ≤ i → i ≤ j → j < last → before j ≡ true → before i ≡ true

module _ (before : ℕ → Bool) where
  pub Splits-unique :
      {first last r s : ℕ} → Splits before first last r → Splits before first last s → r ≡ s
  Splits-unique {first} {last} {r} {s} p q = ground (
    arith,
    p.below s,
    p.above s,
    p.below r,
    p.above r,
    q.below s,
    q.above s,
    q.below r,
    q.above r,
  )

  not_after :
      {first last : ℕ} (i j : ℕ)
      → IsPartitioned before first last
      → first ≤ i
      → i ≤ j
      → j < last
      → before i ≡ false
      → before j ≡ false
  not_after i j sorted lo le hi b = elim (Bool-cases (before j)) [
    | inl t ↦ absurd (cc (sorted i j lo le hi t))
    | inr f ↦ f
  ]

  loop-Splits :
      (fuel first last f len : ℕ)
      → IsPartitioned before first last
      → len ≤ fuel
      → first ≤ f
      → f + len ≤ last
      → ((i : ℕ) → first ≤ i → i < f → before i ≡ true)
      → ((i : ℕ) → f + len ≤ i → i < last → before i ≡ false)
      → Splits before first last (lower_bound_loop before fuel f len)
  unfolding lower_bound_loop
  loop-Splits zero first last f len sorted small lo hi below above = record {
    at_least = lo;
    at_most = omega arith;
    below = below;
    above = λ i p q. above i (omega arith) q;
  }
  loop-Splits (suc fuel) first last f len sorted small lo hi below above =
      elim (Bool-cases (len == 0)) [
        | inl e ↦
            rw (e, lower_bound_loop)
              (record {
                at_least = lo;
                at_most = omega arith;
                below = below;
                above = λ i p q. above i (ground arith) q;
              })
        | inr n ↦ elim (Bool-cases (before (f + len / 2))) [
          | inl b ↦
              rw (n, b, lower_bound_loop)
                (loop-Splits fuel first last (f + len / 2 + 1) (len - len / 2 - 1) sorted
                  (ground arith) (omega arith) (ground arith)
                  (λ i p q. sorted i (f + len / 2) p (omega arith) (ground arith) b)
                  (λ i p q. above i (ground arith) q))
          | inr b ↦
              rw (n, b, lower_bound_loop)
                (loop-Splits fuel first last f (len / 2) sorted (ground arith) lo (ground arith)
                  below (λ i p q. not_after (f + len / 2) i sorted (omega arith) p q b))
        ]
      ]

  -- On a partitioned range the search returns its partition point.
  pub lower_bound-Splits :
      (first last : ℕ)
      → first ≤ last
      → IsPartitioned before first last
      → Splits before first last (lower_bound before first last)
  unfolding lower_bound
  lower_bound-Splits first last le sorted =
      loop-Splits (last - first) first last first (last - first) sorted (omega arith) (omega arith)
        (omega arith) (λ i p q. absurd (omega arith)) (λ i p q. absurd (omega arith))
