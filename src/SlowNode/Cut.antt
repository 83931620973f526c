-- ===== src/SlowNode/Cut.antt =====
-- The ranges of entries that `splitAndInsert` of libTupl/src/tupl/pvt/slow/Node.cpp moves and
-- leaves, as the two parts into which the list with the new entry is cut.
use tupl_native.Common.{
  ℕ, zero, suc, ◌-◌, ◌≤◌, ◌<◌, ◌≡◌, refl, List, [], ◌∷◌, ◌++◌, arith, length, take, drop, ap, ◌∙◌,
}
use tupl_native.SlowNode.{Entry, emplace, slice, moved_entries, kept_entries, left, right}

module _ {V : Type 0} where
  take-sub : (i j : ℕ) (es : List (Entry V)) → take (suc i - suc j) es ≡ take (i - j) es
  take-sub i j es = ap (λ k. take k es) (omega arith)

  take-zero : (i : ℕ) (es : List (Entry V)) → take (i - 0) es ≡ take i es
  take-zero i es = ap (λ k. take k es) (omega arith)

  -- Left of the cut stands what a LEFT split moves.
  left_part :
      (es : List (Entry V)) (i j : ℕ) (e : Entry V)
      → i ≤ j
      → i ≤ length es
      → take i es ++ (e ∷ slice i j es) ≡ take (suc j) (emplace es i e)
  left_part es zero j e h q = ap (λ l. e ∷ l) (take-zero j es)
  left_part [] (suc i) zero e h q = absurd (omega arith)
  left_part [] (suc i) (suc j) e h q = absurd (omega arith)
  left_part (x ∷ es) (suc i) zero e h q = absurd (omega arith)
  left_part (x ∷ es) (suc i) (suc j) e h q =
      ap (λ l. x ∷ l)
        (ap (λ l. take i es ++ (e ∷ l)) (take-sub j i (drop i es))
          ∙ left_part es i j e (omega arith) (omega arith))

  right_rest :
      (es : List (Entry V)) (i j : ℕ) (e : Entry V)
      → i ≤ j
      → i ≤ length es
      → drop j es ≡ drop (suc j) (emplace es i e)
  right_rest es zero j e h q = refl
  right_rest es (suc i) zero e h q = absurd (omega arith)
  right_rest [] (suc i) (suc j) e h q = absurd (omega arith)
  right_rest (x ∷ es) (suc i) (suc j) e h q = right_rest es i j e (omega arith) (omega arith)

  -- Right of the cut stands what a RIGHT split moves.
  right_part :
      (es : List (Entry V)) (i j : ℕ) (e : Entry V)
      → j ≤ i
      → i ≤ length es
      → slice j i es ++ (e ∷ drop i es) ≡ drop j (emplace es i e)
  right_part es i zero e h q = ap (λ l. l ++ (e ∷ drop i es)) (take-zero i es)
  right_part es zero (suc j) e h q = absurd (omega arith)
  right_part [] (suc i) (suc j) e h q = absurd (omega arith)
  right_part (x ∷ es) (suc i) (suc j) e h q =
      ap (λ l. l ++ (e ∷ drop i es)) (take-sub i j (drop j es))
      ∙ right_part es i j e (omega arith) (omega arith)

  left_rest :
      (es : List (Entry V)) (i j : ℕ) (e : Entry V)
      → j ≤ i
      → i ≤ length es
      → take j es ≡ take j (emplace es i e)
  left_rest es i zero e h q = refl
  left_rest es zero (suc j) e h q = absurd (omega arith)
  left_rest [] (suc i) (suc j) e h q = absurd (omega arith)
  left_rest (x ∷ es) (suc i) (suc j) e h q =
      ap (λ l. x ∷ l) (left_rest es i j e (omega arith) (omega arith))

  -- The two parts of a list of entries, cut at a position.
  pub cut-left :
      (es : List (Entry V)) (i j : ℕ) (e : Entry V)
      → i < j
      → j ≤ length es
      → (moved_entries es left i j e ≡ take (suc j) (emplace es i e))
        × (kept_entries es left j ≡ drop (suc j) (emplace es i e))
  cut-left es i j e h q = (
    ap (λ l. l ++ (e ∷ slice i j es)) (take-zero i es)
        ∙ left_part es i j e (omega arith) (omega arith),
    right_rest es i j e (omega arith) (omega arith),
  )

  pub cut-right :
      (es : List (Entry V)) (i j : ℕ) (e : Entry V)
      → j ≤ i
      → i ≤ length es
      → (moved_entries es right i j e ≡ drop j (emplace es i e))
        × (kept_entries es right j ≡ take j (emplace es i e))
  cut-right es i j e h q = (right_part es i j e h q, left_rest es i j e h q)
