-- ===== src/SlowNode/Size.antt =====
-- The byte count of a node of libTupl/src/tupl/pvt/slow/Node.cpp: `recalculateBytesUsed` against
-- the sum of the entries' sizes.
use tupl_native.Common.{
  ℕ, ◌+◌, ◌*◌, ◌%◌, ◌^◌, ◌≤◌, ◌<◌, ◌≡◌, refl, List, [], ◌∷◌, ◌++◌, arith, length, take, drop, All,
  ap, zero, suc,
}
use tupl_native.Bytes.{Contents}
use tupl_native.SlowNode.{Entry, emplace}
use tupl_native.SlowNode.Ops.{bytes_used}
use tupl_native.SlowNode.Order.{insert_ordered}

module _ {V : Type 0} (value_size : V → ℕ) where
  abbrev pub entry_size : Entry V → ℕ
  entry_size e = length e.0 + value_size e.1

  unfoldable pub total_size : List (Entry V) → ℕ
  total_size [] = 0
  total_size (e ∷ es) = entry_size e + total_size es

  -- Every entry is one that `verifiedEntrySize` lets through.
  abbrev pub AllSmall : List (Entry V) → Type 0
  AllSmall es = All (λ e. entry_size e ≤ 1024) es

  bytes_used-total_size :
      (es : List (Entry V)) (total : ℕ)
      → total + total_size es < 2 ^ 64
      → bytes_used value_size es total ≡ total + total_size es
  unfolding bytes_used total_size
  bytes_used-total_size [] total h = omega arith
  bytes_used-total_size ((k, v) ∷ es) total h =
      ground
        (arith, bytes_used-total_size es ((total + (length k + value_size v) % 2 ^ 64) % 2 ^ 64))

  -- The loop of `recalculateBytesUsed` computes the sum where this is a `size_t`.
  pub bytes_used_lem :
      (es : List (Entry V)) → total_size es < 2 ^ 64 → bytes_used value_size es 0 ≡ total_size es
  bytes_used_lem es h = omega (arith, bytes_used-total_size es 0)

  pub total_size-append :
      (es fs : List (Entry V)) → total_size (es ++ fs) ≡ total_size es + total_size fs
  unfolding total_size
  total_size-append [] fs = omega arith
  total_size-append (e ∷ es) fs = omega (arith, total_size-append es fs)

  pub total_size-take-drop :
      (i : ℕ) (es : List (Entry V))
      → total_size (take i es) + total_size (drop i es) ≡ total_size es
  unfolding total_size
  total_size-take-drop zero es = omega arith
  total_size-take-drop (suc i) [] = omega arith
  total_size-take-drop (suc i) (e ∷ es) = omega (arith, total_size-take-drop i es)

  pub total_size-insert_ordered :
      (key : Contents) (value : V) (es : List (Entry V))
      → total_size (insert_ordered key value es) ≡ total_size es + entry_size (key, value)
  unfolding total_size insert_ordered
  total_size-insert_ordered key value [] = omega arith
  total_size-insert_ordered key value (e ∷ es) =
      ground (arith, total_size-insert_ordered key value es)

  -- Entries that are small take up no more than their number allows.
  pub total_size-le : (es : List (Entry V)) → AllSmall es → total_size es ≤ 1024 * length es
  unfolding total_size
  total_size-le [] h = omega arith
  total_size-le (e ∷ es) h = omega (arith, total_size-le es h.1)

  pub AllSmall-insert_ordered :
      (key : Contents) (value : V) (es : List (Entry V))
      → AllSmall es
      → entry_size (key, value) ≤ 1024
      → AllSmall (insert_ordered key value es)
  unfolding insert_ordered
  AllSmall-insert_ordered key value [] h q = (q, tt)
  AllSmall-insert_ordered key value (e ∷ es) h q =
      ground (arith, AllSmall-insert_ordered key value es h.1 q)

module _ {V : Type 0} where
  pub length-emplace :
      (es : List (Entry V)) (i : ℕ) (e : Entry V) → length (emplace es i e) ≡ suc (length es)
  length-emplace es zero e = refl
  length-emplace [] (suc i) e = refl
  length-emplace (f ∷ es) (suc i) e = ap suc (length-emplace es i e)

  pub length-insert_ordered :
      (key : Contents) (value : V) (es : List (Entry V))
      → length (insert_ordered key value es) ≡ suc (length es)
  unfolding insert_ordered
  length-insert_ordered key value [] = refl
  length-insert_ordered key value (e ∷ es) = ground (arith, length-insert_ordered key value es)
