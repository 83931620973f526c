-- ===== src/SlowTree/RightPart.antt =====
-- The right part of a leaf that libTupl/src/tupl/pvt/slow/Node.cpp splits, where entries are of like
-- sizes.
use tupl_native.Common.{
  ℕ, zero, suc, ◌+◌, ◌≤◌, ◌<◌, ◌≡◌, refl, false, List, [], ◌∷◌, arith, length, take, drop,
  length-take, All, is_some,
}
use tupl_native.Bytes.{Contents}
use tupl_native.SlowNode.{Entry, LeafNode, Ptr, capacity, bytes_value_size}
use tupl_native.SlowNode.Order.{
  IsOrdered, insert_ordered, insert_ordered-IsOrdered, Absent-lookup, lookup, position_of,
}
use tupl_native.SlowNode.Size.{
  total_size, total_size-le, total_size-take-drop, total_size-insert_ordered, length-insert_ordered,
}
use tupl_native.SlowNode.Insert.{IsValid}
use tupl_native.SlowNode.Splitting.{leaf_of, leaf_size, half, cut_leaf}
use tupl_native.SlowTree.Steps.{All-insert_ordered}

-- From one size up to twice as much, and no more than an entry may have.
abbrev pub LikeSized : (size : ℕ) → Entry Contents → Type 0
LikeSized size e = (size ≤ length e.0 + length e.1) × (length e.0 + length e.1 ≤ size + size)

module _ {A : Type 0} (P : A → Type 0) where
  pub All-drop : (n : ℕ) (xs : List A) → All P xs → All P (drop n xs)
  All-drop zero xs a = a
  All-drop (suc n) [] a = tt
  All-drop (suc n) (x ∷ xs) a = All-drop n xs a.1

  All-take : (n : ℕ) (xs : List A) → All P xs → All P (take n xs)
  All-take zero xs a = tt
  All-take (suc n) [] a = tt
  All-take (suc n) (x ∷ xs) a = (a.0, All-take n xs a.1)

IsOrdered-drop : (n : ℕ) (es : List (Entry Contents)) → IsOrdered es → IsOrdered (drop n es)
IsOrdered-drop zero es o = o
IsOrdered-drop (suc n) [] o = tt
IsOrdered-drop (suc n) (e ∷ es) o = IsOrdered-drop n es o.1

two_sizes :
    (size : ℕ) (es : List (Entry Contents))
    → 2 ≤ length es
    → All (LikeSized size) es
    → size + size ≤ total_size bytes_value_size es
unfolding total_size
two_sizes size [] h a = absurd (omega arith)
two_sizes size (e ∷ []) h a = absurd (omega arith)
two_sizes size (e ∷ f ∷ es) h a = omega (arith, a.0.0, a.1.0.0)

module _ (key value : Contents) (es : List (Entry Contents)) (used size : ℕ)
    (valid : IsValid bytes_value_size (leaf_of es used)) (absent : is_some (lookup key es) ≡ false)
    (like : All (LikeSized size) es) (like_new : LikeSized size (key, value))
    (most : size + size ≤ 1024) (full : capacity < used + (length key + length value))
    (behind : half es < position_of key es) where
  abbrev pub right_part : LeafNode
  right_part =
      leaf_of (drop (half es) (insert_ordered key value es))
        (leaf_size (drop (half es) (insert_ordered key value es)))

  pub cut_leaf-right_part : (address : Ptr) → (cut_leaf key value es address).1 ≡ right_part
  unfolding cut_leaf
  cut_leaf-right_part address = ground arith

  pub many : 3 ≤ length es
  many =
      omega
        (arith, total_size-le bytes_value_size es valid.small, valid.counted, full, like_new, most)

  pub right_part-LikeSized : All (LikeSized size) (drop (half es) (insert_ordered key value es))
  right_part-LikeSized =
      All-drop (LikeSized size) (half es) (insert_ordered key value es)
        (All-insert_ordered (LikeSized size) key value es like_new like)

  -- It is a valid leaf: the left part has two entries, which have at least the bytes of the new one.
  pub right_part-IsValid : IsValid bytes_value_size right_part
  right_part-IsValid =
      let whole = insert_ordered key value es in
      let left_bytes =
        two_sizes size (take (half es) whole)
          (omega (arith, length-take (half es) whole, length-insert_ordered key value es, many))
          (All-take (LikeSized size) (half es) whole
            (All-insert_ordered (LikeSized size) key value es like_new like)) in
      record {
        ordered =
            IsOrdered-drop (half es) whole
              (insert_ordered-IsOrdered key value es valid.ordered (Absent-lookup key es absent));
        small =
            All-drop (λ (e : Entry Contents). length e.0 + length e.1 ≤ 1024) (half es) whole
              (All-insert_ordered (λ (e : Entry Contents). length e.0 + length e.1 ≤ 1024) key value
                es (omega (arith, like_new, most)) valid.small);
        counted = refl;
        fits = omega (
          arith,
          total_size-take-drop bytes_value_size (half es) whole,
          total_size-insert_ordered bytes_value_size key value es,
          left_bytes,
          valid.counted,
          valid.fits,
          like_new,
        );
      }
