-- ===== src/SlowNode/Halves.antt =====
-- The two leaves that `LeafNode::splitAndInsert` of libTupl/src/tupl/pvt/slow/Node.cpp leaves:
-- their entries, their number, their bytes, and the key that is to tell them apart.
use tupl_native.Common.{
  ℕ, suc, ◌+◌, ◌/◌, ◌^◌, ◌≤◌, ◌<◌, ◌≡◌, false, List, ◌++◌, arith, length, sym, ◌∙◌, is_some,
  Bool-cases, inl, inr, ltb, ok, Build, take-append-drop, length-take, length-drop, subst,
}
use tupl_native.Bytes.{Contents}
use tupl_native.SlowNode.{
  Entry, LeafNode, Ptr, left, right, capacity, failed_no_space, bytes_value_size, new_leaf,
}
use tupl_native.SlowNode.Ops.{split_and_insert_leaf, insert_leaf}
use tupl_native.SlowNode.Order.{
  IsOrdered, position_of, insert_ordered, lookup, Absent-lookup, insert_ordered-IsOrdered,
}
use tupl_native.SlowNode.Size.{
  total_size-le, total_size-take-drop, total_size-insert_ordered, length-insert_ordered,
}
use tupl_native.SlowNode.Insert.{IsValid, insert_leaf-insert_spec, spec_returns}
use tupl_native.SlowNode.Splitting.{
  leaf_of, leaf_size, half, cut_leaf, split_spec, split_and_insert-split_spec,
}

-- The parts of a split leaf in the order that its direction tells: a LEFT sibling stands in front.
abbrev pub left_entries : LeafNode × LeafNode → List (Entry Contents)
left_entries (o, s) = elim o.split.direction [ left ↦ s.children | right ↦ o.children ]

abbrev pub right_entries : LeafNode × LeafNode → List (Entry Contents)
right_entries (o, s) = elim o.split.direction [ left ↦ o.children | right ↦ s.children ]

module _ (key value : Contents) (es : List (Entry Contents)) (address : Ptr) where
  abbrev whole : List (Entry Contents)
  whole = insert_ordered key value es

  cut_entries :
      left_entries (cut_leaf key value es address) ++ right_entries (cut_leaf key value es address)
      ≡ insert_ordered key value es
  unfolding cut_leaf
  cut_entries = elim (Bool-cases (ltb (position_of key es) (half es))) [
    | inl lt ↦ rw lt (take-append-drop (suc (half es)) whole)
    | inr ge ↦ rw ge (take-append-drop (half es) whole)
  ]

  cut_lengths :
      1 ≤ length es
      → (length (cut_leaf key value es address).0.children
            + length (cut_leaf key value es address).1.children
          ≡ suc (length es))
        × (length es / 2 ≤ length (cut_leaf key value es address).0.children)
        × (length es / 2 ≤ length (cut_leaf key value es address).1.children)
  unfolding cut_leaf
  cut_lengths one =
      let n = length-insert_ordered key value es in
      ground (
        arith,
        length-drop (half es) whole,
        length-drop (suc (half es)) whole,
        length-take (half es) whole,
        length-take (suc (half es)) whole,
        n,
      )

  cut_bytes :
      leaf_size es ≤ capacity
      → length key + length value ≤ 1024
      → ((cut_leaf key value es address).0.bytes + (cut_leaf key value es address).1.bytes
          ≡ leaf_size es + (length key + length value))
        × ((cut_leaf key value es address).0.bytes
            ≡ leaf_size (cut_leaf key value es address).0.children)
        × ((cut_leaf key value es address).1.bytes
            ≡ leaf_size (cut_leaf key value es address).1.children)
  unfolding cut_leaf
  cut_bytes h q = ground (
    arith,
    total_size-take-drop bytes_value_size (half es) whole,
    total_size-take-drop bytes_value_size (suc (half es)) whole,
    total_size-insert_ordered bytes_value_size key value es,
  )

-- `splitAndInsert` on a valid leaf that is not split has returned the two leaves `r`.
module _ (build : Build) (key value : Contents) (es : List (Entry Contents)) (used : ℕ)
    (address : Ptr) (valid : IsValid bytes_value_size (leaf_of es used))
    (in_memory : length key + length value < 2 ^ 64) (r : LeafNode × LeafNode)
    (returned : split_and_insert_leaf build key value (leaf_of es used) address new_leaf
      ≡ ok r) where
  pub split_returns :
      (r ≡ cut_leaf key value es address)
      × (is_some (lookup key es) ≡ false)
      × (length key + length value ≤ 1024)
      × (capacity ≤ used + (length key + length value))
      × (3 ≤ length es)
  unfolding split_spec
  split_returns =
      let h =
        sym (split_and_insert-split_spec build key value es used address valid in_memory)
        ∙ returned in
      ground arith

  -- The two leaves together hold, in order, the entries of the leaf and the new one, and nothing
  -- else; so they are ordered, and every key of the left one is less than every key of the right.
  pub split_entries :
      (left_entries r ++ right_entries r ≡ insert_ordered key value es)
      × IsOrdered (left_entries r ++ right_entries r)
  split_entries =
      let back = split_returns in
      let whole_eq =
        subst
          (λ (p : LeafNode × LeafNode).
            left_entries p ++ right_entries p ≡ insert_ordered key value es)
          (sym back.0) (cut_entries key value es address) in
      (
        whole_eq,
        subst IsOrdered (sym whole_eq)
            (insert_ordered-IsOrdered key value es valid.ordered (Absent-lookup key es back.1)),
      )

  -- The two leaves have one entry more than the leaf had, and each at least half of its entries.
  pub split_lengths :
      (length r.0.children + length r.1.children ≡ suc (length es))
      × (length es / 2 ≤ length r.0.children)
      × (length es / 2 ≤ length r.1.children)
  split_lengths =
      let back = split_returns in
      subst
        (λ (p : LeafNode × LeafNode).
          (length p.0.children + length p.1.children ≡ suc (length es))
          × (length es / 2 ≤ length p.0.children)
          × (length es / 2 ≤ length p.1.children))
        (sym back.0) (cut_lengths key value es address (omega arith))

  -- `mBytes` of each of the two leaves is the size of its entries, and together they are what the
  -- leaf had and the new entry. Nothing bounds a single one by the capacity.
  pub split_bytes :
      (r.0.bytes + r.1.bytes ≡ used + (length key + length value))
      × (r.0.bytes ≡ leaf_size r.0.children)
      × (r.1.bytes ≡ leaf_size r.1.children)
  split_bytes =
      let back = split_returns in
      subst
        (λ (p : LeafNode × LeafNode).
          (p.0.bytes + p.1.bytes ≡ used + (length key + length value))
          × (p.0.bytes ≡ leaf_size p.0.children)
          × (p.1.bytes ≡ leaf_size p.1.children))
        (sym back.0)
        (rw valid.counted
          (cut_bytes key value es address (omega (arith, valid.counted, valid.fits)) back.2))

  -- If an insertion has found no space, then the split leaves at least two entries in each leaf.
  pub split_two_entries :
      (m : LeafNode)
      → insert_leaf key value (leaf_of es used) ≡ ok (m, failed_no_space)
      → (2 ≤ length r.0.children) × (2 ≤ length r.1.children)
  split_two_entries m full =
      let back = split_returns in
      let n = split_lengths in
      let few = total_size-le bytes_value_size es valid.small in
      let spec =
        spec_returns key value (leaf_of es used) valid in_memory m failed_no_space
          (sym (insert_leaf-insert_spec key value (leaf_of es used) valid in_memory) ∙ full) in
      ground (arith, valid.counted)
