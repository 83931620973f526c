-- ===== src/Examples/Splits.antt =====
-- Splits of a full leaf of four entries.
use tupl_native.Common.{
  ◌≡◌, ◌≤◌, ◌+◌, ◌-◌, Returns, refl, ◌∙◌, [], ◌∷◌, ◌++◌, arith, ok, some, length, debug, true,
  get_elem?,
}
use tupl_native.Bytes.{less, key_equals}
use tupl_native.LowerBound.{lower_bound}
use tupl_native.SlowNode.{LeafNode, right, failed_no_space, bytes_value_size, new_leaf}
use tupl_native.SlowNode.Ops.{split_and_insert_leaf, insert_leaf}
use tupl_native.SlowNode.Order.{IsOrdered, position_of, insert_ordered, lookup}
use tupl_native.SlowNode.Size.{total_size}
use tupl_native.SlowNode.Insert.{IsValid}
use tupl_native.SlowNode.Splitting.{
  leaf_size, half, cut_leaf, split_spec, split_and_insert-split_spec,
}
use tupl_native.SlowNode.Ops.{move_entries}
use tupl_native.SlowNode.{slice}
use tupl_native.SlowNode.Moving.{move_entries_lem}
use tupl_native.Examples.{small_leaf}
use tupl_native.Examples.Leaves.{small_leaf-IsValid}
use tupl_native.SlowNode.Halves.{
  left_entries, right_entries, split_entries, split_bytes, split_two_entries,
}
use tupl_native.SlowNode.SplitKey.{split_key_misses}
use tupl_native.Examples.{four_entries, full_leaf}

pub full_leaf-IsValid : IsValid bytes_value_size full_leaf
unfolding less total_size
full_leaf-IsValid = record {
  ordered = ((refl, (refl, (refl, tt))), ((refl, (refl, tt)), ((refl, tt), (tt, tt))));
  small = (omega arith, (omega arith, (omega arith, (omega arith, tt))));
  counted = refl;
  fits = omega arith;
}

-- The parts after an entry with the key 15, and with the key 25.
abbrev front_parts : LeafNode × LeafNode
front_parts = cut_leaf (15 ∷ []) (7 ∷ []) four_entries 1

abbrev middle_parts : LeafNode × LeafNode
middle_parts = cut_leaf (25 ∷ []) (7 ∷ []) four_entries 1

split_front : split_and_insert_leaf debug (15 ∷ []) (7 ∷ []) full_leaf 1 new_leaf ≡ ok front_parts
unfolding split_spec lookup key_equals
split_front =
    split_and_insert-split_spec debug (15 ∷ []) (7 ∷ []) four_entries 4096 1 full_leaf-IsValid
      (omega arith)
    ∙ refl

split_middle : split_and_insert_leaf debug (25 ∷ []) (7 ∷ []) full_leaf 1 new_leaf ≡ ok middle_parts
unfolding split_spec lookup key_equals
split_middle =
    split_and_insert-split_spec debug (25 ∷ []) (7 ∷ []) four_entries 4096 1 full_leaf-IsValid
      (omega arith)
    ∙ refl

full_front : insert_leaf (15 ∷ []) (7 ∷ []) full_leaf ≡ ok (full_leaf, failed_no_space)
unfolding insert_leaf lower_bound less key_equals
full_front = refl

split_and_insert-split_spec_example :
    split_and_insert_leaf debug (15 ∷ []) (7 ∷ []) full_leaf 1 new_leaf
    ≡ split_spec (15 ∷ []) (7 ∷ []) full_leaf 1
split_and_insert-split_spec_example =
    split_and_insert-split_spec debug (15 ∷ []) (7 ∷ []) four_entries 4096 1 full_leaf-IsValid
      (omega arith)

split_entries_example :
    (left_entries front_parts ++ right_entries front_parts
      ≡ insert_ordered (15 ∷ []) (7 ∷ []) four_entries)
    × IsOrdered (left_entries front_parts ++ right_entries front_parts)
split_entries_example =
    split_entries debug (15 ∷ []) (7 ∷ []) four_entries 4096 1 full_leaf-IsValid (omega arith)
      front_parts split_front

split_bytes_example :
    (front_parts.0.bytes + front_parts.1.bytes ≡ 4098)
    × (front_parts.0.bytes ≡ leaf_size front_parts.0.children)
    × (front_parts.1.bytes ≡ leaf_size front_parts.1.children)
split_bytes_example =
    split_bytes debug (15 ∷ []) (7 ∷ []) four_entries 4096 1 full_leaf-IsValid (omega arith)
      front_parts split_front

split_two_entries_example :
    (2 ≤ length front_parts.0.children) × (2 ≤ length front_parts.1.children)
split_two_entries_example =
    split_two_entries debug (15 ∷ []) (7 ∷ []) four_entries 4096 1 full_leaf-IsValid (omega arith)
      front_parts split_front full_leaf full_front

position_of_25 : position_of (25 ∷ []) four_entries ≡ half four_entries
unfolding position_of less
position_of_25 = refl

split_key_misses_example :
    (middle_parts.0.split.direction ≡ right)
    × (get_elem? middle_parts.1.children 0 ≡ some (25 ∷ [], 7 ∷ []))
    × (less (25 ∷ []) middle_parts.0.split.key ≡ true)
split_key_misses_example =
    split_key_misses debug (25 ∷ []) (7 ∷ []) four_entries 4096 1 full_leaf-IsValid (omega arith)
      middle_parts split_middle position_of_25

-- The entries 20 and 30 over those of the small leaf.
move_entries_lem_example : Returns (move_entries full_leaf 1 3 small_leaf 0) (λ (s, d, behind).
    (behind ≡ 0 + (3 - 1))
    × (slice 0 behind d.children ≡ slice 1 3 four_entries)
    × (length d.children ≡ 2)
    × (s.bytes
        ≡ total_size bytes_value_size s.children
          + total_size bytes_value_size (slice 1 3 four_entries))
    × (d.bytes + total_size bytes_value_size (slice 1 3 four_entries)
        ≡ total_size bytes_value_size d.children
          + total_size bytes_value_size (slice 0 behind small_leaf.children)))
move_entries_lem_example =
    move_entries_lem full_leaf small_leaf 1 3 0 (omega arith) (omega arith)
      full_leaf-IsValid.counted small_leaf-IsValid.counted (omega arith)
