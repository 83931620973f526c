-- ===== src/Examples/Internals.antt =====
-- Insertion into an internal node, and into a node whose byte count is past the capacity.
use tupl_native.Common.{
  ℕ, ◌≡◌, refl, true, List, [], ◌∷◌, arith, ok, ◌∙◌, ◌==◌, if◌then◌else◌, debug, some, get_elem?,
}
use tupl_native.Bytes.{less, key_equals}
use tupl_native.LowerBound.{lower_bound}
use tupl_native.SlowNode.{
  Entry, Ptr, InternalNode, LeafNode, internal, no_split, inserted, key_before, bytes_value_size,
}
use tupl_native.SlowNode.Ops.{insert_internal, insert_at, split_and_insert_internal}
use tupl_native.SlowNode.InternalSplit.{
  internal_of, middle, cut_internal, split_internal_spec, split_and_insert-split_internal_spec,
}
use tupl_native.SlowNode.Sentinel.{right_part, split_internal_sentinel}
use tupl_native.SlowNode.Order.{lookup}
use tupl_native.SlowNode.Order.{IsOrdered, position_of}
use tupl_native.SlowNode.Splitting.{leaf_of}
use tupl_native.SlowNode.Internal.{
  internal_spec, insert_internal-internal_spec, insert_internal_misplaces, insert_at_overfull,
}

abbrev rest : List (Entry Ptr)
rest = (5 ∷ [], 2) ∷ []

abbrev node_of : List (Entry Ptr) → ℕ → InternalNode
node_of es used = record { node_type = internal; children = es; bytes = used; split = no_split }

abbrev two_children : InternalNode
two_children = node_of (([], 1) ∷ rest) 17

abbrev three_children : InternalNode
three_children = node_of (([], 1) ∷ (7 ∷ [], 3) ∷ rest) 26

rest-IsOrdered : IsOrdered rest
rest-IsOrdered = (tt, tt)

insert_third : insert_internal (7 ∷ []) 3 two_children ≡ ok (three_children, inserted)
unfolding insert_internal lower_bound less key_equals
insert_third = refl

insert_internal-internal_spec_example :
    insert_internal (7 ∷ []) 3 two_children ≡ internal_spec (7 ∷ []) 3 two_children ([], 1) rest
insert_internal-internal_spec_example =
    insert_internal-internal_spec (7 ∷ []) 3 two_children ([], 1) rest refl rest-IsOrdered
      (omega arith) (omega arith)

insert_internal_misplaces_example :
    (get_elem? three_children.children (position_of (7 ∷ []) rest) ≡ some (7 ∷ [], 3))
    × (key_before three_children.children (7 ∷ []) 2 ≡ true)
    × (¬ IsOrdered three_children.children)
unfolding position_of less
insert_internal_misplaces_example =
    insert_internal_misplaces (7 ∷ []) 3 two_children three_children ([], 1) rest refl
      rest-IsOrdered (omega arith) (omega arith) refl insert_third

abbrev overfull_leaf : LeafNode
overfull_leaf = leaf_of [] 5000

insert_at_overfull_example :
    insert_at bytes_value_size 0 (1 ∷ []) (2 ∷ []) overfull_leaf
    ≡ ok (leaf_of ((1 ∷ [], 2 ∷ []) ∷ []) 5002, inserted)
insert_at_overfull_example =
    insert_at_overfull bytes_value_size 0 (1 ∷ []) (2 ∷ []) overfull_leaf (omega arith)
      (omega arith) (omega arith)

-- Three children and 4096 bytes, as the byte count says.
abbrev full_entries : List (Entry Ptr)
full_entries = ([], 1) ∷ (5 ∷ [], 2) ∷ (9 ∷ [], 3) ∷ []

full_entries-IsOrdered : IsOrdered full_entries
unfolding less
full_entries-IsOrdered = ((refl, (refl, tt)), ((refl, tt), (tt, tt)))

abbrev sibling_node : InternalNode
sibling_node = internal_of (([], 9) ∷ []) 0

split_and_insert-split_internal_spec_example :
    split_and_insert_internal debug (7 ∷ []) 4 (internal_of full_entries 4096) 8 sibling_node
    ≡ split_internal_spec (7 ∷ []) 4 full_entries 4096 8 sibling_node
split_and_insert-split_internal_spec_example =
    split_and_insert-split_internal_spec debug (7 ∷ []) 4 full_entries 4096 8 sibling_node refl
      full_entries-IsOrdered (omega arith) (omega arith)

split_full :
    split_and_insert_internal debug (7 ∷ []) 4 (internal_of full_entries 4096) 8 sibling_node
    ≡ ok (cut_internal (7 ∷ []) 4 full_entries 8 sibling_node)
unfolding split_internal_spec lookup key_equals
split_full =
    split_and_insert-split_internal_spec debug (7 ∷ []) 4 full_entries 4096 8 sibling_node refl
      full_entries-IsOrdered (omega arith) (omega arith)
    ∙ refl

-- The new entry has its place where the node is split.
split_internal_sentinel_example :
    ((cut_internal (7 ∷ []) 4 full_entries 8 sibling_node).0.split.key ≡ 9 ∷ [])
    × (get_elem?
          (right_part sibling_node (cut_internal (7 ∷ []) 4 full_entries 8 sibling_node))
          (if position_of (7 ∷ []) full_entries == middle full_entries then 1 else 0)
        ≡ some ([], 3))
split_internal_sentinel_example =
    split_internal_sentinel debug (7 ∷ []) 4 full_entries 4096 8 sibling_node refl
      full_entries-IsOrdered (omega arith) (omega arith)
      (cut_internal (7 ∷ []) 4 full_entries 8 sibling_node) split_full (9 ∷ []) 3 refl
