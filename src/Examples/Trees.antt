-- ===== src/Examples/Trees.antt =====
-- Insertions into trees of a root and one leaf, with a search for the child.
use tupl_native.Common.{
  ltb, length, invalid_argument, ℕ, ◌+◌, ◌-◌, ◌≡◌, refl, none, some, List, [], ◌∷◌, arith,
  if◌then◌else◌, Outcome, ok, fail, undefined_behaviour, debug,
}
use tupl_native.Bytes.{Contents, less, key_equals}
use tupl_native.SlowNode.{capacity, Entry, Ptr, LeafNode, InternalNode, internal, no_split}
use tupl_native.SlowNode.Order.{lookup}
use tupl_native.SlowNode.Splitting.{cut_leaf}
use tupl_native.SlowTree.{Tree, leaf_node, internal_node, store, insert_recursive}
use tupl_native.SlowTree.Descent.{Leads, arrived, down}
use tupl_native.SlowTree.Overflow.{after_split}
use tupl_native.SlowTree.NoSpace.{insert_recursive-no_space}
use tupl_native.Examples.{small_leaf, four_entries, full_leaf}
use tupl_native.Examples.Splits.{full_leaf-IsValid}

-- The last entry whose key is not greater.
abbrev scan : Contents → List (Entry Ptr) → ℕ
scan key [] = 0
scan key (e ∷ es) = if less key e.0 then 0 else 1 + scan key es

abbrev child_position : InternalNode → Contents → Outcome ℕ
child_position n key = ok (scan key n.children - 1)

abbrev pub root_node : InternalNode
root_node = record { node_type = internal; children = ([], 0) ∷ []; bytes = 0; split = no_split }

abbrev tree_of : LeafNode → Tree
tree_of n = record {
  root = 1;
  leaf_nodes = some 0 ∷ [];
  internal_nodes = some 1 ∷ [];
  heap = store (store (λ p. none) 0 (leaf_node n)) 1 (internal_node root_node);
  next = 2;
}

abbrev three_entries : List (Entry Contents)
three_entries = (1 ∷ [], 10 ∷ []) ∷ (2 ∷ [], 20 ∷ []) ∷ (3 ∷ [], 30 ∷ []) ∷ []

-- The same leaf under two internal nodes.
abbrev high_tree : Tree
high_tree = record (tree_of small_leaf) {
  root = 2;
  internal_nodes = some 1 ∷ some 2 ∷ [];
  heap =
      store (tree_of small_leaf).heap 2
        (internal_node (record root_node { children = ([], 1) ∷ [] }));
  next = 3;
}

high_tree-Leads : Leads child_position high_tree.heap (2 ∷ []) 2 2 0
unfolding less
high_tree-Leads =
    down 2 1 (record root_node { children = ([], 1) ∷ [] }) 0 [] (internal_node root_node) refl refl
      refl refl refl
      (down 1 0 root_node 0 [] (leaf_node small_leaf) refl refl refl refl refl arrived)

abbrev parts : ℕ → LeafNode × LeafNode
parts k = cut_leaf (k ∷ []) (7 ∷ []) four_entries 2

insert_recursive-no_space_example :
    insert_recursive child_position debug 2 1 (15 ∷ []) (7 ∷ []) (tree_of full_leaf) ≡ (
      if ltb 1024 (length (parts 15).0.split.key + 8)
      then fail (invalid_argument "entry too big")
      else if ltb capacity (0 + (length (parts 15).0.split.key + 8))
      then fail undefined_behaviour
      else ok (after_split (tree_of full_leaf) 1 root_node 0 0 (parts 15)))
unfolding less lookup key_equals
insert_recursive-no_space_example =
    insert_recursive-no_space child_position debug 0 1 (15 ∷ []) (7 ∷ []) (tree_of full_leaf)
      root_node 0 [] 0 four_entries 4096 refl refl refl refl full_leaf-IsValid refl (omega arith)
      (λ e. absurd (omega (arith, e))) refl (omega arith) (omega arith)
