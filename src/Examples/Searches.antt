-- ===== src/Examples/Searches.antt =====
-- What a descent finds after a split of a leaf to the right, and after one to the left.
use tupl_native.Common.{refl, none, [], ◌∷◌, arith, debug, Returns, inr}
use tupl_native.Bytes.{less, key_equals}
use tupl_native.SlowNode.Order.{lookup, position_of}
use tupl_native.SlowNode.Size.{total_size}
use tupl_native.SlowTree.{insert_recursive}
use tupl_native.SlowTree.Inorder.{entries_of, nodes_of}
use tupl_native.SlowTree.Search.{leaf_for}
use tupl_native.SlowTree.SearchInsert.{Found, insert_recursive-leaf_for}
use tupl_native.SlowTree.Lost.{Misplaced, insert_recursive_loses}
use tupl_native.Examples.{full_leaf}
use tupl_native.Examples.SearchTrees.{
  find_last, pair_node, pair_tree, full_pair-IsTree, full_pair-AllRoom, full_pair-AllShort,
}

-- The key 35 goes behind the middle of 10, 20, 30 and 40.
insert_recursive-leaf_for_example :
    Returns
      (insert_recursive find_last debug 2 2 (35 ∷ []) (7 ∷ []) (pair_tree full_leaf))
      (λ t'. Found (pair_tree full_leaf) t' (35 ∷ []) (7 ∷ []) 1 none none 2)
unfolding nodes_of entries_of lookup key_equals leaf_for position_of less
insert_recursive-leaf_for_example =
    insert_recursive-leaf_for find_last (λ n key. refl) debug (35 ∷ []) (7 ∷ [])
      (pair_tree full_leaf) 4096 2 0 none none 2 (omega arith) refl full_pair-IsTree (tt, tt) refl
      full_pair-AllRoom full_pair-AllShort (refl, (refl, (refl, tt))) refl (inr (omega arith))
      (omega arith)

-- The key 15 goes in front of it.
insert_recursive_loses_example :
    Returns
      (insert_recursive find_last debug 2 2 (15 ∷ []) (7 ∷ []) (pair_tree full_leaf))
      (λ t'. Misplaced (pair_tree full_leaf) t' (15 ∷ []) (7 ∷ []) (5 ∷ []) 2)
unfolding nodes_of entries_of lookup key_equals leaf_for position_of less total_size
insert_recursive_loses_example =
    insert_recursive_loses find_last (λ n key. refl) debug (15 ∷ []) (7 ∷ []) (pair_tree full_leaf)
      4096 0 none none 2 pair_node (5 ∷ []) 1 (omega arith) refl full_pair-IsTree (tt, tt) refl
      full_pair-AllRoom full_pair-AllShort (refl, (refl, (refl, tt))) refl refl refl (omega arith)
      (omega arith)
