-- ===== src/Examples/NewTrees.antt =====
-- Three insertions into a new tree, not in the order of their keys.
use tupl_native.Common.{◌≡◌, refl, List, [], ◌∷◌, arith, release, Returns}
use tupl_native.Bytes.{Contents, key_equals}
use tupl_native.SlowNode.{Entry}
use tupl_native.SlowNode.Order.{lookup}
use tupl_native.SlowNode.Size.{total_size}
use tupl_native.SlowTree.{new_tree}
use tupl_native.SlowTree.Inorder.{entries_of}
use tupl_native.SlowTree.Sequence.{insert_each}
use tupl_native.SlowTree.Fresh.{insert_each-new_tree}
use tupl_native.Examples.SearchTrees.{find_last}

abbrev three_new : List (Entry Contents)
three_new = (6 ∷ [], 60 ∷ []) ∷ (2 ∷ [], 20 ∷ []) ∷ (4 ∷ 4 ∷ [], []) ∷ []

insert_each-new_tree_example :
    Returns
      (insert_each find_last release 2 new_tree.root three_new new_tree)
      (λ t'. (j : Contents) → lookup j (entries_of t'.heap 1 t'.root) ≡ lookup j three_new)
unfolding total_size key_equals
insert_each-new_tree_example =
    insert_each-new_tree find_last (λ n key. refl) release three_new 2
      (omega arith, (omega arith, (omega arith, tt))) (omega arith)
      ((refl, (refl, tt)), ((refl, tt), (tt, tt))) (omega arith)
