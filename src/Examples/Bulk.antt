-- ===== src/Examples/Bulk.antt =====
-- Six entries of 1024 bytes in ascending order, which a new tree takes with a split of its leaf.
use tupl_native.Common.{ℕ, ◌≡◌, refl, List, [], ◌∷◌, arith, debug, Returns}
use tupl_native.Bytes.{Contents, less}
use tupl_native.SlowNode.{Entry}
use tupl_native.SlowNode.Order.{lookup}
use tupl_native.SlowTree.{new_tree}
use tupl_native.SlowTree.Inorder.{entries_of}
use tupl_native.SlowTree.Sequence.{insert_each}
use tupl_native.SlowTree.Search.{leaf_for}
use tupl_native.SlowTree.RightPart.{LikeSized}
use tupl_native.SlowTree.Bulk.{split_space, insert_each-ascending}
use tupl_native.Examples.{zeros}
use tupl_native.Examples.SearchTrees.{find_last}

abbrev large : ℕ → Entry Contents
large k = (k ∷ [], zeros 1023)

abbrev six_entries : List (Entry Contents)
six_entries = large 1 ∷ large 2 ∷ large 3 ∷ large 4 ∷ large 5 ∷ large 6 ∷ []

large-LikeSized : (k : ℕ) → LikeSized 512 (large k)
large-LikeSized k = (omega arith, omega arith)

insert_each-ascending_example :
    Returns (insert_each find_last debug 2 new_tree.root six_entries new_tree) (λ t'.
      (entries_of t'.heap 1 new_tree.root ≡ six_entries)
      × ((j : Contents) → lookup j (leaf_for t'.heap j 1 new_tree.root) ≡ lookup j six_entries))
unfolding split_space less
insert_each-ascending_example =
    insert_each-ascending find_last (λ n key. refl) debug 512 9 six_entries 0 (omega arith)
      (
        large-LikeSized 1,
        (
          large-LikeSized 2,
          (large-LikeSized 3, (large-LikeSized 4, (large-LikeSized 5, (large-LikeSized 6, tt)))),
        ),
      )
      (omega arith, (omega arith, (omega arith, (omega arith, (omega arith, (omega arith, tt))))))
      (tt, (refl, (refl, (refl, (refl, (refl, tt)))))) (omega arith) (omega arith)
