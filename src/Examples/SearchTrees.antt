-- ===== src/Examples/SearchTrees.antt =====
-- Insertions into search trees of a root and two leaves.
use tupl_native.Common.{
  ℕ, zero, suc, subst, ◌+◌, ◌≤◌, ◌≡◌, refl, true, false, none, some, List, [], ◌∷◌, arith, length,
  if◌then◌else◌, has, All, is_some, ◌⊎◌, Outcome, ok, fail, invalid_argument, debug, Returns,
}
use tupl_native.Bytes.{Contents, less, key_equals}
use tupl_native.SlowNode.{
  Entry, LeafNode, InternalNode, internal, no_split, capacity, bytes_value_size,
}
use tupl_native.SlowNode.Order.{IsOrdered, lookup, insert_ordered}
use tupl_native.SlowNode.Insert.{IsValid}
use tupl_native.SlowNode.Splitting.{leaf_of}
use tupl_native.SlowNode.Size.{total_size}
use tupl_native.SlowTree.{Tree, leaf_node, internal_node, store, insert_recursive}
use tupl_native.SlowTree.Inorder.{entries_of, nodes_of}
use tupl_native.SlowTree.Growth.{Inserted}
use tupl_native.SlowTree.SearchTree.{IsTree}
use tupl_native.SlowTree.Selection.{child_at}
use tupl_native.SlowTree.Turning.{AllRoom, AllShort}
use tupl_native.SlowTree.Sorted.{insert_recursive-IsOrdered}
use tupl_native.SlowTree.Steps.{Kept}
use tupl_native.SlowTree.Keeping.{insert_recursive-Result}
use tupl_native.SlowTree.Sequence.{insert_each, Stored, insert_each-Stored}
use tupl_native.Examples.{two_entries, small_leaf, four_entries, full_leaf}
use tupl_native.Examples.Leaves.{small_leaf-IsValid}
use tupl_native.Examples.Splits.{full_leaf-IsValid}

abbrev pub find_last : InternalNode → Contents → Outcome ℕ
find_last n key = ok (child_at key n.children)

abbrev pub pair_node : InternalNode
pair_node = record {
  node_type = internal;
  children = ([], 0) ∷ (5 ∷ [], 1) ∷ [];
  bytes = 17;
  split = no_split;
}

abbrev pub pair_tree : LeafNode → Tree
pair_tree n = record {
  root = 2;
  leaf_nodes = some 0 ∷ some 1 ∷ [];
  internal_nodes = some 2 ∷ [];
  heap =
      store (store (store (λ p. none) 0 (leaf_node small_leaf)) 1 (leaf_node n)) 2
        (internal_node pair_node);
  next = 3;
}

-- The keys 1 and 3 in front of 5, and 10, 20, 30 and 40 behind it.
pub full_pair-IsTree : IsTree (pair_tree full_leaf).heap 4096 1 none none 2
unfolding less
full_pair-IsTree = record {
  cur = pair_node;
  here = refl;
  whole = refl;
  k = [];
  first = 0;
  rest = (5 ∷ [], 1) ∷ [];
  shape = refl;
  children = (
    record {
      es = two_entries;
      used = 4;
      leaf = refl;
      valid = small_leaf-IsValid;
      inside = ((tt, refl), ((tt, refl), tt));
      limited = omega arith;
    },
    (tt, tt),
    record {
      es = four_entries;
      used = 4096;
      leaf = refl;
      valid = full_leaf-IsValid;
      inside = ((refl, tt), ((refl, tt), ((refl, tt), ((refl, tt), tt))));
      limited = omega arith;
    },
  );
}

outside : (q : ℕ) → has (suc (suc (suc q))) (2 ∷ 0 ∷ 1 ∷ []) ≡ true → ⊥
outside q m = ground arith

pub full_pair-AllRoom : AllRoom (pair_tree full_leaf).heap (nodes_of (pair_tree full_leaf).heap 1 2)
unfolding nodes_of
full_pair-AllRoom zero n m at = absurd (cc at)
full_pair-AllRoom (suc zero) n m at = absurd (cc at)
full_pair-AllRoom (suc (suc zero)) n m at =
    let same : pair_node ≡ n = cc at in
    subst (λ (n : InternalNode). n.bytes + 1024 ≤ capacity) same (omega arith)
full_pair-AllRoom (suc (suc (suc q))) n m at = absurd (outside q m)

pub full_pair-AllShort :
    AllShort (pair_tree full_leaf).heap (nodes_of (pair_tree full_leaf).heap 1 2)
unfolding nodes_of
full_pair-AllShort zero n m at =
    let same : small_leaf ≡ n = cc at in
    subst (λ (n : LeafNode). All (λ (e : Entry Contents). length e.0 + 8 ≤ 1024) n.children) same
      (omega arith, (omega arith, tt))
full_pair-AllShort (suc zero) n m at =
    let same : full_leaf ≡ n = cc at in
    subst (λ (n : LeafNode). All (λ (e : Entry Contents). length e.0 + 8 ≤ 1024) n.children) same
      (omega arith, (omega arith, (omega arith, (omega arith, tt))))
full_pair-AllShort (suc (suc zero)) n m at = absurd (cc at)
full_pair-AllShort (suc (suc (suc q))) n m at = absurd (outside q m)

insert_recursive-IsOrdered_example :
    Returns (insert_recursive find_last debug 2 2 (15 ∷ []) (7 ∷ []) (pair_tree full_leaf)) (λ t'.
      Inserted
        (pair_tree full_leaf)
        t'
        1
        2
        (insert_ordered (15 ∷ []) (7 ∷ []) (entries_of (pair_tree full_leaf).heap 1 2))
      × IsOrdered (entries_of t'.heap 1 2)
      × ((j : Contents)
          → lookup j (entries_of t'.heap 1 2) ≡ (
              if key_equals j (15 ∷ [])
              then some (7 ∷ [])
              else lookup j (entries_of (pair_tree full_leaf).heap 1 2))))
unfolding nodes_of entries_of lookup key_equals
insert_recursive-IsOrdered_example =
    insert_recursive-IsOrdered find_last (λ n key. refl) debug (15 ∷ []) (7 ∷ [])
      (pair_tree full_leaf) 4096 2 0 none none 2 (omega arith) refl full_pair-IsTree (tt, tt)
      full_pair-AllRoom full_pair-AllShort (refl, (refl, (refl, tt))) refl (omega arith) refl

-- The keys 1 and 3 in front of 5, and the same leaf entry 7 behind it.
abbrev seven : List (Entry Contents)
seven = (7 ∷ [], 70 ∷ []) ∷ []

seven-IsValid : IsValid bytes_value_size (leaf_of seven 2)
unfolding total_size
seven-IsValid = record {
  ordered = (tt, tt);
  small = (omega arith, tt);
  counted = refl;
  fits = omega arith;
}

pair-IsTree : IsTree (pair_tree (leaf_of seven 2)).heap 4 1 none none 2
unfolding less
pair-IsTree = record {
  cur = pair_node;
  here = refl;
  whole = refl;
  k = [];
  first = 0;
  rest = (5 ∷ [], 1) ∷ [];
  shape = refl;
  children = (
    record {
      es = two_entries;
      used = 4;
      leaf = refl;
      valid = small_leaf-IsValid;
      inside = ((tt, refl), ((tt, refl), tt));
      limited = omega arith;
    },
    (tt, tt),
    record {
      es = seven;
      used = 2;
      leaf = refl;
      valid = seven-IsValid;
      inside = ((refl, tt), tt);
      limited = omega arith;
    },
  );
}

-- The key 7 is there, in the second leaf.
insert_recursive-Result_example :
    ((is_some (lookup (7 ∷ []) (entries_of (pair_tree (leaf_of seven 2)).heap 1 2)) ≡ true)
      × (insert_recursive find_last debug 2 2 (7 ∷ []) (8 ∷ []) (pair_tree (leaf_of seven 2))
          ≡ fail (invalid_argument "duplicate key not allowed")))
    ⊎ ((is_some (lookup (7 ∷ []) (entries_of (pair_tree (leaf_of seven 2)).heap 1 2)) ≡ false)
        × Returns
            (insert_recursive find_last debug 2 2 (7 ∷ []) (8 ∷ []) (pair_tree (leaf_of seven 2)))
            (λ t'. Kept (pair_tree (leaf_of seven 2)) t' 6 1 none none 2 (
              insert_ordered
                (7 ∷ [])
                (8 ∷ [])
                (entries_of (pair_tree (leaf_of seven 2)).heap 1 2))))
unfolding nodes_of
insert_recursive-Result_example =
    insert_recursive-Result find_last (λ n key. refl) debug (7 ∷ []) (8 ∷ [])
      (pair_tree (leaf_of seven 2)) 4 (omega arith) (omega arith) 2 1 none none 2 pair-IsTree
      (tt, tt) (refl, (refl, (refl, tt))) refl (omega arith)

-- One entry for each leaf.
abbrev two_new : List (Entry Contents)
two_new = (6 ∷ [], 60 ∷ []) ∷ (2 ∷ [], 20 ∷ []) ∷ []

insert_each-Stored_example :
    Returns
      (insert_each find_last debug 2 2 two_new (pair_tree (leaf_of seven 2)))
      (λ t'. Stored (pair_tree (leaf_of seven 2)) t' 8 1 none none 2 two_new)
unfolding nodes_of total_size lookup entries_of key_equals
insert_each-Stored_example =
    insert_each-Stored find_last (λ n key. refl) debug two_new (pair_tree (leaf_of seven 2)) 4 2 1
      none none 2 (omega arith, (omega arith, tt)) (omega arith) ((refl, tt), (tt, tt))
      (refl, (refl, tt)) ((tt, tt), ((tt, tt), tt)) pair-IsTree (refl, (refl, (refl, tt))) refl
      (omega arith)
