-- ===== src/SlowTree/Fresh.antt =====
-- The tree that the constructor of libTupl/src/tupl/pvt/slow/Tree.cpp makes, and insertions into it.
use tupl_native.Common.{
  ℕ, ◌≤◌, ◌<◌, ◌≡◌, refl, ◌∙◌, ap, false, none, List, [], ◌∷◌, arith, has, NoDup, All, Option-cases,
  inl, inr, Outcome, ok, Build, Returns, Returns-mono,
}
use tupl_native.Bytes.{Contents}
use tupl_native.SlowNode.{Entry, InternalNode, capacity, bytes_value_size, new_leaf, new_internal}
use tupl_native.SlowNode.Order.{lookup}
use tupl_native.SlowNode.Size.{total_size, AllSmall}
use tupl_native.SlowTree.{new_tree}
use tupl_native.SlowTree.Inorder.{entries_of, nodes_of}
use tupl_native.SlowTree.SearchTree.{Inside, IsTree}
use tupl_native.SlowTree.Selection.{child_at}
use tupl_native.SlowTree.Distinct.{Distinct, AllAbsent, either}
use tupl_native.SlowTree.Sequence.{insert_each, insert_each-Stored}

-- A new tree is a search tree of one empty leaf.
pub made-IsTree : IsTree new_tree.heap 0 1 none none 1
unfolding new_tree new_leaf new_internal total_size
made-IsTree = record {
  cur = new_internal 0;
  here = refl;
  whole = refl;
  k = [];
  first = 0;
  rest = [];
  shape = refl;
  children = record {
    es = [];
    used = 0;
    leaf = refl;
    valid = record { ordered = tt; small = tt; counted = refl; fits = omega arith };
    inside = tt;
    limited = omega arith;
  };
}

pub made-NoDup : NoDup (nodes_of new_tree.heap 1 1)
unfolding nodes_of new_tree new_internal
made-NoDup = (refl, (refl, tt))

new_tree_old : has new_tree.next (nodes_of new_tree.heap 1 1) ≡ false
unfolding nodes_of new_tree new_internal
new_tree_old = refl

All-absent : (es : List (Entry Contents)) → AllAbsent es (entries_of new_tree.heap 1 1)
unfolding entries_of new_tree new_internal new_leaf lookup
All-absent [] = tt
All-absent (e ∷ es) = (refl, All-absent es)

All-Inside : (es : List (Entry Contents)) → All (λ (e : Entry Contents). Inside none none e.0) es
All-Inside [] = tt
All-Inside (e ∷ es) = ((tt, tt), All-Inside es)

over_none :
    (j : Contents) (es : List (Entry Contents))
    → either j es (entries_of new_tree.heap 1 1) ≡ lookup j es
unfolding entries_of new_tree new_internal new_leaf lookup
over_none j es = elim (Option-cases (lookup j es)) [
  | inl e ↦ ground arith
  | inr (v, e) ↦ ground arith
]

module _ (find : InternalNode → Contents → Outcome ℕ)
    (finds : (n : InternalNode) (key : Contents) → find n key ≡ ok (child_at key n.children))
    (build : Build) where
  -- A tree that has just been made takes any sequence of entries with distinct keys, of at most 1024
  -- bytes each and of a total size within the capacity of a node, over nodes where `find` leads to
  -- the child that a key belongs to and with fuel for more than one level: every insertion from the
  -- root on returns, and in the end the tree has exactly these keys, each with its value.
  pub insert_each-new_tree :
      (es : List (Entry Contents)) (fuel : ℕ)
      → AllSmall bytes_value_size es
      → total_size bytes_value_size es ≤ capacity
      → Distinct es
      → 1 < fuel
      → Returns
          (insert_each find build fuel new_tree.root es new_tree)
          (λ t'. (j : Contents) → lookup j (entries_of t'.heap 1 t'.root) ≡ lookup j es)
  unfolding new_tree new_leaf
  insert_each-new_tree es fuel small space d h =
      Returns-mono (insert_each find build fuel new_tree.root es new_tree)
        (insert_each-Stored find finds build es new_tree 0 fuel 1 none none 1 small
          (omega (arith, space)) d (All-absent es) (All-Inside es) made-IsTree made-NoDup
          new_tree_old h)
        (λ t' stored j.
          ap (λ p. lookup j (entries_of t'.heap 1 p)) stored.root
          ∙ stored.contents j
          ∙ over_none j es)
