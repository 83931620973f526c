-- ===== src/SlowTree/AppendKept.antt =====
-- `Tree::insertRecursive` of libTupl/src/tupl/pvt/slow/Tree.cpp with a key behind all others, where the
-- last leaf has space.
use tupl_native.Common.{
  ℕ, ◌+◌, ◌≤◌, ◌≡◌, sym, ◌∙◌, ap, subst, false, none, some, arith, length, has, NoDup, Outcome, ok,
  Build,
}
use tupl_native.Bytes.{Contents}
use tupl_native.SlowNode.{Entry, LeafNode, InternalNode, Ptr, capacity}
use tupl_native.SlowNode.Order.{insert_ordered}
use tupl_native.SlowNode.Insert.{insert_leaf-insert_spec, insert_leaf-IsValid}
use tupl_native.SlowNode.Splitting.{leaf_of}
use tupl_native.SlowTree.{Tree, leaf_node, internal_node, store}
use tupl_native.SlowTree.Inorder.{nodes_of, nodes_of_internal}
use tupl_native.SlowTree.Ways.{Turn, LeafBelow}
use tupl_native.SlowTree.Apart.{turn-Apart}
use tupl_native.SlowTree.Growth.{leaf_accepts}
use tupl_native.SlowTree.SearchTree.{Bound}
use tupl_native.SlowTree.Selection.{child_at}
use tupl_native.SlowTree.Steps.{All-insert_ordered}
use tupl_native.SlowTree.SearchInsert.{Found}
use tupl_native.SlowTree.RightPart.{LikeSized}
use tupl_native.SlowTree.Appending.{
  Beyond, Beyond-trans, IsAppendable, append_turn, append_leaf, append-old, child_old, still_lower,
}

module _ (find : InternalNode → Contents → Outcome ℕ)
    (finds : (n : InternalNode) (key : Contents) → find n key ≡ ok (child_at key n.children))
    (build : Build) {t : Tree} {p : Ptr} {size short bytes : ℕ} {m : Bound}
    (is : IsAppendable t p size short bytes m) (key value : Contents) (beyond : Beyond m key)
    (few : short ≤ 1024) (most : size + size ≤ 1024) (like_new : LikeSized size (key, value))
    (key_short : length key + 8 ≤ short) (space : bytes + 1024 ≤ capacity) where
  small : length key + length value ≤ 1024
  small = omega (arith, like_new, most)

  abbrev way : Turn find t.heap key 0 p is.child
  way = append_turn find finds is key value beyond few

  abbrev b : LeafBelow t.heap key is.child
  b = append_leaf find finds is key value beyond few

  old : has t.next (nodes_of t.heap 1 p) ≡ false
  old = append-old find finds is key value beyond few

  abbrev pub grown : LeafNode
  grown = leaf_of (insert_ordered key value is.es) (is.used + (length key + length value))

  abbrev pub kept_tree : Tree
  kept_tree = record t { heap = store t.heap is.child (leaf_node grown) }

  pub kept-IsAppendable :
      is.used + (length key + length value) ≤ capacity
      → Found t kept_tree key value 1 none none p
      → IsAppendable kept_tree p size short (bytes + short) (some key)
  unfolding nodes_of
  kept-IsAppendable fits found =
      let apart = turn-Apart way t.next is.once old in
      let at : kept_tree.heap p ≡ some (internal_node is.cur) =
        ground (arith, is.here, apart.top) in
      let nodes : nodes_of kept_tree.heap 1 p ≡ nodes_of t.heap 1 p =
        nodes_of_internal kept_tree.heap 0 p (internal_node is.cur) at
        ∙ sym (nodes_of_internal t.heap 0 p (internal_node is.cur) is.here) in
      record {
        cur = is.cur;
        front = is.front;
        k = is.k;
        child = is.child;
        here = at;
        children = is.children;
        whole = is.whole;
        es = insert_ordered key value is.es;
        used = is.used + (length key + length value);
        leaf = ground arith;
        valid =
            insert_leaf-IsValid key value (leaf_of is.es is.used) is.valid (omega (arith, small)) (
              insert_leaf-insert_spec key value (leaf_of is.es is.used) is.valid
                (omega (arith, small))
              ∙ leaf_accepts key value is.es is.used is.valid b.absent small fits);
        like = All-insert_ordered (LikeSized size) key value is.es like_new is.like;
        keys =
            All-insert_ordered (λ (e : Entry Contents). length e.0 + 8 ≤ short) key value is.es
              key_short is.keys;
        searchable = found.searchable;
        last = λ j lt. is.last j (Beyond-trans m key j beyond lt);
        lower = still_lower is key value beyond kept_tree found;
        taken = omega (arith, is.taken);
        once = subst NoDup (sym nodes) is.once;
        below_next = λ q h. is.below_next q (ap (has q) (sym nodes) ∙ h);
        fresh = λ q h. ground (arith, is.fresh q h, child_old is);
      }
