-- ===== src/SlowTree/AppendSplit.antt =====
-- `Tree::insertRecursive` of libTupl/src/tupl/pvt/slow/Tree.cpp with a key behind all others, where the
-- last leaf has none and is split to the right.
use tupl_native.Common.{
  ℕ, ◌+◌, ◌≤◌, ◌<◌, ◌≡◌, ◌≢◌, refl, sym, ◌∙◌, ap, subst, true, false, none, some, [], ◌∷◌, ◌++◌,
  arith, length, drop, length-append, has, has-append, NoDup, append-NoDup, append_assoc, Outcome,
  ok, Build,
}
use tupl_native.Bytes.{Contents, less}
use tupl_native.Bytes.Order.{less_trans, less_asymm}
use tupl_native.SlowNode.{Entry, LeafNode, InternalNode, Ptr, capacity}
use tupl_native.SlowNode.Order.{insert_ordered, position_of, position_of-le}
use tupl_native.SlowNode.Splitting.{leaf_size, half, key_at, cut_leaf}
use tupl_native.SlowTree.{Tree, leaf_node, internal_node, allocate_leaf}
use tupl_native.SlowTree.Insert.{with_entry}
use tupl_native.SlowTree.Overflow.{after_split}
use tupl_native.SlowTree.Inorder.{flat, flat-append, nodes_of, nodes_of_internal}
use tupl_native.SlowTree.Ways.{Turn, LeafBelow, pair_of}
use tupl_native.SlowTree.Apart.{turn-Apart}
use tupl_native.SlowTree.Growth.{with_entry-children, cut_leaf_key}
use tupl_native.SlowTree.SearchTree.{Bound}
use tupl_native.SlowTree.Selection.{child_at}
use tupl_native.SlowTree.Steps.{All-insert_ordered}
use tupl_native.SlowTree.SplitParts.{All-key_at, cut_right}
use tupl_native.SlowTree.SearchInsert.{Found}
use tupl_native.SlowTree.RightPart.{
  LikeSized, All-drop, cut_leaf-right_part, right_part-LikeSized, right_part-IsValid,
}
use tupl_native.SlowTree.Appending.{
  Beyond, Beyond-trans, IsAppendable, append_turn, append_leaf, append-old, append-behind,
  parts_lower, stored_old, child_old, still_lower, child_at-behind,
}

module _ (find : InternalNode → Contents → Outcome ℕ)
    (finds : (n : InternalNode) (key : Contents) → find n key ≡ ok (child_at key n.children))
    (build : Build) {t : Tree} {p : Ptr} {size short bytes : ℕ} {m : Bound}
    (is : IsAppendable t p size short bytes m) (key value : Contents) (beyond : Beyond m key)
    (few : short ≤ 1024) (most : size + size ≤ 1024) (like_new : LikeSized size (key, value))
    (key_short : length key + 8 ≤ short) (space : bytes + 1024 ≤ capacity) where
  small : length key + length value ≤ 1024
  small = omega (arith, like_new, most)

  abbrev way : Turn find t.heap key 0 p is.child
  way = append_turn find finds is key value beyond few

  abbrev b : LeafBelow t.heap key is.child
  b = append_leaf find finds is key value beyond few

  old : has t.next (nodes_of t.heap 1 p) ≡ false
  old = append-old find finds is key value beyond few

  abbrev pub parts : LeafNode × LeafNode
  parts = cut_leaf key value is.es t.next

  abbrev pub split_tree : Tree
  split_tree = after_split t p is.cur (length is.front) is.child parts

  module _ (full : capacity < is.used + (length key + length value)) where
    behind : half is.es < position_of key is.es
    behind = append-behind find finds is key value beyond few full small

    abbrev top : InternalNode
    top = with_entry is.cur (length is.front) parts.0.split t.next

    split_children :
        top.children ≡ is.front ++ ((is.k, is.child) ∷ (parts.0.split.key, t.next) ∷ [])
    split_children =
        with_entry-children way parts.0.split t.next
        ∙ ap (λ d. is.front ++ (pair_of d (parts.0.split.key, t.next) (is.k, is.child) ++ []))
            (cut_right key value is.es t.next behind)

    within : half is.es < length is.es
    within = omega (arith, behind, position_of-le key is.es)

    split_key_short : length parts.0.split.key + 8 ≤ short
    split_key_short =
        subst (λ (k : Contents). length k + 8 ≤ short) (sym (cut_leaf_key key value is.es t.next))
          (All-key_at (λ k. length k + 8 ≤ short) is.es (half is.es) within is.keys)

    split_key_below : (j : Contents) → less key j ≡ true → less j parts.0.split.key ≡ false
    split_key_below j lt =
        let under =
          All-key_at (λ k. less k key ≡ true) is.es (half is.es) within
            (parts_lower find finds is key value beyond few).1 in
        less_asymm parts.0.split.key j (
          subst (λ k. less k j ≡ true) (sym (cut_leaf_key key value is.es t.next))
            (less_trans (key_at is.es (half is.es)) key j under lt))

    split_nodes :
        split_tree.heap p ≡ some (internal_node top)
        → nodes_of split_tree.heap 1 p ≡ nodes_of t.heap 1 p ++ t.next ∷ []
    unfolding nodes_of
    split_nodes at =
        nodes_of_internal split_tree.heap 0 p (internal_node top) at
        ∙ ap (λ cs. p ∷ flat (λ q. q ∷ []) cs)
            (split_children
              ∙ sym (
                  append_assoc is.front ((is.k, is.child) ∷ []) ((parts.0.split.key, t.next) ∷ [])))
        ∙ ap (λ l. p ∷ l)
            (flat-append (λ q. q ∷ []) (is.front ++ (is.k, is.child) ∷ [])
              ((parts.0.split.key, t.next) ∷ []))
        ∙ ap (λ l. l ++ t.next ∷ [])
            (ap (λ cs. p ∷ flat (λ q. q ∷ []) cs) (sym is.children)
              ∙ sym (nodes_of_internal t.heap 0 p (internal_node is.cur) is.here))

    pub split-IsAppendable :
        Found t split_tree key value 1 none none p
        → IsAppendable split_tree p size short (bytes + short) (some key)
    unfolding nodes_of allocate_leaf
    split-IsAppendable found =
        let apart = turn-Apart way t.next is.once old in
        let es' = drop (half is.es) (insert_ordered key value is.es) in
        let ne_child : t.next ≢ is.child = λ e. absurd (omega (arith, child_old is, e)) in
        let ne_top : t.next ≢ p = λ e. apart.top_old (sym e) in
        let at : split_tree.heap p ≡ some (internal_node top) = ground arith in
        let nodes = split_nodes at in
        let here_new : split_tree.heap t.next ≡ some (leaf_node parts.1) =
          ground (arith, ne_child, ne_top) in
        record {
          cur = top;
          front = is.front ++ (is.k, is.child) ∷ [];
          k = parts.0.split.key;
          child = t.next;
          here = at;
          children =
              split_children
              ∙ sym (
                  append_assoc is.front ((is.k, is.child) ∷ []) ((parts.0.split.key, t.next) ∷ []));
          whole = is.whole;
          es = es';
          used = leaf_size es';
          leaf =
              here_new
              ∙ ap (λ (n : LeafNode). some (leaf_node n))
                  (cut_leaf-right_part key value is.es is.used size is.valid b.absent is.like
                    like_new most full behind t.next);
          valid =
              right_part-IsValid key value is.es is.used size is.valid b.absent is.like like_new
                most full behind;
          like =
              right_part-LikeSized key value is.es is.used size is.valid b.absent is.like like_new
                most full behind;
          keys =
              All-drop (λ (e : Entry Contents). length e.0 + 8 ≤ short) (half is.es)
                (insert_ordered key value is.es)
                (All-insert_ordered (λ (e : Entry Contents). length e.0 + 8 ≤ short) key value is.es
                  key_short is.keys);
          searchable = found.searchable;
          last = λ j lt.
              ap (child_at j) split_children
              ∙ child_at-behind j is.front (is.k, is.child) (parts.0.split.key, t.next)
                  (ap (child_at j) (sym is.children) ∙ is.last j (Beyond-trans m key j beyond lt))
                  (split_key_below j lt)
              ∙ sym (length-append is.front ((is.k, is.child) ∷ []) ∙ omega arith);
          lower = still_lower is key value beyond split_tree found;
          taken = omega (arith, is.taken, split_key_short);
          once = subst NoDup (sym nodes) (
              append-NoDup (nodes_of t.heap 1 p) (t.next ∷ []) is.once (refl, tt)
                (λ q h. ground (arith, is.below_next q h)));
          below_next = λ q h.
              let m = ap (has q) (sym nodes) ∙ h in
              ground (arith, has-append q (nodes_of t.heap 1 p) (t.next ∷ []), is.below_next q);
          fresh = λ q h.
              ground
                (arith, is.fresh q, child_old is, stored_old is p (internal_node is.cur) is.here);
        }
