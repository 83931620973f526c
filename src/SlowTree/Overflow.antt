-- ===== src/SlowTree/Overflow.antt =====
-- The recursive insertion of libTupl/src/tupl/pvt/slow/Tree.cpp where the leaf has no space: the
-- leaf is split, and its parent takes the sibling.
use tupl_native.Common.{
  if◌then◌else◌, ltb, invalid_argument, ℕ, suc, ◌+◌, ◌<◌, ◌^◌, ◌≤◌, ◌≡◌, ◌≢◌, sym, ap, ◌∙◌, refl,
  arith, none, some, List, length, get_elem?, Outcome, ok, fail, undefined_behaviour, Build, ◌>>=◌,
  subst,
}
use tupl_native.Bytes.{Contents}
use tupl_native.SlowNode.{
  Entry, LeafNode, InternalNode, Ptr, failed_no_space, capacity, bytes_value_size, new_leaf,
}
use tupl_native.SlowNode.Ops.{insert_leaf, split_and_insert_leaf}
use tupl_native.SlowNode.Insert.{IsValid}
use tupl_native.SlowNode.Splitting.{leaf_of, cut_leaf}
use tupl_native.SlowNode.Halves.{split_returns}
use tupl_native.SlowTree.{
  Tree, leaf_node, internal_node, store, absorb_split, insert_in_leaf, insert_recursive,
  allocate_leaf,
}
use tupl_native.SlowTree.Insert.{with_entry, absorb_some, absorb_lem, insert_below}

cut_leaf_split :
    (key value : Contents) (es : List (Entry Contents)) (address : Ptr)
    → (cut_leaf key value es address).0.split.sibling ≡ some address
unfolding cut_leaf
cut_leaf_split key value es address = ground arith

-- The heap after a leaf at `child` has been split into itself and a leaf at `t.next`, and its parent
-- at `p` has taken the sibling.
abbrev pub after_split :
    Tree → (p : Ptr) → InternalNode → ℕ → (child : Ptr) → LeafNode × LeafNode → Tree
after_split t p cur next_it child r = record (allocate_leaf t).0 {
  heap =
      store (store (store t.heap t.next (leaf_node r.1)) child (leaf_node r.0)) p
        (internal_node (with_entry cur next_it r.0.split t.next));
}

module _ (find : InternalNode → Contents → Outcome ℕ) (build : Build) (fuel : ℕ) (p : Ptr)
    (key value : Contents) (t : Tree) (cur : InternalNode) (next_it : ℕ) (k : Contents)
    (child : Ptr) (es : List (Entry Contents)) (used : ℕ)
    (here : t.heap p ≡ some (internal_node cur)) (found : find cur key ≡ ok next_it)
    (entry : get_elem? cur.children next_it ≡ some (k, child))
    (below : t.heap child ≡ some (leaf_node (leaf_of es used)))
    (valid : IsValid bytes_value_size (leaf_of es used))
    (in_memory : length key + length value < 2 ^ 64) (apart : child ≢ p)
    (fresh : t.heap t.next ≡ none)
    (full : insert_leaf key value (leaf_of es used) ≡ ok (leaf_of es used, failed_no_space))
    (r : LeafNode × LeafNode)
    (returned : split_and_insert_leaf build key value (leaf_of es used) t.next new_leaf
      ≡ ok r) where
  split_sibling : r.0.split.sibling ≡ some t.next
  split_sibling =
      let back = split_returns build key value es used t.next valid in_memory r returned in
      subst (λ (q : LeafNode × LeafNode). q.0.split.sibling ≡ some t.next) (sym back.0)
        (cut_leaf_split key value es t.next)

  in_leaf_split :
      insert_in_leaf build key value child (leaf_of es used) t
      ≡ ok (record (allocate_leaf t).0 {
        heap = store (store t.heap t.next (leaf_node r.1)) child (leaf_node r.0);
      })
  unfolding insert_in_leaf
  in_leaf_split = rw (full, returned) refl

  next_apart : (q : Ptr) → t.heap q ≢ none → t.next ≢ q
  next_apart q h e = h (subst (λ a. t.heap a ≡ none) e fresh)

  -- If the leaf that `find` leads to is valid and not split but has no space for the new entry, then
  -- the insertion splits it, into itself and a new leaf. Where the parent has space, it gets an
  -- entry with the split key and the new leaf: at the position of the leaf's own entry after a
  -- split to the left, and behind it after one to the right.
  pub insert_recursive-split :
      length r.0.split.key + 8 ≤ 1024
      → cur.bytes + (length r.0.split.key + 8) ≤ capacity
      → insert_recursive find build (suc (suc fuel)) p key value t
        ≡ ok (after_split t p cur next_it child r)
  unfolding allocate_leaf
  insert_recursive-split small room =
      let ne = next_apart p (λ e. cc (e, here)) in
      insert_below find build fuel p key value t cur next_it k child (leaf_of es used) here found
        entry below valid in_memory
      ∙ ap (λ o. o >>= absorb_split build p next_it child) in_leaf_split
      ∙ absorb_some build p next_it child
          (record (allocate_leaf t).0 {
            heap = store (store t.heap t.next (leaf_node r.1)) child (leaf_node r.0);
          })
          (leaf_node r.0) t.next cur (ground arith) split_sibling (ground arith) small room

  -- If the leaf that `find` leads to is valid and not split but has no space for the new entry, then
  -- the leaf is split, and the parent throws if the split key and the pointer are too big for an
  -- entry, has no defined behaviour if it has no space for them, and otherwise takes them.
  pub insert_recursive-parts :
      length r.0.split.key + 8 < 2 ^ 64
      → cur.bytes ≤ capacity
      → insert_recursive find build (suc (suc fuel)) p key value t ≡ (
          if ltb 1024 (length r.0.split.key + 8)
          then fail (invalid_argument "entry too big")
          else if ltb capacity (cur.bytes + (length r.0.split.key + 8))
          then fail undefined_behaviour
          else ok (after_split t p cur next_it child r))
  unfolding allocate_leaf
  insert_recursive-parts in_memory' fits =
      let ne = next_apart p (λ e. cc (e, here)) in
      insert_below find build fuel p key value t cur next_it k child (leaf_of es used) here found
        entry below valid in_memory
      ∙ ap (λ o. o >>= absorb_split build p next_it child) in_leaf_split
      ∙ absorb_lem build p next_it child
          (record (allocate_leaf t).0 {
            heap = store (store t.heap t.next (leaf_node r.1)) child (leaf_node r.0);
          })
          (leaf_node r.0) t.next cur (ground arith) split_sibling (ground arith) in_memory' fits
