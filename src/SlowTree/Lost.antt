-- ===== src/SlowTree/Lost.antt =====
-- `Tree::insertRecursive` of libTupl/src/tupl/pvt/slow/Tree.cpp where a leaf is split to the left: what
-- no descent finds any more.
use tupl_native.Common.{
  ℕ, zero, suc, ◌+◌, ◌≤◌, ◌<◌, ◌≡◌, ◌≢◌, sym, ◌∙◌, ap, subst, false, none, some, List, [], ◌∷◌,
  arith, length, get_elem?, take, has, NoDup, All, is_some, Outcome, ok, Build, Returns,
}
use tupl_native.Bytes.{Contents, less}
use tupl_native.Bytes.Order.{key_equals_refl, ne_of_less}
use tupl_native.SlowNode.{Entry, LeafNode, InternalNode, Ptr, capacity}
use tupl_native.SlowNode.Order.{insert_ordered, lookup, position_of}
use tupl_native.SlowNode.Splitting.{leaf_of, leaf_size, half, cut_leaf}
use tupl_native.SlowTree.{Tree, Heap, leaf_node, internal_node, insert_recursive}
use tupl_native.SlowTree.Overflow.{after_split}
use tupl_native.SlowTree.Inorder.{entries_of, nodes_of}
use tupl_native.SlowTree.Ways.{Turn, get-middle}
use tupl_native.SlowTree.Apart.{turn-Apart}
use tupl_native.SlowTree.Growth.{store_split}
use tupl_native.SlowTree.Recursion.{run_split}
use tupl_native.SlowTree.SearchTree.{Bound, Inside, IsTree, IsTree-Inside}
use tupl_native.SlowTree.Selection.{child_at, select}
use tupl_native.SlowTree.Turning.{AllRoom, AllShort, turn, leaf_below}
use tupl_native.SlowTree.Search.{leaf_for, leaf_for_leaf}
use tupl_native.SlowTree.SearchInsert.{leaf_for_turn}
use tupl_native.SlowTree.LeftSplit.{sibling_lost}

lookup-take-insert_ordered :
    (key value : Contents) (es : List (Entry Contents)) (n : ℕ)
    → position_of key es < n
    → lookup key (take n (insert_ordered key value es)) ≡ some value
unfolding lookup insert_ordered position_of
lookup-take-insert_ordered key value es zero h = absurd (omega arith)
lookup-take-insert_ordered key value [] (suc n) h = ground (arith, key_equals_refl key)
lookup-take-insert_ordered key value (e ∷ es) (suc n) h =
    ground
      (arith, key_equals_refl key, ne_of_less e.0 key, lookup-take-insert_ordered key value es n)

-- A split to the left takes the new entry into the sibling.
lookup-sibling :
    (key value : Contents) (es : List (Entry Contents)) (address : Ptr)
    → position_of key es < half es
    → lookup key (cut_leaf key value es address).1.children ≡ some value
unfolding cut_leaf
lookup-sibling key value es address h =
    let there = lookup-take-insert_ordered key value es (suc (half es)) (omega (arith, h)) in
    ground arith

-- What is left: the entries in the leaves, with the new one in the sibling at the new address, and no
-- key of the sibling, from a key on, found by the descent from `p`.
pub record Misplaced (t t' : Tree) (key value k : Contents) (p : Ptr) : Type 0 where
  pub contents : entries_of t'.heap 1 p ≡ insert_ordered key value (entries_of t.heap 1 p)
  pub sibling : LeafNode
  pub there : t'.heap t.next ≡ some (leaf_node sibling)
  pub new : lookup key sibling.children ≡ some value
  pub lost :
      All
        (λ (e : Entry Contents). less e.0 k ≡ false → lookup e.0 (leaf_for t'.heap e.0 1 p) ≡ none)
        sibling.children

-- The entry that `find` leads to is the one of the child on the way.
turn_key :
    {find : InternalNode → Contents → Outcome ℕ} {heap : Heap} {key : Contents} {height : ℕ}
    {p child : Ptr} (way : Turn find heap key height p child)
    → ((n : InternalNode) (key : Contents) → find n key ≡ ok (child_at key n.children))
    → (cur : InternalNode) (k : Contents) (c : Ptr) → heap p ≡ some (internal_node cur)
    → get_elem? cur.children (child_at key cur.children) ≡ some (k, c)
    → way.k ≡ k
turn_key {key = key} {child = child} way finds cur k c at entry =
    let same : cur ≡ way.cur = cc (at, way.here) in
    let found : child_at key way.cur.children ≡ length way.front =
      cc (finds way.cur key, way.found) in
    let mine =
      ap (λ i. get_elem? way.cur.children i) found
      ∙ ap (λ l. get_elem? l (length way.front)) way.children
      ∙ get-middle way.front (way.k, child) way.back in
    let theirs =
      subst (λ (n : InternalNode). get_elem? n.children (child_at key n.children) ≡ some (k, c))
        same entry in
    cc (mine, theirs)

module _ (find : InternalNode → Contents → Outcome ℕ)
    (finds : (n : InternalNode) (key : Contents) → find n key ≡ ok (child_at key n.children))
    (build : Build) (key value : Contents) (t : Tree) (limit fuel : ℕ) (low high : Bound)
    (p : Ptr) where
  -- If in a search tree of two levels, with space in its root, no key longer than 1016 bytes, no node
  -- twice and a free next address, the leaf that a new key in the bounds belongs to has no space for
  -- the entry of at most 1024 bytes, and the key goes in front of the position where the leaf is to
  -- be split, then the insertion, over nodes where `find` leads to the child that a key belongs to
  -- and with fuel for more than one level, returns. The entries in the leaves are then those that an
  -- insertion by a scan gives, and the sibling holds the new one. But no key of the sibling leads
  -- from the root to a leaf that has the key, unless it is less than the key under which the root
  -- had the leaf.
  pub insert_recursive_loses :
      (cur : InternalNode) (k : Contents) (child : Ptr)
      → length key + length value ≤ 1024
      → t.heap t.next ≡ none
      → IsTree t.heap limit 1 low high p
      → Inside low high key
      → is_some (lookup key (entries_of t.heap 1 p)) ≡ false
      → AllRoom t.heap (nodes_of t.heap 1 p)
      → AllShort t.heap (nodes_of t.heap 1 p)
      → NoDup (nodes_of t.heap 1 p)
      → has t.next (nodes_of t.heap 1 p) ≡ false
      → t.heap p ≡ some (internal_node cur)
      → get_elem? cur.children (child_at key cur.children) ≡ some (k, child)
      → capacity < leaf_size (leaf_for t.heap key 1 p) + (length key + length value)
      → position_of key (leaf_for t.heap key 1 p) < half (leaf_for t.heap key 1 p)
      → Returns
          (insert_recursive find build (suc (suc fuel)) p key value t)
          (λ t'. Misplaced t t' key value k p)
  unfolding nodes_of
  insert_recursive_loses cur k child small fresh is inside absent room short nd old at entry full
        ahead =
      let sel =
        select (IsTree t.heap limit 0) (entries_of t.heap 0) (IsTree-Inside t.heap limit 0) key low
          high is.k is.first is.rest inside is.children in
      let b = leaf_below find finds t.heap key limit low high p is sel absent short in
      let way = turn find finds t.heap key limit 0 low high p is sel in
      let es : leaf_for t.heap key 1 p ≡ b.es =
        leaf_for_turn find finds way
        ∙ leaf_for_leaf t.heap key sel.child (leaf_node (leaf_of b.es b.used)) b.leaf in
      let full' : capacity < b.used + (length key + length value) =
        subst (λ n. capacity < n + (length key + length value)) (sym b.valid.counted)
          (subst (λ l. capacity < leaf_size l + (length key + length value)) es full) in
      let ahead' = subst (λ l. position_of key l < half l) es ahead in
      let room' = room p is.cur (ground arith) is.here in
      let apart = turn-Apart way t.next nd old in
      let ne_leaf : t.next ≢ sel.child = λ e. cc (b.leaf, subst (λ a. t.heap a ≡ none) e fresh) in
      let key_here = turn_key way finds cur k child at entry in
      subst (λ o. Returns o (λ t'. Misplaced t t' key value k p))
        (sym
          (run_split find build key value t small fresh fuel p sel.child way nd old b room' full'))
        (record {
          contents =
              (store_split find build key value t small fresh p sel.child way nd old b room'
                full').contents;
          sibling = (cut_leaf key value b.es t.next).1;
          there = ground (arith, ne_leaf, apart.top_old);
          new = lookup-sibling key value b.es t.next ahead';
          lost =
              subst
                (λ k.
                  All
                    (λ (e : Entry Contents).
                      less e.0 k ≡ false
                      → lookup e.0 (
                          leaf_for
                            (after_split t p is.cur (length sel.front) sel.child
                              (cut_leaf key value b.es t.next)).heap
                            e.0 1 p)
                        ≡ none)
                    (cut_leaf key value b.es t.next).1.children)
                key_here
                (sibling_lost find finds build key value t limit small fresh low high p is sel
                  absent short nd old full' ahead');
        })
