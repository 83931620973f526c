-- ===== src/SlowTree/Turning.antt =====
-- From a node of a search tree of libTupl/src/tupl/pvt/slow/Tree.cpp to the child that a key belongs
-- to, and so down to a leaf.
use tupl_native.Common.{
  ℕ, zero, suc, ◌+◌, ◌≤◌, ◌≡◌, sym, ◌∙◌, ap, true, false, some, List, ◌++◌, arith, length, has,
  has-append, All, All-mono, is_some, Outcome, ok,
}
use tupl_native.Bytes.{Contents}
use tupl_native.Bytes.Order.{less_asymm}
use tupl_native.SlowNode.{Entry, LeafNode, InternalNode, Ptr, capacity}
use tupl_native.SlowNode.Order.{lookup}
use tupl_native.SlowTree.{Heap, leaf_node, internal_node}
use tupl_native.SlowTree.Inorder.{flat, entries_of, nodes_of, entries_of_leaf}
use tupl_native.SlowTree.Ways.{Turn, LeafBelow, Way, bottom, down}
use tupl_native.SlowTree.Apart.{turn_nodes, turn_entries}
use tupl_native.SlowTree.SearchTree.{Bound, Inside, IsInternal, IsTree, IsTree-Inside}
use tupl_native.SlowTree.Selection.{child_at, Selected, select, lookup-middle}

-- Every internal node has space for one more entry.
abbrev pub AllRoom : Heap → List Ptr → Type 0
AllRoom heap nodes =
    (q : Ptr) (n : InternalNode)
    → has q nodes ≡ true
    → heap q ≡ some (internal_node n)
    → n.bytes + 1024 ≤ capacity

-- No key of a leaf is longer than an entry of an internal node may hold.
abbrev pub AllShort : Heap → List Ptr → Type 0
AllShort heap nodes =
    (q : Ptr) (n : LeafNode)
    → has q nodes ≡ true
    → heap q ≡ some (leaf_node n)
    → All (λ (e : Entry Contents). length e.0 + 8 ≤ 1024) n.children

module _ (find : InternalNode → Contents → Outcome ℕ)
    (finds : (n : InternalNode) (key : Contents) → find n key ≡ ok (child_at key n.children))
    (heap : Heap) (key : Contents) (limit : ℕ) where
  module _ (height : ℕ) (low high : Bound) (p : Ptr)
      (is : IsInternal heap (IsTree heap limit height) low high p)
      (sel : Selected
        (IsTree heap limit height)
        (entries_of heap height)
        key
        low
        high
        is.k
        is.first
        is.rest) where
    abbrev pub turn : Turn find heap key height p sel.child
    turn = record {
      cur = is.cur;
      front = sel.front;
      k = sel.key_here;
      back = sel.back;
      here = is.here;
      children = is.shape ∙ sel.shape;
      found =
          finds is.cur key ∙ ap (λ l. ok (child_at key l)) is.shape ∙ ap ok (sel.at key sel.inside);
      whole = is.whole;
      lower = sel.lower key sel.inside;
      upper =
          All-mono (flat (entries_of heap height) sel.back) (λ e lt. less_asymm key e.0 lt)
            sel.upper;
    }

    pub lookup_below :
        lookup key (entries_of heap (suc height) p) ≡ lookup key (entries_of heap height sel.child)
    lookup_below =
        ap (lookup key) (turn_entries turn)
        ∙ lookup-middle key (flat (entries_of heap height) sel.front)
            (entries_of heap height sel.child) (flat (entries_of heap height) sel.back)
            (sel.lower key sel.inside) sel.upper

    pub below_here :
        (q : Ptr)
        → has q (nodes_of heap height sel.child) ≡ true
        → has q (nodes_of heap (suc height) p) ≡ true
    below_here q m =
        let front = flat (nodes_of heap height) sel.front in
        let back = flat (nodes_of heap height) sel.back in
        let e = ap (has q) (turn_nodes turn) in
        ground (
          arith,
          has-append q front (nodes_of heap height sel.child ++ back),
          has-append q (nodes_of heap height sel.child) back,
        )

  module _ (low high : Bound) (p : Ptr) (is : IsTree heap limit 1 low high p)
      (sel : Selected
        (IsTree heap limit 0)
        (entries_of heap 0)
        key
        low
        high
        is.k
        is.first
        is.rest) where
    pub short_below :
        AllShort heap (nodes_of heap 1 p)
        → All (λ (e : Entry Contents). length e.0 + 8 ≤ 1024) sel.sub.es
    unfolding nodes_of
    short_below short =
        short sel.child _ (below_here 0 low high p is sel sel.child (ground arith)) sel.sub.leaf

    abbrev pub leaf_below :
        is_some (lookup key (entries_of heap 1 p)) ≡ false
        → AllShort heap (nodes_of heap 1 p)
        → LeafBelow heap key sel.child
    leaf_below absent short = record {
      es = sel.sub.es;
      used = sel.sub.used;
      leaf = sel.sub.leaf;
      valid = sel.sub.valid;
      absent =
          ap (λ l. is_some (lookup key l)) (sym (entries_of_leaf heap sel.child _ sel.sub.leaf))
          ∙ sym (ap is_some (lookup_below 0 low high p is sel))
          ∙ absent;
      short = short_below short;
    }

  pub IsTree-Way :
      (levels : ℕ) (low high : Bound) (p : Ptr)
      → IsTree heap limit (suc levels) low high p
      → Inside low high key
      → is_some (lookup key (entries_of heap (suc levels) p)) ≡ false
      → AllRoom heap (nodes_of heap (suc levels) p)
      → AllShort heap (nodes_of heap (suc levels) p)
      → Way find heap key levels p
  unfolding nodes_of
  IsTree-Way zero low high p is inside absent room short =
      let sel =
        select (IsTree heap limit 0) (entries_of heap 0) (IsTree-Inside heap limit 0) key low high
          is.k is.first is.rest inside is.children in
      bottom sel.child (turn 0 low high p is sel) (room p is.cur (ground arith) is.here)
        (leaf_below low high p is sel absent short)
  IsTree-Way (suc levels) low high p is inside absent room short =
      let sel =
        select (IsTree heap limit (suc levels)) (entries_of heap (suc levels))
          (IsTree-Inside heap limit (suc levels)) key low high is.k is.first is.rest inside
          is.children in
      let below = below_here (suc levels) low high p is sel in
      down sel.child (turn (suc levels) low high p is sel) (
        IsTree-Way levels sel.low_here sel.high_here sel.child sel.sub sel.inside
          (sym (ap is_some (lookup_below (suc levels) low high p is sel)) ∙ absent)
          (λ q n m. room q n (below q m)) (λ q n m. short q n (below q m)))
