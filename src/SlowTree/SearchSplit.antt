-- ===== src/SlowTree/SearchSplit.antt =====
-- `Tree::insertRecursive` of libTupl/src/tupl/pvt/slow/Tree.cpp and the next descent: what an
-- insertion that splits a leaf to the right leaves for a search to find.
use tupl_native.Common.{
  ℕ, ◌+◌, ◌≤◌, ◌<◌, ◌≡◌, ◌≢◌, sym, ◌∙◌, ap, subst, false, none, some, List, [], ◌∷◌, ◌++◌, arith,
  length, has, NoDup, All, ◌⊎◌, Outcome, ok,
}
use tupl_native.Bytes.{Contents}
use tupl_native.SlowNode.{Entry, LeafNode, InternalNode, Ptr, capacity}
use tupl_native.SlowNode.Order.{insert_ordered, position_of}
use tupl_native.SlowNode.Splitting.{leaf_size, half, cut_leaf}
use tupl_native.SlowTree.{Tree, Heap, leaf_node, store}
use tupl_native.SlowTree.Insert.{with_entry}
use tupl_native.SlowTree.Overflow.{after_split}
use tupl_native.SlowTree.Inorder.{nodes_of}
use tupl_native.SlowTree.Ways.{pair_of, Turn, LeafBelow}
use tupl_native.SlowTree.Apart.{turn-Apart}
use tupl_native.SlowTree.Growth.{with_entry-children}
use tupl_native.SlowTree.SearchTree.{Bound, Inside}
use tupl_native.SlowTree.Selection.{child_at}
use tupl_native.SlowTree.Steps.{All-insert_ordered}
use tupl_native.SlowTree.SplitParts.{cut_right, parts-Inside}
use tupl_native.SlowTree.Search.{IsSearchable}
use tupl_native.SlowTree.Opened.{Opened, open_at}

-- The leaf has space for the entry, or the entry belongs behind the middle of it.
abbrev pub GoesWell : (key value : Contents) → List (Entry Contents) → Type 0
GoesWell key value es =
    (leaf_size es + (length key + length value) ≤ capacity) ⊎ (half es < position_of key es)

module _ (heap : Heap) (low high : Bound) where
  pub stored-IsSearchable :
      (p : Ptr) (n : LeafNode)
      → heap p ≡ some (leaf_node n)
      → All (λ (e : Entry Contents). Inside low high e.0) n.children
      → IsSearchable heap 0 low high p
  stored-IsSearchable p n here inside = record { cur = n; here = here; inside = inside }

module _ (find : InternalNode → Contents → Outcome ℕ)
    (finds : (n : InternalNode) (key : Contents) → find n key ≡ ok (child_at key n.children))
    (key value : Contents) (t : Tree) (small : length key + length value ≤ 1024)
    (fresh : t.heap t.next ≡ none) where
  module _ (low high : Bound) (p child : Ptr) (way : Turn find t.heap key 0 p child)
      (is : IsSearchable t.heap 1 low high p) (new : Inside low high key)
      (b : LeafBelow t.heap key child) (nd : NoDup (nodes_of t.heap 1 p))
      (old : has t.next (nodes_of t.heap 1 p) ≡ false) where
    abbrev opened : Opened t.heap 0 low high p child key way.k way.front way.back
    opened = open_at find finds low high way is new

    abbrev Here : Entry Contents → Type 0
    Here e = Inside opened.low_here opened.high_here e.0

    leaf-Inside : All Here b.es
    leaf-Inside =
        let same : opened.sub.cur.children ≡ b.es = cc (opened.sub.here, b.leaf) in
        subst (All Here) same opened.sub.inside

    grown-Inside : All Here (insert_ordered key value b.es)
    grown-Inside = All-insert_ordered Here key value b.es opened.inside leaf-Inside

    pub kept-IsSearchable :
        (m : LeafNode)
        → m.children ≡ insert_ordered key value b.es
        → IsSearchable (store t.heap child (leaf_node m)) 1 low high p
    unfolding nodes_of
    kept-IsSearchable m grown =
        let apart = turn-Apart way t.next nd old in
        opened.rebuild (store t.heap child (leaf_node m)) way.cur []
          (ground (arith, way.here, apart.top)) way.children
          (λ q h. ground (arith, apart.front_out q h)) (λ q h. ground (arith, apart.back_out q h))
          (stored-IsSearchable (store t.heap child (leaf_node m)) opened.low_here opened.high_here
            child m (ground arith) (subst (All Here) (sym grown) grown-Inside))

    abbrev pub r : LeafNode × LeafNode
    r = cut_leaf key value b.es t.next

    abbrev pub split_heap : Heap
    split_heap = (after_split t p way.cur (length way.front) child r).heap

    module _ (full : capacity < b.used + (length key + length value))
        (behind : half b.es < position_of key b.es) where
      -- The two parts and the key between them have their bounds.
      parts_here :
          All (λ (e : Entry Contents). Inside opened.low_here (some r.0.split.key) e.0) r.0.children
          × Inside opened.low_here opened.high_here r.0.split.key
          × All
              (λ (e : Entry Contents). Inside (some r.0.split.key) opened.high_here e.0)
              r.1.children
      parts_here =
          let dir = cut_right key value b.es t.next behind in
          let parts =
            parts-Inside key value b.es b.used t.next b.valid b.absent small full
              (λ e. absurd (omega (arith, behind, e))) opened.low_here opened.high_here leaf-Inside
              opened.inside in
          rw dir at parts

      pub split-IsSearchable : IsSearchable split_heap 1 low high p
      unfolding nodes_of
      split-IsSearchable =
          let apart = turn-Apart way t.next nd old in
          let ne_leaf : t.next ≢ child = λ e. cc (b.leaf, subst (λ a. t.heap a ≡ none) e fresh) in
          let dir = cut_right key value b.es t.next behind in
          opened.rebuild split_heap (with_entry way.cur (length way.front) r.0.split t.next)
            ((r.0.split.key, t.next) ∷ []) (ground arith)
            (with_entry-children way r.0.split t.next
              ∙ ap
                  (λ d. way.front ++ (pair_of d (r.0.split.key, t.next) (way.k, child) ++ way.back))
                  dir)
            (λ q h. ground (arith, apart.front_out q h)) (λ q h. ground (arith, apart.back_out q h))
            (
              stored-IsSearchable split_heap opened.low_here (some r.0.split.key) child r.0
                  (ground arith) parts_here.0,
              parts_here.1,
              stored-IsSearchable split_heap (some r.0.split.key) opened.high_here t.next r.1
                  (ground (arith, ne_leaf)) parts_here.2,
            )
