-- ===== src/SlowTree/LeftSplit.antt =====
-- `Tree::insertRecursive` of libTupl/src/tupl/pvt/slow/Tree.cpp and the next descent, where a leaf is
-- split to the left: the parent has the sibling under the split key, in front of the leaf.
use tupl_native.Common.{
  ℕ, ◌+◌, ◌≤◌, ◌<◌, ◌≡◌, refl, sym, ◌∙◌, ap, subst, true, false, none, some, List, [], ◌∷◌, ◌++◌,
  arith, length, get_elem?, has, has-append, NoDup, All, All-mono, append-nil, is_some, Outcome, ok,
  Build,
}
use tupl_native.Bytes.{Contents, less}
use tupl_native.SlowNode.{Entry, LeafNode, InternalNode, Ptr, capacity}
use tupl_native.SlowNode.Order.{lookup, position_of}
use tupl_native.SlowNode.Splitting.{half, cut_leaf}
use tupl_native.SlowTree.{Tree, Heap, leaf_node}
use tupl_native.SlowTree.Insert.{with_entry}
use tupl_native.SlowTree.Overflow.{after_split}
use tupl_native.SlowTree.Inorder.{flat, entries_of, nodes_of, entries_of_frame}
use tupl_native.SlowTree.Ways.{Turn, LeafBelow, pair_of}
use tupl_native.SlowTree.Apart.{turn-Apart}
use tupl_native.SlowTree.SearchTree.{Bound, Inside, IsTree, Below-trans}
use tupl_native.SlowTree.Selection.{
  position_from, child_at, Selected, less_of_ge, lookup-lower, lookup-upper,
}
use tupl_native.SlowTree.Turning.{AllShort, turn, leaf_below}
use tupl_native.SlowTree.Growth.{with_entry-children}
use tupl_native.SlowTree.SplitParts.{All-parts, cut_left, parts-Inside}
use tupl_native.SlowTree.Search.{leaf_for, leaf_for_leaf, leaf_for_child}

lookup-less :
    (key : Contents) (es : List (Entry Contents))
    → All (λ (e : Entry Contents). less e.0 key ≡ true) es
    → lookup key es ≡ none
unfolding lookup
lookup-less key es a = ap (lookup key) (sym (append-nil es)) ∙ lookup-lower key es [] a

lookup-greater :
    (key : Contents) (es : List (Entry Contents))
    → All (λ (e : Entry Contents). less key e.0 ≡ true) es
    → lookup key es ≡ none
unfolding lookup
lookup-greater key es a = lookup-upper key [] es a

leaf_for_bottom :
    (heap : Heap) (key : Contents) (p : Ptr) → leaf_for heap key 0 p ≡ entries_of heap 0 p
unfolding leaf_for entries_of
leaf_for_bottom heap key p = refl

-- Where a key went past an entry it stops at a greater one in its place.
position_from-stops :
    (key split_key : Contents) (xs ys zs : List (Entry Ptr)) (new : Ptr)
    → length xs < position_from key (xs ++ ys)
    → less key split_key ≡ true
    → position_from key (xs ++ ((split_key, new) ∷ zs)) ≡ length xs
position_from-stops key split_key [] ys zs new h lt = rw lt refl
position_from-stops key split_key (x ∷ xs) ys zs new h lt =
    ground (arith, position_from-stops key split_key xs ys zs new)

abbrev last_of : Entry Ptr → List (Entry Ptr) → Entry Ptr
last_of c [] = c
last_of c (d ∷ ds) = last_of d ds

get-last_of :
    (c : Entry Ptr) (cs ds : List (Entry Ptr))
    → get_elem? (c ∷ (cs ++ ds)) (length cs) ≡ some (last_of c cs)
get-last_of c [] ds = refl
get-last_of c (d ∷ cs) ds = get-last_of d cs ds

All-last_of :
    {A : Type 0} (P : A → Type 0) (ns : Ptr → List A) (c : Entry Ptr) (cs : List (Entry Ptr))
    → All P (flat ns (c ∷ cs))
    → All P (ns (last_of c cs).1)
All-last_of P ns c [] a = subst (All P) (append-nil (ns c.1)) a
All-last_of P ns c (d ∷ cs) a = All-last_of P ns d cs (All-parts P (ns c.1) (flat ns (d ∷ cs)) a).1

has-last_of :
    (ns : Ptr → List Ptr) (q : Ptr) (c : Entry Ptr) (cs : List (Entry Ptr))
    → has q (ns (last_of c cs).1) ≡ true
    → has q (flat ns (c ∷ cs)) ≡ true
has-last_of ns q c [] h = ground (arith, has-append q (ns c.1) [])
has-last_of ns q c (d ∷ cs) h =
    ground (arith, has-append q (ns c.1) (flat ns (d ∷ cs)), has-last_of ns q d cs h)

module _ (find : InternalNode → Contents → Outcome ℕ)
    (finds : (n : InternalNode) (key : Contents) → find n key ≡ ok (child_at key n.children))
    (build : Build) (key value : Contents) (t : Tree) (limit : ℕ)
    (small : length key + length value ≤ 1024) (fresh : t.heap t.next ≡ none) (low high : Bound)
    (p : Ptr) (is : IsTree t.heap limit 1 low high p)
    (sel : Selected
      (IsTree t.heap limit 0)
      (entries_of t.heap 0)
      key
      low
      high
      is.k
      is.first
      is.rest)
    (absent : is_some (lookup key (entries_of t.heap 1 p)) ≡ false)
    (short : AllShort t.heap (nodes_of t.heap 1 p)) (nd : NoDup (nodes_of t.heap 1 p))
    (old : has t.next (nodes_of t.heap 1 p) ≡ false) where
  abbrev way : Turn find t.heap key 0 p sel.child
  way = turn find finds t.heap key limit 0 low high p is sel

  abbrev leaf_here : LeafBelow t.heap key sel.child
  leaf_here = leaf_below find finds t.heap key limit low high p is sel absent short

  abbrev cut : LeafNode × LeafNode
  cut = cut_leaf key value leaf_here.es t.next

  abbrev heap' : Heap
  heap' = (after_split t p is.cur (length sel.front) sel.child cut).heap

  abbrev cur' : InternalNode
  cur' = with_entry is.cur (length sel.front) cut.0.split t.next

  module _ (full : capacity < leaf_here.used + (length key + length value))
      (ahead : position_of key leaf_here.es < half leaf_here.es) where
    shape_after :
        cur'.children
        ≡ sel.front ++ ((cut.0.split.key, t.next) ∷ (sel.key_here, sel.child) ∷ sel.back)
    shape_after =
        with_entry-children way cut.0.split t.next
        ∙ ap
            (λ d.
              sel.front
              ++ (pair_of d (cut.0.split.key, t.next) (sel.key_here, sel.child) ++ sel.back))
            (cut_left key value leaf_here.es t.next ahead)

    parts_here :
        All (λ (e : Entry Contents). Inside sel.low_here (some cut.0.split.key) e.0) cut.1.children
        × Inside sel.low_here sel.high_here cut.0.split.key
        × All
            (λ (e : Entry Contents). Inside (some cut.0.split.key) sel.high_here e.0)
            cut.0.children
    parts_here =
        let dir = cut_left key value leaf_here.es t.next ahead in
        let parts =
          parts-Inside key value leaf_here.es leaf_here.used t.next leaf_here.valid leaf_here.absent
            small full (λ e. absurd (omega (arith, ahead, e))) sel.low_here sel.high_here
            sel.sub.inside sel.inside in
        rw dir at parts

    module _ (j : Contents) (inside : Inside sel.low_here sel.high_here j)
        (ahead_of : less j cut.0.split.key ≡ true) where
      -- In front there is another child, and the search ends there.
      lost_in_front :
          (c : Entry Ptr) (cs : List (Entry Ptr))
          → sel.front ≡ c ∷ cs
          → lookup j (leaf_for heap' j 1 p) ≡ none
      unfolding nodes_of
      lost_in_front c cs e =
          let apart = turn-Apart way t.next nd old in
          let last = last_of c cs in
          let rest =
            subst
              (λ (f : List (Entry Ptr)).
                (is.k, is.first) ∷ is.rest ≡ f ++ ((sel.key_here, sel.child) ∷ sel.back))
              e sel.shape in
          let behind : is.rest ≡ cs ++ ((sel.key_here, sel.child) ∷ sel.back) = cc rest in
          let shape' : cur'.children
              ≡ c ∷ (cs ++ ((cut.0.split.key, t.next) ∷ (sel.key_here, sel.child) ∷ sel.back)) =
            shape_after
            ∙ ap (λ f. f ++ ((cut.0.split.key, t.next) ∷ (sel.key_here, sel.child) ∷ sel.back)) e in
          let far = sel.at j inside ∙ ap (λ (f : List (Entry Ptr)). length f) e in
          let at : child_at j cur'.children ≡ length cs =
            ap (child_at j) shape'
            ∙ position_from-stops j cut.0.split.key cs ((sel.key_here, sel.child) ∷ sel.back)
                ((sel.key_here, sel.child) ∷ sel.back) t.next
                (subst (λ l. length cs < position_from j l) behind (omega (arith, far))) ahead_of in
          let spared : (q : Ptr) → has q (nodes_of t.heap 0 last.1) ≡ true → heap' q ≡ t.heap q =
            λ q h.
              let m =
                subst (λ (f : List (Entry Ptr)). has q (flat (nodes_of t.heap 0) f) ≡ true) (sym e)
                  (has-last_of (nodes_of t.heap 0) q c cs h) in
              ground (arith, apart.front_out q m) in
          let lower : All (λ (x : Entry Contents). less x.0 j ≡ true) (entries_of t.heap 0 last.1) =
            All-last_of (λ (x : Entry Contents). less x.0 j ≡ true) (entries_of t.heap 0) c cs
              (subst
                (λ (f : List (Entry Ptr)).
                  All (λ (x : Entry Contents). less x.0 j ≡ true) (flat (entries_of t.heap 0) f))
                e (sel.lower j inside)) in
          ap (lookup j) (
            leaf_for_child heap' j 0 p cur' last (ground arith) (
              ap (λ i. get_elem? cur'.children i) at
              ∙ ap (λ l. get_elem? l (length cs)) shape'
              ∙ get-last_of c cs ((cut.0.split.key, t.next) ∷ (sel.key_here, sel.child) ∷ sel.back))
            ∙ leaf_for_bottom heap' j last.1
            ∙ entries_of_frame t.heap heap' 0 last.1 spared)
          ∙ lookup-less j (entries_of t.heap 0 last.1) lower

      -- In front there is none, and the search passes the sibling as the first child.
      lost_at_first :
          sel.front ≡ [] → less j sel.key_here ≡ false → lookup j (leaf_for heap' j 1 p) ≡ none
      unfolding nodes_of
      lost_at_first e ge =
          let behind : is.rest ≡ sel.back = cc (sel.shape, e) in
          let apart = turn-Apart way t.next nd old in
          let shape' : cur'.children
              ≡ (cut.0.split.key, t.next) ∷ (sel.key_here, sel.child) ∷ sel.back =
            shape_after
            ∙ ap (λ f. f ++ ((cut.0.split.key, t.next) ∷ (sel.key_here, sel.child) ∷ sel.back)) e in
          let near : position_from j sel.back ≡ 0 =
            ap (position_from j) (sym behind)
            ∙ sel.at j inside
            ∙ ap (λ (f : List (Entry Ptr)). length f) e in
          let at : child_at j cur'.children ≡ 1 = ap (child_at j) shape' ∙ rw (ge, near) refl in
          ap (lookup j) (
            leaf_for_child heap' j 0 p cur' (sel.key_here, sel.child) (ground arith)
              (ap (λ i. get_elem? cur'.children i) at ∙ ap (λ l. get_elem? l 1) shape')
            ∙ leaf_for_leaf heap' j sel.child (leaf_node cut.0) (ground arith))
          ∙ lookup-greater j cut.0.children (
              All-mono cut.0.children (λ x i. less_of_ge j cut.0.split.key x.0 ahead_of i.0)
                parts_here.2)

      lost :
          (front : List (Entry Ptr))
          → sel.front ≡ front
          → less j sel.key_here ≡ false
          → lookup j (leaf_for heap' j 1 p) ≡ none
      lost [] e ge = lost_at_first e ge
      lost (c ∷ cs) e ge = lost_in_front c cs e

    -- What the sibling holds is not found.
    pub sibling_lost :
        All
          (λ (e : Entry Contents).
            less e.0 sel.key_here ≡ false → lookup e.0 (leaf_for heap' e.0 1 p) ≡ none)
          cut.1.children
    sibling_lost =
        All-mono cut.1.children
          (λ e (from, below) ge.
            lost e.0 (from, Below-trans sel.high_here e.0 cut.0.split.key parts_here.1.1 below)
              below sel.front refl ge)
          parts_here.0
