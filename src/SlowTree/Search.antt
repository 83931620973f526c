-- ===== src/SlowTree/Search.antt =====
-- Where the descent of `Tree::insertRecursive` in libTupl/src/tupl/pvt/slow/Tree.cpp leads to, with a
-- search in each node for the child that a key belongs to, and what is there.
use tupl_native.Common.{
  ℕ, zero, suc, ◌≡◌, refl, sym, ◌∙◌, ap, none, some, List, [], ◌∷◌, length, get_elem?, All, subst,
}
use tupl_native.Bytes.{Contents}
use tupl_native.SlowNode.{Entry, LeafNode, InternalNode, Ptr}
use tupl_native.SlowNode.Order.{lookup}
use tupl_native.SlowTree.{AnyNode, Heap, leaf_node, internal_node}
use tupl_native.SlowTree.Inorder.{
  flat, flat-append, leaf_entries, child_entries, entries_of, entries_of_leaf, entries_of_internal,
}
use tupl_native.SlowTree.Ways.{get-middle}
use tupl_native.SlowTree.SearchTree.{Bound, Inside, Children, Children-Inside, Children-map, IsTree}
use tupl_native.SlowTree.Selection.{child_at, select, lookup-middle}

-- The entries of the leaf that a key belongs to.
unfoldable pub leaf_for : Heap → Contents → (height : ℕ) → Ptr → List (Entry Contents)
leaf_for heap key zero p = elim (heap p) [ none ↦ [] | some n ↦ leaf_entries n ]
leaf_for heap key (suc height) p = elim (heap p) [
  | none ↦ []
  | some n ↦ elim (get_elem? (child_entries n) (child_at key (child_entries n))) [
    | none ↦ []
    | some c ↦ leaf_for heap key height c.1
  ]
]

pub record IsSearchLeaf (heap : Heap) (low high : Bound) (p : Ptr) : Type 0 where
  pub cur : LeafNode
  pub here : heap p ≡ some (leaf_node cur)
  pub inside : All (λ (e : Entry Contents). Inside low high e.0) cur.children

pub record IsSearchNode (heap : Heap) (Sub : Bound → Bound → Ptr → Type 0) (low high : Bound)
    (p : Ptr) : Type 0 where
  pub cur : InternalNode
  pub here : heap p ≡ some (internal_node cur)
  pub k : Contents
  pub first : Ptr
  pub rest : List (Entry Ptr)
  pub shape : cur.children ≡ (k, first) ∷ rest
  pub children : Children Sub low high first rest

-- The keys below each child are in its bounds, also if a node still has a record of its split.
abbrev pub IsSearchable : Heap → (height : ℕ) → Bound → Bound → Ptr → Type 0
IsSearchable heap zero low high p = IsSearchLeaf heap low high p
IsSearchable heap (suc height) low high p = IsSearchNode heap (IsSearchable heap height) low high p

All-always : {A : Type 0} (xs : List A) → All (λ x. Unit {0}) xs
All-always [] = tt
All-always (x ∷ xs) = (tt, All-always xs)

pub IsTree-IsSearchable :
    (heap : Heap) (limit height : ℕ) (low high : Bound) (p : Ptr)
    → IsTree heap limit height low high p
    → IsSearchable heap height low high p
IsTree-IsSearchable heap limit zero low high p is = record {
  cur = _;
  here = is.leaf;
  inside = is.inside;
}
IsTree-IsSearchable heap limit (suc height) low high p is = record {
  cur = is.cur;
  here = is.here;
  k = is.k;
  first = is.first;
  rest = is.rest;
  shape = is.shape;
  children =
      Children-map (IsTree heap limit height) (IsSearchable heap height) (λ q. Unit {0})
        (λ low high q u s. IsTree-IsSearchable heap limit height low high q s) low high is.first
        is.rest tt (All-always is.rest) is.children;
}

pub IsSearchable-Inside :
    (heap : Heap) (height : ℕ) (low high : Bound) (p : Ptr)
    → IsSearchable heap height low high p
    → All (λ (e : Entry Contents). Inside low high e.0) (entries_of heap height p)
IsSearchable-Inside heap zero low high p is =
    subst (All (λ (e : Entry Contents). Inside low high e.0))
      (sym (entries_of_leaf heap p (leaf_node is.cur) is.here)) is.inside
IsSearchable-Inside heap (suc height) low high p is =
    subst (All (λ (e : Entry Contents). Inside low high e.0))
      (sym (
        entries_of_internal heap height p (internal_node is.cur) is.here
        ∙ ap (flat (entries_of heap height)) is.shape))
      (Children-Inside (IsSearchable heap height) (entries_of heap height)
        (IsSearchable-Inside heap height) low high is.first is.rest is.children)

pub leaf_for_leaf :
    (heap : Heap) (key : Contents) (p : Ptr) (n : AnyNode)
    → heap p ≡ some n
    → leaf_for heap key 0 p ≡ leaf_entries n
unfolding leaf_for
leaf_for_leaf heap key p n at = rw (at, leaf_for) refl

pub leaf_for_child :
    (heap : Heap) (key : Contents) (height : ℕ) (p : Ptr) (n : InternalNode) (c : Entry Ptr)
    → heap p ≡ some (internal_node n)
    → get_elem? n.children (child_at key n.children) ≡ some c
    → leaf_for heap key (suc height) p ≡ leaf_for heap key height c.1
unfolding leaf_for
leaf_for_child heap key height p n c at entry = rw (at, leaf_for, entry) refl

-- In a searchable tree the leaf that a key in its bounds belongs to has for the key what the whole
-- tree has.
pub lookup-leaf_for :
    (heap : Heap) (key : Contents) (height : ℕ) (low high : Bound) (p : Ptr)
    → IsSearchable heap height low high p
    → Inside low high key
    → lookup key (leaf_for heap key height p) ≡ lookup key (entries_of heap height p)
lookup-leaf_for heap key zero low high p is inside = ap (lookup key) (
    leaf_for_leaf heap key p (leaf_node is.cur) is.here
    ∙ sym (entries_of_leaf heap p (leaf_node is.cur) is.here))
lookup-leaf_for heap key (suc height) low high p is inside =
    let sel =
      select (IsSearchable heap height) (entries_of heap height) (IsSearchable-Inside heap height)
        key low high is.k is.first is.rest inside is.children in
    let shape = is.shape ∙ sel.shape in
    let entry =
      ap (λ l. get_elem? l (child_at key l)) is.shape
      ∙ ap (λ i. get_elem? ((is.k, is.first) ∷ is.rest) i) (sel.at key sel.inside)
      ∙ ap (λ l. get_elem? l (length sel.front)) sel.shape
      ∙ get-middle sel.front (sel.key_here, sel.child) sel.back in
    ap (lookup key)
      (leaf_for_child heap key height p is.cur (sel.key_here, sel.child) is.here entry)
    ∙ lookup-leaf_for heap key height sel.low_here sel.high_here sel.child sel.sub sel.inside
    ∙ sym (
        ap (lookup key) (
          entries_of_internal heap height p (internal_node is.cur) is.here
          ∙ ap (flat (entries_of heap height)) shape
          ∙ flat-append (entries_of heap height) sel.front ((sel.key_here, sel.child) ∷ sel.back))
        ∙ lookup-middle key (flat (entries_of heap height) sel.front)
            (entries_of heap height sel.child) (flat (entries_of heap height) sel.back)
            (sel.lower key sel.inside) sel.upper)
