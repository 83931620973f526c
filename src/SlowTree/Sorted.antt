-- ===== src/SlowTree/Sorted.antt =====
-- The entries of a search tree of libTupl/src/tupl/pvt/slow/Tree.cpp are sorted, and one insertion of
-- a new key leaves them sorted also where it splits a leaf.
use tupl_native.Common.{
  ℕ, zero, suc, ◌+◌, ◌≤◌, ◌<◌, ◌≡◌, sym, ◌∙◌, ap, subst, true, false, none, some, List, [], ◌∷◌,
  ◌++◌, length, if◌then◌else◌, has, NoDup, append-nil, All, All-append, All-mono, is_some, Outcome,
  ok, Build, Returns, Returns-mono,
}
use tupl_native.Bytes.{Contents, less, key_equals}
use tupl_native.SlowNode.{Entry, InternalNode, Ptr}
use tupl_native.SlowNode.Order.{
  IsOrdered, insert_ordered, insert_ordered-IsOrdered, Absent-lookup, lookup, lookup-insert_ordered,
}
use tupl_native.SlowNode.Splitting.{leaf_of}
use tupl_native.SlowTree.{Tree, Heap, leaf_node, internal_node, insert_recursive}
use tupl_native.SlowTree.Inorder.{flat, entries_of, nodes_of, entries_of_leaf, entries_of_internal}
use tupl_native.SlowTree.Growth.{Inserted}
use tupl_native.SlowTree.Recursion.{insert_recursive-Inserted}
use tupl_native.SlowTree.SearchTree.{
  Bound, Inside, Children, Children-Inside, IsTree, IsTree-Inside,
}
use tupl_native.SlowTree.Selection.{child_at, less_of_ge}
use tupl_native.SlowTree.Turning.{AllRoom, AllShort, IsTree-Way}

IsOrdered-append :
    (bound : Contents) (xs ys : List (Entry Contents))
    → IsOrdered xs
    → IsOrdered ys
    → All (λ (e : Entry Contents). less e.0 bound ≡ true) xs
    → All (λ (e : Entry Contents). less e.0 bound ≡ false) ys
    → IsOrdered (xs ++ ys)
IsOrdered-append bound [] ys ox oy a b = oy
IsOrdered-append bound (x ∷ xs) ys ox oy a b = (
  All-append _ xs ys ox.0 (All-mono ys (λ e ge. less_of_ge x.0 bound e.0 a.0 ge) b),
  IsOrdered-append bound xs ys ox.1 oy a.1 b,
)

module _ (Sub : Bound → Bound → Ptr → Type 0) (entries : Ptr → List (Entry Contents))
    (sub_inside : (low high : Bound) (p : Ptr)
      → Sub low high p
      → All (λ (e : Entry Contents). Inside low high e.0) (entries p))
    (sub_ordered : (low high : Bound) (p : Ptr) → Sub low high p → IsOrdered (entries p)) where
  Children-IsOrdered :
      (low high : Bound) (p : Ptr) (cs : List (Entry Ptr))
      → Children Sub low high p cs
      → IsOrdered (entries p ++ flat entries cs)
  Children-IsOrdered low high p [] s =
      subst IsOrdered (sym (append-nil (entries p))) (sub_ordered low high p s)
  Children-IsOrdered low high p (c ∷ cs) (s, at, rest) =
      IsOrdered-append c.0 (entries p) (entries c.1 ++ flat entries cs)
        (sub_ordered low (some c.0) p s) (Children-IsOrdered (some c.0) high c.1 cs rest)
        (All-mono (entries p) (λ e (from, below). below) (sub_inside low (some c.0) p s))
        (All-mono (entries c.1 ++ flat entries cs) (λ e (from, below). from)
          (Children-Inside Sub entries sub_inside (some c.0) high c.1 cs rest))

-- The entries of a search tree are sorted, each key once.
pub IsTree-IsOrdered :
    (heap : Heap) (limit height : ℕ) (low high : Bound) (p : Ptr)
    → IsTree heap limit height low high p
    → IsOrdered (entries_of heap height p)
IsTree-IsOrdered heap limit zero low high p is =
    subst IsOrdered (sym (entries_of_leaf heap p (leaf_node (leaf_of is.es is.used)) is.leaf))
      is.valid.ordered
IsTree-IsOrdered heap limit (suc height) low high p is =
    subst IsOrdered
      (sym (
        entries_of_internal heap height p (internal_node is.cur) is.here
        ∙ ap (flat (entries_of heap height)) is.shape))
      (Children-IsOrdered (IsTree heap limit height) (entries_of heap height)
        (IsTree-Inside heap limit height) (IsTree-IsOrdered heap limit height) low high is.first
        is.rest is.children)

module _ (find : InternalNode → Contents → Outcome ℕ)
    (finds : (n : InternalNode) (key : Contents) → find n key ≡ ok (child_at key n.children))
    (build : Build) (key value : Contents) (t : Tree) where
  -- If a search tree of at least two levels has space in its internal nodes and no key longer than
  -- 1016 bytes, repeats no node, and the next address is free, and if the key is in the bounds of
  -- the tree and not in the tree, then the insertion of an entry of at most 1024 bytes, over nodes
  -- where `find` leads to the child that the key belongs to and with fuel for more than the height,
  -- returns, whether a leaf is split or not. The entries are those that an insertion by a scan
  -- gives: they are sorted, the key has the new value, and every other key has what it had. The
  -- node is not split, and every node outside the tree but the new one is as before.
  pub insert_recursive-IsOrdered :
      (limit fuel levels : ℕ) (low high : Bound) (p : Ptr)
      → length key + length value ≤ 1024
      → t.heap t.next ≡ none
      → IsTree t.heap limit (suc levels) low high p
      → Inside low high key
      → AllRoom t.heap (nodes_of t.heap (suc levels) p)
      → AllShort t.heap (nodes_of t.heap (suc levels) p)
      → NoDup (nodes_of t.heap (suc levels) p)
      → has t.next (nodes_of t.heap (suc levels) p) ≡ false
      → suc levels < fuel
      → is_some (lookup key (entries_of t.heap (suc levels) p)) ≡ false
      → Returns (insert_recursive find build fuel p key value t) (λ t'.
        Inserted t t' (suc levels) p (insert_ordered key value (entries_of t.heap (suc levels) p))
        × IsOrdered (entries_of t'.heap (suc levels) p)
        × ((j : Contents)
            → lookup j (entries_of t'.heap (suc levels) p) ≡ (
                if key_equals j key
                then some value
                else lookup j (entries_of t.heap (suc levels) p))))
  insert_recursive-IsOrdered limit fuel levels low high p small fresh is inside room short nd old h
        absent =
      let es = entries_of t.heap (suc levels) p in
      let way =
        IsTree-Way find finds t.heap key limit levels low high p is inside absent room short in
      Returns-mono (insert_recursive find build fuel p key value t)
        (insert_recursive-Inserted find build key value t small fresh fuel way nd old h)
        (λ t' done. (
          done,
          subst IsOrdered (sym done.contents) (
              insert_ordered-IsOrdered key value es
                (IsTree-IsOrdered t.heap limit (suc levels) low high p is)
                (Absent-lookup key es absent)),
          λ j. ap (lookup j) done.contents ∙ lookup-insert_ordered j key value es,
        ))
