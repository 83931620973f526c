-- ===== src/SlowTree/Steps.antt =====
-- `Tree::insertRecursive` of libTupl/src/tupl/pvt/slow/Tree.cpp on a search tree whose leaves have
-- space, with a search for the child that a key belongs to.
use tupl_native.Common.{
  ℕ, suc, ◌+◌, ◌≤◌, ◌≡◌, refl, sym, ◌∙◌, ap, true, false, some, List, [], ◌∷◌, arith, length, has,
  All, is_some, Bool-cases, inl, inr, ◌⊎◌, Outcome, ok, fail, invalid_argument, Build, Returns,
}
use tupl_native.Bytes.{Contents, less}
use tupl_native.SlowNode.{Entry, LeafNode, InternalNode, Ptr, capacity}
use tupl_native.SlowNode.Order.{insert_ordered, lookup}
use tupl_native.SlowNode.Insert.{insert_spec, insert_leaf-insert_spec, insert_leaf-IsValid}
use tupl_native.SlowNode.Splitting.{leaf_of}
use tupl_native.SlowTree.{Tree, leaf_node, store, insert_in_leaf, insert_recursive}
use tupl_native.SlowTree.Insert.{leaf_inserted}
use tupl_native.SlowTree.Inorder.{entries_of, nodes_of, entries_of_leaf}
use tupl_native.SlowTree.Growth.{leaf_accepts}
use tupl_native.SlowTree.SearchTree.{Bound, Inside, IsLeaf, IsTree}
use tupl_native.SlowTree.Selection.{child_at}

-- What an insertion without a split leaves: the search tree at a node, with the new entry, and every
-- other node as it was.
pub record Kept (t t' : Tree) (limit height : ℕ) (low high : Bound) (p : Ptr)
    (es : List (Entry Contents)) : Type 0 where
  pub tree : IsTree t'.heap limit height low high p
  pub contents : entries_of t'.heap height p ≡ es
  pub nodes : nodes_of t'.heap height p ≡ nodes_of t.heap height p
  pub same : (q : Ptr) → has q (nodes_of t.heap height p) ≡ false → t'.heap q ≡ t.heap q
  pub frame : t' ≡ record t { heap = t'.heap }

pub All-insert_ordered :
    (P : Entry Contents → Type 0) (key value : Contents) (es : List (Entry Contents))
    → P (key, value)
    → All P es
    → All P (insert_ordered key value es)
unfolding insert_ordered
All-insert_ordered P key value [] new a = (new, tt)
All-insert_ordered P key value (e ∷ es) new a = elim (Bool-cases (less e.0 key)) [
  | inl lt ↦ rw (lt, insert_ordered) (a.0, All-insert_ordered P key value es new a.1)
  | inr ge ↦ rw (ge, insert_ordered) (new, a)
]

module _ (find : InternalNode → Contents → Outcome ℕ)
    (finds : (n : InternalNode) (key : Contents) → find n key ≡ ok (child_at key n.children))
    (build : Build) (key value : Contents) (t : Tree) (limit : ℕ)
    (small : length key + length value ≤ 1024)
    (space : limit + (length key + length value) ≤ capacity) where
  -- The insertion fails if the key is there, and keeps the tree, with the new entry, if it is not.
  abbrev pub Result : ℕ → Bound → Bound → Ptr → Outcome Tree → Type 0
  Result height low high p o =
      ((is_some (lookup key (entries_of t.heap height p)) ≡ true)
        × (o ≡ fail (invalid_argument "duplicate key not allowed")))
      ⊎ ((is_some (lookup key (entries_of t.heap height p)) ≡ false)
          × Returns o (λ t'.
            Kept t t' (limit + (length key + length value)) height low high p
              (insert_ordered key value (entries_of t.heap height p))))

  module _ (fuel : ℕ) (low high : Bound) (p : Ptr) (is : IsLeaf t.heap limit low high p)
      (inside : Inside low high key) where
    leaf_entries_here : entries_of t.heap 0 p ≡ is.es
    leaf_entries_here = entries_of_leaf t.heap p (leaf_node (leaf_of is.es is.used)) is.leaf

    leaf_refuses :
        is_some (lookup key is.es) ≡ true
        → insert_recursive find build (suc fuel) p key value t
          ≡ fail (invalid_argument "duplicate key not allowed")
    unfolding insert_recursive insert_in_leaf insert_spec
    leaf_refuses there =
        let run =
          insert_leaf-insert_spec key value (leaf_of is.es is.used) is.valid
            (omega (arith, small)) in
        ground (arith, is.leaf)

    abbrev leaf_grown : LeafNode
    leaf_grown = leaf_of (insert_ordered key value is.es) (is.used + (length key + length value))

    leaf_takes :
        is_some (lookup key is.es) ≡ false
        → insert_recursive find build (suc fuel) p key value t
          ≡ ok (record t { heap = store t.heap p (leaf_node leaf_grown) })
    unfolding insert_recursive
    leaf_takes new =
        let spec =
          leaf_accepts key value is.es is.used is.valid new small
            (omega (arith, space, is.limited)) in
        let run =
          (leaf_inserted build key value t p (leaf_of is.es is.used) leaf_grown is.valid
            (omega (arith, small)) spec).0 in
        ground (arith, is.leaf)

    Kept-leaf :
        is_some (lookup key is.es) ≡ false
        → Kept t
            (record t { heap = store t.heap p (leaf_node leaf_grown) })
            (limit + (length key + length value))
            0
            low
            high
            p
            (insert_ordered key value (entries_of t.heap 0 p))
    unfolding nodes_of
    Kept-leaf new =
        let spec =
          leaf_accepts key value is.es is.used is.valid new small
            (omega (arith, space, is.limited)) in
        let here : store t.heap p (leaf_node leaf_grown) p ≡ some (leaf_node leaf_grown) =
          ground arith in
        record {
          tree = record {
            es = insert_ordered key value is.es;
            used = is.used + (length key + length value);
            leaf = here;
            valid =
                insert_leaf-IsValid key value (leaf_of is.es is.used) is.valid
                  (omega (arith, small))
                  (insert_leaf-insert_spec key value (leaf_of is.es is.used) is.valid
                      (omega (arith, small))
                    ∙ spec);
            inside = All-insert_ordered _ key value is.es inside is.inside;
            limited = omega (arith, is.limited);
          };
          contents =
              entries_of_leaf (store t.heap p (leaf_node leaf_grown)) p (leaf_node leaf_grown) here
              ∙ ap (insert_ordered key value) (sym leaf_entries_here);
          nodes = refl;
          same = λ q out. ground arith;
          frame = refl;
        }

    pub at_leaf : Result 0 low high p (insert_recursive find build (suc fuel) p key value t)
    at_leaf = elim (Bool-cases (is_some (lookup key is.es))) [
      | inl there ↦
          inl (ap (λ l. is_some (lookup key l)) leaf_entries_here ∙ there, leaf_refuses there)
      | inr new ↦ inr (
        ap (λ l. is_some (lookup key l)) leaf_entries_here ∙ new,
        rw (leaf_takes new) (Kept-leaf new),
      )
    ]
