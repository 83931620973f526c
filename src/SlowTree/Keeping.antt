-- ===== src/SlowTree/Keeping.antt =====
-- `Tree::insertRecursive` of libTupl/src/tupl/pvt/slow/Tree.cpp keeps a search tree: from the child
-- that the key belongs to up to the node.
use tupl_native.Common.{
  ℕ, zero, suc, ◌+◌, ◌≤◌, ◌<◌, ◌≡◌, sym, ◌∙◌, ap, ap₂, true, false, some, [], ◌∷◌, ◌++◌, arith,
  length, has, NoDup, append-nil, is_some, inl, inr, Outcome, ok, Build, Returns-ok, ◌>>=◌,
}
use tupl_native.Bytes.{Contents}
use tupl_native.SlowNode.{InternalNode, Ptr, capacity}
use tupl_native.SlowNode.Order.{insert_ordered, lookup}
use tupl_native.SlowTree.{Tree, internal_node, absorb_split, insert_recursive}
use tupl_native.SlowTree.Insert.{absorb_none}
use tupl_native.SlowTree.Inorder.{
  flat, flat-append, entries_of, nodes_of, nodes_of_internal, flat-nodes_of_frame,
}
use tupl_native.SlowTree.Ways.{Turn}
use tupl_native.SlowTree.Apart.{Apart, turn-Apart, turn_inserted, turn_outside, turn_nodes}
use tupl_native.SlowTree.Recursion.{insert_recursive_turn}
use tupl_native.SlowTree.SearchTree.{
  Bound, Inside, IsInternal, IsTree, IsTree-whole, IsTree-Inside, IsTree-frame, All-flat,
}
use tupl_native.SlowTree.Selection.{child_at, Selected, select}
use tupl_native.SlowTree.Turning.{turn, lookup_below}
use tupl_native.SlowTree.Steps.{Kept, Result, at_leaf}

module _ (find : InternalNode → Contents → Outcome ℕ)
    (finds : (n : InternalNode) (key : Contents) → find n key ≡ ok (child_at key n.children))
    (build : Build) (key value : Contents) (t : Tree) (limit : ℕ)
    (small : length key + length value ≤ 1024)
    (space : limit + (length key + length value) ≤ capacity) where
  module _ (height : ℕ) (low high : Bound) (p : Ptr)
      (is : IsInternal t.heap (IsTree t.heap limit height) low high p)
      (sel : Selected
        (IsTree t.heap limit height)
        (entries_of t.heap height)
        key
        low
        high
        is.k
        is.first
        is.rest) where
    abbrev turn_here : Turn find t.heap key height p sel.child
    turn_here = turn find finds t.heap key limit height low high p is sel

    lookup_here :
        lookup key (entries_of t.heap (suc height) p)
        ≡ lookup key (entries_of t.heap height sel.child)
    lookup_here = lookup_below find finds t.heap key limit height low high p is sel

    runs_below :
        (fuel : ℕ)
        → insert_recursive find build (suc fuel) p key value t ≡ (
            insert_recursive find build fuel sel.child key value t
            >>= absorb_split build p (length sel.front) sel.child)
    runs_below fuel = insert_recursive_turn build fuel value t turn_here

    module _ (nd : NoDup (nodes_of t.heap (suc height) p))
        (old : has t.next (nodes_of t.heap (suc height) p) ≡ false) (t' : Tree)
        (kept : Kept t t'
          (limit + (length key + length value))
          height
          sel.low_here
          sel.high_here
          sel.child
          (insert_ordered key value (entries_of t.heap height sel.child))) where
      apart :
          Apart t.next p
            (flat (nodes_of t.heap height) sel.front)
            (nodes_of t.heap height sel.child)
            (flat (nodes_of t.heap height) sel.back)
      apart = turn-Apart turn_here t.next nd old

      here_after : t'.heap p ≡ some (internal_node is.cur)
      here_after = kept.same p apart.top ∙ is.here

      same_front :
          (q : Ptr) → has q (flat (nodes_of t.heap height) sel.front) ≡ true → t'.heap q ≡ t.heap q
      same_front q h = kept.same q (apart.front_out q h).0

      same_back :
          (q : Ptr) → has q (flat (nodes_of t.heap height) sel.back) ≡ true → t'.heap q ≡ t.heap q
      same_back q h = kept.same q (apart.back_out q h).0

      kept_nodes : nodes_of t'.heap (suc height) p ≡ nodes_of t.heap (suc height) p
      kept_nodes =
          nodes_of_internal t'.heap height p (internal_node is.cur) here_after
          ∙ ap (λ cs. p ∷ flat (nodes_of t'.heap height) cs) turn_here.children
          ∙ ap (λ l. p ∷ l)
              (flat-append (nodes_of t'.heap height) sel.front
                  ((sel.key_here, sel.child) ∷ sel.back)
                ∙ ap₂ (λ a b. a ++ b)
                    (flat-nodes_of_frame t.heap t'.heap height sel.front same_front)
                    (ap₂ (λ a b. a ++ b) kept.nodes
                      (flat-nodes_of_frame t.heap t'.heap height sel.back same_back)))
          ∙ sym (turn_nodes turn_here)

      Kept-step :
          Kept t t'
            (limit + (length key + length value))
            (suc height)
            low
            high
            p
            (insert_ordered key value (entries_of t.heap (suc height) p))
      Kept-step = record {
        tree = record {
          cur = is.cur;
          here = here_after;
          whole = is.whole;
          k = is.k;
          first = is.first;
          rest = is.rest;
          shape = is.shape;
          children =
              sel.rebuild (IsTree t'.heap (limit + (length key + length value)) height)
                (λ p. (q : Ptr) → has q (nodes_of t.heap height p) ≡ true → t'.heap q ≡ t.heap q)
                (All-flat (nodes_of t.heap height) (λ q. t'.heap q ≡ t.heap q) sel.front same_front)
                (All-flat (nodes_of t.heap height) (λ q. t'.heap q ≡ t.heap q) sel.back same_back)
                (λ low high q same s.
                  IsTree-frame t.heap t'.heap limit (limit + (length key + length value))
                    (omega arith) height low high q same s)
                kept.tree;
        };
        contents =
            turn_inserted turn_here value t'.heap is.cur ((sel.key_here, sel.child) ∷ []) here_after
              turn_here.children same_front same_back (append-nil _ ∙ kept.contents);
        nodes = kept_nodes;
        same = λ q out. kept.same q (turn_outside turn_here q out).0;
        frame = kept.frame;
      }

      absorbed : absorb_split build p (length sel.front) sel.child t' ≡ ok t'
      absorbed =
          let (n, at, whole) =
            IsTree-whole t'.heap (limit + (length key + length value)) height sel.low_here
              sel.high_here sel.child kept.tree in
          absorb_none build p (length sel.front) sel.child t' n at whole

    Result-step :
        (fuel : ℕ)
        → NoDup (nodes_of t.heap (suc height) p)
        → has t.next (nodes_of t.heap (suc height) p) ≡ false
        → Result find finds build key value t limit small space height sel.low_here sel.high_here
            sel.child
            (insert_recursive find build fuel sel.child key value t)
        → Result find finds build key value t limit small space
            (suc height)
            low
            high
            p
            (insert_recursive find build (suc fuel) p key value t)
    Result-step fuel nd old (inl (there, failed)) = inl (
      ap is_some lookup_here ∙ there,
      runs_below fuel ∙ ap (λ o. o >>= absorb_split build p (length sel.front) sel.child) failed,
    )
    Result-step fuel nd old (inr (new, done)) =
        let (t', run, kept) =
          Returns-ok (insert_recursive find build fuel sel.child key value t) done in
        inr (
          ap is_some lookup_here ∙ new,
          rw (runs_below fuel, run, absorbed nd old t' kept) (Kept-step nd old t' kept),
        )

  -- If an entry of at most 1024 bytes has space in every leaf of a search tree, and its key is in the
  -- bounds of the tree, then `insertRecursive`, over nodes where `find` leads to the child that the
  -- key belongs to and with fuel for more than the height, does one of two things. It throws if the
  -- key is in the tree. Otherwise it returns, and then the tree is a search tree of the same nodes
  -- with the new entry, and nothing outside it has changed.
  pub insert_recursive-Result :
      (fuel height : ℕ) (low high : Bound) (p : Ptr)
      → IsTree t.heap limit height low high p
      → Inside low high key
      → NoDup (nodes_of t.heap height p)
      → has t.next (nodes_of t.heap height p) ≡ false
      → height < fuel
      → Result find finds build key value t limit small space height low high p
          (insert_recursive find build fuel p key value t)
  insert_recursive-Result zero height low high p is inside nd old h = absurd (omega arith)
  insert_recursive-Result (suc fuel) zero low high p is inside nd old h =
      at_leaf find finds build key value t limit small space fuel low high p is inside
  insert_recursive-Result (suc fuel) (suc height) low high p is inside nd old h =
      let sel =
        select (IsTree t.heap limit height) (entries_of t.heap height)
          (IsTree-Inside t.heap limit height) key low high is.k is.first is.rest inside
          is.children in
      let apart =
        turn-Apart (turn find finds t.heap key limit height low high p is sel) t.next nd old in
      Result-step height low high p is sel fuel nd old (
        insert_recursive-Result fuel height sel.low_here sel.high_here sel.child sel.sub sel.inside
          apart.mid_once apart.mid_old (omega arith))
