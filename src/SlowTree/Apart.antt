-- ===== src/SlowTree/Apart.antt =====
-- The nodes of a tree of libTupl/src/tupl/pvt/slow/Tree.cpp that are not on the way of a search, and
-- what a change at one child of a node does to the entries of the tree below that node.
use tupl_native.Common.{
  ℕ, suc, ◌≡◌, ◌≢◌, sym, ◌∙◌, ap, ap₂, subst, true, false, some, List, ◌∷◌, ◌++◌, arith, has,
  has-append, NoDup, NoDup-append, Outcome,
}
use tupl_native.Bytes.{Contents}
use tupl_native.SlowNode.{Entry, Ptr, InternalNode}
use tupl_native.SlowNode.Order.{insert_ordered}
use tupl_native.SlowTree.{Heap, internal_node}
use tupl_native.SlowTree.Inorder.{
  flat, flat-append, entries_of, nodes_of, entries_of_internal, nodes_of_internal,
  flat-entries_of_frame,
}
use tupl_native.SlowTree.Ways.{Turn, insert_ordered-middle}

-- The nodes off the way, of a tree that repeats no node and does not have the next free address.
pub record Apart (next p : Ptr) (front mid back : List Ptr) : Type 0 where
  pub mid_once : NoDup mid
  pub mid_old : has next mid ≡ false
  pub top : has p mid ≡ false
  pub top_old : p ≢ next
  pub front_out : (q : Ptr) → has q front ≡ true → (has q mid ≡ false) × (q ≢ next) × (q ≢ p)
  pub back_out : (q : Ptr) → has q back ≡ true → (has q mid ≡ false) × (q ≢ next) × (q ≢ p)

-- Both sides by name, as a list of nodes shows them.
ne_of_mem : (a b : Ptr) (xs : List Ptr) → has a xs ≡ true → has b xs ≡ false → a ≢ b
ne_of_mem a b xs m out e = cc (subst (λ c. has c xs ≡ true) e m, out)

Apart-of :
    (next p : Ptr) (front mid back : List Ptr)
    → NoDup (p ∷ (front ++ (mid ++ back)))
    → has next (p ∷ (front ++ (mid ++ back))) ≡ false
    → Apart next p front mid back
Apart-of next p front mid back nd old =
    let (nd_f, nd_mb, f_out) = NoDup-append front (mid ++ back) nd.1 in
    let (nd_m, nd_b, m_out) = NoDup-append mid back nd_mb in
    let hp = has-append p front (mid ++ back) in
    let hp' = has-append p mid back in
    let hn = has-append next front (mid ++ back) in
    let hn' = has-append next mid back in
    record {
      mid_once = nd_m;
      mid_old = ground arith;
      top = ground (arith, nd.0);
      top_old = ground arith;
      front_out = λ q h. (
        ground (arith, f_out q h, has-append q mid back),
        ne_of_mem q next front h (ground arith),
        ne_of_mem q p front h (ground (arith, nd.0)),
      );
      back_out = λ q h. (
        ground (arith, m_out q),
        ne_of_mem q next back h (ground arith),
        ne_of_mem q p back h (ground (arith, nd.0)),
      );
    }

module _ {find : InternalNode → Contents → Outcome ℕ} {heap : Heap} {key : Contents} {height : ℕ}
    {p child : Ptr} (turn : Turn find heap key height p child) where
  pub turn_nodes :
      nodes_of heap (suc height) p
      ≡ p
        ∷ (flat (nodes_of heap height) turn.front
            ++ (nodes_of heap height child ++ flat (nodes_of heap height) turn.back))
  turn_nodes =
      nodes_of_internal heap height p (internal_node turn.cur) turn.here
      ∙ ap (λ cs. p ∷ flat (nodes_of heap height) cs) turn.children
      ∙ ap (λ l. p ∷ l)
          (flat-append (nodes_of heap height) turn.front ((turn.k, child) ∷ turn.back))

  pub turn-Apart :
      (next : Ptr)
      → NoDup (nodes_of heap (suc height) p)
      → has next (nodes_of heap (suc height) p) ≡ false
      → Apart next p
          (flat (nodes_of heap height) turn.front)
          (nodes_of heap height child)
          (flat (nodes_of heap height) turn.back)
  turn-Apart next nd old =
      Apart-of next p (flat (nodes_of heap height) turn.front) (nodes_of heap height child)
        (flat (nodes_of heap height) turn.back) (subst NoDup turn_nodes nd)
        (subst (λ l. has next l ≡ false) turn_nodes old)

  -- What is outside the tree at a node is outside the one at its child.
  pub turn_outside :
      (q : Ptr)
      → has q (nodes_of heap (suc height) p) ≡ false
      → (has q (nodes_of heap height child) ≡ false) × (q ≢ p)
  turn_outside q out =
      let out' = subst (λ l. has q l ≡ false) turn_nodes out in
      let a =
        has-append q (flat (nodes_of heap height) turn.front)
          (nodes_of heap height child ++ flat (nodes_of heap height) turn.back) in
      let b = has-append q (nodes_of heap height child) (flat (nodes_of heap height) turn.back) in
      (ground arith, ground arith)

  pub turn_entries :
      entries_of heap (suc height) p
      ≡ flat (entries_of heap height) turn.front
        ++ (entries_of heap height child ++ flat (entries_of heap height) turn.back)
  turn_entries =
      entries_of_internal heap height p (internal_node turn.cur) turn.here
      ∙ ap (flat (entries_of heap height)) turn.children
      ∙ flat-append (entries_of heap height) turn.front ((turn.k, child) ∷ turn.back)

  -- If a change of the heap spares the nodes in front and behind, and leaves at the place of the
  -- child what holds its entries and the new one, then so it is for the node.
  pub turn_inserted :
      (value : Contents) (heap' : Heap) (cur' : InternalNode) (mid : List (Entry Ptr))
      → heap' p ≡ some (internal_node cur')
      → cur'.children ≡ turn.front ++ (mid ++ turn.back)
      → ((q : Ptr) → has q (flat (nodes_of heap height) turn.front) ≡ true → heap' q ≡ heap q)
      → ((q : Ptr) → has q (flat (nodes_of heap height) turn.back) ≡ true → heap' q ≡ heap q)
      → flat (entries_of heap' height) mid ≡ insert_ordered key value (entries_of heap height child)
      → entries_of heap' (suc height) p ≡ insert_ordered key value (entries_of heap (suc height) p)
  turn_inserted value heap' cur' mid here' shape same_front same_back grown =
      entries_of_internal heap' height p (internal_node cur') here'
      ∙ ap (flat (entries_of heap' height)) shape
      ∙ flat-append (entries_of heap' height) turn.front (mid ++ turn.back)
      ∙ ap₂ (λ a b. a ++ b) (flat-entries_of_frame heap heap' height turn.front same_front)
          (flat-append (entries_of heap' height) mid turn.back
            ∙ ap₂ (λ a b. a ++ b) grown
                (flat-entries_of_frame heap heap' height turn.back same_back))
      ∙ insert_ordered-middle key value (flat (entries_of heap height) turn.front)
          (entries_of heap height child) (flat (entries_of heap height) turn.back) turn.lower
          turn.upper
      ∙ ap (insert_ordered key value) (sym turn_entries)
