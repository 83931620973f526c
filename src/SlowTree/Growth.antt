-- ===== src/SlowTree/Growth.antt =====
-- The recursive insertion of libTupl/src/tupl/pvt/slow/Tree.cpp in a tree of any height as an
-- insertion into an ordered map, whether the leaf has space or is split.
use tupl_native.Common.{
  ℕ, zero, suc, ◌+◌, ◌≤◌, ◌<◌, ◌≡◌, ◌≢◌, sym, ◌∙◌, ap, subst, false, none, some, List, [], ◌∷◌,
  ◌++◌, arith, length, get_elem?, has, NoDup, All, append-nil, Outcome, ok, Build, is_some,
}
use tupl_native.Bytes.{Contents}
use tupl_native.SlowNode.{
  Entry, LeafNode, InternalNode, Ptr, Split, left, right, SiblingDirection, inserted,
  failed_no_space, capacity, bytes_value_size, new_leaf, emplace,
}
use tupl_native.SlowNode.Ops.{insert_leaf, split_and_insert_leaf}
use tupl_native.SlowNode.Order.{insert_ordered, lookup}
use tupl_native.SlowNode.Size.{total_size-le}
use tupl_native.SlowNode.Insert.{IsValid, insert_spec, insert_leaf-insert_spec}
use tupl_native.SlowNode.Splitting.{
  leaf_of, half, key_at, cut_leaf, split_spec, split_and_insert-split_spec,
}
use tupl_native.SlowNode.Halves.{left_entries, right_entries, split_entries}
use tupl_native.SlowTree.{Tree, Heap, leaf_node, internal_node, store}
use tupl_native.SlowTree.Insert.{with_entry}
use tupl_native.SlowTree.Overflow.{after_split}
use tupl_native.SlowTree.Inorder.{flat, entries_of, nodes_of, entries_of_leaf}
use tupl_native.SlowTree.Ways.{Turn, LeafBelow, get-middle, pair_of, emplace-pair_of}
use tupl_native.SlowTree.Apart.{turn-Apart, turn_inserted, turn_outside}

-- What an insertion into the tree at `p` has done: the root of it is an internal node that is not
-- split, the entries are those given, and no node outside has changed, but for the new one.
pub record Inserted (t t' : Tree) (height : ℕ) (p : Ptr) (es : List (Entry Contents)) : Type 0 where
  pub top : InternalNode
  pub at : t'.heap p ≡ some (internal_node top)
  pub whole : top.split.sibling ≡ none
  pub contents : entries_of t'.heap height p ≡ es
  pub same :
      (q : Ptr) → has q (nodes_of t.heap height p) ≡ false → q ≢ t.next → t'.heap q ≡ t.heap q

pub key_at_short :
    (es : List (Entry Contents)) (i : ℕ)
    → All (λ (e : Entry Contents). length e.0 + 8 ≤ 1024) es
    → length (key_at es i) + 8 ≤ 1024
key_at_short [] i a = omega arith
key_at_short (e ∷ es) zero a = a.0
key_at_short (e ∷ es) (suc i) a = key_at_short es i a.1

pub cut_leaf_key :
    (key value : Contents) (es : List (Entry Contents)) (address : Ptr)
    → (cut_leaf key value es address).0.split.key ≡ key_at es (half es)
unfolding cut_leaf
cut_leaf_key key value es address = ground arith

-- The children of a parent that has taken a split of the child on the way.
pub with_entry-children :
    {find : InternalNode → Contents → Outcome ℕ} {heap : Heap} {key : Contents} {height : ℕ}
    {p child : Ptr} (turn : Turn find heap key height p child) (split : Split) (new : Ptr)
    → (with_entry turn.cur (length turn.front) split new).children
      ≡ turn.front ++ (pair_of split.direction (split.key, new) (turn.k, child) ++ turn.back)
with_entry-children {child = child} turn split new =
    ap
      (λ l.
        emplace l
          (elim split.direction [ left ↦ length turn.front | right ↦ suc (length turn.front) ])
          (split.key, new))
      turn.children
    ∙ emplace-pair_of split.direction turn.front (turn.k, child) (split.key, new) turn.back

-- The two leaves of a split, in the order in which their parent has them.
flat-pair_of :
    (heap : Heap) (r : LeafNode × LeafNode) (k k' : Contents) (old new : Ptr)
    → heap old ≡ some (leaf_node r.0)
    → heap new ≡ some (leaf_node r.1)
    → flat (entries_of heap 0) (pair_of r.0.split.direction (k, new) (k', old))
      ≡ left_entries r ++ right_entries r
flat-pair_of heap r k k' old new at_old at_new = go r.0.split.direction
  where
    o : entries_of heap 0 old ≡ r.0.children
    o = entries_of_leaf heap old (leaf_node r.0) at_old

    n : entries_of heap 0 new ≡ r.1.children
    n = entries_of_leaf heap new (leaf_node r.1) at_new

    go :
        (direction : SiblingDirection)
        → flat (entries_of heap 0) (pair_of direction (k, new) (k', old))
          ≡ elim direction [ left ↦ r.1.children | right ↦ r.0.children ]
            ++ elim direction [ left ↦ r.0.children | right ↦ r.1.children ]
    go left = rw (o, n, append-nil r.0.children)
    go right = rw (o, n, append-nil r.1.children)

module _ (key value : Contents) (es : List (Entry Contents)) (used : ℕ)
    (valid : IsValid bytes_value_size (leaf_of es used)) (absent : is_some (lookup key es) ≡ false)
    (small : length key + length value ≤ 1024) where
  pub leaf_accepts :
      used + (length key + length value) ≤ capacity
      → insert_spec key value (leaf_of es used)
        ≡ ok (leaf_of (insert_ordered key value es) (used + (length key + length value)), inserted)
  unfolding insert_spec
  leaf_accepts space = ground arith

  pub leaf_is_full :
      capacity < used + (length key + length value)
      → insert_leaf key value (leaf_of es used) ≡ ok (leaf_of es used, failed_no_space)
  unfolding insert_spec
  leaf_is_full full =
      insert_leaf-insert_spec key value (leaf_of es used) valid (omega arith) ∙ ground arith

  pub leaf_splits :
      (build : Build) (address : Ptr)
      → capacity < used + (length key + length value)
      → split_and_insert_leaf build key value (leaf_of es used) address new_leaf
        ≡ ok (cut_leaf key value es address)
  unfolding split_spec
  leaf_splits build address full =
      let many = total_size-le bytes_value_size es valid.small in
      split_and_insert-split_spec build key value es used address valid (omega arith)
      ∙ ground (arith, valid.counted)

module _ (find : InternalNode → Contents → Outcome ℕ) (build : Build) (key value : Contents)
    (t : Tree) (small : length key + length value ≤ 1024) (fresh : t.heap t.next ≡ none) where
  abbrev pub Grown : ℕ → Ptr → Tree → Type 0
  Grown height p t' = Inserted t t' height p (insert_ordered key value (entries_of t.heap height p))

  module _ (p child : Ptr) (turn : Turn find t.heap key 0 p child)
      (nd : NoDup (nodes_of t.heap 1 p)) (old : has t.next (nodes_of t.heap 1 p) ≡ false)
      (b : LeafBelow t.heap key child) where
    pub entry_here : get_elem? turn.cur.children (length turn.front) ≡ some (turn.k, child)
    entry_here =
        ap (λ l. get_elem? l (length turn.front)) turn.children
        ∙ get-middle turn.front (turn.k, child) turn.back

    pub store_leaf :
        (m : LeafNode)
        → m.children ≡ insert_ordered key value b.es
        → Grown 1 p (record t { heap = store t.heap child (leaf_node m) })
    unfolding nodes_of
    store_leaf m grown =
        let apart = turn-Apart turn t.next nd old in
        let leaf = entries_of_leaf t.heap child (leaf_node (leaf_of b.es b.used)) b.leaf in
        record {
          top = turn.cur;
          at = ground (arith, turn.here, apart.top);
          whole = turn.whole;
          contents =
              turn_inserted turn value (store t.heap child (leaf_node m)) turn.cur
                ((turn.k, child) ∷ []) (ground (arith, turn.here, apart.top)) turn.children
                (λ q h. ground (arith, apart.front_out q h))
                (λ q h. ground (arith, apart.back_out q h))
                (append-nil _
                  ∙ entries_of_leaf (store t.heap child (leaf_node m)) child (leaf_node m)
                      (ground arith)
                  ∙ grown
                  ∙ ap (insert_ordered key value) (sym leaf));
          same = λ q out new. ground (arith, turn_outside turn q out);
        }

    pub store_split :
        turn.cur.bytes + 1024 ≤ capacity
        → capacity < b.used + (length key + length value)
        → Grown 1 p
            (after_split t p turn.cur (length turn.front) child (cut_leaf key value b.es t.next))
    unfolding nodes_of
    store_split room full =
        let r : LeafNode × LeafNode = cut_leaf key value b.es t.next in
        let apart = turn-Apart turn t.next nd old in
        let heap' = (after_split t p turn.cur (length turn.front) child r).heap in
        let leaf = entries_of_leaf t.heap child (leaf_node (leaf_of b.es b.used)) b.leaf in
        let ne_leaf : t.next ≢ child = λ e. cc (b.leaf, subst (λ a. t.heap a ≡ none) e fresh) in
        let joined =
          (split_entries build key value b.es b.used t.next b.valid (omega arith) r
            (leaf_splits key value b.es b.used b.valid b.absent small build t.next full)).0 in
        record {
          top = with_entry turn.cur (length turn.front) r.0.split t.next;
          at = ground arith;
          whole = turn.whole;
          contents =
              turn_inserted turn value heap'
                (with_entry turn.cur (length turn.front) r.0.split t.next)
                (pair_of r.0.split.direction (r.0.split.key, t.next) (turn.k, child)) (ground arith)
                (with_entry-children turn r.0.split t.next)
                (λ q h. ground (arith, apart.front_out q h))
                (λ q h. ground (arith, apart.back_out q h))
                (flat-pair_of heap' r r.0.split.key turn.k child t.next (ground arith)
                    (ground (arith, ne_leaf))
                  ∙ joined
                  ∙ ap (insert_ordered key value) (sym leaf));
          same = λ q out new. ground (arith, turn_outside turn q out);
        }
