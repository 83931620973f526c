-- ===== src/SlowTree/Recursion.antt =====
-- `Tree::insertRecursive` of libTupl/src/tupl/pvt/slow/Tree.cpp along a way of any length: it returns
-- a tree that holds the entries of the old one and the new entry.
use tupl_native.Common.{
  ℕ, zero, suc, ◌+◌, ◌≤◌, ◌<◌, ◌≡◌, refl, sym, ◌∙◌, ap, subst, false, none, [], ◌∷◌, arith, length,
  get_elem?, has, NoDup, append-nil, lt_or_ge, inl, inr, Outcome, ok, Build, Returns, Returns-ok,
  ◌>>=◌,
}
use tupl_native.Bytes.{Contents}
use tupl_native.SlowNode.{InternalNode, Ptr, capacity}
use tupl_native.SlowNode.Order.{insert_ordered}
use tupl_native.SlowNode.Splitting.{leaf_of, half, cut_leaf}
use tupl_native.SlowTree.{Tree, store, leaf_node, internal_node, absorb_split, insert_recursive}
use tupl_native.SlowTree.Insert.{absorb_none}
use tupl_native.SlowTree.Descent.{arrived, down as step_down, insert_recursive_lem}
use tupl_native.SlowTree.Overflow.{after_split, insert_recursive-split}
use tupl_native.SlowTree.Inorder.{entries_of, nodes_of}
use tupl_native.SlowTree.Ways.{Turn, LeafBelow, Way, bottom, down, get-middle}
use tupl_native.SlowTree.Apart.{turn-Apart, turn_inserted, turn_outside}
use tupl_native.SlowTree.Growth.{
  Inserted, Grown, key_at_short, cut_leaf_key, leaf_accepts, leaf_is_full, leaf_splits, store_leaf,
  store_split, entry_here,
}

-- A step of the way is one of the recursion, with the split of the child to be taken behind it.
pub insert_recursive_turn :
    {find : InternalNode → Contents → Outcome ℕ} {key : Contents} {height : ℕ} {p child : Ptr}
    (build : Build) (fuel : ℕ) (value : Contents) (t : Tree)
    (turn : Turn find t.heap key height p child)
    → insert_recursive find build (suc fuel) p key value t ≡ (
        insert_recursive find build fuel child key value t
        >>= absorb_split build p (length turn.front) child)
unfolding insert_recursive
insert_recursive_turn build fuel value t turn =
    let entry =
      ap (λ l. get_elem? l (length turn.front)) turn.children
      ∙ get-middle turn.front (turn.k, _) turn.back in
    ground (arith, turn.here, turn.found)

module _ (find : InternalNode → Contents → Outcome ℕ) (build : Build) (key value : Contents)
    (t : Tree) (small : length key + length value ≤ 1024) (fresh : t.heap t.next ≡ none) where
  -- What the insertion from the node at `p` on promises.
  abbrev Grows : (fuel height : ℕ) → Ptr → Type 0
  Grows fuel height p =
      Returns (insert_recursive find build fuel p key value t)
        (λ t'. Inserted t t' height p (insert_ordered key value (entries_of t.heap height p)))

  returns :
      (fuel height : ℕ) (p : Ptr) (t' : Tree)
      → insert_recursive find build fuel p key value t ≡ ok t'
      → Grown find build key value t small fresh height p t'
      → Grows fuel height p
  returns fuel height p t' run grown =
      subst
        (λ o.
          Returns o
            (λ t'. Inserted t t' height p (insert_ordered key value (entries_of t.heap height p))))
        (sym run) grown

  module _ (fuel : ℕ) (p child : Ptr) (turn : Turn find t.heap key 0 p child)
      (nd : NoDup (nodes_of t.heap 1 p)) (old : has t.next (nodes_of t.heap 1 p) ≡ false)
      (b : LeafBelow t.heap key child) where
    pub run_split :
        turn.cur.bytes + 1024 ≤ capacity
        → capacity < b.used + (length key + length value)
        → insert_recursive find build (suc (suc fuel)) p key value t
          ≡ ok (after_split t p turn.cur (length turn.front) child (cut_leaf key value b.es t.next))
    unfolding nodes_of
    run_split room full =
        let short : length (cut_leaf key value b.es t.next).0.split.key + 8 ≤ 1024 =
          subst (λ (k : Contents). length k + 8 ≤ 1024) (sym (cut_leaf_key key value b.es t.next))
            (key_at_short b.es (half b.es) b.short) in
        let apart = turn-Apart turn t.next nd old in
        insert_recursive-split find build fuel p key value t turn.cur (length turn.front) turn.k
          child b.es b.used turn.here turn.found
          (entry_here find build key value t small fresh p child turn nd old b) b.leaf b.valid
          (omega (arith, small)) (λ e. absurd (ground (arith, e, apart.top))) fresh
          (leaf_is_full key value b.es b.used b.valid b.absent small full)
          (cut_leaf key value b.es t.next)
          (leaf_splits key value b.es b.used b.valid b.absent small build t.next full) short
          (omega (arith, short, room))

    pub run_in_leaf :
        b.used + (length key + length value) ≤ capacity
        → insert_recursive find build (suc (suc fuel)) p key value t
          ≡ ok (record t {
            heap = store t.heap child (
                leaf_node
                  (leaf_of (insert_ordered key value b.es) (b.used + (length key + length value))));
          })
    run_in_leaf space =
        insert_recursive_lem build key value t child (leaf_of b.es b.used)
          (leaf_of (insert_ordered key value b.es) (b.used + (length key + length value))) b.valid
          (omega (arith, small)) (leaf_accepts key value b.es b.used b.valid b.absent small space)
          find b.leaf (suc (suc fuel))
          (step_down p child turn.cur (length turn.front) turn.k (leaf_node (leaf_of b.es b.used))
            turn.here turn.found
            (entry_here find build key value t small fresh p child turn nd old b) b.leaf refl
            arrived)
          (omega arith)

    Grows-bottom : turn.cur.bytes + 1024 ≤ capacity → Grows (suc (suc fuel)) 1 p
    Grows-bottom room = elim (lt_or_ge capacity (b.used + (length key + length value))) [
      | inl full ↦
          returns (suc (suc fuel)) 1 p
            (after_split t p turn.cur (length turn.front) child (cut_leaf key value b.es t.next))
            (run_split room full)
            (store_split find build key value t small fresh p child turn nd old b room full)
      | inr space ↦
          let m = leaf_of (insert_ordered key value b.es) (b.used + (length key + length value)) in
          returns (suc (suc fuel)) 1 p (record t { heap = store t.heap child (leaf_node m) })
            (run_in_leaf space)
            (store_leaf find build key value t small fresh p child turn nd old b m refl)
    ]

  module _ (levels : ℕ) (p child : Ptr) (turn : Turn find t.heap key (suc levels) p child)
      (nd : NoDup (nodes_of t.heap (suc (suc levels)) p))
      (old : has t.next (nodes_of t.heap (suc (suc levels)) p) ≡ false) where
    Grown-step :
        (t' : Tree)
        → Grown find build key value t small fresh (suc levels) child t'
        → Grown find build key value t small fresh (suc (suc levels)) p t'
    Grown-step t' below =
        let apart = turn-Apart turn t.next nd old in
        let here = below.same p apart.top apart.top_old ∙ turn.here in
        record {
          top = turn.cur;
          at = here;
          whole = turn.whole;
          contents =
              turn_inserted turn value t'.heap turn.cur ((turn.k, child) ∷ []) here turn.children
                (λ q h. below.same q (apart.front_out q h).0 (apart.front_out q h).1)
                (λ q h. below.same q (apart.back_out q h).0 (apart.back_out q h).1)
                (append-nil _ ∙ below.contents);
          same = λ q out new. below.same q (turn_outside turn q out).0 new;
        }

    Grows-step : (fuel : ℕ) → Grows fuel (suc levels) child → Grows (suc fuel) (suc (suc levels)) p
    Grows-step fuel ih =
        let (t', run, below) = Returns-ok (insert_recursive find build fuel child key value t) ih in
        let absorbed =
          absorb_none build p (length turn.front) child t' (internal_node below.top) below.at
            below.whole in
        returns (suc fuel) (suc (suc levels)) p t'
          (insert_recursive_turn build fuel value t turn
            ∙ ap (λ o. o >>= absorb_split build p (length turn.front) child) run
            ∙ absorbed)
          (Grown-step t' below)

  -- If `find` leads from a node over nodes whose splits are taken, always to the child between the
  -- entries less than the key and the others, to a valid leaf without the key, with keys of at most
  -- 1016 bytes and under a parent with 1024 bytes of space, and if no node occurs twice in the tree
  -- and the next address is free, then with fuel for more than the height the insertion of an entry
  -- of at most 1024 bytes returns, whether the leaf has space or is split. The entries of the tree
  -- at that node are then those that an insertion by a scan gives, the node is not split, and every
  -- node outside but the new one is as before.
  pub insert_recursive-Inserted :
      {levels : ℕ} {p : Ptr} (fuel : ℕ)
      → Way find t.heap key levels p
      → NoDup (nodes_of t.heap (suc levels) p)
      → has t.next (nodes_of t.heap (suc levels) p) ≡ false
      → suc levels < fuel
      → Returns (insert_recursive find build fuel p key value t) (λ t'.
        Inserted t t' (suc levels) p (insert_ordered key value (entries_of t.heap (suc levels) p)))
  insert_recursive-Inserted zero way nd old h = absurd (omega arith)
  insert_recursive-Inserted (suc zero) way nd old h = absurd (omega arith)
  insert_recursive-Inserted {p = p} (suc (suc fuel)) (bottom child turn room b) nd old h =
      Grows-bottom fuel p child turn nd old b room
  insert_recursive-Inserted {levels = suc levels} {p = p} (suc fuel) (down child turn way) nd old
        h =
      let apart = turn-Apart turn t.next nd old in
      Grows-step levels p child turn nd old fuel
        (insert_recursive-Inserted fuel way apart.mid_once apart.mid_old (omega arith))
