-- ===== src/SlowTree/SearchInsert.antt =====
-- `Tree::insertRecursive` of libTupl/src/tupl/pvt/slow/Tree.cpp and the next descent: what is found
-- after an insertion that splits no leaf, or one to the right.
use tupl_native.Common.{
  ℕ, zero, suc, ◌+◌, ◌≤◌, ◌<◌, ◌≡◌, refl, sym, ◌∙◌, ap, subst, false, none, some, List, [], arith,
  length, get_elem?, has, NoDup, is_some, inl, inr, lt_or_ge, Outcome, ok, Build, Returns,
  Returns-ok, ◌>>=◌, if◌then◌else◌,
}
use tupl_native.Bytes.{Contents, key_equals}
use tupl_native.SlowNode.{Entry, InternalNode, Ptr, capacity}
use tupl_native.SlowNode.Order.{insert_ordered, lookup, lookup-insert_ordered, position_of}
use tupl_native.SlowNode.Splitting.{leaf_of, leaf_size, half}
use tupl_native.SlowTree.{Tree, Heap, leaf_node, internal_node, absorb_split, insert_recursive}
use tupl_native.SlowTree.Insert.{absorb_none}
use tupl_native.SlowTree.Inorder.{entries_of, nodes_of}
use tupl_native.SlowTree.Ways.{Turn, LeafBelow, Way, bottom, down, get-middle}
use tupl_native.SlowTree.Apart.{turn-Apart}
use tupl_native.SlowTree.Recursion.{
  insert_recursive-Inserted, insert_recursive_turn, run_split, run_in_leaf,
}
use tupl_native.SlowTree.SearchTree.{Bound, Inside, IsTree}
use tupl_native.SlowTree.Selection.{child_at}
use tupl_native.SlowTree.Turning.{AllRoom, AllShort, turn, IsTree-Way}
use tupl_native.SlowTree.Search.{
  IsSearchable, IsTree-IsSearchable, lookup-leaf_for, leaf_for, leaf_for_leaf, leaf_for_child,
}
use tupl_native.SlowTree.Opened.{open_at}
use tupl_native.SlowTree.SearchSplit.{GoesWell, kept-IsSearchable, split-IsSearchable}

-- What an insertion leaves for a descent to find: each leaf that a key belongs to has the new value for
-- the new key, and for every other key what the descent found before.
pub record Found (t t' : Tree) (key value : Contents) (height : ℕ) (low high : Bound) (p : Ptr)
    : Type 0 where
  pub searchable : IsSearchable t'.heap height low high p
  pub contents : entries_of t'.heap height p ≡ insert_ordered key value (entries_of t.heap height p)
  pub found :
      (j : Contents)
      → Inside low high j
      → lookup j (leaf_for t'.heap j height p)
        ≡ (if key_equals j key then some value else lookup j (leaf_for t.heap j height p))

goes_behind :
    (key value : Contents) (es : List (Entry Contents))
    → capacity < leaf_size es + (length key + length value)
    → GoesWell key value es
    → half es < position_of key es
goes_behind key value es full (inl space) = absurd (omega (arith, space, full))
goes_behind key value es full (inr behind) = behind

module _ (find : InternalNode → Contents → Outcome ℕ)
    (finds : (n : InternalNode) (key : Contents) → find n key ≡ ok (child_at key n.children)) where
  pub leaf_for_turn :
      {heap : Heap} {key : Contents} {height : ℕ} {p child : Ptr}
      (turn : Turn find heap key height p child)
      → leaf_for heap key (suc height) p ≡ leaf_for heap key height child
  leaf_for_turn {heap} {key} {height} {p} {child} turn =
      let at : child_at key turn.cur.children ≡ length turn.front =
        cc (finds turn.cur key, turn.found) in
      leaf_for_child heap key height p turn.cur (turn.k, child) turn.here
        (ap (λ i. get_elem? turn.cur.children i) at
          ∙ ap (λ l. get_elem? l (length turn.front)) turn.children
          ∙ get-middle turn.front (turn.k, child) turn.back)

  module _ (build : Build) (key value : Contents) (t : Tree)
      (small : length key + length value ≤ 1024) (fresh : t.heap t.next ≡ none) where
    abbrev StaysSearchable : (fuel height : ℕ) (low high : Bound) → Ptr → Type 0
    StaysSearchable fuel height low high p =
        Returns (insert_recursive find build fuel p key value t)
          (λ t'. IsSearchable t'.heap height low high p)

    stays :
        (fuel height : ℕ) (low high : Bound) (p : Ptr) (t' : Tree)
        → insert_recursive find build fuel p key value t ≡ ok t'
        → IsSearchable t'.heap height low high p
        → StaysSearchable fuel height low high p
    stays fuel height low high p t' run s =
        subst (λ o. Returns o (λ t'. IsSearchable t'.heap height low high p)) (sym run) s

    module _ (fuel : ℕ) (low high : Bound) (p child : Ptr) (way : Turn find t.heap key 0 p child)
        (is : IsSearchable t.heap 1 low high p) (inside : Inside low high key)
        (b : LeafBelow t.heap key child) (nd : NoDup (nodes_of t.heap 1 p))
        (old : has t.next (nodes_of t.heap 1 p) ≡ false) where
      bottom-IsSearchable :
          way.cur.bytes + 1024 ≤ capacity
          → GoesWell key value b.es
          → StaysSearchable (suc (suc fuel)) 1 low high p
      bottom-IsSearchable room goes =
          elim (lt_or_ge capacity (b.used + (length key + length value))) [
            | inl full ↦
                stays (suc (suc fuel)) 1 low high p _
                  (run_split find build key value t small fresh fuel p child way nd old b room full)
                  (split-IsSearchable find finds key value t small fresh low high p child way is
                    inside b nd old full
                    (goes_behind key value b.es
                      (subst (λ n. capacity < n + (length key + length value)) b.valid.counted full)
                      goes))
            | inr space ↦
                stays (suc (suc fuel)) 1 low high p _
                  (run_in_leaf find build key value t small fresh fuel p child way nd old b space)
                  (kept-IsSearchable find finds key value t small fresh low high p child way is
                    inside b nd old
                    (leaf_of (insert_ordered key value b.es) (b.used + (length key + length value)))
                    refl)
          ]

    -- An insertion along a way keeps a tree searchable, also one with records of earlier splits off
    -- the way, if it splits no leaf to the left.
    insert_recursive-IsSearchable :
        {levels : ℕ} {p : Ptr} (fuel : ℕ) (low high : Bound)
        → Way find t.heap key levels p
        → IsSearchable t.heap (suc levels) low high p
        → Inside low high key
        → NoDup (nodes_of t.heap (suc levels) p)
        → has t.next (nodes_of t.heap (suc levels) p) ≡ false
        → GoesWell key value (leaf_for t.heap key (suc levels) p)
        → suc levels < fuel
        → StaysSearchable fuel (suc levels) low high p
    insert_recursive-IsSearchable zero low high way is inside nd old goes h = absurd (omega arith)
    insert_recursive-IsSearchable (suc zero) low high way is inside nd old goes h =
        absurd (omega arith)
    insert_recursive-IsSearchable {p = p} (suc (suc fuel)) low high (bottom child way room b) is
          inside nd old goes h =
        bottom-IsSearchable fuel low high p child way is inside b nd old room (
          subst (GoesWell key value)
            (leaf_for_turn way
              ∙ leaf_for_leaf t.heap key child (leaf_node (leaf_of b.es b.used)) b.leaf)
            goes)
    insert_recursive-IsSearchable {levels = suc levels} {p = p} (suc (suc fuel)) low high
          (down child way below) is inside nd old goes h =
        let opened = open_at find finds low high way is inside in
        let apart = turn-Apart way t.next nd old in
        let (t', run, grown) =
          Returns-ok (insert_recursive find build (suc fuel) child key value t) (
            insert_recursive-Inserted find build key value t small fresh (suc fuel) below
              apart.mid_once apart.mid_old (omega arith)) in
        let searchable =
          subst
            (λ o.
              Returns o
                (λ t'. IsSearchable t'.heap (suc levels) opened.low_here opened.high_here child))
            run
            (insert_recursive-IsSearchable (suc fuel) opened.low_here opened.high_here below
              opened.sub opened.inside apart.mid_once apart.mid_old
              (subst (GoesWell key value) (leaf_for_turn way) goes) (omega arith)) in
        stays (suc (suc fuel)) (suc (suc levels)) low high p t'
          (insert_recursive_turn build (suc fuel) value t way
            ∙ ap (λ o. o >>= absorb_split build p (length way.front) child) run
            ∙ absorb_none build p (length way.front) child t' (internal_node grown.top) grown.at
                grown.whole)
          (opened.rebuild t'.heap way.cur [] (grown.same p apart.top apart.top_old ∙ way.here)
            way.children (λ q h. grown.same q (apart.front_out q h).0 (apart.front_out q h).1)
            (λ q h. grown.same q (apart.back_out q h).0 (apart.back_out q h).1) searchable)

    -- The same, with what the tree holds then and what a descent finds.
    pub insert_recursive-Found :
        {levels : ℕ} {p : Ptr} (fuel : ℕ) (low high : Bound)
        → Way find t.heap key levels p
        → IsSearchable t.heap (suc levels) low high p
        → Inside low high key
        → NoDup (nodes_of t.heap (suc levels) p)
        → has t.next (nodes_of t.heap (suc levels) p) ≡ false
        → GoesWell key value (leaf_for t.heap key (suc levels) p)
        → suc levels < fuel
        → Returns
            (insert_recursive find build fuel p key value t)
            (λ t'. Found t t' key value (suc levels) low high p)
    insert_recursive-Found {levels} {p} fuel low high way is inside nd old goes h =
        let (t', run, grown) =
          Returns-ok (insert_recursive find build fuel p key value t)
            (insert_recursive-Inserted find build key value t small fresh fuel way nd old h) in
        let searchable =
          subst (λ o. Returns o (λ t'. IsSearchable t'.heap (suc levels) low high p)) run
            (insert_recursive-IsSearchable fuel low high way is inside nd old goes h) in
        subst (λ o. Returns o (λ t'. Found t t' key value (suc levels) low high p)) (sym run)
          (record {
            searchable = searchable;
            contents = grown.contents;
            found = λ j in_bounds.
                lookup-leaf_for t'.heap j (suc levels) low high p searchable in_bounds
                ∙ ap (lookup j) grown.contents
                ∙ lookup-insert_ordered j key value (entries_of t.heap (suc levels) p)
                ∙ ap (λ o. if key_equals j key then some value else o)
                    (sym (lookup-leaf_for t.heap j (suc levels) low high p is in_bounds));
          })

  -- If a search tree of at least two levels has space in its internal nodes and no key longer than
  -- 1016 bytes, repeats no node, and the next address is free, if the key is in the bounds of the
  -- tree and not in the tree, and if the leaf that it belongs to has space or the key goes behind
  -- the position where the leaf is to be split, then the insertion of an entry of at most 1024
  -- bytes, over nodes where `find` leads to the child that a key belongs to and with fuel for more
  -- than the height, returns, whether the leaf is split or not. The tree is searchable again: the
  -- leaf that any key in the bounds then belongs to has the new value for the new key, and for every
  -- other key what the tree had.
  pub insert_recursive-leaf_for :
      (build : Build) (key value : Contents) (t : Tree) (limit fuel levels : ℕ) (low high : Bound)
      (p : Ptr)
      → length key + length value ≤ 1024
      → t.heap t.next ≡ none
      → IsTree t.heap limit (suc levels) low high p
      → Inside low high key
      → is_some (lookup key (entries_of t.heap (suc levels) p)) ≡ false
      → AllRoom t.heap (nodes_of t.heap (suc levels) p)
      → AllShort t.heap (nodes_of t.heap (suc levels) p)
      → NoDup (nodes_of t.heap (suc levels) p)
      → has t.next (nodes_of t.heap (suc levels) p) ≡ false
      → GoesWell key value (leaf_for t.heap key (suc levels) p)
      → suc levels < fuel
      → Returns
          (insert_recursive find build fuel p key value t)
          (λ t'. Found t t' key value (suc levels) low high p)
  insert_recursive-leaf_for build key value t limit fuel levels low high p small fresh is inside
        absent room short nd old goes h =
      insert_recursive-Found build key value t small fresh fuel low high
        (IsTree-Way find finds t.heap key limit levels low high p is inside absent room short)
        (IsTree-IsSearchable t.heap limit (suc levels) low high p is) inside nd old goes h
