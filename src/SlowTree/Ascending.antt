-- ===== src/SlowTree/Ascending.antt =====
-- `Tree::insertRecursive` of libTupl/src/tupl/pvt/slow/Tree.cpp with a key behind all others.
use tupl_native.Common.{
  ℕ, suc, ◌+◌, ◌≤◌, ◌≡◌, sym, subst, false, none, some, arith, length, has, lt_or_ge, inl, inr,
  Outcome, ok, Build, Returns,
}
use tupl_native.Bytes.{Contents}
use tupl_native.SlowNode.{InternalNode, Ptr, capacity}
use tupl_native.SlowTree.{Tree, insert_recursive}
use tupl_native.SlowTree.Inorder.{nodes_of}
use tupl_native.SlowTree.Ways.{Turn, LeafBelow, bottom}
use tupl_native.SlowTree.Recursion.{run_split, run_in_leaf}
use tupl_native.SlowTree.SearchTree.{Bound}
use tupl_native.SlowTree.Selection.{child_at}
use tupl_native.SlowTree.SearchInsert.{Found, insert_recursive-Found}
use tupl_native.SlowTree.RightPart.{LikeSized}
use tupl_native.SlowTree.Appending.{
  Beyond, IsAppendable, append_turn, append_leaf, append-old, append-GoesWell,
}
use tupl_native.SlowTree.AppendKept.{kept-IsAppendable}
use tupl_native.SlowTree.AppendSplit.{split-IsAppendable}

module _ (find : InternalNode → Contents → Outcome ℕ)
    (finds : (n : InternalNode) (key : Contents) → find n key ≡ ok (child_at key n.children))
    (build : Build) {t : Tree} {p : Ptr} {size short bytes : ℕ} {m : Bound}
    (is : IsAppendable t p size short bytes m) (key value : Contents) (beyond : Beyond m key)
    (few : short ≤ 1024) (most : size + size ≤ 1024) (like_new : LikeSized size (key, value))
    (key_short : length key + 8 ≤ short) (space : bytes + 1024 ≤ capacity) where
  small : length key + length value ≤ 1024
  small = omega (arith, like_new, most)

  next_free : t.heap t.next ≡ none
  next_free = is.fresh t.next (omega arith)

  abbrev way : Turn find t.heap key 0 p is.child
  way = append_turn find finds is key value beyond few

  abbrev b : LeafBelow t.heap key is.child
  b = append_leaf find finds is key value beyond few

  old : has t.next (nodes_of t.heap 1 p) ≡ false
  old = append-old find finds is key value beyond few

  -- An entry behind all others goes in, whether the last leaf is split or not, and leaves a tree to
  -- which entries can be appended.
  pub append_once :
      (fuel : ℕ)
      → Returns (insert_recursive find build (suc (suc fuel)) p key value t) (λ t'.
        IsAppendable t' p size short (bytes + short) (some key)
        × Found t t' key value 1 none none p)
  append_once fuel =
      let room : is.cur.bytes + 1024 ≤ capacity = omega (arith, is.taken, space) in
      let found =
        insert_recursive-Found find finds build key value t small next_free (suc (suc fuel)) none
          none (bottom is.child way room b) is.searchable (tt, tt) is.once old
          (append-GoesWell find finds is key value beyond few small) (omega arith) in
      elim (lt_or_ge capacity (is.used + (length key + length value))) [
        | inl full ↦
            let run =
              run_split find build key value t small next_free fuel p is.child way is.once old b
                room full in
            let found' =
              subst (λ o. Returns o (λ t'. Found t t' key value 1 none none p)) run found in
            subst
              (λ o. Returns o (λ t'.
                IsAppendable t' p size short (bytes + short) (some key)
                × Found t t' key value 1 none none p))
              (sym run)
              (
                split-IsAppendable find finds build is key value beyond few most like_new key_short
                    space full found',
                found',
              )
        | inr fits ↦
            let run =
              run_in_leaf find build key value t small next_free fuel p is.child way is.once old b
                fits in
            let found' =
              subst (λ o. Returns o (λ t'. Found t t' key value 1 none none p)) run found in
            subst
              (λ o. Returns o (λ t'.
                IsAppendable t' p size short (bytes + short) (some key)
                × Found t t' key value 1 none none p))
              (sym run)
              (
                kept-IsAppendable find finds build is key value beyond few most like_new key_short
                    space fits found',
                found',
              )
      ]
