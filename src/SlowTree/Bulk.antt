-- ===== src/SlowTree/Bulk.antt =====
-- Insertions in ascending order into the tree that the constructor of
-- libTupl/src/tupl/pvt/slow/Tree.cpp makes: its leaf is split again and again, always to the right.
use tupl_native.Common.{
  ℕ, suc, ◌+◌, ◌≤◌, ◌≡◌, refl, sym, ◌∙◌, ap, true, none, some, List, [], ◌∷◌, ◌++◌, arith, length,
  append_assoc, append-nil, All, Outcome, ok, Build, Returns, Returns-bind, Returns-mono,
}
use tupl_native.Bytes.{Contents, less}
use tupl_native.SlowNode.{Entry, InternalNode, Ptr, capacity, new_leaf, new_internal}
use tupl_native.SlowNode.Order.{insert_ordered, lookup}
use tupl_native.SlowNode.Size.{total_size}
use tupl_native.SlowTree.{Tree, insert_recursive, new_tree}
use tupl_native.SlowTree.Inorder.{entries_of, nodes_of}
use tupl_native.SlowTree.SearchTree.{Bound}
use tupl_native.SlowTree.Selection.{child_at}
use tupl_native.SlowTree.Sequence.{insert_each}
use tupl_native.SlowTree.Fresh.{made-IsTree, made-NoDup}
use tupl_native.SlowTree.Search.{leaf_for, IsTree-IsSearchable, lookup-leaf_for}
use tupl_native.SlowTree.RightPart.{LikeSized}
use tupl_native.SlowTree.Appending.{Beyond, IsAppendable}
use tupl_native.SlowTree.Ascending.{append_once}

abbrev pub IsAscending : Bound → List (Entry Contents) → Type 0
IsAscending m [] = Unit {0}
IsAscending m (e ∷ es) = Beyond m e.0 × IsAscending (some e.0) es

-- What the splits take in the root, if every entry leads to one.
unfoldable pub split_space : (short : ℕ) → List (Entry Contents) → ℕ
split_space short [] = 0
split_space short (e ∷ es) = short + split_space short es

insert_ordered-behind :
    (key value : Contents) (es : List (Entry Contents))
    → All (λ (e : Entry Contents). less e.0 key ≡ true) es
    → insert_ordered key value es ≡ es ++ (key, value) ∷ []
unfolding insert_ordered
insert_ordered-behind key value [] a = refl
insert_ordered-behind key value (e ∷ es) a = ground (arith, insert_ordered-behind key value es a.1)

-- The entries of the tree with others behind them, each found by the descent.
pub record Appended (t t' : Tree) (p : Ptr) (es : List (Entry Contents)) : Type 0 where
  pub contents : entries_of t'.heap 1 p ≡ entries_of t.heap 1 p ++ es
  pub found : (j : Contents) → lookup j (leaf_for t'.heap j 1 p) ≡ lookup j (entries_of t'.heap 1 p)

module _ (find : InternalNode → Contents → Outcome ℕ)
    (finds : (n : InternalNode) (key : Contents) → find n key ≡ ok (child_at key n.children))
    (build : Build) (size short : ℕ) (few : short ≤ 1024) (most : size + size ≤ 1024) where
  insert_each-Appended :
      (es : List (Entry Contents)) (t : Tree) (p : Ptr) (fuel bytes : ℕ) (m : Bound)
      → IsAppendable t p size short bytes m
      → All (LikeSized size) es
      → All (λ (e : Entry Contents). length e.0 + 8 ≤ short) es
      → IsAscending m es
      → bytes + split_space short es + 1024 ≤ capacity
      → Returns (insert_each find build (suc (suc fuel)) p es t) (λ t'. Appended t t' p es)
  unfolding insert_each split_space
  insert_each-Appended [] t p fuel bytes m is like keys up space = record {
    contents = sym (append-nil (entries_of t.heap 1 p));
    found = λ j. lookup-leaf_for t.heap j 1 none none p is.searchable (tt, tt);
  }
  insert_each-Appended (e ∷ es) t p fuel bytes m is like keys up space =
      Returns-bind (λ t'. Appended t t' p (e ∷ es))
        (insert_recursive find build (suc (suc fuel)) p e.0 e.1 t)
        (insert_each find build (suc (suc fuel)) p es)
        (append_once find finds build is e.0 e.1 up.0 few most like.0 keys.0 (omega arith) fuel)
        (λ t' (is', found).
          Returns-mono (insert_each find build (suc (suc fuel)) p es t')
            (insert_each-Appended es t' p fuel (bytes + short) (some e.0) is' like.1 keys.1 up.1
              (omega arith))
            (λ t'' rest. record {
              contents =
                  rest.contents
                  ∙ ap (λ l. l ++ es)
                      (found.contents
                        ∙ insert_ordered-behind e.0 e.1 (entries_of t.heap 1 p) (is.lower e.0 up.0))
                  ∙ append_assoc (entries_of t.heap 1 p) (e ∷ []) es;
              found = rest.found;
            }))

made-IsAppendable : (size short : ℕ) → IsAppendable new_tree 1 size short 0 none
unfolding new_tree new_leaf new_internal nodes_of entries_of total_size
made-IsAppendable size short = record {
  cur = new_internal 0;
  front = [];
  k = [];
  child = 0;
  here = refl;
  children = refl;
  whole = refl;
  es = [];
  used = 0;
  leaf = refl;
  valid = record { ordered = tt; small = tt; counted = refl; fits = omega arith };
  like = tt;
  keys = tt;
  searchable = IsTree-IsSearchable new_tree.heap 0 1 none none 1 made-IsTree;
  last = λ key b. refl;
  lower = λ key b. tt;
  taken = omega arith;
  once = made-NoDup;
  below_next = λ q h. ground (arith, h);
  fresh = λ q h. ground (arith, h);
}

module _ (find : InternalNode → Contents → Outcome ℕ)
    (finds : (n : InternalNode) (key : Contents) → find n key ≡ ok (child_at key n.children))
    (build : Build) where
  -- A tree that has just been made takes entries in ascending order of their keys, with sizes from one
  -- size of at most 512 bytes up to twice that size, as long as its root has space for as many split
  -- keys as there are entries, over nodes where `find` leads to the child that a key belongs to and
  -- with fuel for more than one level: every insertion from the root on returns, whatever leaves are
  -- split. In the end the leaves hold exactly the entries, in their order, and the leaf that a key
  -- belongs to has for it what the entries have.
  pub insert_each-ascending :
      (size short : ℕ) (es : List (Entry Contents)) (fuel : ℕ)
      → size + size ≤ 1024
      → All (LikeSized size) es
      → All (λ (e : Entry Contents). length e.0 + 8 ≤ short) es
      → IsAscending none es
      → split_space short es + 1024 ≤ capacity
      → short ≤ 1024
      → Returns (insert_each find build (suc (suc fuel)) new_tree.root es new_tree) (λ t'.
        (entries_of t'.heap 1 new_tree.root ≡ es)
        × ((j : Contents) → lookup j (leaf_for t'.heap j 1 new_tree.root) ≡ lookup j es))
  unfolding new_tree new_leaf new_internal entries_of
  insert_each-ascending size short es fuel most like keys up space few =
      Returns-mono (insert_each find build (suc (suc fuel)) 1 es new_tree)
        (insert_each-Appended find finds build size short few most es new_tree 1 fuel 0 none
          (made-IsAppendable size short) like keys up (omega (arith, space)))
        (λ t' done. (done.contents, λ j. done.found j ∙ ap (lookup j) done.contents))
