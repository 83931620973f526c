-- ===== src/SlowTree/NoSpace.antt =====
-- The recursive insertion of libTupl/src/tupl/pvt/slow/Tree.cpp into a leaf that has no space, on every
-- branch.
use tupl_native.Common.{
  ℕ, zero, suc, ◌+◌, ◌<◌, ◌≤◌, ◌^◌, ◌≡◌, ◌≢◌, sym, arith, subst, none, some, List, [], ◌∷◌,
  if◌then◌else◌, ltb, false, is_some, length, get_elem?, Outcome, ok, fail, invalid_argument,
  undefined_behaviour, Build,
}
use tupl_native.Bytes.{Contents}
use tupl_native.SlowNode.{Entry, LeafNode, InternalNode, Ptr, capacity, bytes_value_size}
use tupl_native.SlowNode.Order.{lookup}
use tupl_native.SlowNode.Size.{AllSmall}
use tupl_native.SlowNode.Insert.{IsValid}
use tupl_native.SlowNode.Splitting.{leaf_of, half, cut_leaf, key_at}
use tupl_native.SlowTree.{Tree, leaf_node, internal_node, insert_recursive}
use tupl_native.SlowTree.Growth.{cut_leaf_key, leaf_is_full, leaf_splits}
use tupl_native.SlowTree.Overflow.{after_split, insert_recursive-parts}

key_at_small :
    (es : List (Entry Contents)) (i : ℕ)
    → AllSmall bytes_value_size es
    → length (key_at es i) ≤ 1024
key_at_small [] i a = omega arith
key_at_small (e ∷ es) zero a = omega (arith, a.0)
key_at_small (e ∷ es) (suc i) a = key_at_small es i a.1

module _ (find : InternalNode → Contents → Outcome ℕ) (build : Build) (fuel : ℕ) (p : Ptr)
    (key value : Contents) (t : Tree) (cur : InternalNode) (next_it : ℕ) (k : Contents)
    (child : Ptr) (es : List (Entry Contents)) (used : ℕ) where
  abbrev parts : LeafNode × LeafNode
  parts = cut_leaf key value es t.next

  -- An insertion of a new key, with at most 1024 bytes in the entry, that `find` leads to a leaf
  -- which is valid, not split, and has no space for it. The leaf is to be cut into itself and a new
  -- leaf, the entry in its place. If the split key and the pointer have more than 1024 bytes, the
  -- parent throws; if it has no space for them, there is no defined behaviour; and otherwise the
  -- tree has the two leaves, and the parent an entry for the new one, at the position of the
  -- leaf's own after a split to the left, and behind it after one to the right.
  pub insert_recursive-no_space :
      t.heap p ≡ some (internal_node cur)
      → find cur key ≡ ok next_it
      → get_elem? cur.children next_it ≡ some (k, child)
      → t.heap child ≡ some (leaf_node (leaf_of es used))
      → IsValid bytes_value_size (leaf_of es used)
      → is_some (lookup key es) ≡ false
      → length key + length value ≤ 1024
      → child ≢ p
      → t.heap t.next ≡ none
      → cur.bytes ≤ capacity
      → capacity < used + (length key + length value)
      → insert_recursive find build (suc (suc fuel)) p key value t ≡ (
          if ltb 1024 (length parts.0.split.key + 8)
          then fail (invalid_argument "entry too big")
          else if ltb capacity (cur.bytes + (length parts.0.split.key + 8))
          then fail undefined_behaviour
          else ok (after_split t p cur next_it child parts))
  insert_recursive-no_space here found entry below valid absent small apart fresh fits full =
      insert_recursive-parts find build fuel p key value t cur next_it k child es used here found
        entry below valid (omega (arith, small)) apart fresh
        (leaf_is_full key value es used valid absent small full) parts
        (leaf_splits key value es used valid absent small build t.next full)
        (subst (λ (j : Contents). length j + 8 < 2 ^ 64) (sym (cut_leaf_key key value es t.next))
          (omega (arith, key_at_small es (half es) valid.small)))
        fits
