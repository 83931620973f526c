-- ===== src/SlowTree/Descent.antt =====
-- The recursive insertion of libTupl/src/tupl/pvt/slow/Tree.cpp in a tree of any height, where the
-- way that `find` leads goes to a leaf with space.
use tupl_native.Common.{
  ℕ, zero, suc, ◌+◌, ◌^◌, ◌<◌, ◌≡◌, none, some, arith, ◌==◌, length, get_elem?, Bool-cases, inl,
  inr, Outcome, ok, Build,
}
use tupl_native.Bytes.{Contents}
use tupl_native.SlowNode.{LeafNode, InternalNode, Ptr, inserted, bytes_value_size}
use tupl_native.SlowNode.Insert.{IsValid, insert_spec}
use tupl_native.SlowTree.{
  Tree, AnyNode, Heap, leaf_node, internal_node, store, split_of, insert_recursive,
}
use tupl_native.SlowTree.Insert.{absorb_none, leaf_inserted}

-- A way of a number of steps from a node to a leaf, over entries that `find` leads to. No node that
-- is reached by a step has a split that its parent has not taken.
pub data Leads (find : InternalNode → Contents → Outcome ℕ) (heap : Heap) (key : Contents)
    : ℕ → Ptr → Ptr → Type 0 where
  arrived : {p : Ptr} → Leads find heap key 0 p p
  down :
      {steps : ℕ} {q : Ptr} (p child : Ptr) (cur : InternalNode) (next_it : ℕ) (k : Contents)
      (c : AnyNode)
      → heap p ≡ some (internal_node cur)
      → find cur key ≡ ok next_it
      → get_elem? cur.children next_it ≡ some (k, child)
      → heap child ≡ some c
      → (split_of c).sibling ≡ none
      → Leads find heap key steps child q
      → Leads find heap key (suc steps) p q

module _ (build : Build) (key value : Contents) (t : Tree) (q : Ptr) (n m : LeafNode)
    (valid : IsValid bytes_value_size n) (in_memory : length key + length value < 2 ^ 64)
    (spec : insert_spec key value n ≡ ok (m, inserted)) where
  -- A child on the way is still there and still whole.
  whole_after :
      (child : Ptr) (c : AnyNode)
      → t.heap child ≡ some c
      → (split_of c).sibling ≡ none
      → t.heap q ≡ some (leaf_node n)
      → (c' : AnyNode) × (store t.heap q (leaf_node m) child ≡ some c')
        × ((split_of c').sibling ≡ none)
  whole_after child c here whole leaf = elim (Bool-cases (child == q)) [
    | inl e ↦
        let same = (leaf_inserted build key value t q n m valid in_memory spec).1 in
        (leaf_node m, ground arith, ground arith)
    | inr d ↦ (c, ground arith, whole)
  ]

  module _ (find : InternalNode → Contents → Outcome ℕ) (leaf : t.heap q ≡ some (leaf_node n)) where
    -- Where `find` leads from a node to a valid leaf with space for the new entry, in any number of
    -- steps and over nodes that are not split, the insertion from that node on, with fuel for more
    -- than these steps, stores the leaf with the new entry in place of the leaf, and changes nothing
    -- else.
    pub insert_recursive_lem :
        {steps : ℕ} {p : Ptr} (fuel : ℕ)
        → Leads find t.heap key steps p q
        → steps < fuel
        → insert_recursive find build fuel p key value t
          ≡ ok (record t { heap = store t.heap q (leaf_node m) })
    unfolding insert_recursive
    insert_recursive_lem zero way h = absurd (omega arith)
    insert_recursive_lem (suc fuel) arrived h =
        let run = (leaf_inserted build key value t q n m valid in_memory spec).0 in ground arith
    insert_recursive_lem (suc fuel) (down p child cur next_it k c here found entry below whole way)
          h =
        let rest = insert_recursive_lem fuel way (omega arith) in
        let (c', at, whole') = whole_after child c below whole leaf in
        let absorbed =
          absorb_none build p next_it child (record t { heap = store t.heap q (leaf_node m) }) c' at
            whole' in
        ground arith
