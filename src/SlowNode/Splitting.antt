-- ===== src/SlowNode/Splitting.antt =====
-- `LeafNode::splitAndInsert` of libTupl/src/tupl/pvt/slow/Node.cpp against a specification that
-- inserts the entry by a scan and cuts the list of entries in two.
use tupl_native.Common.{
  ℕ, suc, ◌+◌, ◌/◌, ◌^◌, ◌≤◌, ◌<◌, ◌≡◌, List, [], arith, length, take, drop, get_elem?, none, some,
  get_elem?_lt, is_some, Bool-cases, inl, inr, ltb, ltb→lt, ltb→le, Outcome, ok, fail,
  invalid_argument, domain_error, Build, assert_true, if◌then◌else◌,
}
use tupl_native.Bytes.{Contents}
use tupl_native.SlowNode.{
  Entry, LeafNode, Ptr, leaf, left, right, split_key_at, no_split, capacity, SiblingDirection,
  bytes_value_size, new_leaf, Split,
}
use tupl_native.SlowNode.Ops.{split_at, split_and_insert, split_and_insert_leaf}
use tupl_native.SlowNode.Order.{
  position_of, position_of-le, insert_ordered, lookup, lower_bound_key_lem, key_found-lookup,
  emplace-position_of,
}
use tupl_native.SlowNode.Size.{
  total_size, bytes_used_lem, total_size-take-drop, total_size-insert_ordered,
}
use tupl_native.SlowNode.Insert.{IsValid}
use tupl_native.SlowNode.Cut.{cut-left, cut-right}

-- A leaf that is not split.
abbrev pub leaf_of : List (Entry Contents) → ℕ → LeafNode
leaf_of es used = record { node_type = leaf; children = es; bytes = used; split = no_split }

abbrev pub recorded : Ptr → SiblingDirection → Contents → Split
recorded address direction key = record { sibling = some address; direction = direction; key = key }

abbrev pub key_at : List (Entry Contents) → ℕ → Contents
key_at es i = elim (get_elem? es i) [ none ↦ [] | some e ↦ e.0 ]

abbrev pub leaf_size : List (Entry Contents) → ℕ
leaf_size = total_size bytes_value_size

-- The position at which a node of that many entries is split.
abbrev pub half : List (Entry Contents) → ℕ
half es = (length es + 1) / 2

-- A leaf with the new entry, cut in two. The part that takes the new entry is the sibling.
unfoldable pub cut_leaf : Contents → Contents → List (Entry Contents) → Ptr → LeafNode × LeafNode
cut_leaf key value es address =
    let whole = insert_ordered key value es in
    if ltb (position_of key es) (half es)
    then (
      record {
        node_type = leaf;
        children = drop (suc (half es)) whole;
        bytes = leaf_size (drop (suc (half es)) whole);
        split = recorded address left (key_at es (half es));
      },
      leaf_of (take (suc (half es)) whole) (leaf_size (take (suc (half es)) whole)),
    )
    else (
      record {
        node_type = leaf;
        children = take (half es) whole;
        bytes = leaf_size (take (half es) whole);
        split = recorded address right (key_at es (half es));
      },
      leaf_of (drop (half es) whole) (leaf_size (drop (half es) whole)),
    )

-- What `splitAndInsert` of a leaf is to do, on every branch.
unfoldable pub split_spec : Contents → Contents → LeafNode → Ptr → Outcome (LeafNode × LeafNode)
split_spec key value n address =
    if ltb 1024 (length key + length value)
    then fail (invalid_argument "entry too big")
    else if ltb (n.bytes + (length key + length value)) capacity
    then fail (domain_error "split is not required")
    else if ltb (length n.children) 3
    then fail (domain_error "split is not required")
    else if is_some (lookup key n.children)
    then fail (invalid_argument "duplicate key not allowed")
    else ok (cut_leaf key value n.children address)

split_key_at_lem :
    (es : List (Entry Contents)) (i : ℕ)
    → i < length es
    → split_key_at leaf es i ≡ ok (key_at es i, es)
split_key_at_lem es i h = let (e, q) = get_elem?_lt es i h in ground arith

-- The parts of the cut have a size that `recalculateBytesUsed` computes.
part_size :
    (key value : Contents) (es : List (Entry Contents)) (i : ℕ)
    → leaf_size es ≤ 4096
    → length key + length value ≤ 1024
    → (leaf_size (take i (insert_ordered key value es)) < 2 ^ 64)
      × (leaf_size (drop i (insert_ordered key value es)) < 2 ^ 64)
part_size key value es i h q =
    let whole = insert_ordered key value es in
    let cut = total_size-take-drop bytes_value_size i whole in
    let sum = total_size-insert_ordered bytes_value_size key value es in (omega arith, omega arith)

module _ (build : Build) (key value : Contents) (es : List (Entry Contents)) (used : ℕ)
    (address : Ptr) where
  split_at_lem :
      leaf_size es ≤ 4096
      → length key + length value ≤ 1024
      → 2 ≤ length es
      → split_at bytes_value_size build
          (position_of key es)
          key
          value
          (leaf_of es used)
          address
          new_leaf
        ≡ ok (cut_leaf key value es address)
  unfolding split_at cut_leaf new_leaf
  split_at_lem h q two =
      let whole = insert_ordered key value es in
      elim (Bool-cases (ltb (position_of key es) (half es))) [
        | inl lt ↦
            let cut =
              cut-left es (position_of key es) (half es) (key, value) (ltb→lt _ _ lt)
                (omega arith) in
            rw (
              lt,
              split_key_at_lem es (half es) (omega arith),
              assert_true build,
              cut.0,
              cut.1,
              emplace-position_of key value es,
              bytes_used_lem bytes_value_size (take (suc (half es)) whole)
                  (part_size key value es (suc (half es)) h q).0,
              bytes_used_lem bytes_value_size (drop (suc (half es)) whole)
                  (part_size key value es (suc (half es)) h q).1,
            )
        | inr ge ↦
            let cut =
              cut-right es (position_of key es) (half es) (key, value) (ltb→le _ _ ge)
                (position_of-le key es) in
            rw (
              ge,
              split_key_at_lem es (half es) (omega arith),
              assert_true build,
              cut.0,
              cut.1,
              emplace-position_of key value es,
              bytes_used_lem bytes_value_size (take (half es) whole)
                  (part_size key value es (half es) h q).0,
              bytes_used_lem bytes_value_size (drop (half es) whole)
                  (part_size key value es (half es) h q).1,
            )
      ]

  -- On a valid leaf that is not split, and a new sibling, `splitAndInsert` does what the
  -- specification says, on every branch and in both builds. The entry's size is one that `size_t`
  -- holds.
  pub split_and_insert-split_spec :
      IsValid bytes_value_size (leaf_of es used)
      → length key + length value < 2 ^ 64
      → split_and_insert_leaf build key value (leaf_of es used) address new_leaf
        ≡ split_spec key value (leaf_of es used) address
  unfolding split_and_insert split_spec new_leaf
  split_and_insert-split_spec valid in_memory =
      rw
        (
          assert_true build,
          lower_bound_key_lem key es valid.ordered,
          key_found-lookup key es valid.ordered,
        )
        (ground (arith, valid.fits, valid.counted, split_at_lem))
