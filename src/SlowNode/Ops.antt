-- ===== src/SlowNode/Ops.antt =====
-- `Node::Ops` of libTupl/src/tupl/pvt/slow/Node.cpp, and the operations of leaf and internal nodes
-- that are calls of it. A node and the sibling that it splits into are two values.
use tupl_native.Common.{
  add_size, sub_size, ℕ, ◌+◌, ◌-◌, ◌/◌, false, ◌||◌, List, [], ◌∷◌, ◌++◌, ltb, ◌==◌, if◌then◌else◌,
  length, take, drop, Outcome, ok, fail, invalid_argument, domain_error, logic_error,
  undefined_behaviour, ◌>>=◌, ◌>>◌, throw_if, Build, assert_that,
}
use tupl_native.Bytes.{Contents}
use tupl_native.SlowNode.{
  left, right, InsertResult, failed_no_space, inserted, Ptr, Entry, Node, LeafNode, InternalNode,
  capacity, same_type, record_split, key_found, lower_bound_key, slice, emplace, split_key_at,
  moved_entries, kept_entries, bytes_value_size, node_value_size,
}

module _ {V : Type 0} (value_size : V → ℕ) where
  unfoldable pub verified_entry_size : Contents → V → Outcome ℕ
  verified_entry_size key value = do
    let kv_bytes = add_size (length key) (value_size value)
    throw_if (ltb (capacity / 4) kv_bytes) (invalid_argument "entry too big")
    ok kv_bytes

  -- `recalculateBytesUsed`: the sum of the entries' sizes.
  unfoldable pub bytes_used : List (Entry V) → ℕ → ℕ
  bytes_used [] total = total
  bytes_used ((k, v) ∷ rest) total =
      bytes_used rest (add_size total (add_size (length k) (value_size v)))

  unfoldable pub recalculate_bytes_used : Node V → Node V
  unfolding bytes_used
  recalculate_bytes_used n = record n { bytes = bytes_used n.children 0 }

  -- `Ops::insert` at an iterator.
  unfoldable pub insert_at : ℕ → Contents → V → Node V → Outcome (Node V × InsertResult)
  unfolding verified_entry_size
  insert_at position key value n = do
    entry_size ← verified_entry_size key value
    let available_bytes = sub_size capacity n.bytes
    if ltb available_bytes entry_size then ok (n, failed_no_space) else do
      let children' = emplace n.children position (key, value)
      throw_if (length n.children == length children') (invalid_argument "key exists")
      ok (record n { children = children'; bytes = add_size n.bytes entry_size }, inserted)

  -- The test for a key that is there already, and the insertion, of both `Ops::insert` by key.
  unfoldable pub insert_unless_found :
      (found_at position : ℕ) → Contents → V → Node V → Outcome (Node V × InsertResult)
  unfolding insert_at
  insert_unless_found found_at position key value n = do
    throw_if (key_found n.children key found_at) (invalid_argument "duplicate key not allowed")
    insert_at position key value n

  -- The second half of `splitAndInsert`, from the choice of the direction on.
  unfoldable pub split_at :
      Build → (insert_pos : ℕ) → Contents → V → Node V → Ptr → Node V → Outcome (Node V × Node V)
  unfolding record_split recalculate_bytes_used
  split_at build insert_pos key value original address sibling = do
    let split_pos = (length original.children + 1) / 2
    let direction = if ltb insert_pos split_pos then left else right
    (split_key, entries) ← split_key_at original.node_type original.children split_pos
    let moved = moved_entries entries direction insert_pos split_pos (key, value)
    original' ←
        record_split build (record original { children = kept_entries entries direction split_pos })
          address direction split_key
    ok (
      recalculate_bytes_used original',
      recalculate_bytes_used (record sibling { children = sibling.children ++ moved }),
    )

  -- `splitAndInsert` of `Node::Ops`, on a node and a sibling that stands at an address.
  unfoldable pub split_and_insert :
      Build → Contents → V → Node V → Ptr → Node V → Outcome (Node V × Node V)
  unfolding verified_entry_size
  split_and_insert build key value original address sibling = do
    assert_that build (same_type original.node_type sibling.node_type)
    entry_bytes ← verified_entry_size key value
    let available_bytes = sub_size capacity original.bytes
    throw_if (ltb entry_bytes available_bytes || ltb (length original.children) 3)
        (domain_error "split is not required")
    let insert_pos = lower_bound_key original.children 0 key
    throw_if (key_found original.children key insert_pos)
        (invalid_argument "duplicate key not allowed")
    split_at build insert_pos key value original address sibling

-- `LeafNode::insert` by key.
unfoldable pub insert_leaf : Contents → Contents → LeafNode → Outcome (LeafNode × InsertResult)
unfolding insert_unless_found
insert_leaf key value n =
    let position = lower_bound_key n.children 0 key in
    insert_unless_found bytes_value_size position position key value n

-- `InternalNode::insert` by key: the search leaves the first entry out, and `--insertPos` then
-- takes the position in front of what it found.
unfoldable pub insert_internal :
    Contents → Ptr → InternalNode → Outcome (InternalNode × InsertResult)
unfolding insert_unless_found
insert_internal key value n = do
  throw_if (length n.children == 0) undefined_behaviour
  let found_at = lower_bound_key n.children 1 key
  insert_unless_found node_value_size found_at (found_at - 1) key value n

-- `LeafNode::splitAndInsert` and `InternalNode::splitAndInsert`.
abbrev pub split_and_insert_leaf :
    Build → Contents → Contents → LeafNode → Ptr → LeafNode → Outcome (LeafNode × LeafNode)
split_and_insert_leaf = split_and_insert bytes_value_size

abbrev pub split_and_insert_internal :
    Build
    → Contents
    → Ptr
    → InternalNode
    → Ptr
    → InternalNode
    → Outcome (InternalNode × InternalNode)
split_and_insert_internal = split_and_insert node_value_size

-- `LeafNode::moveEntries`: assigns over the target's entries, and erases the source's.
unfoldable pub move_entries :
    LeafNode
    → (src_begin src_end : ℕ) → LeafNode
    → (tgt_begin : ℕ) → Outcome (LeafNode × LeafNode × ℕ)
move_entries src src_begin src_end dst tgt_begin = do
  let moved = slice src_begin src_end src.children
  throw_if (ltb (length dst.children) (tgt_begin + length moved)) undefined_behaviour
  ok (
    record src { children = take src_begin src.children ++ drop src_end src.children },
    record dst {
      children =
          take tgt_begin dst.children ++ (moved ++ drop (tgt_begin + length moved) dst.children);
    },
    tgt_begin + length moved,
  )

-- `InternalNode::find`
unfoldable pub find_child : InternalNode → Contents → Outcome ℕ
find_child n key = fail (logic_error "unimplemeted")

-- `InternalNode::lowerBound`: fails its assertion, and ends without a value under NDEBUG.
unfoldable pub lower_bound_child : Build → InternalNode → Contents → Outcome ℕ
lower_bound_child build n key = do assert_that build false; fail undefined_behaviour
