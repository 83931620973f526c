-- ===== src/SlowNode/InternalSplit.antt =====
-- `InternalNode::splitAndInsert` of libTupl/src/tupl/pvt/slow/Node.cpp against a specification that
-- takes the key out of the entry at which the node is split, inserts the new entry and cuts the
-- entries in two.
use tupl_native.Common.{
  ℕ, zero, suc, ◌+◌, ◌/◌, ◌^◌, ◌≤◌, ◌<◌, ◌≡◌, refl, List, [], ◌∷◌, ◌++◌, arith, length, take, drop,
  set, get_elem?, get_elem?_lt, none, some, is_some, Bool-cases, inl, inr, ltb, ltb→lt, ltb→le,
  Outcome, ok, fail, invalid_argument, domain_error, Build, assert_true, if◌then◌else◌, ap,
}
use tupl_native.Bytes.{Contents}
use tupl_native.SlowNode.{
  Entry, InternalNode, Ptr, internal, left, right, split_key_at, no_split, capacity, emplace,
  node_value_size,
}
use tupl_native.SlowNode.Ops.{
  split_at, split_and_insert, split_and_insert_internal, recalculate_bytes_used,
}
use tupl_native.SlowNode.Order.{
  IsOrdered, position_of, position_of-le, lookup, lower_bound_key_lem, key_found-lookup,
}
use tupl_native.SlowNode.Cut.{cut-left, cut-right}
use tupl_native.SlowNode.Splitting.{recorded}

abbrev pub internal_of : List (Entry Ptr) → ℕ → InternalNode
internal_of es used = record { node_type = internal; children = es; bytes = used; split = no_split }

abbrev pub middle : List (Entry Ptr) → ℕ
middle es = (length es + 1) / 2

-- The key at a position, and the entries with an empty key in its place.
abbrev pub key_of : List (Entry Ptr) → ℕ → Contents
key_of es i = elim (get_elem? es i) [ none ↦ [] | some e ↦ e.0 ]

abbrev pub without_key : List (Entry Ptr) → ℕ → List (Entry Ptr)
without_key es i = elim (get_elem? es i) [ none ↦ es | some e ↦ set es i ([], e.1) ]

-- The entries with the new one, cut in two. The part that takes the new entry goes behind what the
-- sibling holds.
unfoldable pub cut_internal :
    Contents → Ptr → List (Entry Ptr) → Ptr → InternalNode → InternalNode × InternalNode
cut_internal key child es address m =
    let whole = emplace (without_key es (middle es)) (position_of key es) (key, child) in
    if ltb (position_of key es) (middle es)
    then (
      recalculate_bytes_used node_value_size (record (internal_of es 0) {
        children = drop (suc (middle es)) whole;
        split = recorded address left (key_of es (middle es));
      }),
      recalculate_bytes_used node_value_size
          (record m { children = m.children ++ take (suc (middle es)) whole }),
    )
    else (
      recalculate_bytes_used node_value_size (record (internal_of es 0) {
        children = take (middle es) whole;
        split = recorded address right (key_of es (middle es));
      }),
      recalculate_bytes_used node_value_size
          (record m { children = m.children ++ drop (middle es) whole }),
    )

-- What `splitAndInsert` of an internal node does, on every branch.
unfoldable pub split_internal_spec :
    Contents
    → Ptr
    → List (Entry Ptr)
    → ℕ
    → Ptr
    → InternalNode
    → Outcome (InternalNode × InternalNode)
split_internal_spec key child es used address m =
    if ltb 1024 (length key + 8)
    then fail (invalid_argument "entry too big")
    else if ltb (used + (length key + 8)) capacity
    then fail (domain_error "split is not required")
    else if ltb (length es) 3
    then fail (domain_error "split is not required")
    else if is_some (lookup key es)
    then fail (invalid_argument "duplicate key not allowed")
    else ok (cut_internal key child es address m)

length-set : (es : List (Entry Ptr)) (i : ℕ) (e : Entry Ptr) → length (set es i e) ≡ length es
length-set [] zero e = refl
length-set [] (suc i) e = refl
length-set (x ∷ es) zero e = refl
length-set (x ∷ es) (suc i) e = ap suc (length-set es i e)

split_key_at_lem :
    (es : List (Entry Ptr)) (i : ℕ)
    → i < length es
    → (split_key_at internal es i ≡ ok (key_of es i, without_key es i))
      × (length (without_key es i) ≡ length es)
split_key_at_lem es i h =
    let (e, q) = get_elem?_lt es i h in (ground arith, ground (arith, length-set es i ([], e.1)))

module _ (build : Build) (key : Contents) (child : Ptr) (es : List (Entry Ptr)) (used : ℕ)
    (address : Ptr) (m : InternalNode) (same : m.node_type ≡ internal) where
  split_at_internal :
      2 ≤ length es
      → split_at node_value_size build
          (position_of key es)
          key
          child
          (internal_of es used)
          address
          m
        ≡ ok (cut_internal key child es address m)
  unfolding split_at cut_internal recalculate_bytes_used
  split_at_internal two =
      let split = split_key_at_lem es (middle es) (omega arith) in
      elim (Bool-cases (ltb (position_of key es) (middle es))) [
        | inl lt ↦
            let cut =
              cut-left (without_key es (middle es)) (position_of key es) (middle es) (key, child)
                (ltb→lt _ _ lt) (omega (arith, split.1)) in
            rw (lt, split.0, assert_true build, cut.0, cut.1)
        | inr ge ↦
            let cut =
              cut-right (without_key es (middle es)) (position_of key es) (middle es) (key, child)
                (ltb→le _ _ ge) (omega (arith, split.1, position_of-le key es)) in
            rw (ge, split.0, assert_true build, cut.0, cut.1)
      ]

  -- On an internal node that is not split, whose entries are ordered, with the empty key in front,
  -- and whose bytes are within the capacity, `splitAndInsert` does what the specification says, on
  -- every branch, in both builds and for every internal node as the sibling. The entry's size is one
  -- that `size_t` holds.
  pub split_and_insert-split_internal_spec :
      IsOrdered es
      → used ≤ capacity
      → length key + 8 < 2 ^ 64
      → split_and_insert_internal build key child (internal_of es used) address m
        ≡ split_internal_spec key child es used address m
  unfolding split_and_insert split_internal_spec
  split_and_insert-split_internal_spec ordered fits in_memory =
      rw
        (
          same,
          assert_true build,
          lower_bound_key_lem key es ordered,
          key_found-lookup key es ordered,
        )
        (ground (arith, split_at_internal))
