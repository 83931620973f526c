-- ===== src/SlowNode/Insert.antt =====
-- `LeafNode::insert` by key of libTupl/src/tupl/pvt/slow/Node.cpp: what it does on every branch,
-- the invariant that it keeps, and the map that it implements.
use tupl_native.Common.{
  ℕ, ◌+◌, ◌^◌, ◌≤◌, ◌<◌, ◌≡◌, false, some, arith, length, ltb, if◌then◌else◌, is_some, inl, inr,
  Outcome, ok, fail, invalid_argument, ap, sym, ◌∙◌, ◌⊎◌, subst,
}
use tupl_native.Bytes.{Contents, key_equals}
use tupl_native.SlowNode.{
  Node, LeafNode, InsertResult, failed_no_space, inserted, emplace, capacity, bytes_value_size,
}
use tupl_native.SlowNode.Ops.{insert_at, insert_unless_found, insert_leaf}
use tupl_native.SlowNode.Order.{
  IsOrdered, position_of, insert_ordered, lookup, lower_bound_key_lem, key_found-lookup,
  emplace-position_of, Absent-lookup, insert_ordered-IsOrdered, lookup-insert_ordered,
}
use tupl_native.SlowNode.Size.{
  entry_size, total_size, AllSmall, length-emplace, total_size-insert_ordered,
  AllSmall-insert_ordered,
}

-- The entries are in order and small, and `mBytes` is their size and within the capacity.
pub record IsValid {V : Type 0} (value_size : V → ℕ) (n : Node V) : Type 0 where
  pub ordered : IsOrdered n.children
  pub small : AllSmall value_size n.children
  pub counted : n.bytes ≡ total_size value_size n.children
  pub fits : n.bytes ≤ capacity

module _ {V : Type 0} (value_size : V → ℕ) where
  -- An insertion at an iterator: a test of the entry's size, a test of the space, the insertion.
  pub insert_at_lem :
      (position : ℕ) (key : Contents) (value : V) (n : Node V)
      → n.bytes ≤ capacity
      → entry_size value_size (key, value) < 2 ^ 64
      → insert_at value_size position key value n ≡ (
          if ltb 1024 (entry_size value_size (key, value))
          then fail (invalid_argument "entry too big")
          else if ltb capacity (n.bytes + entry_size value_size (key, value))
          then ok (n, failed_no_space)
          else ok (
            record n {
              children = emplace n.children position (key, value);
              bytes = n.bytes + entry_size value_size (key, value);
            },
            inserted,
          ))
  unfolding insert_at
  insert_at_lem position key value n h q =
      ground (arith, length-emplace n.children position (key, value))

-- What an insertion into a leaf is to do: refuse a key that is there and an entry that is too big,
-- leave the leaf as it is if the space does not suffice, and insert by a scan otherwise.
unfoldable pub insert_spec : Contents → Contents → LeafNode → Outcome (LeafNode × InsertResult)
insert_spec key value n =
    if is_some (lookup key n.children)
    then fail (invalid_argument "duplicate key not allowed")
    else if ltb 1024 (length key + length value)
    then fail (invalid_argument "entry too big")
    else if ltb capacity (n.bytes + (length key + length value))
    then ok (n, failed_no_space)
    else ok (
      record n {
        children = insert_ordered key value n.children;
        bytes = n.bytes + (length key + length value);
      },
      inserted,
    )

module _ (key value : Contents) (n : LeafNode) (valid : IsValid bytes_value_size n)
    (in_memory : length key + length value < 2 ^ 64) where
  -- On a valid leaf `insert` by key, with its binary search, does what the specification says, on
  -- every branch. The entry's size is one that `size_t` holds.
  pub insert_leaf-insert_spec : insert_leaf key value n ≡ insert_spec key value n
  unfolding insert_leaf insert_spec insert_unless_found
  insert_leaf-insert_spec =
      rw
        (
          lower_bound_key_lem key n.children valid.ordered,
          key_found-lookup key n.children valid.ordered,
          insert_at_lem bytes_value_size (position_of key n.children) key value n valid.fits
              in_memory,
          emplace-position_of key value n.children,
        )
        (ground arith)

  -- The two ways in which the specification returns.
  pub spec_returns :
      (m : LeafNode) (r : InsertResult)
      → insert_spec key value n ≡ ok (m, r)
      → ((m ≡ n)
          × (r ≡ failed_no_space)
          × (is_some (lookup key n.children) ≡ false)
          × (capacity < n.bytes + (length key + length value)))
        ⊎ ((m ≡ record n {
          children = insert_ordered key value n.children;
          bytes = n.bytes + (length key + length value);
        })
            × (r ≡ inserted)
            × (is_some (lookup key n.children) ≡ false)
            × (length key + length value ≤ 1024)
            × (n.bytes + (length key + length value) ≤ capacity))
  unfolding insert_spec
  spec_returns m r h = ground arith

  inserted-IsValid :
      is_some (lookup key n.children) ≡ false
      → length key + length value ≤ 1024
      → n.bytes + (length key + length value) ≤ capacity
      → IsValid bytes_value_size (record n {
        children = insert_ordered key value n.children;
        bytes = n.bytes + (length key + length value);
      })
  inserted-IsValid new size space = record {
    ordered =
        insert_ordered-IsOrdered key value n.children valid.ordered
          (Absent-lookup key n.children new);
    small = AllSmall-insert_ordered bytes_value_size key value n.children valid.small size;
    counted =
        omega
          (arith, total_size-insert_ordered bytes_value_size key value n.children, valid.counted);
    fits = space;
  }

  -- Whenever `insert` by key returns, the leaf is valid again.
  pub insert_leaf-IsValid :
      {m : LeafNode} {r : InsertResult}
      → insert_leaf key value n ≡ ok (m, r)
      → IsValid bytes_value_size m
  insert_leaf-IsValid {m} {r} h = elim (spec_returns m r (sym insert_leaf-insert_spec ∙ h)) [
    | inl (same, full, absent, space) ↦ subst (IsValid bytes_value_size) (sym same) valid
    | inr (new, done, absent, size, space) ↦
        subst (IsValid bytes_value_size) (sym new) (inserted-IsValid absent size space)
  ]

  -- An insertion that reports INSERTED maps the key to the value, and every other key to what it
  -- was mapped to; one that reports FAILED_NO_SPACE changes no key.
  pub lookup-insert_leaf :
      {m : LeafNode} {r : InsertResult} (j : Contents)
      → insert_leaf key value n ≡ ok (m, r)
      → ((r ≡ inserted)
          × (lookup j m.children ≡ (if key_equals j key then some value else lookup j n.children)))
        ⊎ ((r ≡ failed_no_space) × (lookup j m.children ≡ lookup j n.children))
  lookup-insert_leaf {m} {r} j h = elim (spec_returns m r (sym insert_leaf-insert_spec ∙ h)) [
    | inl (same, full, absent, space) ↦ inr (full, ap (λ (l : LeafNode). lookup j l.children) same)
    | inr (new, done, absent, size, space) ↦ inl (
      done,
      ap (λ (l : LeafNode). lookup j l.children) new ∙ lookup-insert_ordered j key value n.children,
    )
  ]
