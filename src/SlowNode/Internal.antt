-- ===== src/SlowNode/Internal.antt =====
-- `InternalNode::insert` by key of libTupl/src/tupl/pvt/slow/Node.cpp, and insertion at an iterator
-- into a node whose byte count is past the capacity.
use tupl_native.Common.{
  ℕ, zero, suc, ◌+◌, ◌-◌, ◌^◌, ◌≤◌, ◌<◌, ◌≡◌, refl, true, false, List, [], ◌∷◌, arith, length,
  get_elem?, sym, ◌∙◌, some, is_some, inl, inr, ltb, ok, fail, Outcome, invalid_argument,
  if◌then◌else◌, All, subst, lt_or_ge,
}
use mathlib.Core.Option.{some-injective}
use tupl_native.Bytes.{Contents, less}
use tupl_native.Bytes.Order.{less_asymm}
use tupl_native.LowerBound.Partition.{Splits, IsPartitioned, Splits-unique, lower_bound-Splits}
use tupl_native.SlowNode.{
  Entry, Node, InternalNode, Ptr, emplace, key_before, lower_bound_key, InsertResult, capacity,
  failed_no_space, inserted,
}
use tupl_native.SlowNode.Ops.{insert_internal, insert_at}
use tupl_native.SlowNode.Order.{
  IsOrdered, position_of, position_of-le, lookup, before_below, before_above, key_found-lookup,
}
use tupl_native.SlowNode.Size.{entry_size, length-emplace}

module _ (s : Entry Ptr) (rest : List (Entry Ptr)) (key : Contents) (ordered : IsOrdered rest) where
  tail-Splits :
      Splits (key_before (s ∷ rest) key) 1 (suc (length rest)) (suc (position_of key rest))
  tail-Splits = record {
    at_least = omega arith;
    at_most = omega (arith, position_of-le key rest);
    below = below;
    above = above;
  }
    where
      below : (i : ℕ) → 1 ≤ i → i < suc (position_of key rest) → key_before (s ∷ rest) key i ≡ true
      below zero p q = absurd (omega arith)
      below (suc i) p q = before_below key rest i (omega arith)

      above :
          (i : ℕ)
          → suc (position_of key rest) ≤ i
          → i < suc (length rest)
          → key_before (s ∷ rest) key i ≡ false
      above zero p q = absurd (omega arith)
      above (suc i) p q = before_above key rest i ordered (omega arith) (omega arith)

  tail-IsPartitioned : IsPartitioned (key_before (s ∷ rest) key) 1 (suc (length rest))
  tail-IsPartitioned i j p q r b = elim (lt_or_ge j (suc (position_of key rest))) [
    | inl lt ↦ tail-Splits.below i p (omega arith)
    | inr ge ↦ absurd (cc (tail-Splits.above j ge r, b))
  ]

  -- The search that leaves the first entry out.
  lower_bound_key_tail : lower_bound_key (s ∷ rest) 1 key ≡ suc (position_of key rest)
  lower_bound_key_tail =
      Splits-unique (key_before (s ∷ rest) key)
        (lower_bound-Splits (key_before (s ∷ rest) key) 1 (suc (length rest)) (omega arith)
          tail-IsPartitioned)
        tail-Splits

-- What an insertion by key into an internal node does: the new entry takes the position in front
-- of the last entry that is less.
unfoldable pub internal_spec :
    Contents
    → Ptr
    → InternalNode
    → Entry Ptr
    → List (Entry Ptr)
    → Outcome (InternalNode × InsertResult)
internal_spec key child n s rest =
    if is_some (lookup key rest)
    then fail (invalid_argument "duplicate key not allowed")
    else if ltb 1024 (length key + 8)
    then fail (invalid_argument "entry too big")
    else if ltb capacity (n.bytes + (length key + 8))
    then ok (n, failed_no_space)
    else ok (
      record n {
        children = emplace (s ∷ rest) (position_of key rest) (key, child);
        bytes = n.bytes + (length key + 8);
      },
      inserted,
    )

module _ (key : Contents) (child : Ptr) (n : InternalNode) (s : Entry Ptr) (rest : List (Entry Ptr))
    (shape : n.children ≡ s ∷ rest) (ordered : IsOrdered rest) (fits : n.bytes ≤ capacity)
    (in_memory : length key + 8 < 2 ^ 64) where
  -- `InternalNode::insert` by key on every branch, for a node whose entries behind the first are
  -- ordered: it refuses a key that is there and one that is too big, reports a lack of space, and
  -- otherwise puts the entry one position in front of where its key belongs.
  pub insert_internal-internal_spec : insert_internal key child n ≡ internal_spec key child n s rest
  unfolding insert_internal internal_spec
  insert_internal-internal_spec =
      let back : suc (position_of key rest) - 1 ≡ position_of key rest = omega arith in
      rw (shape, lower_bound_key_tail s rest key ordered, back, key_found-lookup key rest ordered)
        (ground (arith, length-emplace (s ∷ rest) (position_of key rest) (key, child)))

  internal_returns :
      (m : InternalNode)
      → internal_spec key child n s rest ≡ ok (m, inserted)
      → m.children ≡ emplace (s ∷ rest) (position_of key rest) (key, child)
  unfolding internal_spec
  internal_returns m h = ground arith

  -- The entry in front of which the new one is put is less.
  less_at_position : less s.0 key ≡ true → key_before (s ∷ rest) key (position_of key rest) ≡ true
  less_at_position lt = elim (lt_or_ge 0 (position_of key rest)) [
    | inl p ↦
        let q : position_of key rest ≡ suc (position_of key rest - 1) = omega arith in
        subst (λ i. key_before (s ∷ rest) key i ≡ true) (sym q)
          (before_below key rest (position_of key rest - 1) (omega arith))
    | inr z ↦ let q : position_of key rest ≡ 0 = omega arith in rw q lt
  ]

module _ {V : Type 0} where
  key_before-emplace :
      (es : List (Entry V)) (i : ℕ) (e : Entry V) (key : Contents)
      → i ≤ length es
      → (get_elem? (emplace es i e) i ≡ some e)
        × (key_before (emplace es i e) key (suc i) ≡ key_before es key i)
  key_before-emplace es zero e key h = (refl, refl)
  key_before-emplace [] (suc i) e key h = absurd (omega arith)
  key_before-emplace (f ∷ es) (suc i) e key h = key_before-emplace es i e key (omega arith)

  behind_first :
      (k : Contents) (es : List (Entry V)) (i : ℕ)
      → All (λ f. less k f.0 ≡ true) es
      → key_before es k i ≡ false
  behind_first k [] i a = refl
  behind_first k (f ∷ es) zero a = less_asymm k f.0 a.0
  behind_first k (f ∷ es) (suc i) a = behind_first k es i a.1

  -- In ordered entries none is less than the one in front of it.
  IsOrdered-neighbour :
      (es : List (Entry V)) (i : ℕ) (e : Entry V)
      → IsOrdered es
      → get_elem? es i ≡ some e
      → key_before es e.0 (suc i) ≡ false
  IsOrdered-neighbour [] i e o q = refl
  IsOrdered-neighbour (f ∷ es) zero e o q =
      subst (λ (x : Entry V). key_before es x.0 0 ≡ false) (some-injective f e q)
        (behind_first f.0 es 0 o.0)
  IsOrdered-neighbour (f ∷ es) (suc i) e o q = IsOrdered-neighbour es i e o.1 q

module _ (key : Contents) (child : Ptr) (n m : InternalNode) (s : Entry Ptr)
    (rest : List (Entry Ptr)) (shape : n.children ≡ s ∷ rest) (ordered : IsOrdered rest)
    (fits : n.bytes ≤ capacity) (in_memory : length key + 8 < 2 ^ 64)
    (first : less s.0 key ≡ true) where
  -- Whenever `InternalNode::insert` by key reports INSERTED, where the entries behind the first are
  -- ordered and the first has a key less than the new one, the new entry stands in front of an
  -- entry that is less; so the entries are no longer ordered.
  pub insert_internal_misplaces :
      insert_internal key child n ≡ ok (m, inserted)
      → (get_elem? m.children (position_of key rest) ≡ some (key, child))
        × (key_before m.children key (suc (position_of key rest)) ≡ true)
        × (¬ IsOrdered m.children)
  insert_internal_misplaces h =
      let spec = insert_internal-internal_spec key child n s rest shape ordered fits in_memory in
      let same =
        internal_returns key child n s rest shape ordered fits in_memory m (sym spec ∙ h) in
      let put =
        key_before-emplace (s ∷ rest) (position_of key rest) (key, child) key
          (omega (arith, position_of-le key rest)) in
      let behind = put.1 ∙ less_at_position key child n s rest shape ordered fits in_memory first in
      rw same (
        put.0,
        behind,
        λ o. cc (IsOrdered-neighbour _ (position_of key rest) (key, child) o put.0, behind),
      )

-- A byte count past the capacity, which a split can leave, defeats the test for space: the
-- difference wraps round, and every entry that is not too big is inserted.
pub insert_at_overfull :
    {V : Type 0} (value_size : V → ℕ) (position : ℕ) (key : Contents) (value : V) (n : Node V)
    → capacity < n.bytes
    → n.bytes < 2 ^ 63
    → entry_size value_size (key, value) ≤ 1024
    → insert_at value_size position key value n
      ≡ ok (
        record n {
          children = emplace n.children position (key, value);
          bytes = n.bytes + entry_size value_size (key, value);
        },
        inserted,
      )
unfolding insert_at
insert_at_overfull value_size position key value n over small size =
    ground (arith, length-emplace n.children position (key, value))
