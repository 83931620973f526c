-- ===== src/SlowTree/Appending.antt =====
-- A tree of two levels of libTupl/src/tupl/pvt/slow/Tree.cpp to which entries can be appended: only its
-- last leaf has to be without a record of a split.
use tupl_native.Common.{
  ℕ, suc, ◌+◌, ◌≤◌, ◌<◌, ◌≡◌, refl, sym, ◌∙◌, ap, subst, true, false, none, some, List, [], ◌∷◌,
  ◌++◌, arith, length, has, NoDup, All, All-mono, append-nil, Bool-cases, is_some, lt_or_ge, inl,
  inr, Outcome, ok,
}
use tupl_native.Bytes.{Contents, less}
use tupl_native.Bytes.Order.{less_trans}
use tupl_native.SlowNode.{Entry, InternalNode, Ptr, capacity, bytes_value_size}
use tupl_native.SlowNode.Order.{lookup, position_of}
use tupl_native.SlowNode.Size.{total_size-le}
use tupl_native.SlowNode.Insert.{IsValid}
use tupl_native.SlowNode.Splitting.{leaf_of, half}
use tupl_native.SlowTree.{Tree, AnyNode, leaf_node, internal_node}
use tupl_native.SlowTree.Inorder.{
  flat, flat-append, entries_of, nodes_of, entries_of_leaf, entries_of_internal,
}
use tupl_native.SlowTree.Ways.{Turn, LeafBelow}
use tupl_native.SlowTree.SearchTree.{Bound}
use tupl_native.SlowTree.Selection.{position_from, child_at, lookup-lower}
use tupl_native.SlowTree.SplitParts.{All-parts}
use tupl_native.SlowTree.Search.{IsSearchable, leaf_for, leaf_for_leaf}
use tupl_native.SlowTree.SearchSplit.{GoesWell}
use tupl_native.SlowTree.SearchInsert.{leaf_for_turn, Found}
use tupl_native.SlowTree.Steps.{All-insert_ordered}
use tupl_native.SlowTree.RightPart.{LikeSized}

-- Greater than the last key so far.
abbrev pub Beyond : Bound → Contents → Type 0
Beyond none key = Unit {0}
Beyond (some m) key = less m key ≡ true

pub Beyond-trans : (m : Bound) (key j : Contents) → Beyond m key → less key j ≡ true → Beyond m j
Beyond-trans none key j a b = tt
Beyond-trans (some m) key j a b = less_trans m key j a b

pub record IsAppendable (t : Tree) (p : Ptr) (size short bytes : ℕ) (m : Bound) : Type 0 where
  pub cur : InternalNode
  pub front : List (Entry Ptr)
  pub k : Contents
  pub child : Ptr
  pub here : t.heap p ≡ some (internal_node cur)
  pub children : cur.children ≡ front ++ ((k, child) ∷ [])
  pub whole : cur.split.sibling ≡ none
  pub es : List (Entry Contents)
  pub used : ℕ
  pub leaf : t.heap child ≡ some (leaf_node (leaf_of es used))
  pub valid : IsValid bytes_value_size (leaf_of es used)
  pub like : All (LikeSized size) es
  pub keys : All (λ (e : Entry Contents). length e.0 + 8 ≤ short) es
  pub searchable : IsSearchable t.heap 1 none none p
  pub last : (key : Contents) → Beyond m key → child_at key cur.children ≡ length front
  pub lower :
      (key : Contents)
      → Beyond m key
      → All (λ (e : Entry Contents). less e.0 key ≡ true) (entries_of t.heap 1 p)
  pub taken : cur.bytes ≤ bytes
  pub once : NoDup (nodes_of t.heap 1 p)
  pub below_next : (q : Ptr) → has q (nodes_of t.heap 1 p) ≡ true → q < t.next
  pub fresh : (q : Ptr) → t.next ≤ q → t.heap q ≡ none

lookup_nothing : (key : Contents) → lookup {V = Contents} key [] ≡ none
unfolding lookup
lookup_nothing key = refl

position_from-behind :
    (j : Contents) (xs : List (Entry Ptr)) (x y : Entry Ptr)
    → position_from j (xs ++ x ∷ []) ≡ suc (length xs)
    → less j y.0 ≡ false
    → position_from j (xs ++ x ∷ y ∷ []) ≡ suc (suc (length xs))
position_from-behind j [] x y h ge = ground arith
position_from-behind j (z ∷ xs) x y h ge = ground (arith, position_from-behind j xs x y)

pub child_at-behind :
    (j : Contents) (xs : List (Entry Ptr)) (x y : Entry Ptr)
    → child_at j (xs ++ x ∷ []) ≡ length xs
    → less j y.0 ≡ false
    → child_at j (xs ++ x ∷ y ∷ []) ≡ suc (length xs)
child_at-behind j [] x y h ge = ground arith
child_at-behind j (z ∷ xs) x y h ge = position_from-behind j xs x y h ge

position_of-length :
    (key : Contents) (es : List (Entry Contents))
    → All (λ (e : Entry Contents). less e.0 key ≡ true) es
    → position_of key es ≡ length es
unfolding position_of
position_of-length key [] a = refl
position_of-length key (e ∷ es) a = ground (arith, position_of-length key es a.1)

module _ {t : Tree} {p : Ptr} {size short bytes : ℕ} {m : Bound}
    (is : IsAppendable t p size short bytes m) where
  -- What is in the heap is in front of the next address.
  pub stored_old : (q : Ptr) (n : AnyNode) → t.heap q ≡ some n → q < t.next
  stored_old q n at = elim (lt_or_ge q t.next) [
    | inl lt ↦ lt
    | inr ge ↦ absurd (cc (is.fresh q ge, at))
  ]

  pub child_old : is.child < t.next
  child_old = stored_old is.child (leaf_node (leaf_of is.es is.used)) is.leaf

  -- After the insertion of a key all keys are less than any that is greater.
  pub still_lower :
      (key value : Contents)
      → Beyond m key
      → (t' : Tree) → Found t t' key value 1 none none p
      → (j : Contents) → less key j ≡ true
      → All (λ (e : Entry Contents). less e.0 j ≡ true) (entries_of t'.heap 1 p)
  still_lower key value beyond t' found j lt =
      subst (All (λ (e : Entry Contents). less e.0 j ≡ true)) (sym found.contents) (
        All-insert_ordered (λ (e : Entry Contents). less e.0 j ≡ true) key value
          (entries_of t.heap 1 p) lt (is.lower j (Beyond-trans m key j beyond lt)))

module _ (find : InternalNode → Contents → Outcome ℕ)
    (finds : (n : InternalNode) (key : Contents) → find n key ≡ ok (child_at key n.children))
    {t : Tree} {p : Ptr} {size short bytes : ℕ} {m : Bound}
    (is : IsAppendable t p size short bytes m) (key value : Contents) (beyond : Beyond m key)
    (few : short ≤ 1024) where
  pub parts_lower :
      All (λ (e : Entry Contents). less e.0 key ≡ true) (flat (entries_of t.heap 0) is.front)
      × All (λ (e : Entry Contents). less e.0 key ≡ true) is.es
  parts_lower =
      let joined =
        entries_of_internal t.heap 0 p (internal_node is.cur) is.here
        ∙ ap (flat (entries_of t.heap 0)) is.children
        ∙ flat-append (entries_of t.heap 0) is.front ((is.k, is.child) ∷ []) in
      let parts =
        All-parts (λ (e : Entry Contents). less e.0 key ≡ true)
          (flat (entries_of t.heap 0) is.front) (entries_of t.heap 0 is.child ++ [])
          (subst (All (λ (e : Entry Contents). less e.0 key ≡ true)) joined
            (is.lower key beyond)) in
      let leaf =
        append-nil (entries_of t.heap 0 is.child)
        ∙ entries_of_leaf t.heap is.child (leaf_node (leaf_of is.es is.used)) is.leaf in
      (parts.0, subst (All (λ (e : Entry Contents). less e.0 key ≡ true)) leaf parts.1)

  abbrev pub append_turn : Turn find t.heap key 0 p is.child
  append_turn = record {
    cur = is.cur;
    front = is.front;
    k = is.k;
    back = [];
    here = is.here;
    children = is.children;
    found = finds is.cur key ∙ ap ok (is.last key beyond);
    whole = is.whole;
    lower = parts_lower.0;
    upper = tt;
  }

  pub append_absent : is_some (lookup key is.es) ≡ false
  append_absent =
      let none_there =
        ap (lookup key) (sym (append-nil is.es)) ∙ lookup-lower key is.es [] parts_lower.1 in
      ap is_some none_there ∙ ap is_some (lookup_nothing key)

  pub append_short : All (λ (e : Entry Contents). length e.0 + 8 ≤ 1024) is.es
  append_short = All-mono is.es (λ e h. omega (arith, h, few)) is.keys

  abbrev pub append_leaf : LeafBelow t.heap key is.child
  append_leaf = record {
    es = is.es;
    used = is.used;
    leaf = is.leaf;
    valid = is.valid;
    absent = append_absent;
    short = append_short;
  }

  pub append-old : has t.next (nodes_of t.heap 1 p) ≡ false
  append-old = elim (Bool-cases (has t.next (nodes_of t.heap 1 p))) [
    | inl there ↦ absurd (omega (arith, is.below_next t.next there))
    | inr out ↦ out
  ]

  pub append-behind :
      capacity < is.used + (length key + length value)
      → length key + length value ≤ 1024
      → half is.es < position_of key is.es
  append-behind full small = omega (
    arith,
    total_size-le bytes_value_size is.es is.valid.small,
    is.valid.counted,
    full,
    small,
    position_of-length key is.es parts_lower.1,
  )

  pub append-GoesWell :
      length key + length value ≤ 1024 → GoesWell key value (leaf_for t.heap key 1 p)
  append-GoesWell small =
      subst (GoesWell key value)
        (sym (
          leaf_for_turn find finds append_turn
          ∙ leaf_for_leaf t.heap key is.child (leaf_node (leaf_of is.es is.used)) is.leaf))
        (elim (lt_or_ge capacity (is.used + (length key + length value))) [
          | inl full ↦ inr (append-behind full small)
          | inr space ↦
              inl (subst (λ n. n + (length key + length value) ≤ capacity) is.valid.counted space)
        ])
