-- ===== src/SlowTree/Ways.antt =====
-- The way that a search takes through a tree of libTupl/src/tupl/pvt/slow/Tree.cpp, and what a
-- change at one child of a node does to the entries of the tree below that node.
use tupl_native.Common.{
  ℕ, zero, suc, ◌+◌, ◌≤◌, ◌≡◌, refl, sym, ◌∙◌, ap, true, false, none, some, List, [], ◌∷◌, ◌++◌,
  arith, length, get_elem?, All, is_some, Outcome, ok,
}
use tupl_native.Bytes.{Contents, less}
use tupl_native.SlowNode.{
  Entry, Ptr, InternalNode, capacity, bytes_value_size, emplace, SiblingDirection, left, right,
}
use tupl_native.SlowNode.Order.{insert_ordered, lookup}
use tupl_native.SlowNode.Insert.{IsValid}
use tupl_native.SlowNode.Splitting.{leaf_of}
use tupl_native.SlowTree.{Heap, leaf_node, internal_node}
use tupl_native.SlowTree.Inorder.{flat, entries_of}

-- A step of the way: the children of a node whose parent has taken every split, in front of the one
-- that `find` leads to and behind it, whose entries are less than the key, and not less.
pub record Turn (find : InternalNode → Contents → Outcome ℕ) (heap : Heap) (key : Contents)
    (height : ℕ) (p child : Ptr) : Type 0 where
  pub cur : InternalNode
  pub front : List (Entry Ptr)
  pub k : Contents
  pub back : List (Entry Ptr)
  pub here : heap p ≡ some (internal_node cur)
  pub children : cur.children ≡ front ++ ((k, child) ∷ back)
  pub found : find cur key ≡ ok (length front)
  pub whole : cur.split.sibling ≡ none
  pub lower :
      All (λ (e : Entry Contents). less e.0 key ≡ true) (flat (entries_of heap height) front)
  pub upper :
      All (λ (e : Entry Contents). less e.0 key ≡ false) (flat (entries_of heap height) back)

-- The leaf at the end: valid, not split, without the key, and with no key that is too long for the
-- parent.
pub record LeafBelow (heap : Heap) (key : Contents) (p : Ptr) : Type 0 where
  pub es : List (Entry Contents)
  pub used : ℕ
  pub leaf : heap p ≡ some (leaf_node (leaf_of es used))
  pub valid : IsValid bytes_value_size (leaf_of es used)
  pub absent : is_some (lookup key es) ≡ false
  pub short : All (λ (e : Entry Contents). length e.0 + 8 ≤ 1024) es

-- A way from a node down to a leaf whose parent has room for one more entry. The index counts the
-- nodes between the two ends.
pub data Way (find : InternalNode → Contents → Outcome ℕ) (heap : Heap) (key : Contents)
    : ℕ → Ptr → Type 0 where
  bottom :
      {p : Ptr} (child : Ptr) (turn : Turn find heap key 0 p child)
      → turn.cur.bytes + 1024 ≤ capacity
      → LeafBelow heap key child
      → Way find heap key zero p
  down :
      {levels : ℕ} {p : Ptr} (child : Ptr)
      → Turn find heap key (suc levels) p child
      → Way find heap key levels child
      → Way find heap key (suc levels) p

module _ {A : Type 0} where
  pub get-middle :
      (xs : List A) (a : A) (ys : List A) → get_elem? (xs ++ (a ∷ ys)) (length xs) ≡ some a
  get-middle [] a ys = refl
  get-middle (x ∷ xs) a ys = get-middle xs a ys

module _ {V : Type 0} where
  emplace-front :
      (xs : List (Entry V)) (a e : Entry V) (ys : List (Entry V))
      → emplace (xs ++ (a ∷ ys)) (length xs) e ≡ xs ++ (e ∷ a ∷ ys)
  emplace-front [] a e ys = refl
  emplace-front (x ∷ xs) a e ys = ap (λ l. x ∷ l) (emplace-front xs a e ys)

  emplace-behind :
      (xs : List (Entry V)) (a e : Entry V) (ys : List (Entry V))
      → emplace (xs ++ (a ∷ ys)) (suc (length xs)) e ≡ xs ++ (a ∷ e ∷ ys)
  emplace-behind [] a e ys = refl
  emplace-behind (x ∷ xs) a e ys = ap (λ l. x ∷ l) (emplace-behind xs a e ys)

  -- The new entry with the one that it is put in front of, or behind.
  abbrev pub pair_of : SiblingDirection → (new old : Entry V) → List (Entry V)
  pair_of left new old = new ∷ old ∷ []
  pair_of right new old = old ∷ new ∷ []

  pub emplace-pair_of :
      (direction : SiblingDirection) (xs : List (Entry V)) (a e : Entry V) (ys : List (Entry V))
      → emplace (xs ++ (a ∷ ys)) (elim direction [ left ↦ length xs | right ↦ suc (length xs) ]) e
        ≡ xs ++ (pair_of direction e a ++ ys)
  emplace-pair_of left xs a e ys = emplace-front xs a e ys
  emplace-pair_of right xs a e ys = emplace-behind xs a e ys

  -- An insertion by a scan passes what is less, and goes no further than what is not.
  insert_ordered-passes :
      (key : Contents) (value : V) (xs ys : List (Entry V))
      → All (λ e. less e.0 key ≡ true) xs
      → insert_ordered key value (xs ++ ys) ≡ xs ++ insert_ordered key value ys
  unfolding insert_ordered
  insert_ordered-passes key value [] ys a = refl
  insert_ordered-passes key value (x ∷ xs) ys a =
      ground (arith, insert_ordered-passes key value xs ys a.1)

  insert_ordered-stops :
      (key : Contents) (value : V) (xs ys : List (Entry V))
      → All (λ e. less e.0 key ≡ false) ys
      → insert_ordered key value (xs ++ ys) ≡ insert_ordered key value xs ++ ys
  unfolding insert_ordered
  insert_ordered-stops key value [] [] a = refl
  insert_ordered-stops key value [] (y ∷ ys) a = ground arith
  insert_ordered-stops key value (x ∷ xs) ys a =
      ground (arith, insert_ordered-stops key value xs ys a)

  pub insert_ordered-middle :
      (key : Contents) (value : V) (xs ys zs : List (Entry V))
      → All (λ e. less e.0 key ≡ true) xs
      → All (λ e. less e.0 key ≡ false) zs
      → xs ++ (insert_ordered key value ys ++ zs) ≡ insert_ordered key value (xs ++ (ys ++ zs))
  insert_ordered-middle key value xs ys zs a c = sym (
      insert_ordered-passes key value xs (ys ++ zs) a
      ∙ ap (λ l. xs ++ l) (insert_ordered-stops key value ys zs c))
