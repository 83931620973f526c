-- ===== src/SlowTree/SplitParts.antt =====
-- The two leaves that `LeafNode::splitAndInsert` of libTupl/src/tupl/pvt/slow/Node.cpp leaves in a
-- tree of libTupl/src/tupl/pvt/slow/Tree.cpp: the bounds of their keys.
use tupl_native.Common.{
  ℕ, zero, suc, ◌+◌, ◌≤◌, ◌<◌, ◌≡◌, ◌≢◌, sym, subst, false, some, List, [], ◌∷◌, ◌++◌, arith,
  length, All, is_some, debug,
}
use tupl_native.Bytes.{Contents}
use tupl_native.SlowNode.{Entry, LeafNode, Ptr, right, left, capacity, bytes_value_size}
use tupl_native.SlowNode.Order.{lookup, position_of}
use tupl_native.SlowNode.Size.{total_size-le}
use tupl_native.SlowNode.Insert.{IsValid}
use tupl_native.SlowNode.Splitting.{leaf_of, half, key_at, cut_leaf}
use tupl_native.SlowNode.Halves.{split_entries, left_entries, right_entries}
use tupl_native.SlowNode.SplitKey.{split_key-Separates}
use tupl_native.SlowTree.Growth.{cut_leaf_key, leaf_splits}
use tupl_native.SlowTree.SearchTree.{Bound, Inside}
use tupl_native.SlowTree.Steps.{All-insert_ordered}

pub All-parts :
    {A : Type 0} (P : A → Type 0) (xs ys : List A) → All P (xs ++ ys) → All P xs × All P ys
All-parts P [] ys a = (tt, a)
All-parts P (x ∷ xs) ys a = let rest = All-parts P xs ys a.1 in ((a.0, rest.0), rest.1)

All-both :
    {A : Type 0} {P Q R : A → Type 0} (xs : List A)
    → ((a : A) → P a → Q a → R a)
    → All P xs
    → All Q xs
    → All R xs
All-both [] f p q = tt
All-both (x ∷ xs) f p q = (f x p.0 q.0, All-both xs f p.1 q.1)

pub All-key_at :
    (P : Contents → Type 0) (es : List (Entry Contents)) (i : ℕ)
    → i < length es
    → All (λ (e : Entry Contents). P e.0) es
    → P (key_at es i)
All-key_at P [] i h a = absurd (omega arith)
All-key_at P (e ∷ es) zero h a = a.0
All-key_at P (e ∷ es) (suc i) h a = All-key_at P es i (omega arith) a.1

pub cut_right :
    (key value : Contents) (es : List (Entry Contents)) (address : Ptr)
    → half es < position_of key es
    → (cut_leaf key value es address).0.split.direction ≡ right
unfolding cut_leaf
cut_right key value es address h = ground arith

pub cut_left :
    (key value : Contents) (es : List (Entry Contents)) (address : Ptr)
    → position_of key es < half es
    → (cut_leaf key value es address).0.split.direction ≡ left
unfolding cut_leaf
cut_left key value es address h = ground arith

module _ (key value : Contents) (es : List (Entry Contents)) (used : ℕ) (address : Ptr)
    (valid : IsValid bytes_value_size (leaf_of es used)) (absent : is_some (lookup key es) ≡ false)
    (small : length key + length value ≤ 1024)
    (full : capacity < used + (length key + length value)) (ne : position_of key es ≢ half es) where
  abbrev parts : LeafNode × LeafNode
  parts = cut_leaf key value es address

  half_inside : half es < length es
  half_inside =
      omega (arith, total_size-le bytes_value_size es valid.small, valid.counted, full, small)

  -- The split key has the bounds of the leaf, and tells the parts apart.
  pub parts-Inside :
      (low high : Bound)
      → All (λ (e : Entry Contents). Inside low high e.0) es
      → Inside low high key
      → All
          (λ (e : Entry Contents).
            Inside low (some (cut_leaf key value es address).0.split.key) e.0)
          (left_entries (cut_leaf key value es address))
        × Inside low high (cut_leaf key value es address).0.split.key
        × All
            (λ (e : Entry Contents).
              Inside (some (cut_leaf key value es address).0.split.key) high e.0)
            (right_entries (cut_leaf key value es address))
  parts-Inside low high inside new =
      let returned = leaf_splits key value es used valid absent small debug address full in
      let joined =
        (split_entries debug key value es used address valid (omega (arith, small)) parts
          returned).0 in
      let sep =
        split_key-Separates debug key value es used address valid (omega (arith, small)) parts
          returned ne in
      let halves =
        All-parts (λ (e : Entry Contents). Inside low high e.0) (left_entries parts)
          (right_entries parts)
          (subst (All (λ (e : Entry Contents). Inside low high e.0)) (sym joined) (
            All-insert_ordered (λ (e : Entry Contents). Inside low high e.0) key value es new
              inside)) in
      (
        All-both (left_entries parts) (λ e i lt. (i.0, lt)) halves.0 sep.0,
        subst (Inside low high) (sym (cut_leaf_key key value es address))
            (All-key_at (Inside low high) es (half es) half_inside inside),
        All-both (right_entries parts) (λ e i ge. (ge, i.1)) halves.1 sep.1,
      )
