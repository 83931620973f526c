-- ===== src/SlowNode/SplitKey.antt =====
-- The split key that `LeafNode::splitAndInsert` of libTupl/src/tupl/pvt/slow/Node.cpp records:
-- where it tells the two leaves apart, and where it does not.
use tupl_native.Common.{
  ℕ, zero, suc, ◌+◌, ◌^◌, ◌≤◌, ◌<◌, ◌≡◌, ◌≢◌, refl, true, false, List, [], ◌∷◌, arith, length, take,
  drop, get_elem?, sym, ◌∙◌, some, Bool-cases, inl, inr, ltb, le→ltb, ok, Build, All, All-mono,
  subst,
}
use tupl_native.Bytes.{Contents, less}
use tupl_native.Bytes.Order.{less_irrefl, less_asymm, less_of_ge_ne}
use tupl_native.SlowNode.{Entry, LeafNode, Ptr, right, bytes_value_size, new_leaf}
use tupl_native.SlowNode.Ops.{split_and_insert_leaf}
use tupl_native.SlowNode.Order.{
  IsOrdered, Absent, position_of, insert_ordered, Absent-lookup, insert_ordered-IsOrdered,
}
use tupl_native.SlowNode.Size.{length-insert_ordered}
use tupl_native.SlowNode.Insert.{IsValid}
use tupl_native.SlowNode.Splitting.{leaf_of, key_at, half, cut_leaf}
use tupl_native.SlowNode.Halves.{left_entries, right_entries, split_returns}

-- Every key on the left is less than the split key, and none on the right is.
abbrev pub Separates : Contents → List (Entry Contents) → List (Entry Contents) → Type 0
Separates k ls rs = All (λ e. less e.0 k ≡ true) ls × All (λ e. less e.0 k ≡ false) rs

All-get :
    (k : Contents) (es : List (Entry Contents)) (j : ℕ)
    → j < length es
    → All (λ f. less k f.0 ≡ true) es
    → less k (key_at es j) ≡ true
All-get k [] j h a = absurd (omega arith)
All-get k (e ∷ es) zero h a = a.0
All-get k (e ∷ es) (suc j) h a = All-get k es j (omega arith) a.1

-- In ordered entries the key at a position separates what stands in front of it from the rest.
key_at-Separates :
    (es : List (Entry Contents)) (j : ℕ)
    → IsOrdered es
    → j < length es
    → Separates (key_at es j) (take j es) (drop j es)
key_at-Separates [] j o h = absurd (omega arith)
key_at-Separates (e ∷ es) zero o h =
    (tt, (less_irrefl e.0, All-mono es (λ f lt. less_asymm e.0 f.0 lt) o.0))
key_at-Separates (e ∷ es) (suc j) o h =
    let rest = key_at-Separates es j o.1 (omega arith) in
    ((All-get e.0 es j (omega arith) o.0, rest.0), rest.1)

key_at-insert_behind :
    (key value : Contents) (es : List (Entry Contents)) (j : ℕ)
    → position_of key es ≤ j
    → key_at (insert_ordered key value es) (suc j) ≡ key_at es j
unfolding position_of insert_ordered
key_at-insert_behind key value [] j h = refl
key_at-insert_behind key value (e ∷ es) zero h = ground arith
key_at-insert_behind key value (e ∷ es) (suc j) h =
    ground (arith, key_at-insert_behind key value es j)

key_at-insert_before :
    (key value : Contents) (es : List (Entry Contents)) (j : ℕ)
    → j < position_of key es
    → key_at (insert_ordered key value es) j ≡ key_at es j
unfolding position_of insert_ordered
key_at-insert_before key value [] j h = absurd (omega arith)
key_at-insert_before key value (e ∷ es) zero h = ground arith
key_at-insert_before key value (e ∷ es) (suc j) h =
    ground (arith, key_at-insert_before key value es j)

-- At its own position stands the new entry.
get-insert_ordered :
    (key value : Contents) (es : List (Entry Contents))
    → get_elem? (insert_ordered key value es) (position_of key es) ≡ some (key, value)
unfolding position_of insert_ordered
get-insert_ordered key value [] = refl
get-insert_ordered key value (e ∷ es) = ground (arith, get-insert_ordered key value es)

-- The entry that a new key stands in front of has a greater key.
less-position_of :
    (key : Contents) (es : List (Entry Contents))
    → position_of key es < length es
    → Absent key es
    → less key (key_at es (position_of key es)) ≡ true
unfolding position_of
less-position_of key [] h a = absurd (omega arith)
less-position_of key (e ∷ es) h a = ground (arith, less-position_of key es, less_of_ge_ne key e.0)

get-drop : (es : List (Entry Contents)) (j : ℕ) → get_elem? (drop j es) 0 ≡ get_elem? es j
get-drop [] zero = refl
get-drop (e ∷ es) zero = refl
get-drop [] (suc j) = refl
get-drop (e ∷ es) (suc j) = get-drop es j

module _ (key value : Contents) (es : List (Entry Contents)) (address : Ptr)
    (ordered : IsOrdered es) (absent : Absent key es) (long : 2 ≤ length es) where
  abbrev whole : List (Entry Contents)
  whole = insert_ordered key value es

  cut-Separates :
      position_of key es ≢ half es
      → Separates
          (cut_leaf key value es address).0.split.key
          (left_entries (cut_leaf key value es address))
          (right_entries (cut_leaf key value es address))
  unfolding cut_leaf
  cut-Separates ne =
      let o = insert_ordered-IsOrdered key value es ordered absent in
      let n = length-insert_ordered key value es in
      elim (Bool-cases (ltb (position_of key es) (half es))) [
        | inl lt ↦
            rw (lt, ← key_at-insert_behind key value es (half es) (ground arith))
              (key_at-Separates whole (suc (half es)) o (omega arith))
        | inr ge ↦
            rw (ge, ← key_at-insert_before key value es (half es) (ground arith))
              (key_at-Separates whole (half es) o (omega arith))
      ]

  -- A new entry that would stand where the leaf is split becomes the first of the sibling.
  cut_misses :
      position_of key es ≡ half es
      → ((cut_leaf key value es address).0.split.direction ≡ right)
        × (get_elem? (cut_leaf key value es address).1.children 0 ≡ some (key, value))
        × (less key (cut_leaf key value es address).0.split.key ≡ true)
  unfolding cut_leaf
  cut_misses at = rw (le→ltb (position_of key es) (half es) (omega arith)) (
    refl,
    get-drop whole (half es)
        ∙ subst (λ i. get_elem? whole i ≡ some (key, value)) at (get-insert_ordered key value es),
    subst (λ i. less key (key_at es i) ≡ true) at (less-position_of key es (omega arith) absent),
  )

-- `splitAndInsert` on a valid leaf that is not split has returned the two leaves `r`.
module _ (build : Build) (key value : Contents) (es : List (Entry Contents)) (used : ℕ)
    (address : Ptr) (valid : IsValid bytes_value_size (leaf_of es used))
    (in_memory : length key + length value < 2 ^ 64) (r : LeafNode × LeafNode)
    (returned : split_and_insert_leaf build key value (leaf_of es used) address new_leaf
      ≡ ok r) where
  -- Unless the new entry stands where the leaf is split, the recorded split key separates the two
  -- leaves: keys on the left are less, and keys on the right are not.
  pub split_key-Separates :
      position_of key es ≢ half es → Separates r.0.split.key (left_entries r) (right_entries r)
  split_key-Separates ne =
      let back = split_returns build key value es used address valid in_memory r returned in
      subst
        (λ (p : LeafNode × LeafNode). Separates p.0.split.key (left_entries p) (right_entries p))
        (sym back.0)
        (cut-Separates key value es address valid.ordered (Absent-lookup key es back.1)
          (omega arith) ne)

  -- If the new entry stands where the leaf is split, the split is to the right, the new entry is
  -- the first of the sibling, and the recorded split key is greater than its key.
  pub split_key_misses :
      position_of key es ≡ half es
      → (r.0.split.direction ≡ right)
        × (get_elem? r.1.children 0 ≡ some (key, value))
        × (less key r.0.split.key ≡ true)
  split_key_misses at =
      let back = split_returns build key value es used address valid in_memory r returned in
      subst
        (λ (p : LeafNode × LeafNode).
          (p.0.split.direction ≡ right)
          × (get_elem? p.1.children 0 ≡ some (key, value))
          × (less key p.0.split.key ≡ true))
        (sym back.0)
        (cut_misses key value es address valid.ordered (Absent-lookup key es back.1) (omega arith)
          at)
