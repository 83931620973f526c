-- ===== src/SlowNode/Sentinel.antt =====
-- Where `InternalNode::splitAndInsert` of libTupl/src/tupl/pvt/slow/Node.cpp leaves the entry whose
-- key it takes out.
use tupl_native.Common.{
  ℕ, zero, suc, ◌+◌, ◌^◌, ◌≤◌, ◌<◌, ◌≡◌, refl, true, false, List, [], ◌∷◌, ◌++◌, arith, length,
  drop, get_elem?, some, inl, inr, ok, Build, if◌then◌else◌, ap, sym, ◌∙◌, subst, ◌==◌,
  get_elem?-drop, get_elem?_in_range, lt_or_ge, lt→ltb, le→ltb,
}
use tupl_native.Bytes.{Contents}
use tupl_native.SlowNode.{Entry, InternalNode, Ptr, internal, left, right, capacity, emplace}
use tupl_native.SlowNode.Ops.{split_and_insert_internal, recalculate_bytes_used}
use tupl_native.SlowNode.Order.{IsOrdered, position_of}
use tupl_native.SlowNode.InternalSplit.{
  internal_of, middle, key_of, without_key, cut_internal, split_internal_spec,
  split_and_insert-split_internal_spec,
}

emplace_after :
    (xs : List (Entry Ptr)) (i j : ℕ) (e : Entry Ptr)
    → i ≤ j
    → get_elem? (emplace xs i e) (suc j) ≡ get_elem? xs j
emplace_after [] zero j e h = refl
emplace_after [] (suc i) j e h = refl
emplace_after (x ∷ xs) zero j e h = refl
emplace_after (x ∷ xs) (suc i) zero e h = absurd (omega arith)
emplace_after (x ∷ xs) (suc i) (suc j) e h = emplace_after xs i j e (omega arith)

emplace_before :
    (xs : List (Entry Ptr)) (i j : ℕ) (e : Entry Ptr)
    → j < i
    → j < length xs
    → get_elem? (emplace xs i e) j ≡ get_elem? xs j
emplace_before [] i j e h q = absurd (omega arith)
emplace_before (x ∷ xs) zero j e h q = absurd (omega arith)
emplace_before (x ∷ xs) (suc i) zero e h q = refl
emplace_before (x ∷ xs) (suc i) (suc j) e h q = emplace_before xs i j e (omega arith) (omega arith)

get-without_key :
    (es : List (Entry Ptr)) (i : ℕ) (k : Contents) (c : Ptr)
    → get_elem? es i ≡ some (k, c)
    → get_elem? (without_key es i) i ≡ some ([], c)
get-without_key [] i k c h = absurd (cc h)
get-without_key (x ∷ es) zero k c h = ground arith
get-without_key (x ∷ es) (suc i) k c h = let rest = get-without_key es i k c h in ground arith

-- The part of a split node that stands on the right, without what the sibling had before.
abbrev pub right_part : InternalNode → InternalNode × InternalNode → List (Entry Ptr)
right_part m (o, s) = elim o.split.direction [
  | left ↦ o.children
  | right ↦ drop (length m.children) s.children
]

drop-append : (xs ys : List (Entry Ptr)) → drop (length xs) (xs ++ ys) ≡ ys
drop-append [] ys = refl
drop-append (x ∷ xs) ys = drop-append xs ys

module _ (build : Build) (key : Contents) (child : Ptr) (es : List (Entry Ptr)) (used : ℕ)
    (address : Ptr) (m : InternalNode) (same : m.node_type ≡ internal) (ordered : IsOrdered es)
    (fits : used ≤ capacity) (in_memory : length key + 8 < 2 ^ 64) (r : InternalNode × InternalNode)
    (returned : split_and_insert_internal build key child (internal_of es used) address m ≡ ok r)
    (k : Contents) (c : Ptr) (cut_at : get_elem? es (middle es) ≡ some (k, c)) where
  split_internal_returns : r ≡ cut_internal key child es address m
  unfolding split_internal_spec
  split_internal_returns =
      let h =
        sym (
          split_and_insert-split_internal_spec build key child es used address m same ordered fits
            in_memory)
        ∙ returned in
      ground arith

  cut_internal_sentinel :
      ((cut_internal key child es address m).0.split.key ≡ k)
      × (get_elem?
            (right_part m (cut_internal key child es address m))
            (if position_of key es == middle es then 1 else 0)
          ≡ some ([], c))
  unfolding cut_internal recalculate_bytes_used
  cut_internal_sentinel =
      let mid = middle es in
      let i = position_of key es in
      let xs = without_key es (middle es) in
      let whole = emplace xs i (key, child) in
      let stands = get-without_key es (middle es) k c cut_at in
      let key_is : key_of es (middle es) ≡ k = ground arith in
      let range : middle es < length xs = get_elem?_in_range xs (middle es) ([], c) stands in
      elim (lt_or_ge i mid) [
        | inl lt ↦
            let at : suc mid + 0 ≡ suc mid = omega arith in
            let ne : (i == mid) ≡ false = ground arith in
            rw (lt→ltb _ _ lt, ne)
              (
                key_is,
                get_elem?-drop (suc mid) whole 0
                    ∙ ap (get_elem? whole) at
                    ∙ emplace_after xs i mid (key, child) (omega arith)
                    ∙ stands,
              )
        | inr ge ↦
            rw (le→ltb _ _ ge, drop-append m.children (drop mid whole))
              (
                key_is,
                elim (lt_or_ge mid i) [
                  | inl gt ↦
                      let at : mid + 0 ≡ mid = omega arith in
                      let ne : (i == mid) ≡ false = ground arith in
                      rw ne (
                        get_elem?-drop mid whole 0
                        ∙ ap (get_elem? whole) at
                        ∙ emplace_before xs i mid (key, child) gt range
                        ∙ stands)
                  | inr le ↦
                      let at : mid + 1 ≡ suc mid = omega arith in
                      let is : (i == mid) ≡ true = ground arith in
                      rw is (
                        get_elem?-drop mid whole 1
                        ∙ ap (get_elem? whole) at
                        ∙ emplace_after xs i mid (key, child) le
                        ∙ stands)
                ],
              )
      ]

  -- After `splitAndInsert` of an ordered internal node the split key is the key of the entry at which
  -- the node is split, and that entry is, with an empty key, the first of the right part; but it
  -- is the second if the new entry has its place there.
  pub split_internal_sentinel :
      (r.0.split.key ≡ k)
      × (get_elem? (right_part m r) (if position_of key es == middle es then 1 else 0)
          ≡ some ([], c))
  split_internal_sentinel =
      subst
        (λ (p : InternalNode × InternalNode).
          (p.0.split.key ≡ k)
          × (get_elem? (right_part m p) (if position_of key es == middle es then 1 else 0)
              ≡ some ([], c)))
        (sym split_internal_returns) cut_internal_sentinel
