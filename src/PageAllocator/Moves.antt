-- ===== src/PageAllocator/Moves.antt =====
-- The order of the dirty nodes that `PageAllocator::dirty` of
-- libTupl/src/tupl/pvt/PageAllocator.cpp leaves, for any node and any list of dirty nodes.
use tupl_native.Common.{
  has, remove, ◌≡◌, refl, sym, ◌∙◌, true, false, Option, none, some, List, [], ◌∷◌, ◌++◌, arith,
  ◌==◌, if◌then◌else◌, Bool-cases, inl, inr, ap, subst, Returns, append-nil,
}
use tupl_native.PageAllocator.{NodePtr, PageAllocator, points_to, dirty, new_allocator}
use tupl_native.PageAllocator.Chain.{head_or, nil}
use tupl_native.PageAllocator.Dirty.{IsDirtyList, Dirtied, dirty_new, dirty_last, dirty_middle}

-- The node behind a node.
unfoldable pub successor : NodePtr → List NodePtr → Option NodePtr
successor node [] = none
successor node (x ∷ xs) = if x == node then head_or xs none else successor node xs

-- Where the iterator goes that stood at the node: a sole dirty node keeps it.
unfoldable pub flush_target : NodePtr → List NodePtr → Option NodePtr
unfolding successor
flush_target node (x ∷ []) = if x == node then some node else none
flush_target node xs = successor node xs

find_node :
    (node : NodePtr) (xs : List NodePtr)
    → has node xs ≡ true
    → (ys : List NodePtr) × (zs : List NodePtr) × (xs ≡ ys ++ node ∷ zs) × (has node ys ≡ false)
find_node node [] h = absurd (cc h)
find_node node (x ∷ xs) h = elim (Bool-cases (x == node)) [
  | inl e ↦ ([], xs, ground arith, refl)
  | inr ne ↦
      let (ys, zs, q, out) = find_node node xs (ground arith) in
      (x ∷ ys, zs, ap (λ l. x ∷ l) q, ground arith)
]

remove_absent : (node : NodePtr) (xs : List NodePtr) → has node xs ≡ false → remove node xs ≡ xs
unfolding remove
remove_absent node [] h = refl
remove_absent node (x ∷ xs) h = ground (arith, remove_absent node xs)

remove-append :
    (node : NodePtr) (ys zs : List NodePtr)
    → has node ys ≡ false
    → remove node (ys ++ node ∷ zs) ≡ ys ++ zs
unfolding remove
remove-append node [] zs h = ground arith
remove-append node (y ∷ ys) zs h = ground (arith, remove-append node ys zs)

successor-absent :
    (node : NodePtr) (xs : List NodePtr) → has node xs ≡ false → successor node xs ≡ none
unfolding successor
successor-absent node [] h = refl
successor-absent node (x ∷ xs) h = ground (arith, successor-absent node xs)

successor-append :
    (node : NodePtr) (ys zs : List NodePtr)
    → has node ys ≡ false
    → successor node (ys ++ node ∷ zs) ≡ head_or zs none
unfolding successor
successor-append node [] zs h = ground arith
successor-append node (y ∷ ys) zs h = ground (arith, successor-append node ys zs)

flush_target-absent :
    (node : NodePtr) (xs : List NodePtr) → has node xs ≡ false → flush_target node xs ≡ none
unfolding flush_target
flush_target-absent node [] h = refl
flush_target-absent node (x ∷ []) h = ground arith
flush_target-absent node (x ∷ y ∷ xs) h = successor-absent node (x ∷ y ∷ xs) h

flush_target-last :
    (node : NodePtr) (ys : List NodePtr)
    → has node ys ≡ false
    → flush_target node (ys ++ node ∷ []) ≡ elim ys [ [] ↦ some node | _ ∷ _ ↦ none ]
unfolding flush_target
flush_target-last node [] h = ground arith
flush_target-last node (y ∷ []) h = successor-append node (y ∷ []) [] h
flush_target-last node (y ∷ z ∷ ys) h = successor-append node (y ∷ z ∷ ys) [] h

flush_target-middle :
    (node : NodePtr) (ys : List NodePtr) (n : NodePtr) (zs : List NodePtr)
    → has node ys ≡ false
    → flush_target node (ys ++ node ∷ n ∷ zs) ≡ some n
unfolding flush_target
flush_target-middle node [] n zs h = successor-append node [] (n ∷ zs) h
flush_target-middle node (y ∷ []) n zs h = successor-append node (y ∷ []) (n ∷ zs) h
flush_target-middle node (y ∷ z ∷ ys) n zs h = successor-append node (y ∷ z ∷ ys) (n ∷ zs) h

-- The dirty nodes in their new order, and the iterator.
pub record Moved (node : NodePtr) (a : PageAllocator) (xs : List NodePtr) (a' : PageAllocator)
    : Type 0 where
  pub list : IsDirtyList a' (remove node xs ++ node ∷ [])
  pub flush :
      a'.flush_next ≡ (if points_to a.flush_next node then flush_target node xs else a.flush_next)

module _ (node : NodePtr) (a : PageAllocator) where
  Moved-of :
      (xs xs' : List NodePtr) (a' : PageAllocator) (next : Option NodePtr)
      → Dirtied node a a' xs' next
      → xs' ≡ remove node xs ++ node ∷ []
      → next ≡ flush_target node xs
      → Returns (dirty node a) (Moved node a xs)
  Moved-of xs xs' a' next d e f = rw d.returned (record {
    list = subst (IsDirtyList a') e d.list;
    flush = d.flush ∙ ap (λ t. if points_to a.flush_next node then t else a.flush_next) f;
  })

  dirty_present :
      (ys zs : List NodePtr)
      → IsDirtyList a (ys ++ node ∷ zs)
      → has node ys ≡ false
      → Returns (dirty node a) (Moved node a (ys ++ node ∷ zs))
  dirty_present ys [] is out =
      let (a', d) = dirty_last node a ys is in
      Moved-of (ys ++ node ∷ []) (ys ++ node ∷ []) a' (elim ys [ [] ↦ some node | _ ∷ _ ↦ none ]) d
        (ap (λ l. l ++ node ∷ []) (sym (append-nil ys))
          ∙ ap (λ l. l ++ node ∷ []) (sym (remove-append node ys [] out)))
        (sym (flush_target-last node ys out))
  dirty_present ys (n ∷ zs) is out =
      let (a', d) = dirty_middle node a ys n zs is in
      Moved-of (ys ++ node ∷ n ∷ zs) ((ys ++ n ∷ zs) ++ node ∷ []) a' (some n) d
        (ap (λ l. l ++ node ∷ []) (sym (remove-append node ys (n ∷ zs) out)))
        (sym (flush_target-middle node ys n zs out))

  -- `dirty` returns for every node and every list of dirty nodes. The node is taken out if it is
  -- in the list, and is put at the end; the others keep their order, and the links are those of
  -- the new list. An iterator at the node moves on to the one behind it, or to null if there is
  -- none, but stays if the node is the only one; any other iterator stays.
  pub dirty-Moved :
      (xs : List NodePtr) → IsDirtyList a xs → Returns (dirty node a) (Moved node a xs)
  dirty-Moved xs is = elim (Bool-cases (has node xs)) [
    | inl m ↦
        let (ys, zs, q, out) = find_node node xs m in
        let is' = subst (IsDirtyList a) q is in
        subst (λ l. Returns (dirty node a) (Moved node a l)) (sym q) (dirty_present ys zs is' out)
    | inr out ↦
        let (a', d) = dirty_new node a xs is out in
        Moved-of xs (xs ++ node ∷ []) a' none d
          (ap (λ l. l ++ node ∷ []) (sym (remove_absent node xs out)))
          (sym (flush_target-absent node xs out))
  ]

pub new_allocator-IsDirtyList : IsDirtyList new_allocator []
unfolding new_allocator
new_allocator-IsDirtyList = record {
  chain = nil;
  no_dup = tt;
  first = refl;
  last = refl;
  outside = λ q h. (refl, refl);
}
