-- ===== src/PageAllocator/Dirty.antt =====
-- `PageAllocator::dirty` of libTupl/src/tupl/pvt/PageAllocator.cpp moves a node to the end of the
-- list of dirty nodes, or adds it there.
use tupl_native.Common.{
  NoDup, has-append, NoDup-append, append-NoDup, has, ◌≡◌, refl, sym, ◌∙◌, true, false, Option,
  none, some, List, [], ◌∷◌, ◌++◌, arith, if◌then◌else◌, ok, subst,
}
use tupl_native.PageAllocator.{
  NodePtr, Links, PageAllocator, write, points_to, dirty, unlink, link_last, finish,
}
use tupl_native.PageAllocator.Chain
use tupl_native.PageAllocator.Chain.{
  head_or, last_or, Chain, nil, cons, has_last, ne_of_has, last_some, last_or-append,
  head_or-append,
}

-- The dirty nodes are those of the list, in its order.
pub record IsDirtyList (a : PageAllocator) (xs : List NodePtr) : Type 0 where
  pub chain : Chain a.next_dirty a.prev_dirty none none xs
  pub no_dup : NoDup xs
  pub first : a.first_dirty ≡ head_or xs none
  pub last : a.last_dirty ≡ last_or xs none
  pub outside : (q : NodePtr) → has q xs ≡ false → (a.next_dirty q ≡ none) × (a.prev_dirty q ≡ none)

-- A new last node, whose `prev` is overwritten.
append_chain :
    {next prev : Links} {xs : List NodePtr} (node l : NodePtr)
    → Chain next prev none none xs
    → NoDup xs
    → has node xs ≡ false
    → last_or xs none ≡ some l
    → has l xs ≡ true
    → next node ≡ none
    → Chain (write next l (some node)) (write prev node (some l)) none none (xs ++ node ∷ [])
append_chain {xs} node l c nd out q m free =
    Chain.join xs (node ∷ [])
      (Chain.frame (λ a h. (refl, ground (arith, ne_of_has node a xs out h)))
        (Chain.write_last l (some node) nd q c))
      (cons (ground arith) (ground (arith, ne_of_has node l xs out m)) nil)

-- The list without a node that stands in front of another.
unlink_chain :
    {next prev : Links} (ys : List NodePtr) (node n : NodePtr) (zs : List NodePtr)
    → Chain next prev none none (ys ++ node ∷ n ∷ zs)
    → NoDup (ys ++ node ∷ n ∷ zs)
    → (p : NodePtr) → last_or ys none ≡ some p
    → has p ys ≡ true
    → Chain
        (write (write next p (some n)) node none)
        (write prev n (some p))
        none
        none
        (ys ++ n ∷ zs)
unlink_chain {next} {prev} ys node n zs c nd p q m =
    let (nd_ys, nd_rest, apart) = NoDup-append ys (node ∷ n ∷ zs) nd in
    let (front, back) = Chain.split ys (node ∷ n ∷ zs) c in
    let front' =
      Chain.frame {next' = write (write next p (some n)) node none} {prev' = write prev n (some p)}
        (λ a h. (ground (arith, apart a h), ground (arith, apart a h)))
        (Chain.write_last p (some n) nd_ys q front) in
    let back' =
      Chain.frame {next' = write (write next p (some n)) node none} {prev' = write prev n (some p)}
        (λ a h. (
          ground (arith, apart p m, ne_of_has p a (n ∷ zs), ne_of_has node a (n ∷ zs) nd_rest.0 h),
          refl,
        ))
        (Chain.write_first (some p) nd_rest.1.0 (Chain.tail back)) in
    Chain.join ys (n ∷ zs) front' (
      subst
        (λ o.
          Chain (write (write next p (some n)) node none) (write prev n (some p)) none o (n ∷ zs))
        (sym q) back')

-- The same at the front of the list.
unlink_first_chain :
    {next prev : Links} (node n : NodePtr) (zs : List NodePtr)
    → Chain next prev none none (node ∷ n ∷ zs)
    → NoDup (node ∷ n ∷ zs)
    → Chain (write next node none) (write prev n none) none none (n ∷ zs)
unlink_first_chain {next} {prev} node n zs c nd =
    Chain.frame (λ a h. (ground (arith, ne_of_has node a (n ∷ zs) nd.0 h), refl))
      (Chain.write_first none nd.1.0 (Chain.tail c))

-- What `dirty` has done: it has returned, with the list in the new order.
pub record Dirtied (node : NodePtr) (a a' : PageAllocator) (xs : List NodePtr)
    (next : Option NodePtr) : Type 0 where
  pub returned : dirty node a ≡ ok a'
  pub list : IsDirtyList a' xs
  pub flush : a'.flush_next ≡ (if points_to a.flush_next node then next else a.flush_next)

module _ (node : NodePtr) (a : PageAllocator) where
  pub dirty_new :
      (xs : List NodePtr)
      → IsDirtyList a xs
      → has node xs ≡ false
      → (a' : PageAllocator) × Dirtied node a a' (xs ++ node ∷ []) none
  unfolding dirty
  dirty_new [] is out =
      let (free, bare) = is.outside node refl in
      (
        finish node none (record a { first_dirty = some node }),
        record {
          returned = ground (arith, is.last);
          list = record {
            chain = cons bare free nil;
            no_dup = (refl, tt);
            first = refl;
            last = refl;
            outside = λ q h. is.outside q refl;
          };
          flush = refl;
        },
      )
  dirty_new (x ∷ xs) is out =
      let (free, bare) = is.outside node out in
      let (l, q) = last_some x xs in
      let m = has_last l x xs q in
      (
        finish node none (link_last node l a),
        record {
          returned = ground (arith, is.last, ne_of_has node l (x ∷ xs));
          list = record {
            chain = append_chain node l is.chain is.no_dup out q m free;
            no_dup =
                append-NoDup (x ∷ xs) (node ∷ []) is.no_dup (refl, tt)
                  (λ r h. ground (arith, ne_of_has node r (x ∷ xs)));
            first = is.first;
            last = sym (last_or-append (x ∷ xs) (node ∷ []) none);
            outside = λ r h.
                ground
                  (arith, is.outside r, has-append r (x ∷ xs) (node ∷ []), ne_of_has r l (x ∷ xs));
          };
          flush = refl;
        },
      )

  pub dirty_last :
      (ys : List NodePtr)
      → IsDirtyList a (ys ++ node ∷ [])
      → (a' : PageAllocator) × Dirtied node a a'
          (ys ++ node ∷ [])
          (elim ys [ [] ↦ some node | _ ∷ _ ↦ none ])
  unfolding dirty
  dirty_last [] is =
      let (bare, free) = Chain.head_links is.chain in
      (a, record { returned = ground (arith, is.last); list = is; flush = ground arith })
  dirty_last (y ∷ ys) is =
      let (bare, free) = Chain.head_links (Chain.split (y ∷ ys) (node ∷ []) is.chain).1 in
      let (p, q) = last_some y ys in
      (
        finish node none a,
        record {
          returned = ground arith;
          list = record {
            chain = is.chain;
            no_dup = is.no_dup;
            first = is.first;
            last = sym (last_or-append (y ∷ ys) (node ∷ []) none);
            outside = is.outside;
          };
          flush = refl;
        },
      )

  pub dirty_middle :
      (ys : List NodePtr) (n : NodePtr) (zs : List NodePtr)
      → IsDirtyList a (ys ++ node ∷ n ∷ zs)
      → (a' : PageAllocator) × Dirtied node a a' ((ys ++ n ∷ zs) ++ node ∷ []) (some n)
  unfolding dirty
  dirty_middle [] n zs is =
      let (bare, free) = Chain.head_links is.chain in
      let (l, q) = last_some n zs in
      let m = has_last l n zs q in
      (
        finish node (some n) (link_last node l (unlink node n none a)),
        record {
          returned = ground (arith, is.last);
          list = record {
            chain =
                append_chain node l (unlink_first_chain node n zs is.chain is.no_dup) is.no_dup.1
                  is.no_dup.0 q m (ground arith);
            no_dup =
                append-NoDup (n ∷ zs) (node ∷ []) is.no_dup.1 (refl, tt)
                  (λ r h. ground (arith, ne_of_has node r (n ∷ zs) is.no_dup.0 h));
            first = refl;
            last = sym (last_or-append (n ∷ zs) (node ∷ []) none);
            outside = λ r h.
                ground
                  (arith, is.outside r, has-append r (n ∷ zs) (node ∷ []), ne_of_has r l (n ∷ zs));
          };
          flush = refl;
        },
      )
  dirty_middle (y ∷ ys) n zs is =
      let (bare, free) = Chain.head_links (Chain.split (y ∷ ys) (node ∷ n ∷ zs) is.chain).1 in
      let (l, q) = last_some n zs in
      let (p, t) = last_some y ys in
      let m = has_last l n zs q in
      let mp = has_last p y ys t in
      let (nd_ys, nd_rest, apart) = NoDup-append (y ∷ ys) (node ∷ n ∷ zs) is.no_dup in
      let short =
        append-NoDup (y ∷ ys) (n ∷ zs) nd_ys nd_rest.1 (λ r h. ground (arith, apart r h)) in
      let out : has node (y ∷ ys ++ n ∷ zs) ≡ false =
        ground (arith, has-append node (y ∷ ys) (n ∷ zs), apart node, nd_rest.0) in
      (
        finish node (some n) (link_last node l (unlink node n (some p) a)),
        record {
          returned = ground (arith, is.last, last_or-append (y ∷ ys) (node ∷ n ∷ zs) none);
          list = record {
            chain =
                append_chain node l (unlink_chain (y ∷ ys) node n zs is.chain is.no_dup p t mp)
                  short out (last_or-append (y ∷ ys) (n ∷ zs) none ∙ q)
                  (ground (arith, has-append l (y ∷ ys) (n ∷ zs))) (ground arith);
            no_dup =
                append-NoDup (y ∷ ys ++ n ∷ zs) (node ∷ []) short (refl, tt)
                  (λ r h. ground (arith, ne_of_has node r (y ∷ ys ++ n ∷ zs) out h));
            first = is.first;
            last = sym (last_or-append (y ∷ ys ++ n ∷ zs) (node ∷ []) none);
            outside = λ r h. ground (
              arith,
              is.outside r,
              has-append r (y ∷ ys) (node ∷ n ∷ zs),
              has-append r (y ∷ ys ++ n ∷ zs) (node ∷ []),
              has-append r (y ∷ ys) (n ∷ zs),
              ne_of_has r l (n ∷ zs),
              ne_of_has r p (y ∷ ys),
            );
          };
          flush = refl;
        },
      )
