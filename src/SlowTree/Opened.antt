-- ===== src/SlowTree/Opened.antt =====
-- A node of a searchable tree of libTupl/src/tupl/pvt/slow/Tree.cpp, opened at the child that `find`
-- leads to: the bounds of the child, and what may be put in its place.
use tupl_native.Common.{
  ℕ, zero, suc, ◌≡◌, refl, sym, ◌∙◌, ap, subst, true, some, List, [], ◌∷◌, ◌++◌, arith, length, has,
  Outcome, ok,
}
use tupl_native.Bytes.{Contents}
use tupl_native.SlowNode.{Entry, InternalNode, Ptr}
use tupl_native.SlowTree.{Heap, internal_node}
use tupl_native.SlowTree.Inorder.{flat, entries_of, nodes_of, has-nodes_of}
use tupl_native.SlowTree.Ways.{Turn}
use tupl_native.SlowTree.SearchTree.{Bound, Inside, Children, Children-map, All-flat}
use tupl_native.SlowTree.Selection.{child_at, select}
use tupl_native.SlowTree.Search.{IsSearchable, IsSearchable-Inside}

-- A searchable tree stays one under any change of the heap that spares its nodes.
IsSearchable-frame :
    (heap heap' : Heap) (height : ℕ) (low high : Bound) (p : Ptr)
    → ((q : Ptr) → has q (nodes_of heap height p) ≡ true → heap' q ≡ heap q)
    → IsSearchable heap height low high p
    → IsSearchable heap' height low high p
unfolding nodes_of
IsSearchable-frame heap heap' zero low high p same is = record {
  cur = is.cur;
  here = same p (ground arith) ∙ is.here;
  inside = is.inside;
}
IsSearchable-frame heap heap' (suc height) low high p same is =
    let below = λ (q : Ptr) (m : has q (flat (nodes_of heap height) is.cur.children) ≡ true).
      same q (has-nodes_of heap height p (internal_node is.cur) q is.here m) in
    let keep =
      All-flat (nodes_of heap height) (λ q. heap' q ≡ heap q) ((is.k, is.first) ∷ is.rest)
        (λ q m. below q (ap (λ cs. has q (flat (nodes_of heap height) cs)) is.shape ∙ m)) in
    record {
      cur = is.cur;
      here = same p (ground arith) ∙ is.here;
      k = is.k;
      first = is.first;
      rest = is.rest;
      shape = is.shape;
      children =
          Children-map (IsSearchable heap height) (IsSearchable heap' height)
            (λ p. (q : Ptr) → has q (nodes_of heap height p) ≡ true → heap' q ≡ heap q)
            (λ low high q same s. IsSearchable-frame heap heap' height low high q same s) low high
            is.first is.rest keep.0 keep.1 is.children;
    }

-- A list is taken apart at a position in one way.
apart_once :
    {A : Type 0} (xs ys : List A) (a b : A) (zs ws : List A)
    → length xs ≡ length ys
    → xs ++ (a ∷ zs) ≡ ys ++ (b ∷ ws)
    → (xs ≡ ys) × (a ≡ b) × (zs ≡ ws)
apart_once [] [] a b zs ws h e = (refl, cc e, cc e)
apart_once [] (y ∷ ys) a b zs ws h e = absurd (omega (arith, h))
apart_once (x ∷ xs) [] a b zs ws h e = absurd (omega (arith, h))
apart_once (x ∷ xs) (y ∷ ys) a b zs ws h e =
    let head : x ≡ y = cc e in
    let rest = apart_once xs ys a b zs ws (omega (arith, h)) (cc e) in
    (cc (head, rest.0), rest.1, rest.2)

-- The child with its bounds, and the tree with others behind it.
pub record Opened (heap : Heap) (height : ℕ) (low high : Bound) (p child : Ptr) (key k : Contents)
    (front back : List (Entry Ptr)) : Type 0 where
  pub low_here : Bound
  pub high_here : Bound
  pub sub : IsSearchable heap height low_here high_here child
  pub inside : Inside low_here high_here key
  pub rebuild :
      (heap' : Heap) (cur' : InternalNode) (new : List (Entry Ptr))
      → heap' p ≡ some (internal_node cur')
      → cur'.children ≡ front ++ ((k, child) ∷ (new ++ back))
      → ((q : Ptr) → has q (flat (nodes_of heap height) front) ≡ true → heap' q ≡ heap q)
      → ((q : Ptr) → has q (flat (nodes_of heap height) back) ≡ true → heap' q ≡ heap q)
      → Children (IsSearchable heap' height) low_here high_here child new
      → IsSearchable heap' (suc height) low high p

module _ (find : InternalNode → Contents → Outcome ℕ)
    (finds : (n : InternalNode) (key : Contents) → find n key ≡ ok (child_at key n.children)) where
  pub open_at :
      {heap : Heap} {key : Contents} {height : ℕ} {p child : Ptr} (low high : Bound)
      (way : Turn find heap key height p child)
      → IsSearchable heap (suc height) low high p
      → Inside low high key
      → Opened heap height low high p child key way.k way.front way.back
  open_at {heap} {key} {height} {p} {child} low high way is inside =
      let sel =
        select (IsSearchable heap height) (entries_of heap height) (IsSearchable-Inside heap height)
          key low high is.k is.first is.rest inside is.children in
      let cur : is.cur ≡ way.cur = cc (is.here, way.here) in
      let at : child_at key way.cur.children ≡ length way.front =
        cc (finds way.cur key, way.found) in
      let shape : sel.front ++ ((sel.key_here, sel.child) ∷ sel.back)
          ≡ way.front ++ ((way.k, child) ∷ way.back) =
        sym (is.shape ∙ sel.shape) ∙ ap (λ (n : InternalNode). n.children) cur ∙ way.children in
      let position : length sel.front ≡ length way.front =
        sym (sel.at key sel.inside)
        ∙ sym (ap (child_at key) is.shape)
        ∙ ap (λ (n : InternalNode). child_at key n.children) cur
        ∙ at in
      let (f, e, b) =
        apart_once sel.front way.front (sel.key_here, sel.child) (way.k, child) sel.back way.back
          position shape in
      let c : sel.child ≡ child = cc e in
      record {
        low_here = sel.low_here;
        high_here = sel.high_here;
        sub = subst (IsSearchable heap height sel.low_here sel.high_here) c sel.sub;
        inside = sel.inside;
        rebuild = λ heap' cur' new here shape' same_front same_back s. record {
          cur = cur';
          here = here;
          k = is.k;
          first = is.first;
          rest = sel.after new;
          shape = shape' ∙ cc (f, e, b) ∙ sym (sel.after_shape new);
          children =
              sel.rebuild_with (IsSearchable heap' height)
                (λ p. (q : Ptr) → has q (nodes_of heap height p) ≡ true → heap' q ≡ heap q) new
                (All-flat (nodes_of heap height) (λ q. heap' q ≡ heap q) sel.front
                  (λ q m. same_front q (cc (f, m))))
                (All-flat (nodes_of heap height) (λ q. heap' q ≡ heap q) sel.back
                  (λ q m. same_back q (cc (b, m))))
                (λ low high q same s. IsSearchable-frame heap heap' height low high q same s)
                (subst (λ q. Children (IsSearchable heap' height) sel.low_here sel.high_here q new)
                  (sym c) s);
        };
      }
