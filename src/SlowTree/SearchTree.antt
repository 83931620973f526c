-- ===== src/SlowTree/SearchTree.antt =====
-- The invariant of a search tree of libTupl/src/tupl/pvt/slow/Tree.cpp: the key of an entry of an
-- internal node, but for the first, separates what is below it from what is in front of it.
use tupl_native.Common.{
  ℕ, zero, suc, ◌≤◌, ◌≡◌, refl, sym, ◌∙◌, ap, true, false, Option, none, some, List, [], ◌∷◌, ◌++◌,
  arith, has, has-append, All, All-append, All-mono, subst,
}
use tupl_native.Bytes.{Contents, less}
use tupl_native.Bytes.Order.{less_trans, ge_trans}
use tupl_native.SlowNode.{Entry, Ptr, InternalNode, bytes_value_size}
use tupl_native.SlowNode.Insert.{IsValid}
use tupl_native.SlowNode.Splitting.{leaf_of}
use tupl_native.SlowTree.{AnyNode, Heap, leaf_node, internal_node, split_of}
use tupl_native.SlowTree.Inorder.{
  flat, entries_of, nodes_of, entries_of_leaf, entries_of_internal, has-nodes_of,
}

abbrev pub Bound : Type 0
Bound = Option Contents

abbrev pub AtLeast : Bound → Contents → Type 0
AtLeast none k = Unit {0}
AtLeast (some l) k = less k l ≡ false

abbrev pub Below : Bound → Contents → Type 0
Below none k = Unit {0}
Below (some h) k = less k h ≡ true

-- The keys from one bound on and below the other.
abbrev pub Inside : (low high : Bound) → Contents → Type 0
Inside low high k = AtLeast low k × Below high k

-- A child and those behind it: the key of each is the bound between it and the one in front.
abbrev pub Children :
    (Bound → Bound → Ptr → Type 0) → (low high : Bound) → Ptr → List (Entry Ptr) → Type 0
Children Sub low high p [] = Sub low high p
Children Sub low high p (c ∷ cs) =
    Sub low (some c.0) p × Inside low high c.0 × Children Sub (some c.0) high c.1 cs

pub record IsLeaf (heap : Heap) (limit : ℕ) (low high : Bound) (p : Ptr) : Type 0 where
  pub es : List (Entry Contents)
  pub used : ℕ
  pub leaf : heap p ≡ some (leaf_node (leaf_of es used))
  pub valid : IsValid bytes_value_size (leaf_of es used)
  pub inside : All (λ (e : Entry Contents). Inside low high e.0) es
  pub limited : used ≤ limit

pub record IsInternal (heap : Heap) (Sub : Bound → Bound → Ptr → Type 0) (low high : Bound)
    (p : Ptr) : Type 0 where
  pub cur : InternalNode
  pub here : heap p ≡ some (internal_node cur)
  pub whole : cur.split.sibling ≡ none
  pub k : Contents
  pub first : Ptr
  pub rest : List (Entry Ptr)
  pub shape : cur.children ≡ (k, first) ∷ rest
  pub children : Children Sub low high first rest

-- A search tree of that height with its keys between two bounds. No node has a split to be taken, and
-- no leaf has more bytes than the limit.
abbrev pub IsTree : Heap → (limit height : ℕ) → Bound → Bound → Ptr → Type 0
IsTree heap limit zero low high p = IsLeaf heap limit low high p
IsTree heap limit (suc height) low high p = IsInternal heap (IsTree heap limit height) low high p

pub IsTree-whole :
    (heap : Heap) (limit height : ℕ) (low high : Bound) (p : Ptr)
    → IsTree heap limit height low high p
    → (n : AnyNode) × (heap p ≡ some n) × ((split_of n).sibling ≡ none)
IsTree-whole heap limit zero low high p is = (leaf_node (leaf_of is.es is.used), is.leaf, refl)
IsTree-whole heap limit (suc height) low high p is = (internal_node is.cur, is.here, is.whole)

pub AtLeast-trans :
    (low : Bound) (k l : Contents) → AtLeast low l → less k l ≡ false → AtLeast low k
AtLeast-trans none k l a h = tt
AtLeast-trans (some m) k l a h = ge_trans k l m h a

pub Below-trans : (high : Bound) (k l : Contents) → Below high l → less k l ≡ true → Below high k
Below-trans none k l a h = tt
Below-trans (some m) k l a h = less_trans k l m h a

module _ (Sub : Bound → Bound → Ptr → Type 0) (entries : Ptr → List (Entry Contents))
    (sub_inside : (low high : Bound) (p : Ptr)
      → Sub low high p
      → All (λ (e : Entry Contents). Inside low high e.0) (entries p)) where
  pub Children-Inside :
      (low high : Bound) (p : Ptr) (cs : List (Entry Ptr))
      → Children Sub low high p cs
      → All (λ (e : Entry Contents). Inside low high e.0) (entries p ++ flat entries cs)
  Children-Inside low high p [] s = All-append _ (entries p) [] (sub_inside low high p s) tt
  Children-Inside low high p (c ∷ cs) (s, at, rest) =
      All-append _ (entries p) (entries c.1 ++ flat entries cs)
        (All-mono (entries p) (λ e (from, below). (from, Below-trans high e.0 c.0 at.1 below))
          (sub_inside low (some c.0) p s))
        (All-mono (entries c.1 ++ flat entries cs)
          (λ e (from, below). (AtLeast-trans low e.0 c.0 at.0 from, below))
          (Children-Inside (some c.0) high c.1 cs rest))

pub IsTree-Inside :
    (heap : Heap) (limit height : ℕ) (low high : Bound) (p : Ptr)
    → IsTree heap limit height low high p
    → All (λ (e : Entry Contents). Inside low high e.0) (entries_of heap height p)
IsTree-Inside heap limit zero low high p is =
    subst (All (λ (e : Entry Contents). Inside low high e.0))
      (sym (entries_of_leaf heap p (leaf_node (leaf_of is.es is.used)) is.leaf)) is.inside
IsTree-Inside heap limit (suc height) low high p is =
    subst (All (λ (e : Entry Contents). Inside low high e.0))
      (sym (
        entries_of_internal heap height p (internal_node is.cur) is.here
        ∙ ap (flat (entries_of heap height)) is.shape))
      (Children-Inside (IsTree heap limit height) (entries_of heap height)
        (IsTree-Inside heap limit height) low high is.first is.rest is.children)

module _ (Sub Sub' : Bound → Bound → Ptr → Type 0) (Keep : Ptr → Type 0)
    (keeps : (low high : Bound) (q : Ptr) → Keep q → Sub low high q → Sub' low high q) where
  pub Children-map :
      (low high : Bound) (p : Ptr) (cs : List (Entry Ptr))
      → Keep p
      → All (λ (c : Entry Ptr). Keep c.1) cs
      → Children Sub low high p cs
      → Children Sub' low high p cs
  Children-map low high p [] kp ks s = keeps low high p kp s
  Children-map low high p (c ∷ cs) kp ks (s, at, rest) =
      (keeps low (some c.0) p kp s, at, Children-map (some c.0) high c.1 cs ks.0 ks.1 rest)

pub All-flat :
    (ns : Ptr → List Ptr) (Same : Ptr → Type 0) (cs : List (Entry Ptr))
    → ((q : Ptr) → has q (flat ns cs) ≡ true → Same q)
    → All (λ (c : Entry Ptr). (q : Ptr) → has q (ns c.1) ≡ true → Same q) cs
All-flat ns Same [] h = tt
All-flat ns Same (c ∷ cs) h = (
  λ q m. h q (ground (arith, has-append q (ns c.1) (flat ns cs))),
  All-flat ns Same cs (λ q m. h q (ground (arith, has-append q (ns c.1) (flat ns cs)))),
)

-- A tree stays one under any change of the heap that spares its nodes, and under a higher limit.
pub IsTree-frame :
    (heap heap' : Heap) (limit limit' : ℕ)
    → limit ≤ limit'
    → (height : ℕ) (low high : Bound) (p : Ptr)
    → ((q : Ptr) → has q (nodes_of heap height p) ≡ true → heap' q ≡ heap q)
    → IsTree heap limit height low high p
    → IsTree heap' limit' height low high p
unfolding nodes_of
IsTree-frame heap heap' limit limit' h zero low high p same is = record {
  es = is.es;
  used = is.used;
  leaf = same p (ground arith) ∙ is.leaf;
  valid = is.valid;
  inside = is.inside;
  limited = omega (arith, is.limited);
}
IsTree-frame heap heap' limit limit' h (suc height) low high p same is =
    let below = λ (q : Ptr) (m : has q (flat (nodes_of heap height) is.cur.children) ≡ true).
      same q (has-nodes_of heap height p (internal_node is.cur) q is.here m) in
    let keep =
      All-flat (nodes_of heap height) (λ q. heap' q ≡ heap q) ((is.k, is.first) ∷ is.rest)
        (λ q m. below q (ap (λ cs. has q (flat (nodes_of heap height) cs)) is.shape ∙ m)) in
    record {
      cur = is.cur;
      here = same p (ground arith) ∙ is.here;
      whole = is.whole;
      k = is.k;
      first = is.first;
      rest = is.rest;
      shape = is.shape;
      children =
          Children-map (IsTree heap limit height) (IsTree heap' limit' height)
            (λ p. (q : Ptr) → has q (nodes_of heap height p) ≡ true → heap' q ≡ heap q)
            (λ low high q same s. IsTree-frame heap heap' limit limit' h height low high q same s)
            low high is.first is.rest keep.0 keep.1 is.children;
    }
