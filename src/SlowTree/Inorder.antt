-- ===== src/SlowTree/Inorder.antt =====
-- What a tree of libTupl/src/tupl/pvt/slow/Tree.cpp holds: the entries of its leaves from left to
-- right, and the addresses of its nodes.
use tupl_native.Common.{
  ℕ, zero, suc, ◌≡◌, refl, sym, ◌∙◌, ap, ap₂, true, none, some, List, [], ◌∷◌, ◌++◌, arith, has,
  has-append, append_assoc, Option-cases, inl, inr,
}
use tupl_native.Bytes.{Contents}
use tupl_native.SlowNode.{Entry, Ptr}
use tupl_native.SlowTree.{AnyNode, leaf_node, internal_node, Heap}

-- Joins what the children have, from left to right.
abbrev pub flat : {A : Type 0} → (Ptr → List A) → List (Entry Ptr) → List A
flat f [] = []
flat f (c ∷ cs) = f c.1 ++ flat f cs

abbrev pub leaf_entries : AnyNode → List (Entry Contents)
leaf_entries (leaf_node n) = n.children
leaf_entries (internal_node n) = []

abbrev pub child_entries : AnyNode → List (Entry Ptr)
child_entries (leaf_node n) = []
child_entries (internal_node n) = n.children

-- The entries of a tree of that height, its leaves at height 0.
unfoldable pub entries_of : Heap → (height : ℕ) → Ptr → List (Entry Contents)
entries_of heap zero p = elim (heap p) [ none ↦ [] | some n ↦ leaf_entries n ]
entries_of heap (suc height) p = elim (heap p) [
  | none ↦ []
  | some n ↦ flat (entries_of heap height) (child_entries n)
]

unfoldable pub nodes_of : Heap → (height : ℕ) → Ptr → List Ptr
nodes_of heap zero p = p ∷ []
nodes_of heap (suc height) p =
    p ∷ elim (heap p) [ none ↦ [] | some n ↦ flat (nodes_of heap height) (child_entries n) ]

pub flat-append :
    {A : Type 0} (f : Ptr → List A) (cs ds : List (Entry Ptr))
    → flat f (cs ++ ds) ≡ flat f cs ++ flat f ds
flat-append f [] ds = refl
flat-append f (c ∷ cs) ds =
    ap (λ l. f c.1 ++ l) (flat-append f cs ds) ∙ sym (append_assoc (f c.1) (flat f cs) (flat f ds))

pub entries_of_leaf :
    (heap : Heap) (p : Ptr) (n : AnyNode) → heap p ≡ some n → entries_of heap 0 p ≡ leaf_entries n
unfolding entries_of
entries_of_leaf heap p n at = ground (arith, at)

pub entries_of_internal :
    (heap : Heap) (height : ℕ) (p : Ptr) (n : AnyNode)
    → heap p ≡ some n
    → entries_of heap (suc height) p ≡ flat (entries_of heap height) (child_entries n)
unfolding entries_of
entries_of_internal heap height p n at = rw (at, entries_of) refl

pub nodes_of_internal :
    (heap : Heap) (height : ℕ) (p : Ptr) (n : AnyNode)
    → heap p ≡ some n
    → nodes_of heap (suc height) p ≡ p ∷ flat (nodes_of heap height) (child_entries n)
unfolding nodes_of
nodes_of_internal heap height p n at = rw (at, nodes_of) refl

pub has-nodes_of :
    (heap : Heap) (height : ℕ) (p : Ptr) (n : AnyNode) (q : Ptr)
    → heap p ≡ some n
    → has q (flat (nodes_of heap height) (child_entries n)) ≡ true
    → has q (nodes_of heap (suc height) p) ≡ true
has-nodes_of heap height p n q at h =
    ap (has q) (nodes_of_internal heap height p n at) ∙ ground arith

-- Two functions that are the same wherever the heaps are are the same on all children.
flat_frame :
    {A : Type 0} (f g : Ptr → List A) (ns : Ptr → List Ptr) (Same : Ptr → Type 0)
    (cs : List (Entry Ptr))
    → ((p : Ptr) → ((q : Ptr) → has q (ns p) ≡ true → Same q) → f p ≡ g p)
    → ((q : Ptr) → has q (flat ns cs) ≡ true → Same q)
    → flat f cs ≡ flat g cs
flat_frame f g ns Same [] ih same = refl
flat_frame f g ns Same (c ∷ cs) ih same =
    ap₂ (λ a b. a ++ b)
      (ih c.1 (λ q h. same q (ground (arith, has-append q (ns c.1) (flat ns cs)))))
      (flat_frame f g ns Same cs ih
        (λ q h. same q (ground (arith, has-append q (ns c.1) (flat ns cs)))))

-- A tree keeps its entries under any change of the heap that spares its nodes.
pub entries_of_frame :
    (heap heap' : Heap) (height : ℕ) (p : Ptr)
    → ((q : Ptr) → has q (nodes_of heap height p) ≡ true → heap' q ≡ heap q)
    → entries_of heap' height p ≡ entries_of heap height p
unfolding entries_of nodes_of
entries_of_frame heap heap' zero p same = ground (arith, same p)
entries_of_frame heap heap' (suc height) p same =
    let here : heap' p ≡ heap p = same p (ground arith) in
    elim (Option-cases (heap p)) [
      | inl gone ↦ ground arith
      | inr (n, at) ↦
          entries_of_internal heap' height p n (here ∙ at)
          ∙ flat_frame (entries_of heap' height) (entries_of heap height) (nodes_of heap height)
              (λ q. heap' q ≡ heap q) (child_entries n) (entries_of_frame heap heap' height)
              (λ q h. same q (has-nodes_of heap height p n q at h))
          ∙ sym (entries_of_internal heap height p n at)
    ]

pub flat-entries_of_frame :
    (heap heap' : Heap) (height : ℕ) (cs : List (Entry Ptr))
    → ((q : Ptr) → has q (flat (nodes_of heap height) cs) ≡ true → heap' q ≡ heap q)
    → flat (entries_of heap' height) cs ≡ flat (entries_of heap height) cs
flat-entries_of_frame heap heap' height cs same =
    flat_frame (entries_of heap' height) (entries_of heap height) (nodes_of heap height)
      (λ q. heap' q ≡ heap q) cs (entries_of_frame heap heap' height) same

pub nodes_of_frame :
    (heap heap' : Heap) (height : ℕ) (p : Ptr)
    → ((q : Ptr) → has q (nodes_of heap height p) ≡ true → heap' q ≡ heap q)
    → nodes_of heap' height p ≡ nodes_of heap height p
unfolding nodes_of
nodes_of_frame heap heap' zero p same = refl
nodes_of_frame heap heap' (suc height) p same =
    let here : heap' p ≡ heap p = same p (ground arith) in
    elim (Option-cases (heap p)) [
      | inl gone ↦ ground arith
      | inr (n, at) ↦
          nodes_of_internal heap' height p n (here ∙ at)
          ∙ ap (λ l. p ∷ l)
              (flat_frame (nodes_of heap' height) (nodes_of heap height) (nodes_of heap height)
                (λ q. heap' q ≡ heap q) (child_entries n) (nodes_of_frame heap heap' height)
                (λ q h. same q (has-nodes_of heap height p n q at h)))
          ∙ sym (nodes_of_internal heap height p n at)
    ]

pub flat-nodes_of_frame :
    (heap heap' : Heap) (height : ℕ) (cs : List (Entry Ptr))
    → ((q : Ptr) → has q (flat (nodes_of heap height) cs) ≡ true → heap' q ≡ heap q)
    → flat (nodes_of heap' height) cs ≡ flat (nodes_of heap height) cs
flat-nodes_of_frame heap heap' height cs same =
    flat_frame (nodes_of heap' height) (nodes_of heap height) (nodes_of heap height)
      (λ q. heap' q ≡ heap q) cs (nodes_of_frame heap heap' height) same
