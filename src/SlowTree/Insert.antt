-- ===== src/SlowTree/Insert.antt =====
-- What an insertion below does to a parent in libTupl/src/tupl/pvt/slow/Tree.cpp, and `Tree::insert`
-- as it stands.
use tupl_native.Common.{
  if◌then◌else◌, ltb, invalid_argument, ℕ, suc, ◌+◌, ◌<◌, ◌^◌, ◌≤◌, ◌≡◌, ap, inl, inr, ◌∙◌, refl,
  arith, none, some, length, get_elem?, Outcome, ok, fail, logic_error, undefined_behaviour, Build,
  ◌>>=◌, ◌-◌, subst,
}
use tupl_native.Bytes.{Contents}
use tupl_native.SlowNode.{
  LeafNode, InternalNode, Ptr, Split, inserted, left, right, emplace, node_value_size, capacity,
  bytes_value_size,
}
use tupl_native.SlowNode.Ops.{find_child}
use tupl_native.SlowNode.Insert.{
  IsValid, insert_spec, insert_leaf-insert_spec, insert_at_lem, spec_returns,
}
use tupl_native.SlowTree.{
  Tree, AnyNode, leaf_node, internal_node, store, split_of, absorb_split, insert_in_leaf,
  insert_recursive, insert, allocate_internal,
}

insert_recursive_throws :
    (build : Build) (fuel : ℕ) (p : Ptr) (key value : Contents) (t : Tree) (n : InternalNode)
    → t.heap p ≡ some (internal_node n)
    → insert_recursive find_child build (suc fuel) p key value t ≡ fail (logic_error "unimplemeted")
unfolding insert_recursive find_child
insert_recursive_throws build fuel p key value t n at = ground arith

-- `Tree::insert` throws on every tree whose root is an internal node, because `InternalNode::find`
-- does.
pub insert_throws :
    (build : Build) (key value : Contents) (t : Tree) (n : InternalNode)
    → t.heap t.root ≡ some (internal_node n)
    → 0 < t.next
    → insert build key value t ≡ fail (logic_error "unimplemeted")
unfolding insert
insert_throws build key value t n root some_nodes =
    let e : suc (t.next - 1) ≡ t.next = omega arith in
    subst
      (λ fuel.
        insert_recursive find_child build fuel t.root key value t
        ≡ fail (logic_error "unimplemeted"))
      e (insert_recursive_throws build (t.next - 1) t.root key value t n root)

-- What the split of a child adds to its parent.
abbrev pub with_entry : InternalNode → ℕ → Split → Ptr → InternalNode
with_entry cur next_it split sibling = record cur {
  children =
      emplace cur.children (elim split.direction [ left ↦ next_it | right ↦ suc next_it ])
        (split.key, sibling);
  bytes = cur.bytes + (length split.key + 8);
}

pub absorb_none :
    (build : Build) (p : Ptr) (next_it : ℕ) (child : Ptr) (t : Tree) (c : AnyNode)
    → t.heap child ≡ some c
    → (split_of c).sibling ≡ none
    → absorb_split build p next_it child t ≡ ok t
unfolding absorb_split
absorb_none build p next_it child t c at whole = ground arith

pub absorb_some :
    (build : Build) (p : Ptr) (next_it : ℕ) (child : Ptr) (t : Tree) (c : AnyNode) (sibling : Ptr)
    (cur : InternalNode)
    → t.heap child ≡ some c
    → (split_of c).sibling ≡ some sibling
    → t.heap p ≡ some (internal_node cur)
    → length (split_of c).key + 8 ≤ 1024
    → cur.bytes + (length (split_of c).key + 8) ≤ capacity
    → absorb_split build p next_it child t
      ≡ ok (record t {
        heap = store t.heap p (internal_node (with_entry cur next_it (split_of c) sibling));
      })
unfolding absorb_split
absorb_some build p next_it child t c sibling cur at is_split here small room = ground (
  arith,
  insert_at_lem node_value_size
      (elim ((split_of c).direction) [ left ↦ next_it | right ↦ suc next_it ]) (split_of c).key
      sibling cur,
)

-- The parent throws if the split key and the pointer are too big for an entry. If it has no space for
-- them, it is to be split into the null that `allocateInternal` returns. Otherwise it takes them.
pub absorb_lem :
    (build : Build) (p : Ptr) (next_it : ℕ) (child : Ptr) (t : Tree) (c : AnyNode) (sibling : Ptr)
    (cur : InternalNode)
    → t.heap child ≡ some c
    → (split_of c).sibling ≡ some sibling
    → t.heap p ≡ some (internal_node cur)
    → length (split_of c).key + 8 < 2 ^ 64
    → cur.bytes ≤ capacity
    → absorb_split build p next_it child t ≡ (
        if ltb 1024 (length (split_of c).key + 8)
        then fail (invalid_argument "entry too big")
        else if ltb capacity (cur.bytes + (length (split_of c).key + 8))
        then fail undefined_behaviour
        else ok (record t {
          heap = store t.heap p (internal_node (with_entry cur next_it (split_of c) sibling));
        }))
unfolding absorb_split allocate_internal
absorb_lem build p next_it child t c sibling cur at is_split here in_memory fits = ground (
  arith,
  insert_at_lem node_value_size
      (elim ((split_of c).direction) [ left ↦ next_it | right ↦ suc next_it ]) (split_of c).key
      sibling cur,
)

module _ (build : Build) (key value : Contents) (t : Tree) (q : Ptr) (n m : LeafNode)
    (valid : IsValid bytes_value_size n) (in_memory : length key + length value < 2 ^ 64)
    (spec : insert_spec key value n ≡ ok (m, inserted)) where
  pub leaf_inserted :
      (insert_in_leaf build key value q n t ≡ ok (record t { heap = store t.heap q (leaf_node m) }))
      × (m.split ≡ n.split)
  unfolding insert_in_leaf
  leaf_inserted =
      let run = insert_leaf-insert_spec key value n valid in_memory ∙ spec in
      (
        rw run refl,
        elim (spec_returns key value n valid in_memory m inserted spec) [
          | inl (same, full, absent, space) ↦ ap (λ (l : LeafNode). l.split) same
          | inr (new, done, absent, size, space) ↦ ap (λ (l : LeafNode). l.split) new
        ],
      )

module _ (find : InternalNode → Contents → Outcome ℕ) (build : Build) (fuel : ℕ) (p : Ptr)
    (key value : Contents) (t : Tree) (cur : InternalNode) (next_it : ℕ) (k : Contents)
    (child : Ptr) (n : LeafNode) (here : t.heap p ≡ some (internal_node cur))
    (found : find cur key ≡ ok next_it) (entry : get_elem? cur.children next_it ≡ some (k, child))
    (below : t.heap child ≡ some (leaf_node n)) (valid : IsValid bytes_value_size n)
    (in_memory : length key + length value < 2 ^ 64) where
  pub insert_below :
      insert_recursive find build (suc (suc fuel)) p key value t
      ≡ (insert_in_leaf build key value child n t >>= absorb_split build p next_it child)
  unfolding insert_recursive
  insert_below = ground arith
