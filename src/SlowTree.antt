-- ===== src/SlowTree.antt =====
-- libTupl/src/tupl/pvt/slow/Tree.hpp and Tree.cpp: the B+tree over the "slow" nodes. Nodes live in a
-- heap, a function of their address. `InternalNode::find`, which only throws so far, is an
-- argument of the recursive insertion; `insert` hands it the one of the source.
pub mod Insert
pub mod Overflow
pub mod Descent
pub mod Inorder
pub mod Ways
pub mod Apart
pub mod Growth
pub mod Recursion
pub mod SearchTree
pub mod Selection
pub mod Turning
pub mod Steps
pub mod Keeping
pub mod Distinct
pub mod Sequence
pub mod Sorted
pub mod Fresh
pub mod NoSpace
pub mod Search
pub mod SplitParts
pub mod Opened
pub mod SearchSplit
pub mod LeftSplit
pub mod SearchInsert
pub mod Lost
pub mod RightPart
pub mod Appending
pub mod AppendKept
pub mod AppendSplit
pub mod Ascending
pub mod Bulk
use tupl_native.Common.{
  ℕ, zero, suc, ◌+◌, Bool, true, false, Option, none, some, List, [], ◌∷◌, ◌++◌, ◌==◌,
  if◌then◌else◌, get_elem?, Outcome, ok, fail, undefined_behaviour, ◌>>=◌, ◌>>◌, Build,
}
use tupl_native.Bytes.{Contents}
use tupl_native.SlowNode.{
  left, right, failed_no_space, inserted, InsertResult, Ptr, Split, LeafNode, InternalNode,
  new_leaf, new_internal, node_value_size, bytes_value_size,
}
use tupl_native.SlowNode.Ops.{
  insert_at, insert_leaf, split_and_insert_leaf, split_and_insert_internal, find_child,
}

-- A node by its dynamic type.
pub data AnyNode : Type 0 where
  leaf_node : LeafNode → AnyNode
  internal_node : InternalNode → AnyNode

abbrev pub Heap : Type 0
Heap = Ptr → Option AnyNode

-- `Tree`, with the heap that its nodes live in and the next free address.
pub record Tree : Type 0 where
  pub root : Ptr
  pub leaf_nodes : List (Option Ptr)
  pub internal_nodes : List (Option Ptr)
  pub heap : Heap
  pub next : Ptr

abbrev pub store : Heap → Ptr → AnyNode → Heap
store h p n q = if q == p then some n else h q

-- `Tree::Tree`
unfoldable pub new_tree : Tree
new_tree = record {
  root = 1;
  leaf_nodes = some 0 ∷ [];
  internal_nodes = some 1 ∷ [];
  heap = store (store (λ p. none) 0 (leaf_node new_leaf)) 1 (internal_node (new_internal 0));
  next = 2;
}

-- `allocateLeaf`
unfoldable pub allocate_leaf : Tree → Tree × Option Ptr
allocate_leaf t = (
  record t {
    leaf_nodes = t.leaf_nodes ++ (some t.next ∷ []);
    heap = store t.heap t.next (leaf_node new_leaf);
    next = suc t.next;
  },
  some t.next,
)

-- `allocateInternal`: `std::unique_ptr<InternalNode>()` is null.
unfoldable pub allocate_internal : Tree → Tree × Option Ptr
allocate_internal t = (record t { internal_nodes = t.internal_nodes ++ (none ∷ []) }, none)

-- `split` of a node, which the code casts to `InternalNode` also where it is a leaf: `mSplit` is read
-- as if it stood at the same place in both classes.
abbrev pub split_of : AnyNode → Split
split_of (leaf_node n) = n.split
split_of (internal_node n) = n.split

-- `*p`
abbrev pub deref : Heap → Ptr → Outcome AnyNode
deref h p = elim (h p) [ none ↦ fail undefined_behaviour | some n ↦ ok n ]

-- `*nextIt`
abbrev pub entry_at : InternalNode → ℕ → Outcome (Contents × Ptr)
entry_at n i = elim (get_elem? n.children i) [ none ↦ fail undefined_behaviour | some e ↦ ok e ]

-- The branch of `insertRecursive` for a leaf.
unfoldable pub insert_in_leaf : Build → Contents → Contents → Ptr → LeafNode → Tree → Outcome Tree
unfolding allocate_leaf
insert_in_leaf build key value p cur t = insert_leaf key value cur >>= λ (cur', result).
    elim result [
      | inserted ↦ ok (record t { heap = store t.heap p (leaf_node cur') })
      | failed_no_space ↦
          split_and_insert_leaf build key value cur' t.next new_leaf >>= λ (original, sibling).
          ok (record (allocate_leaf t).0 {
            heap = store (store t.heap t.next (leaf_node sibling)) p (leaf_node original);
          })
    ]

-- The split of a node that has no space for what its child's split adds, into a node at an address.
unfoldable pub split_parent :
    Build → Contents → (sibling : Ptr) → Ptr → InternalNode → Ptr → Tree → Outcome Tree
split_parent build key sibling p cur a t = deref t.heap a >>= elim [
  | leaf_node n ↦ fail undefined_behaviour
  | internal_node m ↦ split_and_insert_internal build key sibling cur a m >>= λ (original, parts).
      ok (record t {
        heap = store (store t.heap a (internal_node parts)) p (internal_node original);
      })
]

-- The end of `insertRecursive` for an internal node: the split of the child goes into the node. If it
-- has no space it is to be split into what `allocateInternal` returns, and null is dereferenced.
unfoldable pub absorb_split : Build → Ptr → (next_it : ℕ) → Ptr → Tree → Outcome Tree
unfolding allocate_internal split_parent
absorb_split build p next_it child t = do
  next ← deref t.heap child
  elim ((split_of next).sibling) [
    | none ↦ ok t
    | some sibling ↦ deref t.heap p >>= elim [
      | leaf_node n ↦ fail undefined_behaviour
      | internal_node cur ↦
          insert_at node_value_size
            (elim ((split_of next).direction) [ left ↦ next_it | right ↦ suc next_it ])
            ((split_of next).key) sibling cur
          >>= λ (cur', result). elim result [
            | inserted ↦ ok (record t { heap = store t.heap p (internal_node cur') })
            | failed_no_space ↦ elim ((allocate_internal t).1) [
              | none ↦ fail undefined_behaviour
              | some a ↦
                  split_parent build ((split_of next).key) sibling p cur' a (allocate_internal t).0
            ]
          ]
    ]
  ]

module _ (find : InternalNode → Contents → Outcome ℕ) where
  -- `insertRecursive`, with the fuel as a bound on the height of the tree.
  unfoldable pub insert_recursive :
      Build → (fuel : ℕ) → Ptr → Contents → Contents → Tree → Outcome Tree
  unfolding insert_in_leaf absorb_split
  insert_recursive build zero p key value t = fail undefined_behaviour
  insert_recursive build (suc fuel) p key value t = deref t.heap p >>= elim [
    | leaf_node cur ↦ insert_in_leaf build key value p cur t
    | internal_node cur ↦ find cur key >>= λ next_it. entry_at cur next_it >>= λ e.
        insert_recursive build fuel e.1 key value t >>= absorb_split build p next_it e.1
  ]

-- `insert`. A path through the tree meets no node twice, so the number of addresses that have been
-- given out bounds its length.
unfoldable pub insert : Build → Contents → Contents → Tree → Outcome Tree
unfolding insert_recursive
insert build key value t = insert_recursive find_child build t.next t.root key value t
