-- ===== src/CursorOps/LatchDescent.antt =====
-- The order in which `find` of libTupl/src/tupl/pvt/ops.cpp takes latches on its way down.
use tupl_native.Common.{
  ℕ, zero, suc, ◌-◌, ◌<◌, ◌≡◌, refl, ◌∙◌, ap, Bool, true, false, ◌||◌, some, List, [], ◌∷◌, ltb,
  ◌==◌, arith, get_elem?, remove, All, All-get_elem?, inl, inr, if◌then◌else◌, Failure, Outcome, ok,
  fail, Build,
}
use tupl_native.Bytes.{Contents}
use tupl_native.SlowNode.{Entry, Ptr, LeafNode, InternalNode}
use tupl_native.SlowTree.{Heap, AnyNode, leaf_node, internal_node}
use tupl_native.ArrayStack.{empty, size}
use tupl_native.CursorOps.{Cursor, unwind_top, unwind_loop, unwind_and_lock_root, find_value}
use tupl_native.CursorOps.Latches.{
  LatchEvent, lock, unlock, Traced, after_events, quiet, and_then, unwind_traced, find_loop_traced,
  find_traced, find_from, lock_root,
}
use tupl_native.CursorOps.LatchOrder.{
  follow, follow-append, Outcome-cases, and_then_ok, unwind_traced-follow, unwind_traced-outcome,
}

-- The children of every node are there, and further down.
abbrev pub Descends : Heap → (Ptr → ℕ) → Type 0
Descends heap rank =
    (p : Ptr) (n : InternalNode)
    → heap p ≡ some (internal_node n)
    → All (λ (c : Entry Ptr). (rank c.1 < rank p) × ((m : AnyNode) × (heap c.1 ≡ some m)))
        n.children

-- The search for the child that a key belongs to gives one of the node's, if it returns.
abbrev pub Chooses : (InternalNode → Contents → Outcome Ptr) → Type 0
Chooses find_child =
    (n : InternalNode) (key : Contents) (child : Ptr)
    → find_child n key ≡ ok child
    → (i : ℕ) × (k : Contents) × (get_elem? n.children i ≡ some (k, child))

module _ (find_child : InternalNode → Contents → Outcome Ptr) (chooses : Chooses find_child)
    (heap : Heap) (rank : Ptr → ℕ) (descends : Descends heap rank) where
  follow_down :
      (node child : Ptr) (es : List LatchEvent)
      → rank child < rank node
      → follow rank (node ∷ []) (lock child ∷ unlock node ∷ es) ≡ follow rank (child ∷ []) es
  unfolding follow remove
  follow_down node child es h = ground arith

  find_loop_leaf :
      (fuel : ℕ) (node : Ptr) (key : Contents) (n : LeafNode)
      → heap node ≡ some (leaf_node n)
      → find_loop_traced find_child heap (suc fuel) node key ≡ (unlock node ∷ [], find_value n key)
  unfolding find_loop_traced find_value
  find_loop_leaf fuel node key n at = rw (find_loop_traced, at) refl

  find_loop_fails :
      (fuel : ℕ) (node : Ptr) (key : Contents) (n : InternalNode) (e : Failure)
      → heap node ≡ some (internal_node n)
      → find_child n key ≡ fail e
      → find_loop_traced find_child heap (suc fuel) node key ≡ (unlock node ∷ [], fail e)
  unfolding find_loop_traced
  find_loop_fails fuel node key n e at failed = rw (find_loop_traced, at, failed) refl

  find_loop_down :
      (fuel : ℕ) (node child : Ptr) (key : Contents) (n : InternalNode)
      → heap node ≡ some (internal_node n)
      → find_child n key ≡ ok child
      → find_loop_traced find_child heap (suc fuel) node key
        ≡ after_events
            (lock child ∷ unlock node ∷ [])
            (find_loop_traced find_child heap fuel child key)
  unfolding find_loop_traced
  find_loop_down fuel node child key n at chosen = rw (find_loop_traced, at, chosen) refl

  follow_end : (node : Ptr) → follow rank (node ∷ []) (unlock node ∷ []) ≡ some []
  unfolding follow remove
  follow_end node = ground arith

  find_loop_traced-follow :
      (fuel : ℕ) (node : Ptr) (key : Contents) (m : AnyNode)
      → heap node ≡ some m
      → rank node < fuel
      → follow rank (node ∷ []) (find_loop_traced find_child heap fuel node key).0 ≡ some []
  find_loop_traced-follow zero node key m at h = absurd (omega arith)
  find_loop_traced-follow (suc fuel) node key (leaf_node n) at h =
      ap (λ (t : Traced (Unit {0})). follow rank (node ∷ []) t.0)
        (find_loop_leaf fuel node key n at)
      ∙ follow_end node
  find_loop_traced-follow (suc fuel) node key (internal_node n) at h =
      elim (Outcome-cases (find_child n key)) [
        | inl (child, chosen) ↦
            let (i, k, entry) = chooses n key child chosen in
            let (lower, (m, there)) =
              All-get_elem? _ n.children i (k, child) (descends node n at) entry in
            ap (λ (t : Traced (Unit {0})). follow rank (node ∷ []) t.0)
              (find_loop_down fuel node child key n at chosen)
            ∙ follow_down node child (find_loop_traced find_child heap fuel child key).0 lower
            ∙ find_loop_traced-follow fuel child key m there (omega (arith, lower))
        | inr (e, failed) ↦
            ap (λ (t : Traced (Unit {0})). follow rank (node ∷ []) t.0)
              (find_loop_fails fuel node key n e at failed)
            ∙ follow_end node
      ]

-- A cursor whose stack is empty, or whose frames come off it, the last one of them at the root or at
-- a node above it. From a stack of 64 bytes frames never come off, so there only the first occurs.
pub data Unwinds (rank : Ptr → ℕ) (build : Build) (root : Ptr) (c : Cursor) : Type 0 where
  unpositioned : empty build c.stack_frames ≡ ok true → Unwinds rank build root c
  positioned :
      (stack_root : Ptr) (c' c'' : Cursor)
      → empty build c.stack_frames ≡ ok false
      → unwind_loop build (size 64 c.stack_frames - 1) c ≡ ok c'
      → unwind_top build c' ≡ ok (c'', stack_root)
      → ((stack_root == root) || ltb (rank root) (rank stack_root)) ≡ true
      → Unwinds rank build root c

unwound :
    (build : Build) (root stack_root : Ptr) (c c' c'' : Cursor)
    → unwind_loop build (size 64 c.stack_frames - 1) c ≡ ok c'
    → unwind_top build c' ≡ ok (c'', stack_root)
    → (locked : Cursor × Ptr) × ((unwind_traced build root c).1 ≡ ok locked)
unfolding unwind_and_lock_root
unwound build root stack_root c c' c'' loop top = (
  (c'', if stack_root == root then stack_root else root),
  unwind_traced-outcome build root c ∙ rw (loop, top) refl,
)

module _ (find_child : InternalNode → Contents → Outcome Ptr) (chooses : Chooses find_child)
    (heap : Heap) (rank : Ptr → ℕ) (descends : Descends heap rank) where
  module _ (build : Build) (fuel : ℕ) (root : Ptr) (key : Contents) (c : Cursor) where
    abbrev descent : Traced (Unit {0})
    descent = find_loop_traced find_child heap fuel root key

    abbrev start : Cursor
    start = record c { key = key }

    traced_from :
        (at_root : Bool) (es : List LatchEvent) (locked : Cursor × Ptr)
        → empty build c.stack_frames ≡ ok at_root
        → lock_root build root start at_root ≡ (es, ok locked)
        → find_traced find_child build heap fuel root key c ≡ after_events es descent
    unfolding find_traced find_from
    traced_from at_root es locked is_empty run =
        and_then_ok (quiet (empty build c.stack_frames))
          (find_from find_child build heap fuel root key start) at_root is_empty
        ∙ ap (λ (t : Traced (Cursor × Ptr)). and_then t (λ locked. descent)) run
        ∙ and_then_ok (es, ok locked) (λ locked. descent) locked refl

    -- From a cursor that is not positioned, or one whose frames come off its stack with the last one
    -- at the root or above it, `find`, over a search in a node that gives one of its children and
    -- on a tree whose nodes are there, with a rank that falls from a node to its children and with
    -- fuel for more than the rank of the root, takes each latch below those that it holds, holds at
    -- most two, takes frames only out of the list of a node whose latch it holds, and has given
    -- every latch back in the end, also where it throws.
    pub find_traced-follow :
        (m : AnyNode)
        → heap root ≡ some m
        → rank root < fuel
        → Unwinds rank build root start
        → follow rank [] (find_traced find_child build heap fuel root key c).0 ≡ some []
    unfolding follow lock_root
    find_traced-follow m at h (unpositioned is_empty) =
        ap (λ (t : Traced (Unit {0})). follow rank [] t.0)
          (traced_from true (lock root ∷ []) (start, root) is_empty refl)
        ∙ find_loop_traced-follow find_child chooses heap rank descends fuel root key m at h
    find_traced-follow m at h (positioned stack_root c' c'' is_empty loop top ordered) =
        let held = unwind_traced-follow rank build root stack_root start c' c'' loop top in
        let (locked, run) = unwound build root stack_root start c' c'' loop top in
        ap (λ (t : Traced (Unit {0})). follow rank [] t.0)
          (traced_from false (unwind_traced build root start).0 locked is_empty
            (ap (λ o. ((unwind_traced build root start).0, o)) run))
        ∙ follow-append rank [] (root ∷ []) (unwind_traced build root start).0 descent.0
            (held ∙ rw ordered refl)
        ∙ find_loop_traced-follow find_child chooses heap rank descends fuel root key m at h
