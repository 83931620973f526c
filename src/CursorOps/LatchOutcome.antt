-- ===== src/CursorOps/LatchOutcome.antt =====
-- The events of `find` of libTupl/src/tupl/pvt/ops.cpp stand beside what it does: without them a
-- traced run is the operation.
use tupl_native.Common.{
  ℕ, zero, suc, ◌≡◌, refl, ◌∙◌, ap₂, arith, Bool, true, false, some, if◌then◌else◌, Outcome, ok,
  fail, Option-cases, inl, inr, Build, ◌>>=◌,
}
use tupl_native.Bytes.{Contents}
use tupl_native.SlowNode.{Ptr}
use tupl_native.SlowTree.{Heap, AnyNode, leaf_node, internal_node}
use tupl_native.ArrayStack.{empty}
use tupl_native.CursorOps.{
  Cursor, find, find_loop, find_value, find_child_node, unwind_and_lock_root,
}
use tupl_native.CursorOps.Latches.{quiet, find_loop_traced, find_traced, find_from, lock_root}
use tupl_native.CursorOps.LatchOrder.{
  Outcome-cases, and_then-outcome, bind_same, unwind_traced-outcome,
}

-- What is done with the cursor in the end does not bear on whether a run fails.
last_step :
    (o : Outcome (Cursor × Ptr)) (l : Outcome (Unit {0}))
    → (o >>= λ locked. l) ≡ ((o >>= λ c. l >>= λ done. ok c.0) >>= λ c'. ok tt)
last_step (fail e) l = refl
last_step (ok c) (fail e) = refl
last_step (ok c) (ok done) = refl

without_cursor :
    (o : Outcome Bool) (u : Bool → Outcome (Cursor × Ptr)) (l : Outcome (Unit {0}))
    → (o >>= λ at_root. u at_root >>= λ locked. l)
      ≡ ((o >>= λ at_root. u at_root >>= λ c. l >>= λ done. ok c.0) >>= λ c'. ok tt)
without_cursor (fail e) u l = refl
without_cursor (ok at_root) u l = last_step (u at_root) l

module _ (build : Build) (heap : Heap) (key : Contents) where
  node_outcome :
      (fuel : ℕ) (node : Ptr) (m : AnyNode)
      → heap node ≡ some m
      → ((child : Ptr)
          → (find_loop_traced (find_child_node build) heap fuel child key).1
            ≡ find_loop build heap fuel child key)
      → (find_loop_traced (find_child_node build) heap (suc fuel) node key).1
        ≡ find_loop build heap (suc fuel) node key
  unfolding find_loop_traced find_loop find_value
  node_outcome fuel node (leaf_node n) at ih = ground (arith, at)
  node_outcome fuel node (internal_node n) at ih =
      elim (Outcome-cases (find_child_node build n key)) [
        | inl (child, chosen) ↦ ground (arith, at, chosen, ih child)
        | inr (e, failed) ↦ ground (arith, at, failed)
      ]

  find_loop_traced-outcome :
      (fuel : ℕ) (node : Ptr)
      → (find_loop_traced (find_child_node build) heap fuel node key).1
        ≡ find_loop build heap fuel node key
  unfolding find_loop_traced find_loop find_value
  find_loop_traced-outcome zero node = refl
  find_loop_traced-outcome (suc fuel) node = elim (Option-cases (heap node)) [
    | inl gone ↦ ground (arith, gone)
    | inr (m, at) ↦ node_outcome fuel node m at (find_loop_traced-outcome fuel)
  ]

  lock_root-outcome :
      (root : Ptr) (c : Cursor) (at_root : Bool)
      → (lock_root build root c at_root).1
        ≡ (if at_root then ok (c, root) else unwind_and_lock_root build root c)
  unfolding lock_root
  lock_root-outcome root c true = refl
  lock_root-outcome root c false = unwind_traced-outcome build root c

  find_from-outcome :
      (fuel : ℕ) (root : Ptr) (c : Cursor) (at_root : Bool)
      → (find_from (find_child_node build) build heap fuel root key c at_root).1 ≡ (
          (if at_root then ok (c, root) else unwind_and_lock_root build root c) >>= λ locked.
          find_loop build heap fuel root key)
  unfolding find_from
  find_from-outcome fuel root c at_root =
      and_then-outcome (lock_root build root c at_root)
        (λ locked. find_loop_traced (find_child_node build) heap fuel root key)
      ∙ ap₂ (λ o l. o >>= λ (locked : Cursor × Ptr). l) (lock_root-outcome root c at_root)
          (find_loop_traced-outcome fuel root)

  -- With the search in a node that the source has, a traced run of `find` returns or fails as `find`
  -- does.
  pub find_traced-outcome :
      (fuel : ℕ) (root : Ptr) (c : Cursor)
      → (find_traced (find_child_node build) build heap fuel root key c).1
        ≡ (find build heap fuel root key c >>= λ c'. ok tt)
  unfolding find_traced find
  find_traced-outcome fuel root c =
      let start : Cursor = record c { key = key } in
      and_then-outcome (quiet (empty build c.stack_frames))
        (find_from (find_child_node build) build heap fuel root key start)
      ∙ bind_same (empty build c.stack_frames)
          (λ at_root. (find_from (find_child_node build) build heap fuel root key start at_root).1)
          (λ at_root.
            (if at_root then ok (start, root) else unwind_and_lock_root build root start)
            >>= λ locked. find_loop build heap fuel root key)
          (find_from-outcome fuel root start)
      ∙ without_cursor (empty build c.stack_frames)
          (λ at_root. if at_root then ok (start, root) else unwind_and_lock_root build root start)
          (find_loop build heap fuel root key)
