-- ===== src/CursorOps/Latches.antt =====
-- The latches that `unwindAndLockRoot` and `find` of libTupl/src/tupl/pvt/ops.cpp take and give back,
-- and the lists of frames that they change, as the events of a run.
use tupl_native.Common.{
  ℕ, zero, suc, ◌-◌, Bool, true, false, List, [], ◌∷◌, ◌++◌, ◌==◌, if◌then◌else◌, Outcome, ok, fail,
  undefined_behaviour, Build,
}
use tupl_native.Bytes.{Contents}
use tupl_native.SlowNode.{Ptr, InternalNode}
use tupl_native.SlowTree.{Heap, leaf_node, internal_node, deref}
use tupl_native.ArrayStack.{empty, size}
use tupl_native.CursorOps.{Cursor, unwind_top, find_value, is_split, bubble_split_up_one_level}

-- `scoped_exclusive_lock` on a node's latch, its end, and `visitorFrames.erase` of a node.
pub data LatchEvent : Type 0 where
  lock unlock : Ptr → LatchEvent
  erase : (slot : ℕ) → Ptr → LatchEvent

-- The events of a run, and its outcome.
abbrev pub Traced : Type 0 → Type 0
Traced A = List LatchEvent × Outcome A

abbrev pub after_events : {A : Type 0} → List LatchEvent → Traced A → Traced A
after_events es t = (es ++ t.0, t.1)

-- A part that has no events.
abbrev pub quiet : {A : Type 0} → Outcome A → Traced A
quiet o = ([], o)

unfoldable pub and_then : {A B : Type 0} → Traced A → (A → Traced B) → Traced B
and_then t f = elim t.1 [ fail e ↦ (t.0, fail e) | ok a ↦ after_events t.0 (f a) ]

-- A round of the loop of `unwindAndLockRoot`. The frame in this slot is the one on top.
unfoldable pub unwind_loop_traced : Build → ℕ → Cursor → Traced Cursor
unfolding and_then
unwind_loop_traced build zero c = quiet (ok c)
unwind_loop_traced build (suc n) c = and_then (quiet (unwind_top build c)) (λ (c', node).
    after_events (lock node ∷ erase (c.stack_frames.top - 1) node ∷ unlock node ∷ [])
      (unwind_loop_traced build n c'))

-- `rootLock`: the one of the node of the last frame, and if that is not the root, the one of the
-- root, which is taken before the assignment gives the other one back.
abbrev pub root_locks : (root stack_root : Ptr) (slot : ℕ) → List LatchEvent
root_locks root stack_root slot =
    lock stack_root
    ∷ erase slot stack_root
    ∷ (if stack_root == root then [] else (lock root ∷ unlock stack_root ∷ []))

-- The last frame that is taken off.
unfoldable pub unwind_last : Build → (root : Ptr) → Cursor → Traced (Cursor × Ptr)
unfolding and_then
unwind_last build root c = and_then (quiet (unwind_top build c)) (λ (c', stack_root). (
  root_locks root stack_root (c.stack_frames.top - 1),
  ok (c', if stack_root == root then stack_root else root),
))

unfoldable pub unwind_traced : Build → (root : Ptr) → Cursor → Traced (Cursor × Ptr)
unfolding unwind_loop_traced unwind_last
unwind_traced build root c =
    and_then (unwind_loop_traced build (size 64 c.stack_frames - 1) c) (unwind_last build root)

module _ (find_child : InternalNode → Contents → Outcome Ptr) where
  -- The descent of `find` with `parentLock` on the node, which its destructor gives back in the end,
  -- also behind an exception. The swap leaves the lock of the parent to the end of the round.
  unfoldable pub find_loop_traced : Heap → (fuel : ℕ) → Ptr → Contents → Traced (Unit {0})
  find_loop_traced heap zero node key = quiet (fail undefined_behaviour)
  find_loop_traced heap (suc fuel) node key = elim (deref heap node) [
    | fail e ↦ quiet (fail e)
    | ok n ↦ elim n [
      | leaf_node n ↦ (unlock node ∷ [], find_value n key)
      | internal_node n ↦ elim (find_child n key) [
        | fail e ↦ (unlock node ∷ [], fail e)
        | ok child ↦ elim (is_split child) [
          | true ↦ elim (bubble_split_up_one_level child node) [
            | fail e ↦ (lock child ∷ unlock child ∷ unlock node ∷ [], fail e)
            | ok done ↦
                after_events (lock child ∷ unlock child ∷ []) (find_loop_traced heap fuel node key)
          ]
          | false ↦
              after_events (lock child ∷ unlock node ∷ []) (find_loop_traced heap fuel child key)
        ]
      ]
    ]
  ]

-- The latch of the root, for a cursor that is not positioned and for one that is.
unfoldable pub lock_root : Build → (root : Ptr) → Cursor → (at_root : Bool) → Traced (Cursor × Ptr)
unfolding unwind_traced
lock_root build root c true = (lock root ∷ [], ok (c, root))
lock_root build root c false = unwind_traced build root c

module _ (find_child : InternalNode → Contents → Outcome Ptr) where
  unfoldable pub find_from :
      Build → Heap → (fuel : ℕ) → (root : Ptr) → Contents → Cursor → Bool → Traced (Unit {0})
  unfolding lock_root find_loop_traced
  find_from build heap fuel root key c at_root =
      and_then (lock_root build root c at_root)
        (λ locked. find_loop_traced find_child heap fuel root key)

  unfoldable pub find_traced :
      Build → Heap → (fuel : ℕ) → (root : Ptr) → Contents → Cursor → Traced (Unit {0})
  unfolding find_from
  find_traced build heap fuel root key c =
      and_then (quiet (empty build c.stack_frames))
        (find_from build heap fuel root key (record c { key = key }))
