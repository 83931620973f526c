-- ===== src/PageAllocator.antt =====
-- libTupl/src/tupl/pvt/PageAllocator.hpp and PageAllocator.cpp: the doubly linked list of dirty
-- nodes, with the fields `nextDirty` and `prevDirty` of libTupl/src/tupl/pvt/Node.hpp as functions
-- of a node's address. `dirty` by itself is one step, for which it has the latch. A null pointer is `none`.
pub mod Chain
pub mod Dirty
pub mod Moves
pub mod Sequence
pub mod Pages
pub mod Threads
pub mod Holding
pub mod Interleaved
use tupl_native.Common.{
  ℕ, Bool, true, false, not, Option, none, some, ◌==◌, if◌then◌else◌, Outcome, ok, fail,
  undefined_behaviour, ◌>>=◌, ◌>>◌, Build, assert_that,
}
use tupl_native.PageDb.{PageDb}

-- The address of a node.
abbrev pub NodePtr : Type 0
NodePtr = ℕ

abbrev pub Links : Type 0
Links = NodePtr → Option NodePtr

pub record PageAllocator : Type 0 where
  pub first_dirty : Option NodePtr
  pub last_dirty : Option NodePtr
  pub flush_next : Option NodePtr
  pub next_dirty : Links
  pub prev_dirty : Links

abbrev pub write : Links → NodePtr → Option NodePtr → Links
write f p v q = if q == p then v else f q

abbrev pub points_to : Option NodePtr → NodePtr → Bool
points_to none q = false
points_to (some p) q = p == q

-- `PageAllocator(PageDb& source)`, over nodes that are in no list.
unfoldable pub new_allocator : PageAllocator
new_allocator = record {
  first_dirty = none;
  last_dirty = none;
  flush_next = none;
  next_dirty = λ p. none;
  prev_dirty = λ p. none;
}

-- `next->prevDirty = prev`, the link past the node, and `node->nextDirty = nullptr`.
unfoldable pub unlink :
    NodePtr → (next : NodePtr) → (prev : Option NodePtr) → PageAllocator → PageAllocator
unlink node next none a = record a {
  first_dirty = some next;
  next_dirty = write a.next_dirty node none;
  prev_dirty = write a.prev_dirty next none;
}
unlink node next (some p) a = record a {
  next_dirty = write (write a.next_dirty p (some next)) node none;
  prev_dirty = write a.prev_dirty next (some p);
}

-- `node->prevDirty = last` and `last->nextDirty = node`.
unfoldable pub link_last : NodePtr → (last : NodePtr) → PageAllocator → PageAllocator
link_last node last a = record a {
  prev_dirty = write a.prev_dirty node (some last);
  next_dirty = write a.next_dirty last (some node);
}

-- The end of `dirty`: `mLastDirty = node`, and the iterator steps off the node.
unfoldable pub finish : NodePtr → (next : Option NodePtr) → PageAllocator → PageAllocator
finish node next a = record a {
  last_dirty = some node;
  flush_next = if points_to a.flush_next node then next else a.flush_next;
}

unfoldable pub dirty : NodePtr → PageAllocator → Outcome PageAllocator
unfolding unlink link_last finish
dirty node a =
    let prev = a.prev_dirty node in
    elim (a.next_dirty node) [
      | some next ↦ elim a.last_dirty [
        | none ↦ fail undefined_behaviour
        | some last ↦ ok (finish node (some next) (link_last node last (unlink node next prev a)))
      ]
      | none ↦ elim prev [
        | some p ↦ ok (finish node none a)
        | none ↦ elim a.last_dirty [
          | none ↦ ok (finish node none (record a { first_dirty = some node }))
          | some last ↦ if last == node then ok a else ok (finish node none (link_last node last a))
        ]
      ]
    ]

-- `allocPage`: the page database must be the one that the allocator was made with. If its own
-- `allocPage` throws, the node is already in the list, so the allocator is returned beside what that
-- call does.
unfoldable pub alloc_page :
    {S : Type 0}
    → PageDb S
    → Build
    → (same_source : Bool) → NodePtr
    → PageAllocator
    → S
    → Outcome (PageAllocator × Outcome (ℕ × S))
unfolding dirty
alloc_page db build same_source node a s = do
  assert_that build same_source
  a' ← dirty node a
  ok (a', db.alloc_page s)
