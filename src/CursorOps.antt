-- ===== src/CursorOps.antt =====
-- libTupl/src/tupl/pvt/ops.hpp and ops.cpp: the operations on a cursor, its stack of frames, and the
-- lists of frames that visit a node; libTupl/src/tupl/pvt/CursorFrame.hpp and Cursor.hpp: the data.
-- Here a latched operation is one step. A frame in a node's list is known by its slot in the stack.
pub mod Moving
pub mod Positions
pub mod Unwind
pub mod Storing
pub mod Latches
pub mod LatchOrder
pub mod LatchDescent
pub mod LatchOutcome
use tupl_native.Common.{
  ℕ, zero, suc, ◌+◌, ◌-◌, Bool, true, false, not, Option, none, some, List, [], ◌∷◌, ◌++◌, ltb, leb,
  ◌==◌, if◌then◌else◌, length, has, remove, add_size, sub_size, get_elem?, Outcome, ok, fail,
  undefined_behaviour, logic_error, runtime_error, ◌>>=◌, ◌>>◌, throw_if, Build, assert_that,
}
use tupl_native.Bytes.{Contents}
use tupl_native.SlowNode.{
  Ptr, LeafNode, InternalNode, inserted, failed_no_space, InsertResult, bytes_value_size,
}
use tupl_native.SlowNode.Ops.{insert_at, lower_bound_child}
use tupl_native.SlowTree.{Heap, AnyNode, leaf_node, internal_node, deref, entry_at, store}
use tupl_native.ArrayStack.{ArrayStack, empty, top_value, pop, size}

-- `CursorFrame`
pub record CursorFrame : Type 0 where
  pub node : Option Ptr
  pub position : ℕ
  pub not_found_key : Contents

-- `sizeof(CursorFrame)`: a pointer, a position, the pointer and the size of the key, and the two
-- pointers of a hook of `boost::intrusive`.
abbrev pub frame_size : ℕ
frame_size = 8 + 8 + (8 + 8) + (8 + 8)

-- Whose list of frames an iterator belongs to.
pub data FrameList : Type 0 where
  of_source of_sibling : FrameList

abbrev pub is_sibling : FrameList → Bool
is_sibling of_source = false
is_sibling of_sibling = true

-- A frame's new position, and whether the frame goes to the sibling.
unfoldable pub adjust :
    Build → (insert_pos split_pos : ℕ) → CursorFrame → Outcome (CursorFrame × Bool)
adjust build insert_pos split_pos f =
    if leb split_pos f.position
    then if ltb f.position insert_pos
      then ok (record f { position = sub_size f.position split_pos }, ltb split_pos insert_pos)
      else if ltb insert_pos f.position
      then ok (
        record f { position = add_size (sub_size f.position split_pos) 1 },
        ltb split_pos insert_pos,
      )
      else (assert_that build false >> ok (f, ltb split_pos insert_pos))
    else if ltb f.position insert_pos
    then ok (f, leb insert_pos split_pos)
    else if ltb insert_pos f.position
    then ok (record f { position = add_size f.position 1 }, leb insert_pos split_pos)
    else (assert_that build false >> ok (f, leb insert_pos split_pos))

-- The loop of `moveFrames`: the frames that have been left where they are, those that are to come,
-- and those of the sibling. A splice in front of an iterator of another list is undefined.
unfoldable pub move_frames_loop :
    Build
    → (insert_pos split_pos : ℕ) → (dst_end : FrameList) → (done todo sibling : List CursorFrame)
    → Outcome (List CursorFrame × List CursorFrame)
unfolding adjust
move_frames_loop build insert_pos split_pos dst_end done [] sibling = ok (done, sibling)
move_frames_loop build insert_pos split_pos dst_end done (f ∷ todo) sibling =
    adjust build insert_pos split_pos f >>= λ (f', moves). elim moves [
      | true ↦
          throw_if (not (is_sibling dst_end)) undefined_behaviour
          >> move_frames_loop build insert_pos split_pos dst_end done todo (sibling ++ (f' ∷ []))
      | false ↦ move_frames_loop build insert_pos split_pos dst_end (done ++ (f' ∷ [])) todo sibling
    ]

-- `moveFrames`: `dstEndIt` is the end of the source's list.
unfoldable pub move_frames :
    Build
    → (insert_pos split_pos : ℕ) → (source sibling : List CursorFrame)
    → Outcome (List CursorFrame × List CursorFrame)
unfolding move_frames_loop
move_frames build insert_pos split_pos source sibling =
    move_frames_loop build insert_pos split_pos of_source [] source sibling

-- `Cursor`, with `visitorFrames` of every node.
pub record Cursor : Type 0 where
  pub key : Contents
  pub stack_frames : ArrayStack CursorFrame
  pub visitors : Ptr → List ℕ

-- One round of `unwindAndLockRoot`: the frame on top leaves its node's list and the stack.
unfoldable pub unwind_top : Build → Cursor → Outcome (Cursor × Ptr)
unwind_top build c = do
  frame ← top_value build frame_size 64 c.stack_frames
  elim frame.node [
    | none ↦ fail undefined_behaviour
    | some node ↦ do
      throw_if (not (has (c.stack_frames.top - 1) (c.visitors node))) undefined_behaviour
      stack ← pop build frame_size 64 c.stack_frames
      ok (
        record c {
          stack_frames = stack;
          visitors = λ q.
              if q == node then remove (c.stack_frames.top - 1) (c.visitors node) else c.visitors q;
        },
        node,
      )
  ]

unfoldable pub unwind_loop : Build → ℕ → Cursor → Outcome Cursor
unfolding unwind_top
unwind_loop build zero c = ok c
unwind_loop build (suc n) c = unwind_top build c >>= λ (c', node). unwind_loop build n c'

-- `unwindAndLockRoot`: the cursor, and the node whose latch is held in the end.
unfoldable pub unwind_and_lock_root : Build → (root : Ptr) → Cursor → Outcome (Cursor × Ptr)
unfolding unwind_loop
unwind_and_lock_root build root c = do
  c' ← unwind_loop build (size 64 c.stack_frames - 1) c
  (c'', stack_root) ← unwind_top build c'
  ok (c'', if stack_root == root then stack_root else root)

-- `findChildNode`
unfoldable pub find_child_node : Build → InternalNode → Contents → Outcome Ptr
find_child_node build n key = do
  position ← lower_bound_child build n key
  e ← entry_at n position
  ok e.1

-- `findValue`
unfoldable pub find_value : LeafNode → Contents → Outcome (Unit {0})
find_value n key = fail (logic_error "unimplemented")

-- `isSplit`
abbrev pub is_split : Ptr → Bool
is_split node = false

-- `ops::bubbleSplitUpOneLevel`
abbrev pub bubble_split_up_one_level : (parent split_node : Ptr) → Outcome (Unit {0})
bubble_split_up_one_level parent split_node = fail (logic_error "unimplemented")

-- The descent of `find`. The fuel bounds the rounds: one for every level, and one for every split
-- that is repaired on the way. `childNode` and `node` are handed on as the source has them.
unfoldable pub find_loop : Build → Heap → (fuel : ℕ) → Ptr → Contents → Outcome (Unit {0})
unfolding find_child_node find_value
find_loop build heap zero node key = fail undefined_behaviour
find_loop build heap (suc fuel) node key = deref heap node >>= elim [
  | leaf_node n ↦ find_value n key
  | internal_node n ↦ find_child_node build n key >>= λ child. elim (is_split child) [
    | true ↦ bubble_split_up_one_level child node >> find_loop build heap fuel node key
    | false ↦ find_loop build heap fuel child key
  ]
]

-- `ops::find`, which sets the key and takes the cursor back to the root before it descends.
unfoldable pub find : Build → Heap → (fuel : ℕ) → (root : Ptr) → Contents → Cursor → Outcome Cursor
unfolding find_loop unwind_and_lock_root
find build heap fuel root key c = do
  let c₁ = record c { key = key }
  at_root ← empty build c₁.stack_frames
  c₂ ← if at_root then ok (c₁, root) else unwind_and_lock_root build root c₁
  find_loop build heap fuel root key
  ok c₂.0

-- `ops::splitLeaf`
unfoldable pub split_leaf : LeafNode → Outcome LeafNode
split_leaf n = fail (logic_error "unimplemented")

-- `ops::store`: puts the entry behind the last one of the leaf under the frame on top.
unfoldable pub store_value : Build → Heap → Contents → Cursor → Outcome Heap
unfolding split_leaf
store_value build heap value c = do
  unpositioned ← empty build c.stack_frames
  throw_if unpositioned (runtime_error "unpositioned")
  frame ← top_value build frame_size 64 c.stack_frames
  elim frame.node [
    | none ↦ fail undefined_behaviour
    | some p ↦ deref heap p >>= elim [
      | internal_node n ↦ fail undefined_behaviour
      | leaf_node n ↦
          insert_at bytes_value_size (length n.children) c.key value n >>= λ (n', result).
          elim result [
            | inserted ↦ ok (store heap p (leaf_node n'))
            | failed_no_space ↦
                assert_that build false >> split_leaf n' >>= λ m. ok (store heap p (leaf_node m))
          ]
    ]
  ]
