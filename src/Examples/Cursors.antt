-- ===== src/Examples/Cursors.antt =====
-- Frames of a node that is split, cursors that are unwound, and a store at a cursor.
use tupl_native.Common.{
  Bool, ℕ, zero, suc, ◌-◌, ◌≡◌, refl, none, some, true, List, [], ◌∷◌, arith, if◌then◌else◌, true,
  false, ◌-◌, length, get_elem?, has, ltb, ok, fail, invalid_argument, logic_error,
  undefined_behaviour, release,
}
use tupl_native.Bytes.{Contents}
use tupl_native.SlowNode.{Entry, Ptr, LeafNode, left, right, moved_entries, kept_entries, capacity}
use tupl_native.SlowNode.Splitting.{leaf_of}
use tupl_native.SlowTree.{Heap, leaf_node, internal_node, store}
use tupl_native.CursorOps.{
  adjust, CursorFrame, Cursor, move_frames, unwind_and_lock_root, find, store_value,
}
use tupl_native.CursorOps.Moving.{move_frames_lem, any_moves, repositioned}
use tupl_native.CursorOps.Positions.{split_direction, adjust_follows}
use tupl_native.CursorOps.Unwind.{IsBound, unwind_positioned}
use tupl_native.CursorOps.Storing.{store_value_lem}
use tupl_native.Examples.{small_leaf, four_entries}
use tupl_native.Examples.Trees.{root_node}

abbrev frame_at : ℕ → CursorFrame
frame_at i = record { node = some 0; position = i; not_found_key = [] }

-- Two frames that stay in a node that is split to the right.
move_frames_lem_example : move_frames release 3 2 (frame_at 0 ∷ frame_at 1 ∷ []) [] ≡ (
    if any_moves 3 2 (frame_at 0 ∷ frame_at 1 ∷ [])
    then fail undefined_behaviour
    else ok (repositioned 3 2 (frame_at 0 ∷ frame_at 1 ∷ []), []))
move_frames_lem_example =
    move_frames_lem 3 2 (frame_at 0 ∷ frame_at 1 ∷ []) [] (omega arith, (omega arith, tt))

to_left : adjust release 1 2 (frame_at 3) ≡ ok (frame_at 2, false)
unfolding adjust
to_left = refl

abbrev new_entry : Entry Contents
new_entry = (35 ∷ [], 7 ∷ [])

-- A frame whose entry stays in the source, at the place 1, but that is given the place 2.
adjust_follows_example :
    (if false
      then get_elem? (moved_entries four_entries (split_direction 1 2) 1 2 new_entry) 2
      else get_elem?
          (kept_entries four_entries (split_direction 1 2) 2)
          (elim (split_direction 1 2) [ left ↦ 2 - 1 | right ↦ 2 ]))
    ≡ get_elem? four_entries 3
adjust_follows_example =
    adjust_follows four_entries new_entry 1 2 (frame_at 3) (frame_at 2) false (omega arith)
      (omega arith) (omega arith) (omega arith) (λ e. absurd (omega (arith, e))) to_left

-- A cursor without frames, and one with a frame at the node 0.
abbrev frames : Bool → List CursorFrame
frames positioned = if positioned then frame_at 0 ∷ [] else []

abbrev pub cursor_of : Bool → Cursor
cursor_of positioned = record {
  key = 2 ∷ [];
  stack_frames = record { elems = get_elem? (frames positioned); top = length (frames positioned) };
  visitors = λ q. if positioned then 0 ∷ [] else [];
}

cursor_of-IsBound : IsBound (cursor_of true) (frames true)
cursor_of-IsBound = record {
  stands = record { count = refl; holds = λ i. refl; within = omega arith };
  bound = λ i f h. one_frame i f h;
}
  where
    one_frame :
        (i : ℕ) (f : CursorFrame)
        → get_elem? (frames true) i ≡ some f
        → (q : Ptr) × (f.node ≡ some q) × (has i ((cursor_of true).visitors q) ≡ true)
    one_frame zero f h = (0, ground (arith, h), refl)
    one_frame (suc i) f h = absurd (cc h)

abbrev pub heap : Heap
heap = store (store (λ p. none) 0 (leaf_node small_leaf)) 1 (internal_node root_node)

unwind_positioned_example :
    (unwind_and_lock_root release 1 (cursor_of true) ≡ fail undefined_behaviour)
    × (find release heap 2 1 (2 ∷ []) (cursor_of true) ≡ fail undefined_behaviour)
unwind_positioned_example =
    unwind_positioned heap 2 1 (2 ∷ []) (cursor_of true) (frame_at 0) [] cursor_of-IsBound

-- The key 2 behind the keys 1 and 3.
abbrev disordered : LeafNode
disordered = leaf_of ((1 ∷ [], 10 ∷ []) ∷ (3 ∷ [], 30 ∷ []) ∷ (2 ∷ [], 20 ∷ []) ∷ []) 6

stored :
    store_value release heap (20 ∷ []) (cursor_of true) ≡ ok (store heap 0 (leaf_node disordered))
stored =
    store_value_lem heap (20 ∷ []) (cursor_of true) [] (frame_at 0) 0 small_leaf
      cursor_of-IsBound.stands refl refl (omega arith) (omega arith)

store_value_lem_example : store_value release heap (20 ∷ []) (cursor_of true) ≡ (
    if ltb 1024 2
    then fail (invalid_argument "entry too big")
    else if ltb capacity 6
    then fail (logic_error "unimplemented")
    else ok (store heap 0 (leaf_node disordered)))
store_value_lem_example =
    store_value_lem heap (20 ∷ []) (cursor_of true) [] (frame_at 0) 0 small_leaf
      cursor_of-IsBound.stands refl refl (omega arith) (omega arith)
