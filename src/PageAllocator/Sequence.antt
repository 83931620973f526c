-- ===== src/PageAllocator/Sequence.antt =====
-- Sequences of calls of `PageAllocator::dirty` of libTupl/src/tupl/pvt/PageAllocator.cpp on an
-- allocator that has just been made.
use tupl_native.Common.{
  has-append, has, remove, has-remove, ◌≡◌, refl, ◌||◌, List, [], ◌∷◌, ◌++◌, arith, Outcome, ok,
  ◌>>=◌, Returns, Returns-bind,
}
use tupl_native.PageAllocator.{NodePtr, PageAllocator, dirty, new_allocator}
use tupl_native.PageAllocator.Dirty.{IsDirtyList}
use tupl_native.PageAllocator.Moves.{dirty-Moved, new_allocator-IsDirtyList}

-- Calls of `dirty` one after the other.
unfoldable pub dirty_each : List NodePtr → PageAllocator → Outcome PageAllocator
dirty_each [] a = ok a
dirty_each (node ∷ nodes) a = dirty node a >>= dirty_each nodes

-- The order that they leave: a node stands where its last call put it.
unfoldable pub move_each : List NodePtr → List NodePtr → List NodePtr
move_each [] xs = xs
move_each (node ∷ nodes) xs = move_each nodes (remove node xs ++ node ∷ [])

has-move_each :
    (q : NodePtr) (nodes xs : List NodePtr) → has q (move_each nodes xs) ≡ (has q nodes || has q xs)
unfolding move_each
has-move_each q [] xs = refl
has-move_each q (node ∷ nodes) xs = ground (
  arith,
  has-move_each q nodes (remove node xs ++ node ∷ []),
  has-append q (remove node xs) (node ∷ []),
  has-remove q node xs,
)

dirty_each-IsDirtyList :
    (nodes : List NodePtr) (a : PageAllocator) (xs : List NodePtr)
    → IsDirtyList a xs
    → Returns (dirty_each nodes a) (λ a'. IsDirtyList a' (move_each nodes xs))
unfolding dirty_each move_each
dirty_each-IsDirtyList [] a xs is = is
dirty_each-IsDirtyList (node ∷ nodes) a xs is =
    Returns-bind _ (dirty node a) (dirty_each nodes) (dirty-Moved node a xs is)
      (λ a' m. dirty_each-IsDirtyList nodes a' (remove node xs ++ node ∷ []) m.list)

-- Any calls of `dirty`, in any order and however often for a node, return on a new allocator. The
-- dirty list then holds the nodes of the calls and no others, each once, in the order of the last
-- call for each, and the links both ways are those of this list.
pub dirty_each_new :
    (nodes : List NodePtr)
    → Returns (dirty_each nodes new_allocator) (λ a. IsDirtyList a (move_each nodes []))
      × ((q : NodePtr) → has q (move_each nodes []) ≡ has q nodes)
dirty_each_new nodes = (
  dirty_each-IsDirtyList nodes new_allocator [] new_allocator-IsDirtyList,
  λ q. ground (arith, has-move_each q nodes []),
)
