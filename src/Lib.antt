-- ===== src/Lib.antt =====
-- TuplNative: a model of the B+tree library under libTupl/src/tupl, with its theorems.
--
-- The program is the beginning of an embedded database. Nodes of a B+tree hold entries in order of
-- their keys (pvt/slow); a comparator that skips shared prefixes is to search nodes in a page
-- layout, and an allocator links the dirty ones (pvt); a stack in an array is to hold the frames of
-- a cursor. All paths below are from libTupl/src/tupl.
--
-- Files:
--   Common          helpers: Boolean tests, lists over the native numbers and lists as sets, the
--                   outcomes of a C++ call, the arithmetic of `size_t`
--   Bytes           types.hpp: `Bytes`, `operator<`, `operator<=`; `KeyEquals` of pvt/slow/Node.cpp
--   LowerBound      `std::lower_bound`, as both Node.cpp use it
--   SlowNode        pvt/slow/Node.hpp and Node.cpp: `Node`, `LeafNode`, `InternalNode`, their
--                   constructors and `recordSplit`
--   SlowNode/Ops    `Node::Ops` and the operations that call it: `insert_at` is `insert` at an
--                   iterator, `insert_leaf` and `insert_internal` are `insert` by key,
--                   `split_and_insert` is `splitAndInsert`, and `move_entries` is `moveEntries`
--   SlowNode/Order, Size, Insert, Cut, Splitting, Halves, SplitKey, Internal, InternalSplit,
--   Sentinel, Moving
--                   the entries as an ordered map, their bytes, and the proofs on insertion,
--                   splitting and moving
--   DatabaseConfig  DatabaseConfig.hpp; Chains has chains of calls of the setters
--   MallocAllocator Allocator.hpp, MallocAllocator.hpp and MallocAllocator.cpp, over a C library
--                   that is a parameter; Clients has a client that keeps a list of its blocks
--   ArrayStack      pvt/ArrayStackGeneric.hpp and ArrayStackGeneric.ii
--   PageAllocator   pvt/PageAllocator.hpp and PageAllocator.cpp: `dirty` and `allocPage`; Chain,
--                   Dirty, Moves and Sequence hold the proofs on the list of dirty nodes, Pages
--                   those on `allocPage` over a page database; Threads has the steps of threads
--                   that call `dirty`, Holding and Interleaved what the latch makes of them
--   PageDb          pvt/PageDb.hpp: the interface and its promises; pvt/NonPageDb.hpp
--   KeyComparator   pvt/Node.cpp: `KeyComparator` and `lowerBound` over keys; Prefix, Compare, Knows
--                   and Search hold the proofs; Pointers has the search over pointers and empty
--                   values that the source has so far, Unfinished what it does
--   SlowTree        pvt/slow/Tree.hpp and Tree.cpp; Insert, Descent, Overflow and NoSpace hold
--                   the proofs on an insertion where the leaf has space, and where it has none;
--                   Inorder has the entries and the nodes of a tree, Ways the way of a search
--                   and Apart what is off it, Growth and Recursion what an insertion along a way
--                   does to the entries;
--                   SearchTree has the invariant of a search tree, Selection and Turning the
--                   child that a key belongs to, Steps and Keeping an insertion that keeps the
--                   invariant, Distinct and Sequence many of them, Fresh those into a new tree,
--                   Sorted the order of the entries; Search has the descent that the next
--                   insertion makes, SplitParts, Opened, SearchSplit and SearchInsert what it
--                   finds after an insertion, LeftSplit and Lost what it does not find after a
--                   split to the left; RightPart, Appending, AppendKept, AppendSplit, Ascending
--                   and Bulk have insertions in ascending order into a new tree
--   CursorOps       pvt/ops.cpp, with `CursorFrame` and `Cursor`; Moving and Positions have the
--                   proofs on `moveFrames`, Unwind on `unwindAndLockRoot`, Storing on `store` and
--                   `find`; Latches has the latches and lists of frames of `unwindAndLockRoot` and `find`
--                   as the events of a run, LatchOutcome shows that the runs are these operations,
--                   LatchOrder and LatchDescent in which order latches are taken
--   Examples        runs at concrete values
--
-- State and failure. A method is a function from the object's state to an `Outcome`: the new state
-- and the result, or an exception, a failed assertion, or a step that C++ does not define.
-- `assert` does nothing under NDEBUG, so what asserts takes the build as an argument. A node and
-- the sibling that it splits into are two values; a pointer is a number, null is `none`.
--
-- Numbers. Sizes and `mBytes` are natural numbers with the arithmetic modulo 2 ^ 64 of `size_t`,
-- written out where the code adds or subtracts; `uint_fast16_t`, the type of `mBytes` and
-- `mCapacity`, is as wide in the GNU C library on 64-bit machines. A byte is a natural number, and
-- only compared. `sizeof` a pointer is 8, and that of a hook of `boost::intrusive` 16. The array
-- of a stack has N bytes, as `std::aligned_storage` without `::type` is a class of one byte.
--
-- `insertRecursive` reads the split record of a child through a cast to `InternalNode`, also where
-- the child is a leaf; the model reads the record of the node that is there.
--
-- Loops. `std::lower_bound` and the search with the comparator's state run on as many rounds as
-- there are positions, which is enough as a round at least halves them; `clear` runs on as many
-- rounds as the stack has values, and a round takes one away. `Tree::insert` gives its recursion as
-- much fuel as addresses have been given out, which bounds the length of a path; `insertRecursive`
-- by itself takes it as an argument, a bound on the height of the tree, and so does the descent of
-- `ops::find`, which makes one round for every level. The others recur on a list.
--
-- `InternalNode::find` only throws so far, so the theorems on `insertRecursive` take it as an
-- argument; those on search trees assume that it leads to the last child whose key is not greater,
-- the first key left aside, as the comment at the end of pvt/slow/Node.cpp has it.
--
-- Not modelled: latches but for those of `dirty`, `unwindAndLockRoot` and `find`, and the
-- commit lock, the page layout that pvt/Node.hpp describes, and the classes of the public
-- interface, which have no logic.
pub mod Common
pub mod Bytes
pub mod LowerBound
pub mod MallocAllocator
pub mod SlowNode
pub mod ArrayStack
pub mod PageAllocator
pub mod PageDb
pub mod KeyComparator
pub mod SlowTree
pub mod CursorOps
pub mod DatabaseConfig
pub mod Examples
