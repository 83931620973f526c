-- ===== src/SlowNode.antt =====
-- libTupl/src/tupl/pvt/slow/Node.hpp and Node.cpp: the B+tree nodes of the "slow" implementation.
-- A node's children are a `std::vector` of pairs; `Node::Ops` is the code that leaf and internal
-- nodes share, here generic in the type of the values and in `valueSize`.
pub mod Ops
pub mod Order
pub mod Size
pub mod Insert
pub mod Cut
pub mod Splitting
pub mod Halves
pub mod SplitKey
pub mod Internal
pub mod InternalSplit
pub mod Sentinel
pub mod Moving
use tupl_native.Common.{
  ℕ, ◌+◌, ◌-◌, ◌/◌, ◌%◌, ◌^◌, Bool, true, false, not, ◌&&◌, ◌||◌, Option, none, some, List, [], ◌∷◌,
  ◌++◌, ltb, leb, ◌==◌, if◌then◌else◌, length, get_elem?, take, drop, set, Failure, Outcome, ok,
  fail, invalid_argument, domain_error, logic_error, undefined_behaviour, ◌>>=◌, ◌>>◌, throw_if,
  Build, assert_that,
}
use tupl_native.Bytes.{Contents, less, key_equals}
use tupl_native.LowerBound.{lower_bound}

pub data NodeType : Type 0 where
  leaf internal fragment root undo_log : NodeType

pub data SiblingDirection : Type 0 where
  left right : SiblingDirection

pub data InsertResult : Type 0 where
  failed_no_space inserted : InsertResult

abbrev pub same_type : NodeType → NodeType → Bool
same_type leaf leaf = true
same_type internal internal = true
same_type fragment fragment = true
same_type root root = true
same_type undo_log undo_log = true
same_type _ _ = false

-- The address of a node.
abbrev pub Ptr : Type 0
Ptr = ℕ

pub record Split : Type 0 where
  pub sibling : Option Ptr
  pub direction : SiblingDirection
  pub key : Contents

abbrev pub Entry : Type 0 → Type 0
Entry V = Contents × V

pub record Node (V : Type 0) : Type 0 where
  pub node_type : NodeType
  pub children : List (Entry V)
  pub bytes : ℕ
  pub split : Split

-- `mCapacity`
abbrev pub capacity : ℕ
capacity = 4096

-- `mSplit()`
abbrev pub no_split : Split
no_split = record { sibling = none; direction = left; key = [] }

abbrev pub LeafNode : Type 0
LeafNode = Node Contents

abbrev pub InternalNode : Type 0
InternalNode = Node Ptr

unfoldable pub new_leaf : LeafNode
new_leaf = record { node_type = leaf; children = []; bytes = 0; split = no_split }

unfoldable pub new_internal : Ptr → InternalNode
new_internal leftest = record {
  node_type = internal;
  children = ([], leftest) ∷ [];
  bytes = 0;
  split = no_split;
}

-- `valueSize`: the length of a byte string, the width of a pointer to a node.
abbrev pub bytes_value_size : Contents → ℕ
bytes_value_size value = length value

abbrev pub node_value_size : Ptr → ℕ
node_value_size p = 8

module _ {V : Type 0} where
  unfoldable pub has_sibling : Node V → Bool
  has_sibling n = elim n.split.sibling [ none ↦ false | some p ↦ true ]

  -- `recordSplit`
  unfoldable pub record_split :
      Build → Node V → Ptr → SiblingDirection → Contents → Outcome (Node V)
  unfolding has_sibling
  record_split build n sibling direction split_key = do
    assert_that build (not (has_sibling n))
    ok (record n {
      split = record { sibling = some sibling; direction = direction; key = split_key };
    })

  -- `KeyLesser` of the entry at a position and a key.
  abbrev pub key_before : List (Entry V) → Contents → ℕ → Bool
  key_before entries key i = elim (get_elem? entries i) [ none ↦ false | some e ↦ less e.0 key ]

  -- `position != end && KeyEquals()(key, *position)`
  abbrev pub key_found : List (Entry V) → Contents → ℕ → Bool
  key_found entries key i = elim (get_elem? entries i) [
    | none ↦ false
    | some e ↦ key_equals key e.0
  ]

  -- `std::lower_bound` over the entries from `first` on.
  abbrev pub lower_bound_key : List (Entry V) → ℕ → Contents → ℕ
  lower_bound_key entries first key = lower_bound (key_before entries key) first (length entries)

  -- The entries from position `first` up to `last`.
  abbrev pub slice : ℕ → ℕ → List (Entry V) → List (Entry V)
  slice first last entries = take (last - first) (drop first entries)

  -- `vector::emplace`
  abbrev pub emplace : List (Entry V) → ℕ → Entry V → List (Entry V)
  emplace entries position e = take position entries ++ (e ∷ drop position entries)

  -- `splitBeginIt->first`, with an empty string swapped in where the node is no leaf.
  abbrev pub split_key_at : NodeType → List (Entry V) → ℕ → Outcome (Contents × List (Entry V))
  split_key_at leaf entries i = elim (get_elem? entries i) [
    | none ↦ fail undefined_behaviour
    | some e ↦ ok (e.0, entries)
  ]
  split_key_at _ entries i = elim (get_elem? entries i) [
    | none ↦ fail undefined_behaviour
    | some e ↦ ok (e.0, set entries i ([], e.1))
  ]

  -- The entries that `splitAndInsert` moves to the sibling, and those that it leaves.
  abbrev pub moved_entries :
      List (Entry V) → SiblingDirection → (insert_pos split_pos : ℕ) → Entry V → List (Entry V)
  moved_entries entries left insert_pos split_pos e =
      slice 0 insert_pos entries ++ (e ∷ slice insert_pos split_pos entries)
  moved_entries entries right insert_pos split_pos e =
      slice split_pos insert_pos entries ++ (e ∷ drop insert_pos entries)

  abbrev pub kept_entries : List (Entry V) → SiblingDirection → (split_pos : ℕ) → List (Entry V)
  kept_entries entries left split_pos = drop split_pos entries
  kept_entries entries right split_pos = take split_pos entries
