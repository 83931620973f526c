-- ===== src/Examples.antt =====
-- Runs of the operations at concrete values, and the values that the theorems are applied to.
mod Leaves
mod Splits
mod Trees
mod SearchTrees
mod Searches
mod Bulk
mod NewTrees
mod Configs
mod Blocks
mod Cursors
mod Latches
mod Internals
mod Lists
mod Threads
mod Keys
use tupl_native.Common.{ℕ, zero, suc, List, [], ◌∷◌}
use tupl_native.Bytes.{Contents}
use tupl_native.SlowNode.{Entry, LeafNode}
use tupl_native.SlowNode.Splitting.{leaf_of}

-- A byte string of that many zeros.
abbrev pub zeros : ℕ → Contents
zeros zero = []
zeros (suc n) = 0 ∷ zeros n

abbrev pub two_entries : List (Entry Contents)
two_entries = (1 ∷ [], 10 ∷ []) ∷ (3 ∷ [], 30 ∷ []) ∷ []

abbrev pub small_leaf : LeafNode
small_leaf = leaf_of two_entries 4

-- Four entries of 1024 bytes each.
abbrev pub four_entries : List (Entry Contents)
four_entries =
    (10 ∷ [], zeros 1023)
    ∷ (20 ∷ [], zeros 1023)
    ∷ (30 ∷ [], zeros 1023)
    ∷ (40 ∷ [], zeros 1023)
    ∷ []

abbrev pub full_leaf : LeafNode
full_leaf = leaf_of four_entries 4096
