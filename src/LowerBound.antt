-- ===== src/LowerBound.antt =====
-- `std::lower_bound`, as libTupl/src/tupl/pvt/slow/Node.cpp and libTupl/src/tupl/pvt/Node.cpp use
-- it: the standard library's search by halving, over positions. `before i` says whether the
-- comparator puts the element at position `i` before the value that is looked for.
pub mod Partition
use tupl_native.Common.{ℕ, zero, suc, ◌+◌, ◌-◌, ◌/◌, Bool, true, false, ◌==◌, if◌then◌else◌}

-- `while (len > 0)`: a round halves `len`, so `len` rounds are enough.
unfoldable pub lower_bound_loop : (ℕ → Bool) → (fuel first len : ℕ) → ℕ
lower_bound_loop before zero first len = first
lower_bound_loop before (suc fuel) first len = elim (len == 0) [
  | true ↦ first
  | false ↦ elim (before (first + len / 2)) [
    | true ↦ lower_bound_loop before fuel (first + len / 2 + 1) (len - len / 2 - 1)
    | false ↦ lower_bound_loop before fuel first (len / 2)
  ]
]

-- The search over the positions from `first` up to `last`.
unfoldable pub lower_bound : (ℕ → Bool) → (first last : ℕ) → ℕ
unfolding lower_bound_loop
lower_bound before first last = lower_bound_loop before (last - first) first (last - first)
