-- ===== src/KeyComparator.antt =====
-- libTupl/src/tupl/pvt/Node.cpp: the key comparator that skips what two keys are known to share,
-- and the search in a node's search vector that uses it. The keys that the search vector points to
-- are an argument: `SearchVector` and `EmbeddedValue` are not written yet in the source.
pub mod Prefix
pub mod Compare
pub mod Knows
pub mod Search
pub mod Pointers
pub mod Unfinished
use tupl_native.Common.{
  ℕ, zero, suc, ◌+◌, ◌-◌, ◌/◌, Bool, true, false, not, ◌&&◌, Option, none, some, List, [], ◌∷◌, ltb,
  leb, ◌==◌, if◌then◌else◌, length, get_elem?, drop, min, Outcome, ok, fail, undefined_behaviour,
  ◌>>=◌, ◌>>◌, throw_if, Build, assert_that,
}
use tupl_native.Bytes.{Contents}

-- `KeyComparator::State`
pub record State : Type 0 where
  pub hi_prefix_size : ℕ
  pub lo_prefix_size : ℕ
  pub equal : Bool

abbrev pub new_state : State
new_state = record { hi_prefix_size = 0; lo_prefix_size = 0; equal = false }

-- `std::mismatch`, up to the end of the shorter string.
unfoldable pub mismatch : Contents → Contents → ℕ
mismatch [] ys = 0
mismatch (x ∷ xs) [] = 0
mismatch (x ∷ xs) (y ∷ ys) = if x == y then suc (mismatch xs ys) else 0

-- The bytes at the mismatch, compared; there are such bytes.
unfoldable pub byte_less : Contents → Contents → ℕ → Bool
byte_less l r i = elim (get_elem? l i) [
  | none ↦ false
  | some x ↦ elim (get_elem? r i) [ none ↦ false | some y ↦ ltb x y ]
]

-- The three ways out of `compareLower`, from the mismatch on.
unfoldable pub decide_at : Contents → Contents → State → ℕ → Bool × State
unfolding byte_less
decide_at l r st m =
    if m == min (length l) (length r)
    then (
      ltb (length l) (length r),
      if length l == length r then record st { equal = true } else st,
    )
    else if byte_less l r m
    then (true, record st { lo_prefix_size = m })
    else (false, record st { hi_prefix_size = m })

-- `compareLower`. Bytes past the shorter string must not be skipped.
unfoldable pub compare_lower : Build → Contents → Contents → State → Outcome (Bool × State)
unfolding mismatch decide_at
compare_lower build l r st = do
  let cmp_size = min (length l) (length r)
  let prefix_size = min st.lo_prefix_size st.hi_prefix_size
  assert_that build (ltb prefix_size cmp_size)
  throw_if (ltb cmp_size prefix_size) undefined_behaviour
  ok (decide_at l r st (prefix_size + mismatch (drop prefix_size l) (drop prefix_size r)))

-- `std::lower_bound` with this comparator, which carries its state from probe to probe.
unfoldable pub search_loop :
    Build → List Contents → Contents → (fuel first len : ℕ) → State → Outcome (ℕ × State)
search_loop build keys key zero first len st = ok (first, st)
search_loop build keys key (suc fuel) first len st = elim (len == 0) [
  | true ↦ ok (first, st)
  | false ↦ elim (get_elem? keys (first + len / 2)) [
    | none ↦ fail undefined_behaviour
    | some k ↦ compare_lower build k key st >>= λ (lower, st'). elim lower [
      | true ↦ search_loop build keys key fuel (first + len / 2 + 1) (len - len / 2 - 1) st'
      | false ↦ search_loop build keys key fuel first (len / 2) st'
    ]
  ]
]

-- `lowerBound` over the whole search vector. C++ leaves open whether `equal()` is read before or
-- after the search that is the other argument of `make_pair`; `read_first` says which.
unfoldable pub lower_bound_keys :
    Build → (read_first : Bool) → List Contents → Contents → Outcome (ℕ × Bool)
unfolding search_loop
lower_bound_keys build read_first keys key = do
  assert_that build (ltb 0 (length key))
  assert_that build (ltb 0 (length keys))
  (position, st) ← search_loop build keys key (length keys) 0 (length keys) new_state
  ok (position, if read_first then new_state.equal else st.equal)
