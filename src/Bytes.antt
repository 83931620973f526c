-- ===== src/Bytes.antt =====
-- libTupl/src/tupl/types.hpp: the overlay `Bytes`, its constructor and its two orders;
-- libTupl/src/tupl/pvt/slow/Node.cpp: the key comparators `KeyLesser` and `KeyEquals`.
pub mod Order
use tupl_native.Common.{
  ℕ, Bool, true, false, not, ◌&&◌, Option, none, some, List, [], ◌∷◌, ltb, leb, ◌==◌, if◌then◌else◌,
  length, take, Outcome, ok, fail, ◌>>=◌, ◌>>◌, Build, assert_that,
}

-- The bytes that an overlay or a buffer holds.
abbrev pub Contents : Type 0
Contents = List ℕ

-- An overlay: a pointer, none where it is null, to memory that begins with the bytes listed, and
-- a size.
pub record Bytes : Type 0 where
  pub data_ptr : Option Contents
  pub size : ℕ

unfoldable pub is_null : Option Contents → Bool
is_null none = true
is_null (some m) = false

-- `Bytes(const void* data, size_t size)` with its two assertions.
unfoldable pub new_bytes : Build → Option Contents → ℕ → Outcome Bytes
unfolding is_null
new_bytes build p n = do
  assert_that build (if ltb 0 n then not (is_null p) else true)
  assert_that build (if is_null p then ltb 0 n else true)
  ok (record { data_ptr = p; size = n })

-- `Bytes()`
unfoldable pub empty_bytes : Build → Outcome Bytes
unfolding new_bytes
empty_bytes build = new_bytes build none 0

-- `std::lexicographical_compare`: the test `comp` both ways round at each position.
unfoldable pub lexicographical_compare : (ℕ → ℕ → Bool) → Contents → Contents → Bool
lexicographical_compare comp [] [] = false
lexicographical_compare comp [] (y ∷ ys) = true
lexicographical_compare comp (x ∷ xs) [] = false
lexicographical_compare comp (x ∷ xs) (y ∷ ys) =
    if comp x y then true else if comp y x then false else lexicographical_compare comp xs ys

-- `operator<`, and the three forms of `KeyLesser`.
unfoldable pub less : Contents → Contents → Bool
unfolding lexicographical_compare
less l r = lexicographical_compare ltb l r

-- `operator<=`
unfoldable pub less_eq : Contents → Contents → Bool
unfolding lexicographical_compare
less_eq l r = lexicographical_compare leb l r

-- `std::equal` over the length of the first range.
equal_range : Contents → Contents → Bool
equal_range [] ys = true
equal_range (x ∷ xs) [] = false
equal_range (x ∷ xs) (y ∷ ys) = x == y && equal_range xs ys

-- `KeyEquals`
unfoldable pub key_equals : Contents → Contents → Bool
unfolding equal_range
key_equals k1 k2 = length k1 == length k2 && equal_range k2 k1
