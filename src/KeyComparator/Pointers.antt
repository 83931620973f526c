-- ===== src/KeyComparator/Pointers.antt =====
-- libTupl/src/tupl/pvt/Node.cpp: the pointers that a search vector is made of, the embedded values
-- that they lead to, and the search over them, as the source has them so far: an embedded value is
-- always empty, and a search vector has null for its ends.
use tupl_native.Common.{
  ℕ, zero, suc, ◌+◌, ◌-◌, ◌/◌, Bool, true, false, not, ◌&&◌, none, some, [], ltb, leb, ◌==◌,
  if◌then◌else◌, length, take, Outcome, ok, fail, undefined_behaviour, ◌>>=◌, ◌>>◌, Build,
  assert_that,
}
use tupl_native.Bytes.{Contents, Bytes, is_null, new_bytes}
use tupl_native.KeyComparator.{State, new_state, compare_lower}

-- Null is 0.
abbrev pub Address : Type 0
Address = ℕ

-- `KeyOffsetPtr`
pub record OffsetPointer : Type 0 where
  pub offset : ℕ

-- `withBase`
unfoldable pub with_base : OffsetPointer → (base : Address) → Address
with_base p base = base + p.offset

-- `EmbeddedValue::value`
unfoldable pub embedded_value : Build → Address → Outcome Bytes
embedded_value build value = new_bytes build none 0

-- `State::extractBytes`
unfoldable pub extract_bytes : Build → (node : Address) → OffsetPointer → Outcome Bytes
unfolding with_base embedded_value
extract_bytes build node p = embedded_value build (with_base p node)

-- What an overlay lets one read.
unfoldable pub contents_of : Bytes → Outcome Contents
contents_of b = elim b.data_ptr [
  | none ↦ if b.size == 0 then ok [] else fail undefined_behaviour
  | some m ↦ if leb b.size (length m) then ok (take b.size m) else fail undefined_behaviour
]

unfoldable pub compare_bytes : Build → Bytes → Bytes → State → Outcome (Bool × State)
compare_bytes build l r st = do l' ← contents_of l; r' ← contents_of r; compare_lower build l' r' st

-- `operator()` of a key and a pointer
unfoldable pub compare_key_pointer :
    Build → (node : Address) → Bytes → OffsetPointer → State → Outcome (Bool × State)
unfolding extract_bytes compare_bytes
compare_key_pointer build node l p st =
    extract_bytes build node p >>= λ r. compare_bytes build l r st

-- `operator()` of a pointer and a key
unfoldable pub compare_pointer_key :
    Build → (node : Address) → OffsetPointer → Bytes → State → Outcome (Bool × State)
unfolding extract_bytes compare_bytes
compare_pointer_key build node p r st =
    extract_bytes build node p >>= λ l. compare_bytes build l r st

-- `operator()` of two keys, with a state of its own
unfoldable pub compare_keys : Build → Bytes → Bytes → Outcome Bool
unfolding compare_bytes
compare_keys build l r = compare_bytes build l r new_state >>= λ (lower, scratch). ok lower

-- `SearchVector::begin` and `SearchVector::end`
unfoldable pub search_vector_begin : Address
search_vector_begin = 0

unfoldable pub search_vector_end : Address
search_vector_end = 0

module _ (build : Build) (memory : Address → OffsetPointer) (node : Address) (key : Bytes) where
  -- `std::lower_bound`, over addresses that count pointers.
  unfoldable pub pointer_loop : (fuel first len : ℕ) → State → Outcome (Address × State)
  unfolding compare_pointer_key
  pointer_loop zero first len st = ok (first, st)
  pointer_loop (suc fuel) first len st = elim (len == 0) [
    | true ↦ ok (first, st)
    | false ↦ compare_pointer_key build node (memory (first + len / 2)) key st >>= λ (lower, st').
        elim lower [
          | true ↦ pointer_loop fuel (first + len / 2 + 1) (len - len / 2 - 1) st'
          | false ↦ pointer_loop fuel first (len / 2) st'
        ]
  ]

  -- `lowerBound`, with all its assertions.
  unfoldable pub lower_bound_pointers :
      (read_first : Bool) → (first last : Address) → Outcome (Address × Bool)
  unfolding pointer_loop search_vector_begin search_vector_end
  lower_bound_pointers read_first first last = do
    assert_that build
        (ltb 0 node && ltb 0 first && ltb 0 last && not (is_null key.data_ptr) && ltb 0 key.size)
    assert_that build (ltb first last)
    assert_that build (leb search_vector_begin first)
    assert_that build (leb last search_vector_end)
    (position, st) ← pointer_loop (last - first) first (last - first) new_state
    ok (position, if read_first then new_state.equal else st.equal)
