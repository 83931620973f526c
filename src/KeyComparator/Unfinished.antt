-- ===== src/KeyComparator/Unfinished.antt =====
-- What the search over pointers of libTupl/src/tupl/pvt/Node.cpp does as long as embedded values are
-- empty and the ends of a search vector null, and the comparison of two keys.
use tupl_native.Common.{
  ℕ, zero, suc, ◌+◌, ◌-◌, ◌/◌, ◌≤◌, ◌<◌, ◌≡◌, refl, ap, arith, Bool, true, false, some, [], ◌∷◌,
  length, take, ok, fail, assertion_failed, Build, debug, release,
}
use tupl_native.Bytes.{Contents, Bytes, new_bytes, less}
use tupl_native.KeyComparator.{new_state, compare_lower, mismatch, decide_at}
use tupl_native.KeyComparator.Compare.{compare_lower_skip, decide_at-less}
use tupl_native.KeyComparator.Pointers.{
  Address, OffsetPointer, embedded_value, extract_bytes, contents_of, compare_bytes,
  compare_pointer_key, compare_keys, search_vector_begin, search_vector_end, pointer_loop,
  lower_bound_pointers,
}

module _ (memory : Address → OffsetPointer) (node : Address) (x : ℕ) (xs : Contents) (n : ℕ)
    (small : n ≤ length xs) where
  abbrev key : Bytes
  key = record { data_ptr = some (x ∷ xs); size = suc n }

  empty_is_lower :
      (p : OffsetPointer) → compare_pointer_key release node p key new_state ≡ ok (true, new_state)
  unfolding compare_pointer_key extract_bytes embedded_value new_bytes contents_of compare_bytes
      compare_lower decide_at mismatch
  empty_is_lower p = ground arith

  pointer_loop_release :
      (fuel first len : ℕ)
      → len ≤ fuel
      → pointer_loop release memory node key fuel first len new_state ≡ ok (first + len, new_state)
  unfolding pointer_loop
  pointer_loop_release zero first len h = ground arith
  pointer_loop_release (suc fuel) first len h = ground (
    arith,
    empty_is_lower (memory (first + len / 2)),
    pointer_loop_release fuel (first + len / 2 + 1) (len - len / 2 - 1),
  )

  -- No search over pointers finds a key. With assertions one of them fails, whatever the search
  -- vector is. Without, for a key that is not empty, the search returns the end of the range and
  -- says that the key is not there.
  pub lower_bound_pointers_lem :
      (read_first : Bool) (first last : Address)
      → first ≤ last
      → (lower_bound_pointers debug memory node
            (record { data_ptr = some (x ∷ xs); size = suc n })
            read_first
            first
            last
          ≡ fail assertion_failed)
        × (lower_bound_pointers release memory node
              (record { data_ptr = some (x ∷ xs); size = suc n })
              read_first
              first
              last
            ≡ ok (last, false))
  unfolding lower_bound_pointers search_vector_begin search_vector_end
  lower_bound_pointers_lem read_first first last h =
      (ground arith, ground (arith, pointer_loop_release (last - first) first (last - first)))

-- The bytes of a string as an overlay.
abbrev pub overlay : Contents → Bytes
overlay l = record { data_ptr = some l; size = length l }

take_all : (l : Contents) → take (length l) l ≡ l
take_all [] = refl
take_all (x ∷ xs) = ap (λ l. x ∷ l) (take_all xs)

contents_of-overlay : (l : Contents) → contents_of (overlay l) ≡ ok l
unfolding contents_of
contents_of-overlay l = ground (arith, take_all l)

-- The comparison of two keys by `KeyComparator`, neither of them empty, passes its assertion and is
-- `operator<`.
pub compare_keys-less :
    (build : Build) (l r : Contents)
    → 0 < length l
    → 0 < length r
    → compare_keys build (overlay l) (overlay r) ≡ ok (less l r)
unfolding compare_keys compare_bytes
compare_keys-less build l r some_l some_r =
    rw
      (
        contents_of-overlay l,
        contents_of-overlay r,
        compare_lower_skip build l r new_state refl some_l some_r,
      )
      (ap ok (decide_at-less l r new_state))
