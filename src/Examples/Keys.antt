-- ===== src/Examples/Keys.antt =====
-- Orders of keys, and the search in a search vector of three keys.
use tupl_native.Common.{
  ℕ, ◌≡◌, refl, true, false, List, [], ◌∷◌, arith, ok, fail, some, debug, release, assertion_failed,
  All,
}
use tupl_native.Bytes.{Contents, less}
use tupl_native.LowerBound.Partition.{Splits}
use tupl_native.KeyComparator.{lower_bound_keys}
use tupl_native.KeyComparator.Pointers.{lower_bound_pointers}
use tupl_native.KeyComparator.Unfinished.{lower_bound_pointers_lem}
use tupl_native.KeyComparator.Knows.{IsAscending, before, key_is}
use tupl_native.KeyComparator.Search.{lower_bound_keys-Splits}

abbrev three_keys : List Contents
three_keys = (1 ∷ 2 ∷ []) ∷ (1 ∷ 3 ∷ []) ∷ (1 ∷ 4 ∷ []) ∷ []

three_keys-IsAscending : IsAscending three_keys
unfolding less
three_keys-IsAscending = ((refl, (refl, tt)), ((refl, tt), (tt, tt)))

three_keys_full : All (λ e. less [] e ≡ true) three_keys
unfolding less
three_keys_full = (refl, (refl, (refl, tt)))

lower_bound_keys-Splits_example :
    (r : ℕ) × Splits (before three_keys (1 ∷ 3 ∷ [])) 0 3 r
    × (lower_bound_keys debug false three_keys (1 ∷ 3 ∷ [])
        ≡ ok (r, key_is three_keys (1 ∷ 3 ∷ []) r))
    × (lower_bound_keys debug true three_keys (1 ∷ 3 ∷ []) ≡ ok (r, false))
lower_bound_keys-Splits_example =
    lower_bound_keys-Splits debug three_keys (1 ∷ 3 ∷ []) three_keys-IsAscending (omega arith)
      (omega arith) three_keys_full

-- Two pointers, to anything.
lower_bound_pointers_lem_example :
    (lower_bound_pointers debug
        (λ i. record { offset = i })
        100
        (record { data_ptr = some (7 ∷ 8 ∷ []); size = 2 })
        false
        3
        5
      ≡ fail assertion_failed)
    × (lower_bound_pointers release
          (λ i. record { offset = i })
          100
          (record { data_ptr = some (7 ∷ 8 ∷ []); size = 2 })
          false
          3
          5
        ≡ ok (5, false))
lower_bound_pointers_lem_example =
    lower_bound_pointers_lem (λ i. record { offset = i }) 100 7 (8 ∷ []) 1 (omega arith) false 3 5
      (omega arith)
