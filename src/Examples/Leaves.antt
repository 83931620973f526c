-- ===== src/Examples/Leaves.antt =====
-- Insertion into a leaf of two entries.
use tupl_native.Common.{◌≡◌, refl, [], ◌∷◌, arith, ok}
use tupl_native.SlowNode.{inserted, bytes_value_size}
use tupl_native.SlowNode.Ops.{insert_leaf}
use tupl_native.SlowNode.Insert.{IsValid, insert_spec, insert_leaf-insert_spec, insert_leaf-IsValid}
use tupl_native.SlowNode.Splitting.{leaf_of}
use tupl_native.Examples.{small_leaf}
use tupl_native.Bytes.{less, key_equals}
use tupl_native.LowerBound.{lower_bound}
use tupl_native.SlowNode.Size.{total_size}

pub small_leaf-IsValid : IsValid bytes_value_size small_leaf
unfolding less total_size
small_leaf-IsValid = record {
  ordered = ((refl, tt), (tt, tt));
  small = (omega arith, (omega arith, tt));
  counted = refl;
  fits = omega arith;
}

insert_two :
    insert_leaf (2 ∷ []) (20 ∷ []) small_leaf
    ≡ ok (leaf_of ((1 ∷ [], 10 ∷ []) ∷ (2 ∷ [], 20 ∷ []) ∷ (3 ∷ [], 30 ∷ []) ∷ []) 6, inserted)
unfolding insert_leaf lower_bound less key_equals
insert_two = refl

insert_leaf-insert_spec_example :
    insert_leaf (2 ∷ []) (20 ∷ []) small_leaf ≡ insert_spec (2 ∷ []) (20 ∷ []) small_leaf
insert_leaf-insert_spec_example =
    insert_leaf-insert_spec (2 ∷ []) (20 ∷ []) small_leaf small_leaf-IsValid (omega arith)

insert_leaf-IsValid_example :
    IsValid bytes_value_size
      (leaf_of ((1 ∷ [], 10 ∷ []) ∷ (2 ∷ [], 20 ∷ []) ∷ (3 ∷ [], 30 ∷ []) ∷ []) 6)
insert_leaf-IsValid_example =
    insert_leaf-IsValid (2 ∷ []) (20 ∷ []) small_leaf small_leaf-IsValid (omega arith) insert_two
