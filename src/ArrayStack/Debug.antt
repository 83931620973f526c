-- ===== src/ArrayStack/Debug.antt =====
-- libTupl/src/tupl/pvt/ArrayStackGeneric.ii in a build with assertions, where `empty` asserts that
-- the stack is empty and `full` that it is full.
use tupl_native.Common.{ℕ, zero, suc, ◌<◌, ◌≡◌, arith, fail, assertion_failed, debug}
use tupl_native.ArrayStack.{ArrayStack, empty, emplace_back, top_value, pop, clear_loop, clear}

module _ {T : Type 0} (width N : ℕ) where
  clear_loop_asserts :
      (fuel : ℕ) (s : ArrayStack T)
      → 0 < s.top
      → clear_loop debug width N fuel s ≡ fail assertion_failed
  unfolding clear_loop empty
  clear_loop_asserts zero s h = ground arith
  clear_loop_asserts (suc fuel) s h = ground arith

  -- With assertions `emplaceBack`, `top` and `pop` fail one on every stack, full, empty or neither;
  -- so does `clear`, on every stack that is not empty.
  pub stack_asserts :
      (v : T) (s t : ArrayStack T)
      → 0 < t.top
      → (emplace_back debug width N v s ≡ fail assertion_failed)
        × (top_value debug width N s ≡ fail assertion_failed)
        × (pop debug width N s ≡ fail assertion_failed)
        × (clear debug width N t ≡ fail assertion_failed)
  unfolding emplace_back top_value pop clear
  stack_asserts v s t h = (ground arith, ground arith, ground arith, clear_loop_asserts t.top t h)
