-- ===== src/Examples/Lists.antt =====
-- A stack of numbers of eight bytes, and a list of three dirty nodes.
use tupl_native.Common.{
  ltb, length, ◌+◌, ◌*◌, undefined_behaviour, remove, ◌≡◌, refl, [], ◌∷◌, arith, ok, fail, some,
  none, Returns, debug, release, assertion_failed, ℕ, List, Bool, true, false, if◌then◌else◌,
  runtime_error,
}
use tupl_native.ArrayStack.{ArrayStack, update, new_stack, emplace_back, top_value, pop, clear}
use tupl_native.ArrayStack.Debug.{stack_asserts}
use tupl_native.ArrayStack.Release.{Represents, pop-emplace_back, clear-Represents}
use tupl_native.PageAllocator.{PageAllocator, write, dirty}
use tupl_native.PageAllocator.Chain.{cons, nil}
use tupl_native.PageAllocator.Dirty.{IsDirtyList}
use tupl_native.PageDb.{PageDb, IsPageDb}
use tupl_native.PageAllocator.Pages.{alloc_each, Allocated, alloc_each-Allocated}
use tupl_native.PageAllocator.Sequence.{move_each}
use tupl_native.PageAllocator.Moves.{Moved, dirty-Moved}

abbrev one : List ℕ
one = 5 ∷ []

abbrev no_values : ArrayStack ℕ
no_values = new_stack

abbrev one_value : ArrayStack ℕ
one_value = record { elems = update (λ i. none) 0 (some 5); top = 1 }

one_value-Represents : Represents 8 16 one_value one
one_value-Represents = record { count = refl; holds = λ i. ground arith; within = omega arith }

stack_asserts_example :
    (emplace_back debug 8 16 7 no_values ≡ fail assertion_failed)
    × (top_value debug 8 16 no_values ≡ fail assertion_failed)
    × (pop debug 8 16 no_values ≡ fail assertion_failed)
    × (clear debug 8 16 one_value ≡ fail assertion_failed)
stack_asserts_example = stack_asserts 8 16 7 no_values one_value (omega arith)

pop-emplace_back_example :
    if ltb 16 ((length one + 1) * 8)
    then emplace_back release 8 16 7 one_value ≡ fail undefined_behaviour
    else Returns (emplace_back release 8 16 7 one_value) (λ s.
      (top_value release 8 16 s ≡ ok 7) × Returns (pop release 8 16 s) (λ t. Represents 8 16 t one))
pop-emplace_back_example = pop-emplace_back 8 16 7 one_value one one_value-Represents

-- In eight bytes there is no room for a second value, whatever N = 8 says.
no_second_value : emplace_back release 8 8 7 one_value ≡ fail undefined_behaviour
unfolding emplace_back
no_second_value = refl

clear-Represents_example : Returns (clear release 8 16 one_value) (λ s. Represents 8 16 s [])
clear-Represents_example = clear-Represents 8 16 one_value one one_value-Represents

-- The dirty nodes 1, 2 and 3, and an iterator at the second.
abbrev three_dirty : PageAllocator
three_dirty = record {
  first_dirty = some 1;
  last_dirty = some 3;
  flush_next = some 2;
  next_dirty = write (write (λ p. none) 1 (some 2)) 2 (some 3);
  prev_dirty = write (write (λ p. none) 2 (some 1)) 3 (some 2);
}

three_dirty-IsDirtyList : IsDirtyList three_dirty (1 ∷ 2 ∷ 3 ∷ [])
three_dirty-IsDirtyList = record {
  chain = cons refl refl (cons refl refl (cons refl refl nil));
  no_dup = (refl, (refl, (refl, tt)));
  first = refl;
  last = refl;
  outside = λ q h. (ground arith, ground arith);
}

dirty-Moved_example : Returns (dirty 2 three_dirty) (Moved 2 three_dirty (1 ∷ 2 ∷ 3 ∷ []))
dirty-Moved_example = dirty-Moved 2 three_dirty (1 ∷ 2 ∷ 3 ∷ []) three_dirty-IsDirtyList

-- The order after calls for the nodes 1, 2 and 1.
move_three : move_each (1 ∷ 2 ∷ 1 ∷ []) [] ≡ 2 ∷ 1 ∷ []
unfolding move_each remove
move_three = refl

-- A page database that has the page 2, and no more.
abbrev one_page : PageDb Bool
one_page = record {
  page_size = λ s. 4096;
  alloc_page = λ s. if s then fail (runtime_error "no space") else ok (2, true);
}

one_page-IsPageDb : IsPageDb one_page
one_page-IsPageDb = record {
  fixed_size = λ s s' page e. refl;
  never_zero_or_one = λ s s' page e. ground (arith, e);
}

alloc_each-Allocated_example :
    Returns
      (alloc_each one_page debug (2 ∷ 4 ∷ 5 ∷ []) three_dirty false)
      (λ (a, r). Allocated one_page debug (2 ∷ 4 ∷ 5 ∷ []) (1 ∷ 2 ∷ 3 ∷ []) false a r)
alloc_each-Allocated_example =
    alloc_each-Allocated one_page debug one_page-IsPageDb (2 ∷ 4 ∷ 5 ∷ []) three_dirty
      (1 ∷ 2 ∷ 3 ∷ []) false three_dirty-IsDirtyList
