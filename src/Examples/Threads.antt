-- ===== src/Examples/Threads.antt =====
-- Two threads that call `PageAllocator::dirty`.
use tupl_native.Common.{ℕ, ◌≡◌, ◌≢◌, refl, none, some, [], ◌∷◌}
use tupl_native.PageAllocator.{NodePtr, new_allocator, finish}
use tupl_native.PageAllocator.Dirty.{IsDirtyList}
use tupl_native.PageAllocator.Sequence.{move_each}
use tupl_native.PageAllocator.Threads.{
  System, idle, entered, linked, update, enter, put_first, leave, Reach, start, later,
}
use tupl_native.PageAllocator.Interleaved.{Completed, Reach-dirty}
use tupl_native.PageAllocator.Holding.{node_of}

-- The first thread has called `dirty` for node 5 and returned.
abbrev only_five : System
only_five = record {
  allocator = finish 5 none (record new_allocator { first_dirty = some 5 });
  latch = none;
  progress = update (update (update (λ i. idle) 0 (entered 5)) 0 (linked 5 none)) 0 idle;
}

-- The second one is inside a call for node 6.
abbrev six_entered : System
six_entered = record only_five {
  latch = some 1;
  progress = update only_five.progress 1 (entered 6);
}

six_entered-Reach : Reach (5 ∷ []) six_entered
unfolding new_allocator
six_entered-Reach =
    later 1
      (later 0 (later 0 (later 0 start (enter 5 refl refl)) (put_first 5 refl refl refl refl))
        (leave 5 none refl))
      (enter 6 refl refl)

Reach-dirty_example :
    ((i j : ℕ) → six_entered.progress i ≢ idle → six_entered.progress j ≢ idle → i ≡ j)
    × (six_entered.latch ≡ none
        → IsDirtyList six_entered.allocator (move_each (5 ∷ []) [])
          × ((i : ℕ) → six_entered.progress i ≡ idle))
    × ((i : ℕ)
        → six_entered.progress i ≢ idle
        → (node : NodePtr) × (s' : System) × (node_of (six_entered.progress i) ≡ node ∷ [])
          × Completed (5 ∷ []) i node six_entered s')
Reach-dirty_example = Reach-dirty (5 ∷ []) six_entered six_entered-Reach
