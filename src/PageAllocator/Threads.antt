-- ===== src/PageAllocator/Threads.antt =====
-- Threads that call `PageAllocator::dirty` of libTupl/src/tupl/pvt/PageAllocator.cpp, each in steps
-- that others may come between.
use tupl_native.Common.{
  ℕ, ◌≡◌, ◌==◌, if◌then◌else◌, Option, none, some, List, [], ◌∷◌, ◌++◌, true, false,
}
use tupl_native.PageAllocator.{NodePtr, PageAllocator, new_allocator, unlink, link_last, finish}

-- How far a thread has come in `dirty`: it holds the latch and has read nothing, it has taken the
-- node out of the list and not put it at the end, or only `mLastDirty` and the iterator are left.
pub data Progress : Type 0 where
  idle : Progress
  entered : NodePtr → Progress
  unlinked : NodePtr → (next : NodePtr) → Progress
  linked : NodePtr → (next : Option NodePtr) → Progress

pub record System : Type 0 where
  pub allocator : PageAllocator
  pub latch : Option ℕ
  pub progress : ℕ → Progress

abbrev pub update : (ℕ → Progress) → ℕ → Progress → ℕ → Progress
update f i v j = if j == i then v else f j

abbrev pub moved_to : System → ℕ → PageAllocator → Progress → System
moved_to s i a p = record s { allocator = a; progress = update s.progress i p }

-- The thread returns, and `std::lock_guard` gives the latch back.
abbrev pub left_by : System → ℕ → PageAllocator → System
left_by s i a = record { allocator = a; latch = none; progress = update s.progress i idle }

-- A step of a thread, with the call that it completes if it does. `std::lock_guard` waits for the
-- latch to be free.
pub data Step (i : ℕ) (s : System) : List NodePtr → System → Type 0 where
  enter :
      (node : NodePtr)
      → s.latch ≡ none
      → s.progress i ≡ idle
      → Step i s [] (record {
        allocator = s.allocator;
        latch = some i;
        progress = update s.progress i (entered node);
      })
  take_out :
      (node next : NodePtr)
      → s.progress i ≡ entered node
      → s.allocator.next_dirty node ≡ some next
      → Step i s [] (
          moved_to s i
            (unlink node next (s.allocator.prev_dirty node) s.allocator)
            (unlinked node next))
  put_last :
      (node next last : NodePtr)
      → s.progress i ≡ unlinked node next
      → s.allocator.last_dirty ≡ some last
      → Step i s [] (moved_to s i (link_last node last s.allocator) (linked node (some next)))
  at_end :
      (node prev : NodePtr)
      → s.progress i ≡ entered node
      → s.allocator.next_dirty node ≡ none
      → s.allocator.prev_dirty node ≡ some prev
      → Step i s [] (moved_to s i s.allocator (linked node none))
  put_first :
      (node : NodePtr)
      → s.progress i ≡ entered node
      → s.allocator.next_dirty node ≡ none
      → s.allocator.prev_dirty node ≡ none
      → s.allocator.last_dirty ≡ none
      → Step i s []
          (moved_to s i (record s.allocator { first_dirty = some node }) (linked node none))
  put_behind :
      (node last : NodePtr)
      → s.progress i ≡ entered node
      → s.allocator.next_dirty node ≡ none
      → s.allocator.prev_dirty node ≡ none
      → s.allocator.last_dirty ≡ some last
      → (last == node) ≡ false
      → Step i s [] (moved_to s i (link_last node last s.allocator) (linked node none))
  sole :
      (node last : NodePtr)
      → s.progress i ≡ entered node
      → s.allocator.next_dirty node ≡ none
      → s.allocator.prev_dirty node ≡ none
      → s.allocator.last_dirty ≡ some last
      → (last == node) ≡ true
      → Step i s (node ∷ []) (left_by s i s.allocator)
  leave :
      (node : NodePtr) (next : Option NodePtr)
      → s.progress i ≡ linked node next
      → Step i s (node ∷ []) (left_by s i (finish node next s.allocator))

abbrev pub initial : System
initial = record { allocator = new_allocator; latch = none; progress = λ i. idle }

-- What threads reach from a new allocator, with the calls that they have completed, in this order.
pub data Reach : List NodePtr → System → Type 0 where
  start : Reach [] initial
  later :
      {calls done : List NodePtr} {s s' : System} (i : ℕ)
      → Reach calls s
      → Step i s done s'
      → Reach (calls ++ done) s'

-- Steps of one thread while no other makes any, with the calls that it completes.
pub data Alone (i : ℕ) : List NodePtr → System → System → Type 0 where
  no_step : {s : System} → Alone i [] s s
  step_on :
      {done calls : List NodePtr} {s s' s'' : System}
      → Step i s done s'
      → Alone i calls s' s''
      → Alone i (done ++ calls) s s''
