-- ===== src/PageAllocator/Interleaved.antt =====
-- What the latch of libTupl/src/tupl/pvt/PageAllocator.cpp makes of calls of `dirty` by many threads:
-- the same as the calls one after the other.
use tupl_native.Common.{
  ℕ, ◌≡◌, ◌≢◌, refl, ◌∙◌, subst, ◌==◌, Option, none, some, List, [], ◌∷◌, ◌++◌, append-nil,
  Bool-cases, Option-cases, inl, inr, fail, undefined_behaviour, Returns,
}
use tupl_native.PageAllocator.{NodePtr, PageAllocator, unlink, link_last, finish}
use tupl_native.PageAllocator.Dirty.{IsDirtyList}
use tupl_native.PageAllocator.Sequence.{move_each}
use tupl_native.PageAllocator.Threads.{
  Progress, Alone, no_step, step_on, idle, entered, unlinked, linked, System, moved_to, left_by,
  Step, take_out, put_last, at_end, put_first, put_behind, sole, leave, Reach, later,
}
use tupl_native.PageAllocator.Holding.{
  completes, node_of, Latched, update_here, update_there, holder, will_now, Reach-Invariant,
}

-- The thread `i` makes its call for `node` to the end by steps of its own: it is outside then, the
-- latch is free, and no other thread has moved.
pub record Completed (calls : List NodePtr) (i : ℕ) (node : NodePtr) (s s' : System) : Type 0 where
  pub alone : Alone i (node ∷ []) s s'
  pub reached : Reach (calls ++ node ∷ []) s'
  pub free : s'.latch ≡ none
  pub outside : s'.progress i ≡ idle
  pub unmoved : (j : ℕ) → j ≢ i → s'.progress j ≡ s.progress j

abbrev Completable : List NodePtr → ℕ → NodePtr → System → Type 0
Completable calls i node s = (s' : System) × Completed calls i node s s'

module _ (calls : List NodePtr) (i : ℕ) (node : NodePtr) where
  stays : {s s' : System} → Reach calls s → Step i s [] s' → Reach calls s'
  stays {s} {s'} before step = subst (λ c. Reach c s') (append-nil calls) (later i before step)

  -- A step within the call comes in front of the others.
  moves_first :
      (s : System) (a : PageAllocator) (p : Progress)
      → Step i s [] (moved_to s i a p)
      → Completable calls i node (moved_to s i a p)
      → Completable calls i node s
  moves_first s a p step (s', done) = (
    s',
    record {
      alone = step_on step done.alone;
      reached = done.reached;
      free = done.free;
      outside = done.outside;
      unmoved = λ j ne. done.unmoved j ne ∙ update_there s.progress i p j ne;
    },
  )

  returns :
      (s : System) (a : PageAllocator)
      → Reach calls s
      → Step i s (node ∷ []) (left_by s i a)
      → Completable calls i node s
  returns s a before step = (
    left_by s i a,
    record {
      alone = step_on step no_step;
      reached = later i before step;
      free = refl;
      outside = update_here s.progress i idle;
      unmoved = λ j ne. update_there s.progress i idle j ne;
    },
  )

  from_linked :
      (s : System) (next : Option NodePtr)
      → Reach calls s
      → s.progress i ≡ linked node next
      → Completable calls i node s
  from_linked s next before now =
      returns s (finish node next s.allocator) before (leave node next now)

  defined :
      (s : System) (p : Progress)
      → Reach calls s
      → s.progress i ≡ p
      → p ≢ idle
      → completes p s.allocator ≢ fail undefined_behaviour
  defined s p before now inside failed =
      subst (λ o. Returns o (λ a. IsDirtyList a (move_each (calls ++ node_of p) []))) failed
        (will_now calls s i p now inside (Reach-Invariant calls s before))

  then_linked :
      (s : System) (a : PageAllocator) (next : Option NodePtr)
      → Reach calls s
      → Step i s [] (moved_to s i a (linked node next))
      → Completable calls i node s
  then_linked s a next before step = moves_first s a (linked node next) step (
      from_linked (moved_to s i a (linked node next)) next (stays before step)
        (update_here s.progress i (linked node next)))

  from_unlinked :
      (s : System) (next : NodePtr)
      → Reach calls s
      → s.progress i ≡ unlinked node next
      → Completable calls i node s
  unfolding completes
  from_unlinked s next before now = elim (Option-cases s.allocator.last_dirty) [
    | inl empty ↦
        absurd (defined s (unlinked node next) before now (λ e. cc e) (rw (completes, empty) refl))
    | inr (last, at) ↦
        then_linked s (link_last node last s.allocator) (some next) before
          (put_last node next last now at)
  ]

  from_entered :
      (s : System) → Reach calls s → s.progress i ≡ entered node → Completable calls i node s
  from_entered s before now = elim (Option-cases (s.allocator.next_dirty node)) [
    | inr (next, at) ↦
        let a = unlink node next (s.allocator.prev_dirty node) s.allocator in
        let step = take_out node next now at in
        moves_first s a (unlinked node next) step (
          from_unlinked (moved_to s i a (unlinked node next)) next (stays before step)
            (update_here s.progress i (unlinked node next)))
    | inl n ↦ elim (Option-cases (s.allocator.prev_dirty node)) [
      | inr (prev, p) ↦ then_linked s s.allocator none before (at_end node prev now n p)
      | inl p ↦ elim (Option-cases s.allocator.last_dirty) [
        | inl l ↦
            then_linked s (record s.allocator { first_dirty = some node }) none before
              (put_first node now n p l)
        | inr (last, l) ↦ elim (Bool-cases (last == node)) [
          | inl e ↦ returns s s.allocator before (sole node last now n p l e)
          | inr ne ↦
              then_linked s (link_last node last s.allocator) none before
                (put_behind node last now n p l ne)
        ]
      ]
    ]
  ]

-- However the steps of any number of threads that call `dirty` come between each other on a new
-- allocator, no two threads are inside at once; whenever the latch is free, no thread is inside and
-- the dirty list is that of the completed calls, made one after the other in the order in which
-- they have returned; and a thread that is inside can bring the call that it is making to its end
-- by steps of its own from here, and then is outside, the latch is free, and the others are where
-- they were.
pub Reach-dirty :
    (calls : List NodePtr) (s : System)
    → Reach calls s
    → ((i j : ℕ) → s.progress i ≢ idle → s.progress j ≢ idle → i ≡ j)
      × (s.latch ≡ none
          → IsDirtyList s.allocator (move_each calls []) × ((i : ℕ) → s.progress i ≡ idle))
      × ((i : ℕ)
          → s.progress i ≢ idle
          → (node : NodePtr) × (s' : System) × (node_of (s.progress i) ≡ node ∷ [])
            × Completed calls i node s s')
unfolding node_of
Reach-dirty calls s before =
    let inv = Reach-Invariant calls s before in
    (
      λ i j inside_i inside_j.
          let a = (holder calls s i inv inside_i).0 in
          let b = (holder calls s j inv inside_j).0 in cc (a, b),
      λ free. subst (Latched calls s.allocator s.progress) free inv,
      λ i inside. completable (s.progress i) i refl inside,
    )
  where
    completable :
        (p : Progress) (i : ℕ)
        → s.progress i ≡ p
        → s.progress i ≢ idle
        → (node : NodePtr) × (s' : System) × (node_of (s.progress i) ≡ node ∷ [])
          × Completed calls i node s s'
    completable idle i e inside = absurd (inside e)
    completable (entered node) i e inside =
        let (s', done) = from_entered calls i node s before e in (node, s', rw e refl, done)
    completable (unlinked node next) i e inside =
        let (s', done) = from_unlinked calls i node s next before e in (node, s', rw e refl, done)
    completable (linked node next) i e inside =
        let (s', done) = from_linked calls i node s next before e in (node, s', rw e refl, done)
