-- ===== src/PageAllocator/Holding.antt =====
-- A thread that is inside `PageAllocator::dirty` of libTupl/src/tupl/pvt/PageAllocator.cpp holds the
-- latch, and the others are outside: an invariant of the steps of any number of threads.
use tupl_native.Common.{
  ℕ, ◌≡◌, ◌≢◌, refl, sym, ◌∙◌, ap, subst, ◌==◌, Option, none, some, List, [], ◌∷◌, ◌++◌, arith,
  remove, append-nil, Bool-cases, Option-cases, inl, inr, Outcome, ok, fail, undefined_behaviour,
  Returns, Returns-mono,
}
use tupl_native.PageAllocator.{NodePtr, PageAllocator, dirty, unlink, link_last, finish}
use tupl_native.PageAllocator.Dirty.{IsDirtyList}
use tupl_native.PageAllocator.Moves.{dirty-Moved, new_allocator-IsDirtyList}
use tupl_native.PageAllocator.Sequence.{move_each}
use tupl_native.PageAllocator.Threads.{
  Progress, idle, entered, unlinked, linked, System, update, moved_to, left_by, Step, enter,
  take_out, put_last, at_end, put_first, put_behind, sole, leave, Reach, start, later,
}

move_each-append :
    (nodes : List NodePtr) (node : NodePtr) (xs : List NodePtr)
    → move_each (nodes ++ node ∷ []) xs ≡ remove node (move_each nodes xs) ++ node ∷ []
unfolding move_each
move_each-append [] node xs = refl
move_each-append (n ∷ nodes) node xs = move_each-append nodes node (remove n xs ++ n ∷ [])

-- What is left of the call.
unfoldable pub completes : Progress → PageAllocator → Outcome PageAllocator
completes idle a = ok a
completes (entered node) a = dirty node a
completes (unlinked node next) a = elim a.last_dirty [
  | none ↦ fail undefined_behaviour
  | some last ↦ ok (finish node (some next) (link_last node last a))
]
completes (linked node next) a = ok (finish node next a)

-- The node of the call that a thread is making.
unfoldable pub node_of : Progress → List NodePtr
node_of idle = []
node_of (entered node) = node ∷ []
node_of (unlinked node next) = node ∷ []
node_of (linked node next) = node ∷ []

-- A thread that holds the latch is inside, the others are not, and what is left of its call leaves
-- the dirty nodes as if the call had been made at once.
pub record Held (calls : List NodePtr) (a : PageAllocator) (progress : ℕ → Progress) (i : ℕ)
    : Type 0 where
  pub inside : progress i ≢ idle
  pub others : (j : ℕ) → j ≢ i → progress j ≡ idle
  pub will :
      Returns
        (completes (progress i) a)
        (λ a'. IsDirtyList a' (move_each (calls ++ node_of (progress i)) []))

abbrev pub Latched : List NodePtr → PageAllocator → (ℕ → Progress) → Option ℕ → Type 0
Latched calls a progress none = IsDirtyList a (move_each calls []) × ((i : ℕ) → progress i ≡ idle)
Latched calls a progress (some i) = Held calls a progress i

abbrev pub Invariant : List NodePtr → System → Type 0
Invariant calls s = Latched calls s.allocator s.progress s.latch

pub update_here : (f : ℕ → Progress) (i : ℕ) (v : Progress) → update f i v i ≡ v
update_here f i v = ground arith

pub update_there : (f : ℕ → Progress) (i : ℕ) (v : Progress) (j : ℕ) → j ≢ i → update f i v j ≡ f j
update_there f i v j ne = ground (arith, ne)

taken_out :
    (node next : NodePtr) (a : PageAllocator)
    → a.next_dirty node ≡ some next
    → completes (unlinked node next) (unlink node next (a.prev_dirty node) a)
      ≡ completes (entered node) a
unfolding completes dirty unlink
taken_out node next a at = elim (Option-cases (a.prev_dirty node)) [
  | inl p ↦ rw (completes, dirty, unlink, at, p) refl
  | inr (q, p) ↦ rw (completes, dirty, unlink, at, p) refl
]

module _ (calls : List NodePtr) (s : System) (i : ℕ) where
  -- Only the thread that holds the latch is inside.
  pub holder :
      Invariant calls s
      → s.progress i ≢ idle
      → (s.latch ≡ some i) × Held calls s.allocator s.progress i
  holder inv inside = elim (Option-cases s.latch) [
    | inl free ↦
        let all_idle = (subst (Latched calls s.allocator s.progress) free inv).1 in
        absurd (inside (all_idle i))
    | inr (j, at) ↦
        let held : Held calls s.allocator s.progress j =
          subst (Latched calls s.allocator s.progress) at inv in
        elim (Bool-cases (i == j)) [
          | inl e ↦
              let same : j ≡ i = ground arith in
              (at ∙ ap some same, subst (Held calls s.allocator s.progress) same held)
          | inr d ↦ absurd (inside (held.others i (ground arith)))
        ]
  ]

  module _ (p : Progress) (now : s.progress i ≡ p) (inside : p ≢ idle)
      (inv : Invariant calls s) where
    pub Held-now : (s.latch ≡ some i) × Held calls s.allocator s.progress i
    Held-now = holder inv (λ e. inside (sym now ∙ e))

    pub will_now :
        Returns (completes p s.allocator) (λ a. IsDirtyList a (move_each (calls ++ node_of p) []))
    will_now =
        subst
          (λ q.
            Returns (completes q s.allocator)
              (λ a. IsDirtyList a (move_each (calls ++ node_of q) [])))
          now Held-now.1.will

    Invariant-moved :
        (a : PageAllocator) (q : Progress)
        → q ≢ idle
        → node_of q ≡ node_of p
        → completes q a ≡ completes p s.allocator
        → Invariant (calls ++ []) (moved_to s i a q)
    Invariant-moved a q inside' node rest =
        let held : Held calls a (update s.progress i q) i = record {
          inside = λ e. inside' (sym (update_here s.progress i q) ∙ e);
          others = λ j ne. update_there s.progress i q j ne ∙ Held-now.1.others j ne;
          will =
              subst
                (λ r.
                  Returns (completes r a)
                    (λ a'. IsDirtyList a' (move_each (calls ++ node_of r) [])))
                (sym (update_here s.progress i q)) (rw (rest, node) will_now);
        } in
        subst (λ c. Invariant c (moved_to s i a q)) (sym (append-nil calls))
          (subst (Latched calls a (update s.progress i q)) (sym Held-now.0) held)

    Invariant-left :
        (a : PageAllocator)
        → completes p s.allocator ≡ ok a
        → Invariant (calls ++ node_of p) (left_by s i a)
    Invariant-left a rest = (
      subst (λ o. Returns o (λ a. IsDirtyList a (move_each (calls ++ node_of p) []))) rest will_now,
      λ j. elim (Bool-cases (j == i)) [
        | inl e ↦ ground arith
        | inr d ↦
            update_there s.progress i idle j (ground arith) ∙ Held-now.1.others j (ground arith)
      ],
    )

  Invariant-entered :
      (node : NodePtr)
      → s.latch ≡ none
      → Invariant calls s
      → Invariant (calls ++ []) (record {
        allocator = s.allocator;
        latch = some i;
        progress = update s.progress i (entered node);
      })
  unfolding completes node_of
  Invariant-entered node free inv =
      let (list, all_idle) = subst (Latched calls s.allocator s.progress) free inv in
      let will : Returns (completes (entered node) s.allocator)
          (λ a'. IsDirtyList a' (move_each (calls ++ node_of (entered node)) [])) =
        Returns-mono (dirty node s.allocator)
          (dirty-Moved node s.allocator (move_each calls []) list)
          (λ a' m. subst (IsDirtyList a') (sym (move_each-append calls node [])) m.list) in
      let held : Held calls s.allocator (update s.progress i (entered node)) i = record {
        inside = λ e. cc (update_here s.progress i (entered node), e);
        others = λ j ne. update_there s.progress i (entered node) j ne ∙ all_idle j;
        will =
            subst
              (λ r.
                Returns (completes r s.allocator)
                  (λ a'. IsDirtyList a' (move_each (calls ++ node_of r) [])))
              (sym (update_here s.progress i (entered node))) will;
      } in
      subst (λ c. Held c s.allocator (update s.progress i (entered node)) i)
        (sym (append-nil calls)) held

  Invariant-Step :
      {done : List NodePtr} {s' : System}
      → Invariant calls s
      → Step i s done s'
      → Invariant (calls ++ done) s'
  unfolding completes node_of dirty
  Invariant-Step inv (enter node free was) = Invariant-entered node free inv
  Invariant-Step inv (take_out node next now at) =
      Invariant-moved (entered node) now (λ e. cc e) inv
        (unlink node next (s.allocator.prev_dirty node) s.allocator) (unlinked node next)
        (λ e. cc e) refl (taken_out node next s.allocator at)
  Invariant-Step inv (put_last node next last now at) =
      Invariant-moved (unlinked node next) now (λ e. cc e) inv (link_last node last s.allocator)
        (linked node (some next)) (λ e. cc e) refl (rw (completes, at) refl)
  Invariant-Step inv (at_end node prev now n p) =
      Invariant-moved (entered node) now (λ e. cc e) inv s.allocator (linked node none) (λ e. cc e)
        refl (rw (completes, dirty, n, p) refl)
  Invariant-Step inv (put_first node now n p l) =
      Invariant-moved (entered node) now (λ e. cc e) inv
        (record s.allocator { first_dirty = some node }) (linked node none) (λ e. cc e) refl
        (rw (completes, dirty, n, p, l) refl)
  Invariant-Step inv (put_behind node last now n p l ne) =
      Invariant-moved (entered node) now (λ e. cc e) inv (link_last node last s.allocator)
        (linked node none) (λ e. cc e) refl (rw (completes, dirty, n, p, l, ne) refl)
  Invariant-Step inv (sole node last now n p l e) =
      Invariant-left (entered node) now (λ e. cc e) inv s.allocator (ground (arith, n, p, l, e))
  Invariant-Step inv (leave node next now) =
      Invariant-left (linked node next) now (λ e. cc e) inv (finish node next s.allocator) refl

pub Reach-Invariant : (calls : List NodePtr) (s : System) → Reach calls s → Invariant calls s
unfolding move_each
Reach-Invariant calls s start = (new_allocator-IsDirtyList, λ i. refl)
Reach-Invariant calls s (later {calls = calls'} {s = s'} i before step) =
    Invariant-Step calls' s' i (Reach-Invariant calls' s' before) step
