-- ===== src/CursorOps/Unwind.antt =====
-- `unwindAndLockRoot` of libTupl/src/tupl/pvt/ops.cpp under NDEBUG: what it does with the frames on
-- the stack of a cursor.
use tupl_native.Common.{
  ℕ, zero, suc, ◌-◌, ◌≤◌, ◌<◌, ◌≡◌, refl, ◌∙◌, ap, subst, true, false, leb, some, List, [], ◌∷◌,
  ◌++◌, arith, length, length-append, get_elem?, get_elem?-append_left, get_elem?_in_range, has,
  has-remove, fail, undefined_behaviour, release, Returns, Returns-bind, Returns-ok,
}
use tupl_native.SlowNode.{Ptr}
use tupl_native.ArrayStack.{empty, top_value, pop, size}
use tupl_native.ArrayStack.Release.{Represents, top_value_lem, pop-Represents, size-Represents}
use tupl_native.CursorOps.{
  CursorFrame, frame_size, Cursor, unwind_top, unwind_loop, unwind_and_lock_root, find,
}
use tupl_native.Bytes.{Contents}
use tupl_native.SlowTree.{Heap}

-- The cursor's stack holds these frames, and every frame is in the list of its node.
pub record IsBound (c : Cursor) (fs : List CursorFrame) : Type 0 where
  pub stands : Represents frame_size 64 c.stack_frames fs
  pub bound :
      (i : ℕ) (f : CursorFrame)
      → get_elem? fs i ≡ some f
      → (q : Ptr) × (f.node ≡ some q) × (has i (c.visitors q) ≡ true)

snoc-of :
    (fs : List CursorFrame)
    → 0 < length fs
    → (xs : List CursorFrame) × (f : CursorFrame) × (fs ≡ xs ++ f ∷ [])
snoc-of [] h = absurd (omega arith)
snoc-of (f ∷ []) h = ([], f, refl)
snoc-of (f ∷ g ∷ fs) h =
    let (xs, l, e) = snoc-of (g ∷ fs) (omega arith) in (f ∷ xs, l, ap (λ l. f ∷ l) e)

get-snoc_last :
    (xs : List CursorFrame) (f : CursorFrame) → get_elem? (xs ++ f ∷ []) (length xs) ≡ some f
get-snoc_last [] f = refl
get-snoc_last (x ∷ xs) f = get-snoc_last xs f

-- One round takes the last frame off.
unwind_top-IsBound :
    (c : Cursor) (xs : List CursorFrame) (f : CursorFrame)
    → IsBound c (xs ++ f ∷ [])
    → Returns (unwind_top release c) (λ (r : Cursor × Ptr). IsBound r.0 xs)
unfolding unwind_top
unwind_top-IsBound c xs f b =
    let (q, at, m) = b.bound (length xs) f (get-snoc_last xs f) in
    let count : c.stack_frames.top - 1 ≡ length xs =
      omega (arith, b.stands.count, length-append xs (f ∷ [])) in
    rw (top_value_lem frame_size 64 c.stack_frames xs f b.stands, at, count, m)
      (Returns-bind _ (pop release frame_size 64 c.stack_frames) _
        (pop-Represents frame_size 64 c.stack_frames xs f b.stands)
        (λ stack rep. record {
          stands = rep;
          bound = λ i g h.
              let lt = get_elem?_in_range xs i g h in
              let (q', at', m') = b.bound i g (get_elem?-append_left xs (f ∷ []) i lt ∙ h) in
              (q', at', ground (arith, has-remove i (length xs) (c.visitors q)));
        }))

unwind_top_empty :
    (c : Cursor) → c.stack_frames.top ≡ 0 → unwind_top release c ≡ fail undefined_behaviour
unfolding unwind_top top_value
unwind_top_empty c h = ground arith

unwind_loop_too_far :
    (k : ℕ) (c : Cursor) (fs : List CursorFrame)
    → IsBound c fs
    → length fs < k
    → unwind_loop release k c ≡ fail undefined_behaviour
unfolding unwind_loop
unwind_loop_too_far zero c fs b h = absurd (omega arith)
unwind_loop_too_far (suc k) c [] b h = rw (unwind_top_empty c b.stands.count) refl
unwind_loop_too_far (suc k) c (g ∷ fs) b h =
    let (xs, f, e) = snoc-of (g ∷ fs) (omega arith) in
    let n : suc (length fs) ≡ suc (length xs) =
      ap length e ∙ length-append xs (f ∷ []) ∙ omega arith in
    let (r, run, b') =
      Returns-ok (unwind_top release c) (unwind_top-IsBound c xs f (subst (IsBound c) e b)) in
    rw run (unwind_loop_too_far k r.0 xs b' (omega arith))

unwind_undefined :
    (root : Ptr) (c : Cursor) (fs : List CursorFrame)
    → IsBound c fs
    → unwind_and_lock_root release root c ≡ fail undefined_behaviour
unfolding unwind_and_lock_root
unwind_undefined root c fs b =
    let few : length fs ≤ 1 = omega (arith, b.stands.within) in
    let rounds : size 64 c.stack_frames ≡ 64 - length fs = omega (
      arith,
      size-Represents frame_size 64 c.stack_frames fs b.stands (omega arith) (omega arith),
    ) in
    rw (rounds, unwind_loop_too_far (64 - length fs - 1) c fs b (omega arith)) refl

-- Under NDEBUG `unwindAndLockRoot`, and so `find`, is undefined for a cursor whose stack holds any
-- frames, each in the list of its node: the 64 bytes of the stack have room for one of 48 bytes
-- only, and the loop takes off as many as the slots that are free of 64.
pub unwind_positioned :
    (heap : Heap) (fuel : ℕ) (root : Ptr) (key : Contents) (c : Cursor) (f : CursorFrame)
    (fs : List CursorFrame)
    → IsBound c (f ∷ fs)
    → (unwind_and_lock_root release root c ≡ fail undefined_behaviour)
      × (find release heap fuel root key c ≡ fail undefined_behaviour)
unfolding find empty
unwind_positioned heap fuel root key c f fs b =
    let start : Cursor = record c { key = key } in
    let b' : IsBound start (f ∷ fs) = record { stands = b.stands; bound = b.bound } in
    let some_frames : leb c.stack_frames.top 0 ≡ false = ground (arith, b.stands.count) in
    (
      unwind_undefined root c (f ∷ fs) b,
      rw (some_frames, unwind_undefined root start (f ∷ fs) b') refl,
    )
