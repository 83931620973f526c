-- ===== src/CursorOps/LatchOrder.antt =====
-- The order in which `unwindAndLockRoot` and `find` of libTupl/src/tupl/pvt/ops.cpp take latches.
use tupl_native.Common.{
  ℕ, zero, suc, ◌-◌, ◌≡◌, refl, ◌∙◌, ap, Bool, true, ◌&&◌, ◌||◌, Option, none, some, List, [], ◌∷◌,
  ◌++◌, ltb, ◌==◌, arith, length, has, remove, inl, inr, if◌then◌else◌, ◌⊎◌, Failure, Outcome, ok,
  fail, Build, ◌>>=◌,
}
use tupl_native.SlowNode.{Ptr}
use tupl_native.ArrayStack.{size}
use tupl_native.CursorOps.{Cursor, unwind_top, unwind_loop, unwind_and_lock_root}
use tupl_native.CursorOps.Latches.{
  LatchEvent, lock, unlock, erase, Traced, after_events, quiet, and_then, unwind_loop_traced,
  root_locks, unwind_last, unwind_traced,
}

-- Every latch that is held is of a node further up.
abbrev pub all_above : (Ptr → ℕ) → Ptr → List Ptr → Bool
all_above rank q [] = true
all_above rank q (h ∷ held) = ltb (rank q) (rank h) && all_above rank q held

-- The latches that are held after some events, if the rule is followed: a latch is only taken of a
-- node further down than those held, of which there may be one more at most, only what is held is
-- given back, and only the list of a node whose latch is held is changed.
unfoldable pub follow : (Ptr → ℕ) → (held : List Ptr) → List LatchEvent → Option (List Ptr)
follow rank held [] = some held
follow rank held (lock q ∷ es) =
    if all_above rank q held && ltb (length held) 2 then follow rank (q ∷ held) es else none
follow rank held (unlock q ∷ es) = if has q held then follow rank (remove q held) es else none
follow rank held (erase slot q ∷ es) = if has q held then follow rank held es else none

module _ (rank : Ptr → ℕ) where
  pub follow-append :
      (held held' : List Ptr) (es fs : List LatchEvent)
      → follow rank held es ≡ some held'
      → follow rank held (es ++ fs) ≡ follow rank held' fs
  unfolding follow
  follow-append held held' [] fs h = ground arith
  follow-append held held' (lock q ∷ es) fs h = ground (arith, follow-append (q ∷ held) held' es fs)
  follow-append held held' (unlock q ∷ es) fs h =
      ground (arith, follow-append (remove q held) held' es fs)
  follow-append held held' (erase slot q ∷ es) fs h = ground (arith, follow-append held held' es fs)

  follow_round :
      (node : Ptr) (slot : ℕ) (es : List LatchEvent)
      → follow rank [] (lock node ∷ erase slot node ∷ unlock node ∷ es) ≡ follow rank [] es
  unfolding follow remove
  follow_round node slot es = ground arith

  -- What comes behind a part that holds and gives back its latches, whether it fails or not.
  and_then-follow :
      {A B : Type 0} (t : Traced A) (f : A → Traced B) (held : List Ptr)
      → follow rank held t.0 ≡ some held
      → ((a : A) → t.1 ≡ ok a → follow rank held (f a).0 ≡ some held)
      → follow rank held (and_then t f).0 ≡ some held
  unfolding and_then
  and_then-follow (es, fail e) f held h k = h
  and_then-follow (es, ok a) f held h k = follow-append held held es (f a).0 h ∙ k a refl

  unwind_loop_traced-follow :
      (build : Build) (n : ℕ) (c : Cursor)
      → follow rank [] (unwind_loop_traced build n c).0 ≡ some []
  unfolding unwind_loop_traced follow
  unwind_loop_traced-follow build zero c = refl
  unwind_loop_traced-follow build (suc n) c =
      and_then-follow (quiet (unwind_top build c)) _ [] refl (λ (c', node) e.
        follow_round node (c.stack_frames.top - 1) (unwind_loop_traced build n c').0
        ∙ unwind_loop_traced-follow build n c')

  root_locks-follow :
      (root stack_root : Ptr) (slot : ℕ)
      → follow rank [] (root_locks root stack_root slot) ≡ (
          if (stack_root == root) || ltb (rank root) (rank stack_root)
          then some (root ∷ [])
          else none)
  unfolding follow remove
  root_locks-follow root stack_root slot = ground arith

pub and_then-outcome :
    {A B : Type 0} (t : Traced A) (f : A → Traced B) → (and_then t f).1 ≡ (t.1 >>= λ a. (f a).1)
unfolding and_then
and_then-outcome (es, fail e) f = refl
and_then-outcome (es, ok a) f = refl

pub Outcome-cases :
    {A : Type 0} (o : Outcome A) → ((a : A) × (o ≡ ok a)) ⊎ ((e : Failure) × (o ≡ fail e))
Outcome-cases (ok a) = inl (a, refl)
Outcome-cases (fail e) = inr (e, refl)

pub bind_same :
    {A B : Type 0} (o : Outcome A) (f g : A → Outcome B)
    → ((a : A) → f a ≡ g a)
    → (o >>= f) ≡ (o >>= g)
bind_same (ok a) f g h = h a
bind_same (fail e) f g h = refl

unwind_loop_traced-outcome :
    (build : Build) (n : ℕ) (c : Cursor) → (unwind_loop_traced build n c).1 ≡ unwind_loop build n c
unfolding unwind_loop_traced unwind_loop
unwind_loop_traced-outcome build zero c = refl
unwind_loop_traced-outcome build (suc n) c =
    and_then-outcome (quiet (unwind_top build c)) _
    ∙ bind_same (unwind_top build c) _ _ (λ r. unwind_loop_traced-outcome build n r.0)

-- Without its events a traced run is what the operation does.
pub unwind_traced-outcome :
    (build : Build) (root : Ptr) (c : Cursor)
    → (unwind_traced build root c).1 ≡ unwind_and_lock_root build root c
unfolding unwind_traced unwind_and_lock_root unwind_last
unwind_traced-outcome build root c =
    and_then-outcome (unwind_loop_traced build (size 64 c.stack_frames - 1) c)
      (unwind_last build root)
    ∙ ap (λ o. o >>= λ c'. (unwind_last build root c').1)
        (unwind_loop_traced-outcome build (size 64 c.stack_frames - 1) c)
    ∙ bind_same (unwind_loop build (size 64 c.stack_frames - 1) c)
        (λ c'. (unwind_last build root c').1)
        (λ c'. unwind_top build c' >>= λ (c'', stack_root).
          ok (c'', if stack_root == root then stack_root else root))
        (λ c'. and_then-outcome (quiet (unwind_top build c')) (λ (c'', stack_root). (
          root_locks root stack_root (c'.stack_frames.top - 1),
          ok (c'', if stack_root == root then stack_root else root),
        )))

pub and_then_ok :
    {A B : Type 0} (t : Traced A) (f : A → Traced B) (a : A)
    → t.1 ≡ ok a
    → and_then t f ≡ after_events t.0 (f a)
unfolding and_then
and_then_ok t f a h = rw h refl

-- Where the frames come off the stack of a cursor, the last one of them at the node `stack_root`,
-- every latch is of a node further down than those that are held, at most two are held at a time,
-- frames are only taken out of the list of a node whose latch is held, and in the end the latch of
-- the root alone is held, if that node is the root or stands above it. If it stands below the root
-- the latches are taken against this order.
pub unwind_traced-follow :
    (rank : Ptr → ℕ) (build : Build) (root stack_root : Ptr) (c c' c'' : Cursor)
    → unwind_loop build (size 64 c.stack_frames - 1) c ≡ ok c'
    → unwind_top build c' ≡ ok (c'', stack_root)
    → follow rank [] (unwind_traced build root c).0 ≡ (
        if (stack_root == root) || ltb (rank root) (rank stack_root)
        then some (root ∷ [])
        else none)
unfolding unwind_traced unwind_last
unwind_traced-follow rank build root stack_root c c' c'' loop top =
    let rounds = size 64 c.stack_frames - 1 in
    let last = root_locks root stack_root (c'.stack_frames.top - 1) in
    let all =
      and_then_ok (unwind_loop_traced build rounds c) (unwind_last build root) c'
        (unwind_loop_traced-outcome build rounds c ∙ loop) in
    let final =
      and_then_ok (quiet (unwind_top build c'))
        (λ (c'', stack_root). (
          root_locks root stack_root (c'.stack_frames.top - 1),
          ok (c'', if stack_root == root then stack_root else root),
        ))
        (c'', stack_root) top in
    ap (λ (t : Traced (Cursor × Ptr)). follow rank [] t.0) all
    ∙ ap
        (λ (t : Traced (Cursor × Ptr)).
          follow rank [] ((unwind_loop_traced build rounds c).0 ++ t.0))
        final
    ∙ follow-append rank [] [] (unwind_loop_traced build rounds c).0 last
        (unwind_loop_traced-follow rank build rounds c)
    ∙ root_locks-follow rank root stack_root (c'.stack_frames.top - 1)
