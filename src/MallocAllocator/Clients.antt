-- ===== src/MallocAllocator/Clients.antt =====
-- A client of libTupl/src/tupl/MallocAllocator.cpp that keeps a list of the blocks it has got.
use tupl_native.Common.{
  ℕ, ◌<◌, ◌≡◌, refl, sym, ◌∙◌, ap, arith, true, not, ◌&&◌, Option, none, some, List, [], ◌∷◌, ◌==◌,
  if◌then◌else◌, has, remove, NoDup, All, Bool-cases, inl, inr, Outcome, ok, fail,
}
use tupl_native.MallocAllocator.{
  MemPtr, Allocator, CLibrary, IsCLibrary, or_throw, malloc_allocator,
}

-- What a client may ask for.
pub data Call : Type 0 where
  take_block : (size : ℕ) → Call
  resize_block : MemPtr → (new_size old_size : ℕ) → Call
  give_back : MemPtr → (size : ℕ) → Call

abbrev pub IsProper : Call → Type 0
IsProper (take_block size) = Unit {0}
IsProper (resize_block p new_size old_size) = 0 < new_size
IsProper (give_back p size) = Unit {0}

module _ {S : Type 0} (a : Allocator S) where
  abbrev got : List MemPtr → Outcome MemPtr × S → List MemPtr × S
  got blocks (ok p, s) = (p ∷ blocks, s)
  got blocks (fail e, s) = (blocks, s)

  abbrev resized : List MemPtr → MemPtr → Outcome MemPtr × S → List MemPtr × S
  resized blocks p (ok r, s) = (r ∷ remove p blocks, s)
  resized blocks p (fail e, s) = (blocks, s)

  -- A call by a client that resizes and gives back only what it has, and what it has afterwards. An
  -- exception leaves it what it had.
  unfoldable pub client_step : Call → List MemPtr × S → List MemPtr × S
  client_step (take_block size) (blocks, s) = got blocks (a.alloc size s)
  client_step (resize_block p new_size old_size) (blocks, s) =
      if has p blocks then resized blocks p (a.realloc new_size p old_size s) else (blocks, s)
  client_step (give_back p size) (blocks, s) =
      if has p blocks then (remove p blocks, a.free p size s) else (blocks, s)

  unfoldable pub client_steps : List Call → List MemPtr × S → List MemPtr × S
  client_steps [] st = st
  client_steps (call ∷ calls) st = client_steps calls (client_step call st)

-- The client's blocks are the live ones, each once.
pub record Owns {S : Type 0} (c : CLibrary S) (st : List MemPtr × S) : Type 0 where
  pub once : NoDup st.0
  pub exactly : (q : MemPtr) → c.live st.1 q ≡ has q st.0

has-remove_once :
    (q p : MemPtr) (xs : List MemPtr) → NoDup xs → has q (remove p xs) ≡ (has q xs && not (q == p))
unfolding remove
has-remove_once q p [] nd = refl
has-remove_once q p (x ∷ xs) nd = ground (arith, has-remove_once q p xs nd.1, nd.0)

NoDup-remove : (p : MemPtr) (xs : List MemPtr) → NoDup xs → NoDup (remove p xs)
unfolding remove
NoDup-remove p [] nd = tt
NoDup-remove p (x ∷ xs) nd = elim (Bool-cases (x == p)) [
  | inl e ↦ rw (e, remove) nd.1
  | inr ne ↦
      rw (ne, remove) (ground (arith, has-remove_once x p xs nd.1, nd.0), NoDup-remove p xs nd.1)
]

module _ {S : Type 0} (c : CLibrary S) (lawful : IsCLibrary c) where
  Owns-taken :
      (size : ℕ) (blocks : List MemPtr) (s : S) (r : Option MemPtr × S)
      → Owns c (blocks, s)
      → c.malloc size s ≡ r
      → Owns c (got (malloc_allocator c) blocks (or_throw r))
  unfolding or_throw
  Owns-taken size blocks s (none, s') owns e = record {
    once = owns.once;
    exactly = λ q. lawful.malloc_none size s s' e q ∙ owns.exactly q;
  }
  Owns-taken size blocks s (some p, s') owns e =
      let (new, live) = lawful.malloc_some size s s' p e in
      record {
        once = (sym (owns.exactly p) ∙ new, owns.once);
        exactly = λ q. ground (arith, live q, owns.exactly q);
      }

  Owns-resized :
      (p : MemPtr) (new_size : ℕ) (blocks : List MemPtr) (s : S) (r : Option MemPtr × S)
      → 0 < new_size
      → Owns c (blocks, s)
      → has p blocks ≡ true
      → c.realloc p new_size s ≡ r
      → Owns c (resized (malloc_allocator c) blocks p (or_throw r))
  unfolding or_throw
  Owns-resized p new_size blocks s (none, s') pos owns m e = record {
    once = owns.once;
    exactly =
        λ q. lawful.realloc_none p new_size s s' (owns.exactly p ∙ m) pos e q ∙ owns.exactly q;
  }
  Owns-resized p new_size blocks s (some r, s') pos owns m e =
      let (new, live) = lawful.realloc_some p new_size s s' r (owns.exactly p ∙ m) e in
      record {
        once = (
          has-remove_once r p blocks owns.once
              ∙ ap (λ b. b && not (r == p)) (sym (owns.exactly r))
              ∙ new,
          NoDup-remove p blocks owns.once,
        );
        exactly = λ q. ground (arith, live q, owns.exactly q, has-remove_once q p blocks owns.once);
      }

  Owns-step :
      (call : Call) (st : List MemPtr × S)
      → IsProper call
      → Owns c st
      → Owns c (client_step (malloc_allocator c) call st)
  unfolding client_step malloc_allocator
  Owns-step (take_block size) st proper owns =
      Owns-taken size st.0 st.1 (c.malloc size st.1) owns refl
  Owns-step (resize_block p new_size old_size) st proper owns = elim (Bool-cases (has p st.0)) [
    | inl m ↦
        rw m (Owns-resized p new_size st.0 st.1 (c.realloc p new_size st.1) proper owns m refl)
    | inr out ↦ rw out owns
  ]
  Owns-step (give_back p size) st proper owns = elim (Bool-cases (has p st.0)) [
    | inl m ↦ rw m (record {
      once = NoDup-remove p st.0 owns.once;
      exactly = λ q.
          lawful.freed p st.1 (owns.exactly p ∙ m) q
          ∙ ap (λ b. b && not (q == p)) (owns.exactly q)
          ∙ sym (has-remove_once q p st.0 owns.once);
    })
    | inr out ↦ rw out owns
  ]

  -- However a client that resizes and gives back only blocks of its own, and resizes none to 0,
  -- calls a `MallocAllocator` over a C library that does what the standard says, and however often
  -- it gets `std::bad_alloc`: if its blocks were the live ones, each once, they are after.
  pub client_steps-Owns :
      (calls : List Call) (st : List MemPtr × S)
      → All IsProper calls
      → Owns c st
      → Owns c (client_steps (malloc_allocator c) calls st)
  unfolding client_steps
  client_steps-Owns [] st proper owns = owns
  client_steps-Owns (call ∷ calls) st proper owns =
      client_steps-Owns calls (client_step (malloc_allocator c) call st) proper.1
        (Owns-step call st proper.0 owns)
