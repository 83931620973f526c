-- ===== src/MallocAllocator.antt =====
-- libTupl/src/tupl/Allocator.hpp: the interface of an allocator, with the state as an argument;
-- libTupl/src/tupl/MallocAllocator.hpp and MallocAllocator.cpp: its implementation by `std::malloc`,
-- `std::realloc` and `std::free`, which are a parameter.
pub mod Clients
use tupl_native.Common.{
  ℕ, ◌≤◌, ◌<◌, ◌≡◌, Bool, true, false, not, ◌&&◌, ◌||◌, Option, none, some, ◌==◌, Outcome, ok, fail,
  bad_alloc,
}

-- A pointer that is not null.
abbrev pub MemPtr : Type 0
MemPtr = ℕ

-- `Allocator`. An exception leaves a state too.
pub record Allocator (S : Type 0) : Type 0 where
  pub alloc : (size : ℕ) → S → Outcome MemPtr × S
  pub realloc : (new_size : ℕ) → MemPtr → (old_size : ℕ) → S → Outcome MemPtr × S
  pub free : MemPtr → (size : ℕ) → S → S

-- The C library, over the state of the heap. Null is `none`.
pub record CLibrary (S : Type 0) : Type 0 where
  pub live : S → MemPtr → Bool
  pub malloc : (size : ℕ) → S → Option MemPtr × S
  pub realloc : MemPtr → (size : ℕ) → S → Option MemPtr × S
  pub free : MemPtr → S → S

-- What the C standard says of these functions: a new block is not one of those there are; a block
-- that could not be resized stays as it is, unless the new size is 0.
pub record IsCLibrary {S : Type 0} (c : CLibrary S) : Type 0 where
  pub malloc_some :
      (size : ℕ) (s s' : S) (p : MemPtr)
      → c.malloc size s ≡ (some p, s')
      → (c.live s p ≡ false) × ((q : MemPtr) → c.live s' q ≡ (c.live s q || q == p))
  pub malloc_none :
      (size : ℕ) (s s' : S) → c.malloc size s ≡ (none, s') → (q : MemPtr) → c.live s' q ≡ c.live s q
  pub realloc_some :
      (p : MemPtr) (size : ℕ) (s s' : S) (r : MemPtr)
      → c.live s p ≡ true
      → c.realloc p size s ≡ (some r, s')
      → ((c.live s r && not (r == p)) ≡ false)
        × ((q : MemPtr) → c.live s' q ≡ ((c.live s q && not (q == p)) || q == r))
  pub realloc_none :
      (p : MemPtr) (size : ℕ) (s s' : S)
      → c.live s p ≡ true
      → 0 < size
      → c.realloc p size s ≡ (none, s')
      → (q : MemPtr) → c.live s' q ≡ c.live s q
  pub freed :
      (p : MemPtr) (s : S)
      → c.live s p ≡ true
      → (q : MemPtr) → c.live (c.free p s) q ≡ (c.live s q && not (q == p))

-- `if (ptr) { return ptr; } throw std::bad_alloc();`
unfoldable pub or_throw : {S : Type 0} → Option MemPtr × S → Outcome MemPtr × S
or_throw (none, s) = (fail bad_alloc, s)
or_throw (some p, s) = (ok p, s)

-- `MallocAllocator`
unfoldable pub malloc_allocator : {S : Type 0} → CLibrary S → Allocator S
unfolding or_throw
malloc_allocator c = record {
  alloc = λ size s. or_throw (c.malloc size s);
  realloc = λ new_size old_mem old_size s. or_throw (c.realloc old_mem new_size s);
  free = λ mem size s. c.free mem s;
}
