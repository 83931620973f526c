-- ===== src/Examples/Blocks.antt =====
-- A C library with memory for one block of at most 100 bytes.
use tupl_native.Common.{
  refl, Bool, true, false, ◌&&◌, none, some, List, [], ◌∷◌, arith, ltb, ◌==◌, if◌then◌else◌,
}
use tupl_native.MallocAllocator.{CLibrary, IsCLibrary, malloc_allocator}
use tupl_native.MallocAllocator.Clients.{
  Call, take_block, resize_block, give_back, client_steps, Owns, client_steps-Owns,
}

abbrev one_block : CLibrary Bool
one_block = record {
  live = λ s q. s && q == 1;
  malloc =
      λ size s. if s then (none, true) else if ltb 100 size then (none, false) else (some 1, true);
  realloc = λ p size s. if ltb 100 size then (none, s) else (some p, s);
  free = λ p s. if p == 1 then false else s;
}

one_block-IsCLibrary : IsCLibrary one_block
one_block-IsCLibrary = record {
  malloc_some = λ size s s' p e. (ground (arith, e), λ q. ground (arith, e));
  malloc_none = λ size s s' e q. ground (arith, e);
  realloc_some = λ p size s s' r live e. (ground (arith, e, live), λ q. ground (arith, e, live));
  realloc_none = λ p size s s' live pos e q. ground (arith, e);
  freed = λ p s live q. ground (arith, live);
}

-- The second block and the bigger size are refused.
abbrev calls : List Call
calls =
    take_block 10
    ∷ take_block 20
    ∷ resize_block 1 30 10
    ∷ resize_block 1 200 30
    ∷ give_back 1 30
    ∷ []

no_blocks-Owns : Owns one_block ([], false)
no_blocks-Owns = record { once = tt; exactly = λ q. refl }

client_steps-Owns_example :
    Owns one_block (client_steps (malloc_allocator one_block) calls ([], false))
client_steps-Owns_example =
    client_steps-Owns one_block one_block-IsCLibrary calls ([], false)
      (tt, (tt, (omega arith, (omega arith, (tt, tt))))) no_blocks-Owns
