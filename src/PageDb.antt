-- ===== src/PageDb.antt =====
-- libTupl/src/tupl/pvt/PageDb.hpp: the interface of a page database, with what its comments promise;
-- libTupl/src/tupl/pvt/NonPageDb.hpp: the one that stores nothing. The commit lock, a mutex without
-- operations, is left out.
use tupl_native.Common.{ℕ, ◌≤◌, ◌≡◌, arith, Outcome, ok}

-- The virtual functions, over the state of an implementation. Page ids are not negative.
pub record PageDb (S : Type 0) : Type 0 where
  pub page_size : S → ℕ
  pub alloc_page : S → Outcome (ℕ × S)

-- "Returns the fixed size of all pages" and "page id; never zero or one".
pub record IsPageDb {S : Type 0} (db : PageDb S) : Type 0 where
  pub fixed_size :
      (s s' : S) (page : ℕ) → db.alloc_page s ≡ ok (page, s') → db.page_size s' ≡ db.page_size s
  pub never_zero_or_one : (s s' : S) (page : ℕ) → db.alloc_page s ≡ ok (page, s') → 2 ≤ page

-- `NonPageDb`, whose state is `mPageSize`.
unfoldable pub non_page_db : PageDb ℕ
non_page_db = record { page_size = λ s. s; alloc_page = λ s. ok (2, s) }

pub non_page_db-IsPageDb : IsPageDb non_page_db
unfolding non_page_db
non_page_db-IsPageDb = record {
  fixed_size = λ s s' page e. ground (arith, e);
  never_zero_or_one = λ s s' page e. ground (arith, e);
}
