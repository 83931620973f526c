-- ===== src/PageAllocator/Pages.antt =====
-- `PageAllocator::allocPage` of libTupl/src/tupl/pvt/PageAllocator.hpp over a page database, for one
-- node after the other.
use tupl_native.Common.{
  remove, ℕ, ◌≤◌, ◌≡◌, refl, List, [], ◌∷◌, ◌++◌, Outcome, ok, fail, Build, All, length, true, ap,
  Failure, ◌≢◌, ap, sym, ◌∙◌, suc, ◌>>=◌, Returns, Returns-bind, assert_true,
}
use tupl_native.PageDb.{PageDb, IsPageDb, non_page_db}
use tupl_native.PageAllocator.{NodePtr, PageAllocator, alloc_page, dirty}
use tupl_native.PageAllocator.Dirty.{IsDirtyList}
use tupl_native.PageAllocator.Moves.{dirty-Moved}
use tupl_native.PageAllocator.Sequence.{move_each}

module _ {S : Type 0} (db : PageDb S) (build : Build) where
  -- What an allocation adds in front of the pages of those behind it.
  abbrev put_page :
      ℕ → PageAllocator × Outcome (List ℕ × S) → Outcome (PageAllocator × Outcome (List ℕ × S))
  put_page page (a, r) = ok (a, r >>= λ (pages, s). ok (page ∷ pages, s))

  -- Calls of `allocPage` one after the other, up to the first exception.
  unfoldable pub alloc_each :
      List NodePtr → PageAllocator → S → Outcome (PageAllocator × Outcome (List ℕ × S))
  alloc_each [] a s = ok (a, ok ([], s))
  alloc_each (node ∷ nodes) a s = alloc_page db build true node a s >>= λ (a', r). elim r [
    | fail e ↦ ok (a', fail e)
    | ok (page, s') ↦ alloc_each nodes a' s' >>= put_page page
  ]

  -- What the promises of a page database make of the result for a number of nodes.
  abbrev pub Pages : (count : ℕ) → S → Outcome (List ℕ × S) → Type 0
  Pages count s (ok (pages, s')) =
      (length pages ≡ count) × All (λ page. 2 ≤ page) pages × (db.page_size s' ≡ db.page_size s)
  Pages count s (fail e) = Unit {0}

  -- The nodes in front of the first exception, with the one that it was thrown for, are in the list.
  pub record Allocated (nodes xs : List NodePtr) (s : S) (a' : PageAllocator)
      (r : Outcome (List ℕ × S)) : Type 0 where
    pub visited : List NodePtr
    pub rest : List NodePtr
    pub whole : nodes ≡ visited ++ rest
    pub list : IsDirtyList a' (move_each visited xs)
    pub done : (pages : List ℕ) (s' : S) → r ≡ ok (pages, s') → rest ≡ []
    pub failed : (e : Failure) → r ≡ fail e → visited ≢ []
    pub pages : Pages (length nodes) s r

  alloc_page-IsDirtyList :
      (node : NodePtr) (a : PageAllocator) (xs : List NodePtr) (s : S)
      → IsDirtyList a xs
      → Returns
          (alloc_page db build true node a s)
          (λ (a', r). IsDirtyList a' (remove node xs ++ node ∷ []) × (r ≡ db.alloc_page s))
  unfolding alloc_page
  alloc_page-IsDirtyList node a xs s is = rw (assert_true build) (
      Returns-bind _ (dirty node a) (λ a'. ok (a', db.alloc_page s)) (dirty-Moved node a xs is)
        (λ a' m. (m.list, refl)))

  module _ (lawful : IsPageDb db) where
    Allocated-cons :
        (node : NodePtr) (nodes xs : List NodePtr) (s s' : S) (page : ℕ) (a' : PageAllocator)
        (r : Outcome (List ℕ × S))
        → db.alloc_page s ≡ ok (page, s')
        → Allocated nodes (remove node xs ++ node ∷ []) s' a' r
        → Returns (put_page page (a', r)) (λ (a'', r'). Allocated (node ∷ nodes) xs s a'' r')
    unfolding move_each
    Allocated-cons node nodes xs s s' page a' (fail e) from al = record {
      visited = node ∷ al.visited;
      rest = al.rest;
      whole = ap (λ l. node ∷ l) al.whole;
      list = al.list;
      done = λ pages s'' h. cc;
      failed = λ e' h h'. cc;
      pages = tt;
    }
    Allocated-cons node nodes xs s s' page a' (ok (pages, s'')) from al = record {
      visited = node ∷ al.visited;
      rest = al.rest;
      whole = ap (λ l. node ∷ l) al.whole;
      list = al.list;
      done = λ pages' s3 h. al.done pages s'' refl;
      failed = λ e' h h'. cc;
      pages = (
        ap suc al.pages.0,
        (lawful.never_zero_or_one s s' page from, al.pages.1),
        al.pages.2 ∙ lawful.fixed_size s s' page from,
      );
    }

    Allocated-after :
        (node : NodePtr) (nodes xs : List NodePtr) (s : S) (a' : PageAllocator)
        (r : Outcome (ℕ × S))
        → r ≡ db.alloc_page s
        → IsDirtyList a' (remove node xs ++ node ∷ [])
        → ((s' : S)
            → Returns
                (alloc_each nodes a' s')
                (λ (a'', r'). Allocated nodes (remove node xs ++ node ∷ []) s' a'' r'))
        → Returns
            (elim r [
              | fail e ↦ ok (a', fail e)
              | ok (page, s') ↦ alloc_each nodes a' s' >>= put_page page
            ])
            (λ (a'', r'). Allocated (node ∷ nodes) xs s a'' r')
    unfolding move_each
    Allocated-after node nodes xs s a' (fail e) from is ih = record {
      visited = node ∷ [];
      rest = nodes;
      whole = refl;
      list = is;
      done = λ pages s'' h. cc;
      failed = λ e' h h'. cc;
      pages = tt;
    }
    Allocated-after node nodes xs s a' (ok (page, s')) from is ih =
        Returns-bind _ (alloc_each nodes a' s') (put_page page) (ih s')
          (λ (a'', r) al. Allocated-cons node nodes xs s s' page a'' r (sym from) al)

    -- On an allocator with a well-formed dirty list and over a page database that keeps its
    -- promises, any sequence of calls of `allocPage` returns or ends with an exception of the
    -- database. Either way the list is well formed after, and the nodes of the calls stand at its
    -- end, also the one that got no page. Without an exception there is a page for every node, none
    -- of them page zero or one, and pages have the size they had.
    pub alloc_each-Allocated :
        (nodes : List NodePtr) (a : PageAllocator) (xs : List NodePtr) (s : S)
        → IsDirtyList a xs
        → Returns (alloc_each nodes a s) (λ (a', r). Allocated nodes xs s a' r)
    unfolding alloc_each move_each
    alloc_each-Allocated [] a xs s is = record {
      visited = [];
      rest = [];
      whole = refl;
      list = is;
      done = λ pages s' h. refl;
      failed = λ e h. absurd cc;
      pages = (refl, tt, refl);
    }
    alloc_each-Allocated (node ∷ nodes) a xs s is =
        Returns-bind _ (alloc_page db build true node a s) _ (alloc_page-IsDirtyList node a xs s is)
          (λ (a', r) (is', from).
            Allocated-after node nodes xs s a' r from is'
              (λ s'. alloc_each-Allocated nodes a' (remove node xs ++ node ∷ []) s' is'))

-- Page 2 for every node.
abbrev pub twos : List NodePtr → List ℕ
twos [] = []
twos (node ∷ nodes) = 2 ∷ twos nodes

-- Over a `NonPageDb` any sequence of calls of `allocPage`, on an allocator with a well-formed dirty
-- list, gives every node the same page.
pub alloc_each-twos :
    (build : Build) (nodes : List NodePtr) (a : PageAllocator) (xs : List NodePtr) (page_size : ℕ)
    → IsDirtyList a xs
    → Returns
        (alloc_each non_page_db build nodes a page_size)
        (λ (a', r). r ≡ ok (twos nodes, page_size))
unfolding alloc_each non_page_db
alloc_each-twos build [] a xs n is = refl
alloc_each-twos build (node ∷ nodes) a xs n is =
    Returns-bind _ (alloc_page non_page_db build true node a n) _
      (alloc_page-IsDirtyList non_page_db build node a xs n is)
      (λ (a', r) (is', from). rw from (
        Returns-bind _ (alloc_each non_page_db build nodes a' n) (put_page non_page_db build 2)
          (alloc_each-twos build nodes a' (remove node xs ++ node ∷ []) n is')
          (λ (a'', r') e. ap (λ o. o >>= λ (pages, s). ok (2 ∷ pages, s)) e)))
