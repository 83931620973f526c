-- ===== src/KeyComparator/Compare.antt =====
-- `compareLower` of libTupl/src/tupl/pvt/Node.cpp against the order of whole keys.
use tupl_native.Common.{
  ◌<◌, ◌≡◌, refl, true, false, arith, length, take, min, ok, Build, assert_true, lt→ltb, le→ltb,
  ◌⊎◌,
}
use tupl_native.Bytes.{Contents, less}
use tupl_native.KeyComparator.{State, mismatch, decide_at, compare_lower}
use tupl_native.KeyComparator.Prefix.{skip-mismatch, less-mismatch, mismatch-le}

pub decide_at-less : (l r : Contents) (st : State) → (decide_at l r st (mismatch l r)).0 ≡ less l r
unfolding decide_at
decide_at-less l r st = ground (arith, less-mismatch l r)

-- Where the two keys share the bytes that the state lets it skip, and both go on behind them, the
-- comparison passes its assertion and does what it would do from the first byte on.
pub compare_lower_skip :
    (build : Build) (l r : Contents) (st : State)
    → take (min st.lo_prefix_size st.hi_prefix_size) l
      ≡ take (min st.lo_prefix_size st.hi_prefix_size) r
    → min st.lo_prefix_size st.hi_prefix_size < length l
    → min st.lo_prefix_size st.hi_prefix_size < length r
    → compare_lower build l r st ≡ ok (decide_at l r st (mismatch l r))
unfolding compare_lower
compare_lower_skip build l r st e h q =
    let p = min st.lo_prefix_size st.hi_prefix_size in
    rw
      (
        lt→ltb (min st.lo_prefix_size st.hi_prefix_size) (min (length l) (length r)) (omega arith),
        le→ltb (min (length l) (length r)) (min st.lo_prefix_size st.hi_prefix_size) (omega arith),
        assert_true build,
        skip-mismatch (min st.lo_prefix_size st.hi_prefix_size) l r e (omega arith) (omega arith),
      )
      refl

-- The state after a comparison that finds the left key less.
pub decide_at-lower :
    (l r : Contents) (st : State)
    → less l r ≡ true
    → ((decide_at l r st (mismatch l r)).1 ≡ st)
      ⊎ (((decide_at l r st (mismatch l r)).1 ≡ record st { lo_prefix_size = mismatch l r })
          × (mismatch l r < length r))
unfolding decide_at
decide_at-lower l r st h = ground (arith, less-mismatch l r, mismatch-le l r)

-- The state after one that does not.
pub decide_at-upper :
    (l r : Contents) (st : State)
    → less l r ≡ false
    → (((decide_at l r st (mismatch l r)).1 ≡ record st { equal = true })
        × (mismatch l r ≡ length l)
        × (length l ≡ length r))
      ⊎ (((decide_at l r st (mismatch l r)).1 ≡ st) × (length r < length l))
      ⊎ (((decide_at l r st (mismatch l r)).1 ≡ record st { hi_prefix_size = mismatch l r })
          × (mismatch l r < length l)
          × (mismatch l r < length r))
unfolding decide_at
decide_at-upper l r st h = ground (arith, less-mismatch l r, mismatch-le l r)
