-- ===== src/KeyComparator/Search.antt =====
-- The search of libTupl/src/tupl/pvt/Node.cpp with the comparator that skips shared bytes, against
-- the plain search by halving.
use tupl_native.Common.{
  ℕ, zero, suc, ◌+◌, ◌-◌, ◌/◌, ◌≤◌, ◌<◌, ◌≡◌, refl, sym, ap, ◌∙◌, subst, Bool, true, false, some,
  List, [], arith, ◌==◌, length, get_elem?, get_elem?_lt, All, ok, Build, assert_true, lt→ltb,
  Bool-cases, inl, inr, get_elem?_ge, All-get_elem?, lt_or_ge,
}
use tupl_native.Bytes.{Contents, less}
use tupl_native.Bytes.Order.{less_irrefl, less_trans}
use tupl_native.LowerBound.{lower_bound, lower_bound_loop}
use tupl_native.KeyComparator.{
  State, new_state, mismatch, decide_at, compare_lower, search_loop, lower_bound_keys,
}
use tupl_native.KeyComparator.Compare.{decide_at-less}
use tupl_native.KeyComparator.Knows.{
  IsAscending, IsAscending-get, before, key_is, Knows, probe, Knows-lower, Knows-upper,
}
use tupl_native.LowerBound.Partition.{Splits, IsPartitioned, lower_bound-Splits}

module _ (build : Build) (keys : List Contents) (key : Contents)
    (ascending : IsAscending keys) where
  -- One round of the search, and of the plain search, at a probe.
  round_lower :
      (fuel first len : ℕ) (k : Contents) (st st' : State)
      → (len == 0) ≡ false
      → get_elem? keys (first + len / 2) ≡ some k
      → compare_lower build k key st ≡ ok (true, st')
      → less k key ≡ true
      → (search_loop build keys key (suc fuel) first len st
          ≡ search_loop build keys key fuel (first + len / 2 + 1) (len - len / 2 - 1) st')
        × (lower_bound_loop (before keys key) (suc fuel) first len
            ≡ lower_bound_loop (before keys key) fuel (first + len / 2 + 1) (len - len / 2 - 1))
  unfolding search_loop lower_bound_loop
  round_lower fuel first len k st st' ne g c b =
      (rw (ne, g, c, search_loop), rw (ne, g, b, lower_bound_loop, before))

  round_upper :
      (fuel first len : ℕ) (k : Contents) (st st' : State)
      → (len == 0) ≡ false
      → get_elem? keys (first + len / 2) ≡ some k
      → compare_lower build k key st ≡ ok (false, st')
      → less k key ≡ false
      → (search_loop build keys key (suc fuel) first len st
          ≡ search_loop build keys key fuel first (len / 2) st')
        × (lower_bound_loop (before keys key) (suc fuel) first len
            ≡ lower_bound_loop (before keys key) fuel first (len / 2))
  unfolding search_loop lower_bound_loop
  round_upper fuel first len k st st' ne g c b =
      (rw (ne, g, c, search_loop), rw (ne, g, b, lower_bound_loop, before))

  -- A search that has returned the position of the plain search, and whether the key stands there.
  abbrev Finds : (fuel first len : ℕ) → State → Type 0
  Finds fuel first len st =
      (st' : State) × (search_loop build keys key fuel first len st
        ≡ ok (lower_bound_loop (before keys key) fuel first len, st'))
      × (st'.equal ≡ key_is keys key (lower_bound_loop (before keys key) fuel first len))

  Finds-step :
      (fuel first len f n : ℕ) (st s : State)
      → (search_loop build keys key (suc fuel) first len st ≡ search_loop build keys key fuel f n s)
        × (lower_bound_loop (before keys key) (suc fuel) first len
            ≡ lower_bound_loop (before keys key) fuel f n)
      → Finds fuel f n s
      → Finds (suc fuel) first len st
  Finds-step fuel first len f n st s (e, q) (st', run, eq) =
      (st', e ∙ run ∙ ap (λ i. ok (i, st')) (sym q), eq ∙ ap (key_is keys key) (sym q))

  decided :
      (k : Contents) (st : State) (b : Bool)
      → less k key ≡ b
      → ok (decide_at k key st (mismatch k key)) ≡ ok (b, (decide_at k key st (mismatch k key)).1)
  decided k st b e =
      ap (λ t. ok (t, (decide_at k key st (mismatch k key)).1)) (decide_at-less k key st ∙ e)

  search_loop_lem :
      (fuel first len : ℕ) (st : State)
      → len ≤ fuel
      → first + len ≤ length keys
      → Knows keys key first (first + len) st
      → Finds fuel first len st
  unfolding search_loop lower_bound_loop
  search_loop_lem zero first len st small fits kn =
      (st, refl, kn.found ∙ ap (key_is keys key) (omega arith))
  search_loop_lem (suc fuel) first len st small fits kn = elim (Bool-cases (len == 0)) [
    | inl e ↦ (
      st,
      rw (e, search_loop, lower_bound_loop),
      rw (e, lower_bound_loop) (kn.found ∙ ap (key_is keys key) (ground arith)),
    )
    | inr ne ↦
        let pos : 0 < len = ground arith in
        let (k, g) = get_elem?_lt keys (first + len / 2) (omega arith) in
        let at =
          probe build keys key ascending first (first + len) (first + len / 2) k st kn (omega arith)
            (omega arith) g in
        elim (Bool-cases (less k key)) [
          | inl lt ↦
              Finds-step fuel first len (first + len / 2 + 1) (len - len / 2 - 1) st _
                (round_lower fuel first len k st _ ne g (at ∙ decided k st true lt) lt)
                (search_loop_lem fuel (first + len / 2 + 1) (len - len / 2 - 1)
                  (decide_at k key st (mismatch k key)).1 (omega arith) (omega arith)
                  (subst
                    (λ t.
                      Knows keys key (first + len / 2 + 1) t
                        (decide_at k key st (mismatch k key)).1)
                    (omega arith)
                    (Knows-lower build keys key ascending first (first + len) (first + len / 2) k st
                      kn (omega arith) (omega arith) g lt)))
          | inr ge ↦
              Finds-step fuel first len first (len / 2) st _
                (round_upper fuel first len k st _ ne g (at ∙ decided k st false ge) ge)
                (search_loop_lem fuel first (len / 2) (decide_at k key st (mismatch k key)).1
                  (omega arith) (omega arith)
                  (Knows-upper build keys key ascending first (first + len) (first + len / 2) k st
                    kn (omega arith) (omega arith) g ge))
        ]
  ]

  key_is_end : key_is keys key (length keys) ≡ false
  key_is_end = rw (get_elem?_ge keys (length keys) (omega arith), key_is)

  -- A new state knows nothing of keys that are not empty.
  new_state-Knows :
      0 < length key → All (λ e. less [] e ≡ true) keys → Knows keys key 0 (length keys) new_state
  new_state-Knows short full = record {
    lo_short = short;
    hi_short = short;
    low = λ i e p q. All-get_elem? (λ e. less [] e ≡ true) keys i e full q;
    high = λ i e p q. less_irrefl [];
    found = sym key_is_end;
  }

  before-IsPartitioned : IsPartitioned (before keys key) 0 (length keys)
  before-IsPartitioned i j p q r b =
      let (a, ga) = get_elem?_lt keys i (omega arith) in
      let (c, gc) = get_elem?_lt keys j r in
      let lt : less c key ≡ true = rw (gc, before) at b in
      elim (lt_or_ge i j) [
        | inl h ↦
            rw (ga, before) (less_trans a c key (IsAscending-get keys i j a c ascending h ga gc) lt)
        | inr h ↦ subst (λ k. before keys key k ≡ true) (omega arith) b
      ]

  -- On a search vector of ascending keys, none empty, the search passes its assertions and returns
  -- the first position whose key is not less. Where `equal()` is read behind the search it says
  -- whether that key is the one looked for; read in front of it, as C++ allows, it says false.
  pub lower_bound_keys-Splits :
      0 < length key
      → 0 < length keys
      → All (λ e. less [] e ≡ true) keys
      → (r : ℕ) × Splits (before keys key) 0 (length keys) r
        × (lower_bound_keys build false keys key ≡ ok (r, key_is keys key r))
        × (lower_bound_keys build true keys key ≡ ok (r, false))
  unfolding lower_bound_keys lower_bound
  lower_bound_keys-Splits short some_keys full =
      let (st, run, eq) =
        search_loop_lem (length keys) 0 (length keys) new_state (omega arith) (omega arith)
          (subst (λ t. Knows keys key 0 t new_state) (omega arith) (new_state-Knows short full)) in
      let all : length keys - 0 ≡ length keys = omega arith in
      (
        lower_bound_loop (before keys key) (length keys) 0 (length keys),
        subst
            (λ n.
              Splits (before keys key) 0 (length keys) (lower_bound_loop (before keys key) n 0 n))
            all
            (lower_bound-Splits (before keys key) 0 (length keys) (omega arith)
              before-IsPartitioned),
        rw (lt→ltb _ _ short, lt→ltb _ _ some_keys, assert_true build, run, eq),
        rw (lt→ltb _ _ short, lt→ltb _ _ some_keys, assert_true build, run),
      )
