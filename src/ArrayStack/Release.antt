-- ===== src/ArrayStack/Release.antt =====
-- libTupl/src/tupl/pvt/ArrayStackGeneric.ii under NDEBUG: a stack of values within the N bytes that
-- the array has.
use tupl_native.Common.{
  ℕ, zero, suc, ◌+◌, ◌-◌, ◌^◌, ◌≤◌, ◌<◌, ◌≡◌, refl, true, false, none, some, List, [], ◌∷◌, ◌++◌,
  arith, ◌*◌, subst, sym, fail, undefined_behaviour, ltb, leb, length, get_elem?, length-append,
  ◌∙◌, ok, release, Returns, Returns-mono, get_elem?_lt, get_elem?_ge, if◌then◌else◌, Bool-cases,
  inl, inr,
}
use native.Mathlib.Nat.{mul-le-mul_right}
use tupl_native.ArrayStack.{
  ArrayStack, update, exceeds, empty, size, emplace_back, top_value, pop, clear_loop, clear,
}

-- The stack holds the values of the list, within the array, the last of them on top, and nothing
-- above.
pub record Represents {T : Type 0} (width N : ℕ) (s : ArrayStack T) (xs : List T) : Type 0 where
  pub count : s.top ≡ length xs
  pub holds : (i : ℕ) → s.elems i ≡ get_elem? xs i
  pub within : length xs * width ≤ N

-- What is within the array stays so for fewer values.
within_fewer :
    (width N a b : ℕ) → a ≤ b → b * width ≤ N → (a * width ≤ N) × (exceeds width N a ≡ false)
within_fewer width N a b h q =
    let less : a * width ≤ b * width = mul-le-mul_right width h in
    (omega (arith, less), ground (arith, less))

module _ {T : Type 0} where
  get-snoc :
      (xs : List T) (v : T) (i : ℕ)
      → get_elem? (xs ++ v ∷ []) i ≡ update (get_elem? xs) (length xs) (some v) i
  get-snoc [] v zero = ground arith
  get-snoc [] v (suc i) = ground arith
  get-snoc (x ∷ xs) v zero = ground arith
  get-snoc (x ∷ xs) v (suc i) = ground (arith, get-snoc xs v i)

  module _ (width N : ℕ) (s : ArrayStack T) (xs : List T) (rep : Represents width N s xs) where
    -- A value for which there are bytes in the array goes on top.
    pub emplace_back-Represents :
        (v : T)
        → (length xs + 1) * width ≤ N
        → Returns (emplace_back release width N v s) (λ s'. Represents width N s' (xs ++ v ∷ []))
    unfolding emplace_back
    emplace_back-Represents v room = rw emplace_run (record {
      count = omega (arith, snoc, rep.count);
      holds = λ i. ground (arith, rep.count, rep.holds i, get-snoc xs v i);
      within = subst (λ n. n * width ≤ N) (sym snoc) room;
    })
      where
        snoc : length (xs ++ v ∷ []) ≡ length xs + 1
        snoc = length-append xs (v ∷ [])

        not_past : exceeds width N (s.top + 1) ≡ false
        not_past =
            rw rep.count
              ((within_fewer width N (length xs + 1) (length xs + 1) (omega arith) room).1)

        emplace_run :
            emplace_back release width N v s
            ≡ ok (record { elems = update s.elems s.top (some v); top = s.top + 1 })
        emplace_run = rw not_past refl

    emplace_back_past :
        (v : T)
        → ltb N ((length xs + 1) * width) ≡ true
        → emplace_back release width N v s ≡ fail undefined_behaviour
    unfolding emplace_back
    emplace_back_past v past = rw (rep.count, past) refl

    -- On a stack of at most N values, N itself a number of 64 bits, `size` is the number of slots
    -- that are left of N.
    pub size-Represents : length xs ≤ N → N < 2 ^ 64 → size N s + length xs ≡ N
    unfolding size
    size-Represents h q = omega (arith, rep.count)

  module _ (width N : ℕ) (s : ArrayStack T) (xs : List T) (v : T)
      (rep : Represents width N s (xs ++ v ∷ [])) where
    top_count : s.top ≡ suc (length xs)
    top_count = omega (arith, rep.count, length-append xs (v ∷ []))

    top_holds : s.elems (length xs) ≡ some v
    top_holds = rep.holds (length xs) ∙ get-snoc xs v (length xs) ∙ ground arith

    top_within : exceeds width N s.top ≡ false
    top_within =
        (within_fewer width N s.top (length (xs ++ v ∷ [])) (omega (arith, rep.count)) rep.within).1

    pub top_value_lem : top_value release width N s ≡ ok v
    unfolding top_value
    top_value_lem = rw top_within (ground (arith, top_count, top_holds))

    pop_lem :
        pop release width N s
        ≡ ok (record { elems = update s.elems (length xs) none; top = length xs })
    unfolding pop
    pop_lem = rw top_within (ground (arith, top_count, top_holds))

    pub pop-Represents : Returns (pop release width N s) (λ s'. Represents width N s' xs)
    pop-Represents = rw pop_lem (record {
      count = refl;
      holds = λ i. ground (arith, get_elem?_ge xs i, rep.holds i, get-snoc xs v i);
      within =
          (within_fewer width N (length xs) (length (xs ++ v ∷ []))
            (omega (arith, length-append xs (v ∷ []))) rep.within).0;
    })

  -- On a stack of values of `width` bytes each, `emplaceBack` of one more value that the N bytes of
  -- the array have no room for is undefined. If they have, then `top` returns the value, and `pop`
  -- then leaves the stack that was, as the values that it holds.
  pub pop-emplace_back :
      (width N : ℕ) (v : T) (s : ArrayStack T) (xs : List T)
      → Represents width N s xs
      → (if ltb N ((length xs + 1) * width)
          then emplace_back release width N v s ≡ fail undefined_behaviour
          else Returns (emplace_back release width N v s) (λ s'.
            (top_value release width N s' ≡ ok v)
            × Returns (pop release width N s') (λ s''. Represents width N s'' xs)))
  pop-emplace_back width N v s xs rep = elim (Bool-cases (ltb N ((length xs + 1) * width))) [
    | inl past ↦ rw past (emplace_back_past width N s xs rep v past)
    | inr room ↦ rw room (
        Returns-mono (emplace_back release width N v s)
          (emplace_back-Represents width N s xs rep v (ground (arith, room)))
          (λ s' rep'. (top_value_lem width N s' xs v rep', pop-Represents width N s' xs v rep')))
  ]

  module _ (width N : ℕ) where
    pop-some :
        (s : ArrayStack T) (v : T)
        → 0 < s.top
        → s.top * width ≤ N
        → s.elems (s.top - 1) ≡ some v
        → pop release width N s
          ≡ ok (record { elems = update s.elems (s.top - 1) none; top = s.top - 1 })
    unfolding pop
    pop-some s v h fits q = ground arith

    clear_loop-empties :
        (fuel : ℕ) (s : ArrayStack T)
        → s.top ≤ fuel
        → s.top * width ≤ N
        → ((i : ℕ) → i < s.top → (v : T) × (s.elems i ≡ some v))
        → (s' : ArrayStack T) × (clear_loop release width N fuel s ≡ ok s')
          × (s'.top ≡ 0)
          × ((i : ℕ) → s'.elems i ≡ (if ltb i s.top then none else s.elems i))
    unfolding clear_loop empty
    clear_loop-empties zero s h fits held = (s, ground arith, ground arith, λ i. ground arith)
    clear_loop-empties (suc fuel) s h fits held = elim (Bool-cases (leb s.top 0)) [
      | inl e ↦ (s, ground arith, ground arith, λ i. ground arith)
      | inr e ↦
          let (v, q) = held (s.top - 1) (ground arith) in
          let (s', run, done, gone) =
            clear_loop-empties fuel
              (record { elems = update s.elems (s.top - 1) none; top = s.top - 1 }) (ground arith)
              (within_fewer width N (s.top - 1) s.top (omega arith) fits).0
              (λ i lt. let (w, p) = held i (omega arith) in (w, ground arith)) in
          (s', rw (e, pop-some s v (ground arith) fits q) run, done, λ i. ground (arith, gone i))
    ]

    -- `clear`, and with it the destructor, returns on every stack that holds values within the array:
    -- all of them are destroyed and the stack is empty.
    pub clear-Represents :
        (s : ArrayStack T) (xs : List T)
        → Represents width N s xs
        → Returns (clear release width N s) (λ s'. Represents width N s' [])
    unfolding clear
    clear-Represents s xs rep =
        let (s', run, done, gone) =
          clear_loop-empties s.top s (omega arith) (rw rep.count rep.within) (λ i lt.
            let (v, q) = get_elem?_lt xs i (omega (arith, rep.count)) in (v, rep.holds i ∙ q)) in
        rw run (record {
          count = done;
          holds = λ i. ground (arith, gone i, rep.holds i, rep.count, get_elem?_ge xs i);
          within = omega arith;
        })
