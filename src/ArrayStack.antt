-- ===== src/ArrayStack.antt =====
-- libTupl/src/tupl/pvt/ArrayStackGeneric.hpp and ArrayStackGeneric.ii: a stack of values in an array.
-- `mElems` is an array of N objects of the class `std::aligned_storage` itself, not of its member
-- `type`. The class is empty, so each takes one byte, and there are N bytes for values of `width`
-- bytes each, which is `sizeof(T)`. A slot holds a value or raw memory. `top` counts from one
-- position in front of the array, so `mTop` is the array's start plus `top` less one.
pub mod Debug
pub mod Release
use tupl_native.Common.{
  ℕ, zero, suc, ◌+◌, ◌-◌, Bool, true, false, not, Option, none, some, leb, ltb, ◌==◌, if◌then◌else◌,
  ◌*◌, ltb, sub_size, Outcome, ok, fail, undefined_behaviour, ◌>>=◌, ◌>>◌, throw_if, Build, debug,
  release, assert_that,
}

pub record ArrayStack (T : Type 0) : Type 0 where
  pub elems : ℕ → Option T
  pub top : ℕ

abbrev pub update {ℓ} : {A : Type ℓ} → (ℕ → A) → ℕ → A → ℕ → A
update f k a i = if i == k then a else f i

-- Whether so many values need more than the N bytes of the array.
abbrev pub exceeds : (width N count : ℕ) → Bool
exceeds width N count = ltb N (count * width)

-- `assert(c())`: the call is made only in a build with assertions.
abbrev pub assert_call : Build → Outcome Bool → Outcome (Unit {0})
assert_call release c = ok tt
assert_call debug c = c >>= assert_that debug

module _ {T : Type 0} where
  unfoldable pub new_stack : ArrayStack T
  new_stack = record { elems = λ i. none; top = 0 }

  unfoldable pub empty : Build → ArrayStack T → Outcome Bool
  empty build s = do assert_that build (s.top == 0); ok (leb s.top 0)

  unfoldable pub full : Build → ℕ → ArrayStack T → Outcome Bool
  full build N s = do assert_that build (s.top == N); ok (leb N s.top)

  unfoldable pub size : ℕ → ArrayStack T → ℕ
  size N s = sub_size N s.top

  -- Construction in a slot that is not within the array is undefined.
  unfoldable pub emplace_back : Build → (width N : ℕ) → T → ArrayStack T → Outcome (ArrayStack T)
  unfolding full
  emplace_back build width N val s = do
    assert_call build (full build N s >>= λ b. ok (not b))
    throw_if (exceeds width N (s.top + 1)) undefined_behaviour
    ok (record { elems = update s.elems s.top (some val); top = s.top + 1 })

  -- A read of the position in front of the array, of a slot that is not within it, or of raw memory,
  -- is undefined.
  unfoldable pub top_value : Build → (width N : ℕ) → ArrayStack T → Outcome T
  unfolding empty
  top_value build width N s = do
    assert_call build (empty build s >>= λ b. ok (not b))
    throw_if (s.top == 0) undefined_behaviour
    throw_if (exceeds width N s.top) undefined_behaviour
    elim (s.elems (s.top - 1)) [ none ↦ fail undefined_behaviour | some v ↦ ok v ]

  -- Destroys the value on top. There must be one, in a slot within the array.
  unfoldable pub pop : Build → (width N : ℕ) → ArrayStack T → Outcome (ArrayStack T)
  unfolding empty
  pop build width N s = do
    assert_call build (empty build s >>= λ b. ok (not b))
    throw_if (s.top == 0) undefined_behaviour
    throw_if (exceeds width N s.top) undefined_behaviour
    elim (s.elems (s.top - 1)) [
      | none ↦ fail undefined_behaviour
      | some v ↦ ok (record { elems = update s.elems (s.top - 1) none; top = s.top - 1 })
    ]

  -- `while (!empty()) { pop(); }`: each round takes one value, so `top` rounds are enough.
  unfoldable pub clear_loop : Build → (width N fuel : ℕ) → ArrayStack T → Outcome (ArrayStack T)
  clear_loop build width N zero s = do
    b ← empty build s
    if b then ok s else fail undefined_behaviour
  clear_loop build width N (suc fuel) s =
      empty build s
      >>= elim [ true ↦ ok s | false ↦ pop build width N s >>= clear_loop build width N fuel ]

  -- `clear`, and the destructor.
  unfoldable pub clear : Build → (width N : ℕ) → ArrayStack T → Outcome (ArrayStack T)
  unfolding clear_loop
  clear build width N s = clear_loop build width N s.top s
