-- ===== src/Common/Errors.antt =====
-- What a C++ call does: it returns, throws, fails an assertion, or has no defined behaviour.
-- `assert` is compiled out under NDEBUG, so code that asserts takes the build as an argument.
use Prim.Native.String.{String}
use mathlib.Core.Path.{◌≡◌, refl}
use mathlib.Core.Bool.{Bool, true, false}

pub data Failure : Type 0 where
  invalid_argument domain_error logic_error runtime_error : String → Failure
  bad_alloc assertion_failed undefined_behaviour : Failure

pub data Outcome {ℓ} (A : Type ℓ) : Type ℓ where
  ok : A → Outcome A
  fail : Failure → Outcome A

infixl 5 ◌>>=◌ ◌>>◌
abbrev pub ◌>>=◌ {ℓ κ} : {A : Type ℓ} {B : Type κ} → Outcome A → (A → Outcome B) → Outcome B
ok a >>= f = f a
fail e >>= f = fail e

abbrev pub ◌>>◌ {ℓ} : {B : Type ℓ} → Outcome (Unit {0}) → Outcome B → Outcome B
m >> k = m >>= λ _. k

-- `if (b) { throw e; }`
abbrev pub throw_if : Bool → Failure → Outcome (Unit {0})
throw_if true e = fail e
throw_if false e = ok tt

-- With assertions, and with NDEBUG.
pub data Build : Type 0 where
  debug release : Build

-- `assert(b)`
abbrev pub assert_that : Build → Bool → Outcome (Unit {0})
assert_that release b = ok tt
assert_that debug true = ok tt
assert_that debug false = fail assertion_failed

-- The call returns, with a value that satisfies `P`.
abbrev pub Returns {ℓ} : {A : Type ℓ} → Outcome A → (A → Type 0) → Type 0
Returns (ok a) P = P a
Returns (fail e) P = ⊥

pub assert_true : (build : Build) → assert_that build true ≡ ok tt
assert_true debug = refl
assert_true release = refl

pub Returns-mono {ℓ} :
    {A : Type ℓ} {P Q : A → Type 0} (r : Outcome A)
    → Returns r P
    → ((a : A) → P a → Q a)
    → Returns r Q
Returns-mono (ok a) h f = f a h
Returns-mono (fail e) h f = absurd h

pub Returns-bind {ℓ κ} :
    {A : Type ℓ} {B : Type κ} {P : A → Type 0} (Q : B → Type 0) (r : Outcome A) (f : A → Outcome B)
    → Returns r P
    → ((a : A) → P a → Returns (f a) Q)
    → Returns (r >>= f) Q
Returns-bind Q (ok a) f h k = k a h
Returns-bind Q (fail e) f h k = absurd h

pub Returns-ok {ℓ} :
    {A : Type ℓ} {P : A → Type 0} (r : Outcome A) → Returns r P → (a : A) × (r ≡ ok a) × P a
Returns-ok (ok a) h = (a, refl, h)
Returns-ok (fail e) h = absurd h
