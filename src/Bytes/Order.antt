-- ===== src/Bytes/Order.antt =====
-- The order `operator<` of types.hpp, by which keys are sorted, and what `operator<=` decides.
use tupl_native.Common.{
  ℕ, ◌≡◌, refl, ◌↔◌, ◌⊎◌, inl, inr, true, false, Option, none, some, subst, [], ◌∷◌, arith, leb, ok,
  fail, debug, release, Bool-cases,
}
use tupl_native.Common.{assertion_failed}
use tupl_native.Bytes.{Contents, less, less_eq, equal_range, key_equals, new_bytes, empty_bytes}

pub less_irrefl : (k : Contents) → less k k ≡ false
unfolding less
less_irrefl [] = refl
less_irrefl (x ∷ xs) = ground (arith, less_irrefl xs)

pub less_trans : (a b c : Contents) → less a b ≡ true → less b c ≡ true → less a c ≡ true
unfolding less
less_trans [] [] c p q = cc
less_trans [] (y ∷ ys) [] p q = q
less_trans [] (y ∷ ys) (z ∷ zs) p q = refl
less_trans (x ∷ xs) [] c p q = cc
less_trans (x ∷ xs) (y ∷ ys) [] p q = q
less_trans (x ∷ xs) (y ∷ ys) (z ∷ zs) p q = ground (arith, less_trans xs ys zs)

pub less_asymm : (a b : Contents) → less a b ≡ true → less b a ≡ false
unfolding less
less_asymm [] [] p = refl
less_asymm [] (y ∷ ys) p = refl
less_asymm (x ∷ xs) [] p = cc
less_asymm (x ∷ xs) (y ∷ ys) p = ground (arith, less_asymm xs ys)

-- Keys of which neither is less are equal.
pub less_connex : (a b : Contents) → less a b ≡ false → less b a ≡ false → a ≡ b
unfolding less
less_connex [] [] p q = refl
less_connex [] (y ∷ ys) p q = cc
less_connex (x ∷ xs) [] p q = cc
less_connex (x ∷ xs) (y ∷ ys) p q = ground (arith, less_connex xs ys)

pub ge_trans : (a b c : Contents) → less a b ≡ false → less b c ≡ false → less a c ≡ false
unfolding less
ge_trans [] [] c p q = q
ge_trans [] (y ∷ ys) c p q = cc
ge_trans (x ∷ xs) [] [] p q = p
ge_trans (x ∷ xs) [] (z ∷ zs) p q = cc
ge_trans (x ∷ xs) (y ∷ ys) [] p q = refl
ge_trans (x ∷ xs) (y ∷ ys) (z ∷ zs) p q = ground (arith, ge_trans xs ys zs)

equal_range_refl : (k : Contents) → equal_range k k ≡ true
unfolding equal_range
equal_range_refl [] = refl
equal_range_refl (x ∷ xs) = ground (arith, equal_range_refl xs)

pub key_equals_refl : (k : Contents) → key_equals k k ≡ true
unfolding key_equals
key_equals_refl k = ground (arith, equal_range_refl k)

-- `KeyEquals` decides equality of keys.
pub key_equals→eq : (a b : Contents) → key_equals a b ≡ true → a ≡ b
unfolding key_equals
key_equals→eq [] [] h = refl
key_equals→eq [] (y ∷ ys) h = ground arith
key_equals→eq (x ∷ xs) [] h = ground arith
key_equals→eq (x ∷ xs) (y ∷ ys) h = ground (arith, key_equals→eq xs ys)

pub key_equals_iff : (a b : Contents) → (key_equals a b ≡ true) ↔ (a ≡ b)
key_equals_iff a b =
    (key_equals→eq a b, λ e. subst (λ t. key_equals a t ≡ true) e (key_equals_refl a))

pub ne_of_less : (a b : Contents) → less a b ≡ true → key_equals b a ≡ false
ne_of_less a b h = elim (Bool-cases (key_equals b a)) [
  | inl e ↦ absurd (cc (less_irrefl a, h, key_equals→eq b a e))
  | inr d ↦ d
]

pub key_equals_ne : (a b : Contents) → less a b ≡ true → key_equals a b ≡ false
key_equals_ne a b h = elim (Bool-cases (key_equals a b)) [
  | inl e ↦ absurd (cc (less_irrefl a, h, key_equals→eq a b e))
  | inr d ↦ d
]

pub less_of_ge_ne :
    (key k : Contents) → less k key ≡ false → key_equals key k ≡ false → less key k ≡ true
less_of_ge_ne key k ge ne = elim (Bool-cases (less key k)) [
  | inl lt ↦ lt
  | inr d ↦ absurd (cc ((key_equals_iff key k).1 (less_connex key k d ge), ne))
]

-- Exactly one of three holds of two keys, by the code's own tests: the first is less, `KeyEquals`
-- holds, or the second is less.
pub less_trichotomy :
    (a b : Contents)
    → ((less a b ≡ true) × (key_equals a b ≡ false) × (less b a ≡ false))
      ⊎ ((less a b ≡ false) × (key_equals a b ≡ true) × (less b a ≡ false))
      ⊎ ((less a b ≡ false) × (key_equals a b ≡ false) × (less b a ≡ true))
less_trichotomy a b = elim (Bool-cases (less a b)) [
  | inl lt ↦ inl (lt, key_equals_ne a b lt, less_asymm a b lt)
  | inr ge ↦ elim (Bool-cases (less b a)) [
    | inl gt ↦ inr (inr (ge, ne_of_less b a gt, gt))
    | inr le ↦ inr (inl (ge, (key_equals_iff a b).1 (less_connex a b ge le), le))
  ]
]

-- On two strings that are not empty `operator<=` compares the first bytes and reads no others, so
-- it is true both ways round whenever these are equal; and it is false of two empty strings.
pub less_eq_head :
    (x y : ℕ) (xs ys : Contents)
    → (less_eq (x ∷ xs) (y ∷ ys) ≡ leb x y)
      × (less_eq (x ∷ xs) (x ∷ ys) ≡ true)
      × (less_eq (x ∷ ys) (x ∷ xs) ≡ true)
      × (less_eq [] [] ≡ false)
unfolding less less_eq
less_eq_head x y xs ys = (ground arith, ground arith, ground arith, refl)

-- In a build with assertions the constructor of `Bytes` fails on a null pointer, whatever the size,
-- so `Bytes()` always fails; on any other pointer, and with NDEBUG on all, it returns the overlay.
pub new_bytes_null :
    (n : ℕ) (m : Contents)
    → (new_bytes debug none n ≡ fail assertion_failed)
      × (empty_bytes debug ≡ fail assertion_failed)
      × (new_bytes debug (some m) n ≡ ok (record { data_ptr = some m; size = n }))
      × ((p : Option Contents) → new_bytes release p n ≡ ok (record { data_ptr = p; size = n }))
unfolding new_bytes empty_bytes
new_bytes_null n m = (ground arith, refl, ground arith, λ p. refl)
