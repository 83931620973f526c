-- ===== src/Common/Sets.antt =====
-- Lists of numbers as sets: membership, removal, and lists that repeat nothing.
use Prim.Native.Nat.{ℕ}
use mathlib.Core.Path.{◌≡◌, refl}
use mathlib.Core.Bool.{Bool, true, false, ◌||◌}
use mathlib.Core.List.{List, [], ◌∷◌, ◌++◌}
use native.Mathlib.Omega.{arith}
use tupl_native.Common.Tests.{◌==◌, if◌then◌else◌}

abbrev pub has : ℕ → List ℕ → Bool
has a [] = false
has a (x ∷ xs) = (x == a) || has a xs

-- The list without the first occurrence of a number.
unfoldable pub remove : ℕ → List ℕ → List ℕ
remove a [] = []
remove a (x ∷ xs) = if x == a then xs else x ∷ remove a xs

pub has-remove :
    (q a : ℕ) (xs : List ℕ) → (has q (remove a xs) || (a == q)) ≡ (has q xs || (a == q))
unfolding remove
has-remove q a [] = refl
has-remove q a (x ∷ xs) = ground (arith, has-remove q a xs)

abbrev pub NoDup : List ℕ → Type 0
NoDup [] = Unit
NoDup (x ∷ xs) = (has x xs ≡ false) × NoDup xs

pub has-append : (a : ℕ) (xs ys : List ℕ) → has a (xs ++ ys) ≡ (has a xs || has a ys)
has-append a [] ys = refl
has-append a (x ∷ xs) ys = ground (arith, has-append a xs ys)

pub NoDup-append :
    (xs ys : List ℕ)
    → NoDup (xs ++ ys)
    → NoDup xs × NoDup ys × ((q : ℕ) → has q xs ≡ true → has q ys ≡ false)
NoDup-append [] ys nd = (tt, nd, λ q h. cc)
NoDup-append (x ∷ xs) ys nd =
    let (a, b, c) = NoDup-append xs ys nd.1 in
    ((ground (arith, has-append x xs ys), a), b, λ q h. ground (arith, has-append x xs ys, c q))

pub append-NoDup :
    (xs ys : List ℕ)
    → NoDup xs
    → NoDup ys
    → ((q : ℕ) → has q xs ≡ true → has q ys ≡ false)
    → NoDup (xs ++ ys)
append-NoDup [] ys a b c = b
append-NoDup (x ∷ xs) ys a b c =
    (ground (arith, has-append x xs ys, c x), append-NoDup xs ys a.1 b (λ q h. c q (ground arith)))
