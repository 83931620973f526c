-- ===== src/KeyComparator/Prefix.antt =====
-- Prefixes of keys and the order of keys: the facts on which the comparator of
-- libTupl/src/tupl/pvt/Node.cpp relies when it skips bytes.
use tupl_native.Common.{
  ℕ, zero, suc, ◌+◌, ◌≤◌, ◌<◌, ◌≡◌, refl, true, false, [], ◌∷◌, arith, ltb, ◌==◌, length, take,
  drop, min, if◌then◌else◌,
}
use tupl_native.Bytes.{Contents, less}
use tupl_native.KeyComparator.{mismatch, byte_less}

-- A longer prefix of the key keeps the order.
pub less-take_mono :
    (p m : ℕ) (k e : Contents) → p ≤ m → less (take m k) e ≡ true → less (take p k) e ≡ true
unfolding less
less-take_mono zero zero k e h q = q
less-take_mono zero (suc m) [] e h q = q
less-take_mono zero (suc m) (x ∷ k) [] h q = cc
less-take_mono zero (suc m) (x ∷ k) (y ∷ e) h q = refl
less-take_mono (suc p) zero k e h q = absurd (omega arith)
less-take_mono (suc p) (suc m) [] e h q = q
less-take_mono (suc p) (suc m) (x ∷ k) [] h q = q
less-take_mono (suc p) (suc m) (x ∷ k) (y ∷ e) h q = ground (arith, less-take_mono p m k e)

pub ge-take_mono :
    (p m : ℕ) (k e : Contents)
    → p ≤ m
    → less (take m k) (take m e) ≡ false
    → less (take p k) (take p e) ≡ false
unfolding less
ge-take_mono zero m k e h q = refl
ge-take_mono (suc p) zero k e h q = absurd (omega arith)
ge-take_mono (suc p) (suc m) [] [] h q = q
ge-take_mono (suc p) (suc m) [] (y ∷ e) h q = q
ge-take_mono (suc p) (suc m) (x ∷ k) [] h q = q
ge-take_mono (suc p) (suc m) (x ∷ k) (y ∷ e) h q = ground (arith, ge-take_mono p m k e)

-- Of two ordered keys the prefixes are not ordered the other way.
pub take-less : (m : ℕ) (a b : Contents) → less a b ≡ true → less (take m b) (take m a) ≡ false
unfolding less
take-less zero a b h = refl
take-less (suc m) [] [] h = refl
take-less (suc m) [] (y ∷ b) h = refl
take-less (suc m) (x ∷ a) [] h = cc
take-less (suc m) (x ∷ a) (y ∷ b) h = ground (arith, take-less m a b)

-- A prefix of a key is less than whatever the key is less than.
pub less-take : (m : ℕ) (a b : Contents) → less a b ≡ true → less (take m a) b ≡ true
unfolding less
less-take zero [] b h = h
less-take zero (x ∷ a) [] h = cc
less-take zero (x ∷ a) (y ∷ b) h = refl
less-take (suc m) [] b h = h
less-take (suc m) (x ∷ a) [] h = h
less-take (suc m) (x ∷ a) (y ∷ b) h = ground (arith, less-take m a b)

-- What stands between a prefix of the key and the keys with that prefix has the prefix, and more.
pub squeeze :
    (p : ℕ) (k e : Contents)
    → p ≤ length k
    → less (take p k) e ≡ true
    → less (take p k) (take p e) ≡ false
    → (take p e ≡ take p k) × (p < length e)
unfolding less
squeeze zero k [] h a b = cc
squeeze zero k (y ∷ e) h a b = (refl, omega arith)
squeeze (suc p) [] e h a b = absurd (omega arith)
squeeze (suc p) (x ∷ k) [] h a b = cc
squeeze (suc p) (x ∷ k) (y ∷ e) h a b = ground (arith, squeeze p k e)

-- Bytes that two keys share can be skipped in the search for a mismatch.
pub skip-mismatch :
    (p : ℕ) (l r : Contents)
    → take p l ≡ take p r
    → p ≤ length l
    → p ≤ length r
    → p + mismatch (drop p l) (drop p r) ≡ mismatch l r
unfolding mismatch
skip-mismatch zero l r e h q = omega arith
skip-mismatch (suc p) [] r e h q = absurd (omega arith)
skip-mismatch (suc p) (x ∷ l) [] e h q = absurd (omega arith)
skip-mismatch (suc p) (x ∷ l) (y ∷ r) e h q = ground (arith, skip-mismatch p l r)

pub take-mismatch : (l r : Contents) → take (mismatch l r) l ≡ take (mismatch l r) r
unfolding mismatch
take-mismatch [] r = ground arith
take-mismatch (x ∷ l) [] = refl
take-mismatch (x ∷ l) (y ∷ r) = ground (arith, take-mismatch l r)

pub mismatch-le : (l r : Contents) → (mismatch l r ≤ length l) × (mismatch l r ≤ length r)
unfolding mismatch
mismatch-le [] r = omega arith
mismatch-le (x ∷ l) [] = omega arith
mismatch-le (x ∷ l) (y ∷ r) = ground (arith, mismatch-le l r)

-- The order of two keys is decided at their mismatch, or by their lengths.
pub less-mismatch :
    (l r : Contents)
    → less l r ≡ (
        if mismatch l r == min (length l) (length r)
        then ltb (length l) (length r)
        else byte_less l r (mismatch l r))
unfolding less mismatch byte_less
less-mismatch [] [] = refl
less-mismatch [] (y ∷ r) = ground arith
less-mismatch (x ∷ l) [] = ground arith
less-mismatch (x ∷ l) (y ∷ r) = ground (arith, less-mismatch l r)

-- Without a mismatch, keys of one length are equal.
pub eq_of_mismatch : (l r : Contents) → mismatch l r ≡ length l → length l ≡ length r → l ≡ r
unfolding mismatch
eq_of_mismatch [] [] h q = refl
eq_of_mismatch [] (y ∷ r) h q = absurd (omega arith)
eq_of_mismatch (x ∷ l) [] h q = absurd (omega arith)
eq_of_mismatch (x ∷ l) (y ∷ r) h q = ground (arith, eq_of_mismatch l r)

pub mismatch_self : (k : Contents) → mismatch k k ≡ length k
unfolding mismatch
mismatch_self [] = refl
mismatch_self (x ∷ k) = ground (arith, mismatch_self k)
