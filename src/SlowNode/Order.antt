-- ===== src/SlowNode/Order.antt =====
-- The entries of libTupl/src/tupl/pvt/slow/Node.cpp as an ordered map: what the binary search
-- finds on sorted entries, and the insertion by a scan that the code's insertion is compared with.
use tupl_native.Common.{
  ℕ, zero, suc, ◌≤◌, ◌<◌, ◌≡◌, refl, ap, true, false, Option, none, some, List, [], ◌∷◌, arith,
  if◌then◌else◌, length, All, All-mono, Bool-cases, inl, inr, sym, ◌∙◌, is_some, lt_or_ge,
}
use tupl_native.Bytes.{Contents, less, key_equals}
use tupl_native.Bytes.Order.{
  less_irrefl, less_trans, key_equals→eq, ne_of_less, key_equals_ne, less_of_ge_ne,
}
use tupl_native.LowerBound.Partition.{Splits, IsPartitioned, Splits-unique, lower_bound-Splits}
use tupl_native.SlowNode.{Entry, key_before, key_found, lower_bound_key, emplace}

module _ {V : Type 0} where
  -- Keys grow strictly from entry to entry.
  abbrev pub IsOrdered : List (Entry V) → Type 0
  IsOrdered [] = Unit
  IsOrdered (e ∷ es) = All (λ f. less e.0 f.0 ≡ true) es × IsOrdered es

  -- How many entries stand in front of a key.
  unfoldable pub position_of : Contents → List (Entry V) → ℕ
  position_of key [] = 0
  position_of key (e ∷ es) = if less e.0 key then suc (position_of key es) else 0

  -- Insertion by a scan.
  unfoldable pub insert_ordered : Contents → V → List (Entry V) → List (Entry V)
  insert_ordered key value [] = (key, value) ∷ []
  insert_ordered key value (e ∷ es) =
      if less e.0 key then e ∷ insert_ordered key value es else (key, value) ∷ e ∷ es

  unfoldable pub lookup : Contents → List (Entry V) → Option V
  lookup key [] = none
  lookup key (e ∷ es) = if key_equals key e.0 then some e.1 else lookup key es

  abbrev pub Absent : Contents → List (Entry V) → Type 0
  Absent key es = All (λ e. key_equals key e.0 ≡ false) es

  pub position_of-le : (key : Contents) (es : List (Entry V)) → position_of key es ≤ length es
  unfolding position_of
  position_of-le key [] = omega arith
  position_of-le key (e ∷ es) = ground (arith, position_of-le key es)

  pub before_below :
      (key : Contents) (es : List (Entry V)) (i : ℕ)
      → i < position_of key es
      → key_before es key i ≡ true
  unfolding position_of
  before_below key [] i h = absurd (omega arith)
  before_below key (e ∷ es) zero h = ground arith
  before_below key (e ∷ es) (suc i) h = ground (arith, before_below key es i)

  -- An entry that is not before the key has none behind it that is.
  after_head :
      (key : Contents) (e : Entry V) (es : List (Entry V)) (i : ℕ)
      → less e.0 key ≡ false
      → All (λ f. less e.0 f.0 ≡ true) es
      → key_before es key i ≡ false
  after_head key e [] i ge h = refl
  after_head key e (f ∷ es) zero ge h = elim (Bool-cases (less f.0 key)) [
    | inl lt ↦ absurd (cc (less_trans e.0 f.0 key h.0 lt))
    | inr d ↦ d
  ]
  after_head key e (f ∷ es) (suc i) ge h = after_head key e es i ge h.1

  pub before_above :
      (key : Contents) (es : List (Entry V)) (i : ℕ)
      → IsOrdered es
      → position_of key es ≤ i
      → i < length es
      → key_before es key i ≡ false
  unfolding position_of
  before_above key [] i o h q = refl
  before_above key (e ∷ es) zero o h q = ground arith
  before_above key (e ∷ es) (suc i) o h q =
      ground (arith, before_above key es i o.1, after_head key e es i)

  position_of-Splits :
      (key : Contents) (es : List (Entry V))
      → IsOrdered es
      → Splits (key_before es key) 0 (length es) (position_of key es)
  position_of-Splits key es o = record {
    at_least = omega arith;
    at_most = position_of-le key es;
    below = λ i p q. before_below key es i q;
    above = λ i p q. before_above key es i o p q;
  }

  IsOrdered-IsPartitioned :
      (key : Contents) (es : List (Entry V))
      → IsOrdered es
      → IsPartitioned (key_before es key) 0 (length es)
  IsOrdered-IsPartitioned key es o i j p q r b = elim (lt_or_ge j (position_of key es)) [
    | inl lt ↦ before_below key es i (omega arith)
    | inr ge ↦ absurd (cc (before_above key es j o ge r))
  ]

  -- On sorted entries the binary search finds the position of the scan.
  pub lower_bound_key_lem :
      (key : Contents) (es : List (Entry V))
      → IsOrdered es
      → lower_bound_key es 0 key ≡ position_of key es
  lower_bound_key_lem key es o =
      Splits-unique (key_before es key)
        (lower_bound-Splits (key_before es key) 0 (length es) (omega arith)
          (IsOrdered-IsPartitioned key es o))
        (position_of-Splits key es o)

  pub emplace-position_of :
      (key : Contents) (value : V) (es : List (Entry V))
      → emplace es (position_of key es) (key, value) ≡ insert_ordered key value es
  unfolding position_of insert_ordered
  emplace-position_of key value [] = refl
  emplace-position_of key value (e ∷ es) = ground (arith, emplace-position_of key value es)

  Absent-of_less :
      (key : Contents) (es : List (Entry V)) → All (λ f. less key f.0 ≡ true) es → Absent key es
  Absent-of_less key es h = All-mono es (λ f lt. key_equals_ne key f.0 lt) h

  -- All entries are behind a key that is in front of the first.
  less-All :
      (key : Contents) (e : Entry V) (es : List (Entry V))
      → less key e.0 ≡ true
      → All (λ f. less e.0 f.0 ≡ true) es
      → All (λ f. less key f.0 ≡ true) es
  less-All key e es lt h = All-mono es (λ f q. less_trans key e.0 f.0 lt q) h

  -- The entry at the position has the key if any has.
  pub Absent-key_found :
      (key : Contents) (es : List (Entry V))
      → IsOrdered es
      → key_found es key (position_of key es) ≡ false
      → Absent key es
  unfolding position_of
  Absent-key_found key [] o h = tt
  Absent-key_found key (e ∷ es) o h = elim (Bool-cases (less e.0 key)) [
    | inl lt ↦ (ne_of_less e.0 key lt, Absent-key_found key es o.1 (ground arith))
    | inr ge ↦
        let ne : key_equals key e.0 ≡ false = ground arith in
        (ne, Absent-of_less key es (less-All key e es (less_of_ge_ne key e.0 ge ne) o.0))
  ]

  pub lookup-Absent : (key : Contents) (es : List (Entry V)) → Absent key es → lookup key es ≡ none
  unfolding lookup
  lookup-Absent key [] h = refl
  lookup-Absent key (e ∷ es) h = ground (arith, lookup-Absent key es)

  pub Absent-lookup :
      (key : Contents) (es : List (Entry V)) → is_some (lookup key es) ≡ false → Absent key es
  unfolding lookup
  Absent-lookup key [] h = tt
  Absent-lookup key (e ∷ es) h = ground (arith, Absent-lookup key es)

  lookup-key_found :
      (key : Contents) (es : List (Entry V)) (i : ℕ)
      → key_found es key i ≡ true
      → is_some (lookup key es) ≡ true
  unfolding lookup
  lookup-key_found key [] i h = cc
  lookup-key_found key (e ∷ es) zero h = ground arith
  lookup-key_found key (e ∷ es) (suc i) h = ground (arith, lookup-key_found key es i)

  -- On ordered entries `key_found` at the position of the scan says whether the key is there.
  pub key_found-lookup :
      (key : Contents) (es : List (Entry V))
      → IsOrdered es
      → key_found es key (position_of key es) ≡ is_some (lookup key es)
  key_found-lookup key es o = elim (Bool-cases (key_found es key (position_of key es))) [
    | inl t ↦ t ∙ sym (lookup-key_found key es (position_of key es) t)
    | inr f ↦ f ∙ sym (ap is_some (lookup-Absent key es (Absent-key_found key es o f)))
  ]

  insert_ordered-All :
      (x key : Contents) (value : V) (es : List (Entry V))
      → less x key ≡ true
      → All (λ f. less x f.0 ≡ true) es
      → All (λ f. less x f.0 ≡ true) (insert_ordered key value es)
  unfolding insert_ordered
  insert_ordered-All x key value [] lt h = (lt, tt)
  insert_ordered-All x key value (e ∷ es) lt h = elim (Bool-cases (less e.0 key)) [
    | inl b ↦ rw b (h.0, insert_ordered-All x key value es lt h.1)
    | inr b ↦ rw b (lt, h)
  ]

  -- A key that is not there yet keeps the entries ordered.
  pub insert_ordered-IsOrdered :
      (key : Contents) (value : V) (es : List (Entry V))
      → IsOrdered es
      → Absent key es
      → IsOrdered (insert_ordered key value es)
  unfolding insert_ordered
  insert_ordered-IsOrdered key value [] o a = (tt, tt)
  insert_ordered-IsOrdered key value (e ∷ es) o a = elim (Bool-cases (less e.0 key)) [
    | inl b ↦
        rw b
          (insert_ordered-All e.0 key value es b o.0, insert_ordered-IsOrdered key value es o.1 a.1)
    | inr b ↦ let lt = less_of_ge_ne key e.0 b a.0 in rw b ((lt, less-All key e es lt o.0), o)
  ]

  pub lookup-insert_ordered :
      (j key : Contents) (value : V) (es : List (Entry V))
      → lookup j (insert_ordered key value es)
        ≡ (if key_equals j key then some value else lookup j es)
  unfolding lookup insert_ordered
  lookup-insert_ordered j key value [] = refl
  lookup-insert_ordered j key value (e ∷ es) = ground (
    arith,
    lookup-insert_ordered j key value es,
    key_equals→eq j key,
    key_equals→eq j e.0,
    less_irrefl key,
  )
