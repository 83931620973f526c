-- ===== src/SlowTree/Distinct.antt =====
-- Entries with distinct keys that are inserted into others, as for a sequence of insertions into the
-- tree of libTupl/src/tupl/pvt/slow/Tree.cpp.
use tupl_native.Common.{
  ◌≡◌, refl, sym, subst, false, Option, none, some, List, [], ◌∷◌, arith, All, is_some, Bool-cases,
  inl, inr,
}
use tupl_native.Bytes.{Contents, key_equals}
use tupl_native.Bytes.Order.{key_equals→eq, key_equals_refl}
use tupl_native.SlowNode.{Entry}
use tupl_native.SlowNode.Order.{insert_ordered, lookup, lookup-insert_ordered}

-- No key twice.
abbrev pub Distinct : List (Entry Contents) → Type 0
Distinct [] = Unit {0}
Distinct (e ∷ es) = All (λ (f : Entry Contents). key_equals f.0 e.0 ≡ false) es × Distinct es

abbrev pub AllAbsent : (new old : List (Entry Contents)) → Type 0
AllAbsent new old = All (λ (e : Entry Contents). is_some (lookup e.0 old) ≡ false) new

lookup-absent :
    (key : Contents) (es : List (Entry Contents))
    → All (λ (f : Entry Contents). key_equals f.0 key ≡ false) es
    → lookup key es ≡ none
unfolding lookup
lookup-absent key [] a = refl
lookup-absent key (e ∷ es) a =
    ground (arith, lookup-absent key es a.1, key_equals→eq key e.0, key_equals_refl key)

-- The new entries in front of the old ones.
abbrev pub either : Contents → (new old : List (Entry Contents)) → Option Contents
either j new old = elim (lookup j new) [ none ↦ lookup j old | some v ↦ some v ]

pub either-cons :
    (j : Contents) (e : Entry Contents) (es old : List (Entry Contents))
    → All (λ (f : Entry Contents). key_equals f.0 e.0 ≡ false) es
    → either j es (insert_ordered e.0 e.1 old) ≡ either j (e ∷ es) old
unfolding lookup
either-cons j e es old a = elim (Bool-cases (key_equals j e.0)) [
  | inl eq ↦
      let same : lookup j es ≡ none =
        subst (λ k. lookup k es ≡ none) (sym (key_equals→eq j e.0 eq)) (lookup-absent e.0 es a) in
      ground (arith, lookup-insert_ordered j e.0 e.1 old)
  | inr ne ↦ ground (arith, lookup-insert_ordered j e.0 e.1 old)
]

pub AllAbsent-insert_ordered :
    (e : Entry Contents) (es old : List (Entry Contents))
    → All (λ (f : Entry Contents). key_equals f.0 e.0 ≡ false) es
    → AllAbsent es old
    → AllAbsent es (insert_ordered e.0 e.1 old)
AllAbsent-insert_ordered e [] old a b = tt
AllAbsent-insert_ordered e (f ∷ fs) old a b =
    (rw (lookup-insert_ordered f.0 e.0 e.1 old, a.0) b.0, AllAbsent-insert_ordered e fs old a.1 b.1)
