-- ===== src/SlowTree/Selection.antt =====
-- The child of a node of libTupl/src/tupl/pvt/slow/Tree.cpp that a key belongs to, and what that
-- makes of the children in front and behind.
use tupl_native.Common.{
  ℕ, suc, ◌≡◌, refl, sym, ◌∙◌, ap, true, false, Bool-cases, inl, inr, some, List, [], ◌∷◌, ◌++◌,
  arith, All, All-append, All-mono, append-nil, length, if◌then◌else◌,
}
use tupl_native.Bytes.{Contents, less}
use tupl_native.Bytes.Order.{ge_trans, key_equals_ne, less_asymm, ne_of_less}
use tupl_native.SlowNode.{Entry, Ptr}
use tupl_native.SlowNode.Order.{lookup}
use tupl_native.SlowTree.Inorder.{flat}
use tupl_native.SlowTree.SearchTree.{
  Bound, Inside, Children, Children-Inside, Children-map, AtLeast, AtLeast-trans, Below-trans,
}

-- How many of the entries have a key that is not greater, up to the first that is greater.
abbrev pub position_from : Contents → List (Entry Ptr) → ℕ
position_from key [] = 0
position_from key (c ∷ cs) = if less key c.0 then 0 else suc (position_from key cs)

-- The position of the last child whose key is not greater, the key of the first one left aside.
abbrev pub child_at : Contents → List (Entry Ptr) → ℕ
child_at key [] = 0
child_at key (c ∷ cs) = position_from key cs

pub less_of_ge : (a b c : Contents) → less a b ≡ true → less c b ≡ false → less a c ≡ true
less_of_ge a b c lt ge = elim (Bool-cases (less a c)) [
  | inl h ↦ h
  | inr n ↦ absurd (cc (ge_trans a c b n ge, lt))
]

-- The child that is selected, with its bounds: each key in them selects it. Keys in front are less
-- than these, and keys behind are greater.
-- Children whose subtrees keep what they have, with a new one for the one that is selected, are
-- children again.
pub record Selected (Sub : Bound → Bound → Ptr → Type 0) (entries : Ptr → List (Entry Contents))
    (key : Contents) (low high : Bound) (k : Contents) (p : Ptr) (cs : List (Entry Ptr))
    : Type 1 where
  pub front : List (Entry Ptr)
  pub key_here : Contents
  pub child : Ptr
  pub back : List (Entry Ptr)
  pub shape : (k, p) ∷ cs ≡ front ++ ((key_here, child) ∷ back)
  pub low_here : Bound
  pub high_here : Bound
  pub sub : Sub low_here high_here child
  pub inside : Inside low_here high_here key
  pub higher : (j : Contents) → AtLeast low_here j → AtLeast low j
  pub at : (j : Contents) → Inside low_here high_here j → position_from j cs ≡ length front
  pub lower :
      (j : Contents)
      → Inside low_here high_here j
      → All (λ (e : Entry Contents). less e.0 j ≡ true) (flat entries front)
  pub upper : All (λ (e : Entry Contents). less key e.0 ≡ true) (flat entries back)
  pub rebuild :
      (Sub' : Bound → Bound → Ptr → Type 0) (Keep : Ptr → Type 0)
      → All (λ (c : Entry Ptr). Keep c.1) front
      → All (λ (c : Entry Ptr). Keep c.1) back
      → ((low high : Bound) (q : Ptr) → Keep q → Sub low high q → Sub' low high q)
      → Sub' low_here high_here child
      → Children Sub' low high p cs
  -- The children with others behind the one that is selected.
  pub after : List (Entry Ptr) → List (Entry Ptr)
  pub after_shape :
      (new : List (Entry Ptr)) → (k, p) ∷ after new ≡ front ++ ((key_here, child) ∷ (new ++ back))
  pub rebuild_with :
      (Sub' : Bound → Bound → Ptr → Type 0) (Keep : Ptr → Type 0) (new : List (Entry Ptr))
      → All (λ (c : Entry Ptr). Keep c.1) front
      → All (λ (c : Entry Ptr). Keep c.1) back
      → ((low high : Bound) (q : Ptr) → Keep q → Sub low high q → Sub' low high q)
      → Children Sub' low_here high_here child new
      → Children Sub' low high p (after new)

-- Children up to a key, and from it on, are children.
Children-append :
    (Sub : Bound → Bound → Ptr → Type 0) (low high : Bound) (p : Ptr) (new : List (Entry Ptr))
    (c : Entry Ptr) (cs : List (Entry Ptr))
    → Children Sub low (some c.0) p new
    → Inside low high c.0
    → Children Sub (some c.0) high c.1 cs
    → Children Sub low high p (new ++ (c ∷ cs))
Children-append Sub low high p [] c cs s at rest = (s, at, rest)
Children-append Sub low high p (n ∷ new) c cs (s, (from, below), more) at rest = (
  s,
  (from, Below-trans high n.0 c.0 at.1 below),
  Children-append Sub (some n.0) high n.1 new c cs more (less_asymm n.0 c.0 below, at.1) rest,
)

module _ (Sub : Bound → Bound → Ptr → Type 0) (entries : Ptr → List (Entry Contents))
    (sub_inside : (low high : Bound) (p : Ptr)
      → Sub low high p
      → All (λ (e : Entry Contents). Inside low high e.0) (entries p))
    (key : Contents) where
  pub select :
      (low high : Bound) (k : Contents) (p : Ptr) (cs : List (Entry Ptr))
      → Inside low high key
      → Children Sub low high p cs
      → Selected Sub entries key low high k p cs
  select low high k p [] inside s = record {
    front = [];
    key_here = k;
    child = p;
    back = [];
    shape = refl;
    higher = λ j from. from;
    at = λ j i. refl;
    low_here = low;
    high_here = high;
    sub = s;
    inside = inside;
    lower = λ j i. tt;
    upper = tt;
    rebuild = λ Sub' Keep f b keeps s'. s';
    after = λ new. new;
    after_shape = λ new. ap (λ l. (k, p) ∷ l) (sym (append-nil new));
    rebuild_with = λ Sub' Keep new f b keeps s'. s';
  }
  select low high k p (c ∷ cs) inside (s, at, rest) = elim (Bool-cases (less key c.0)) [
    | inl lt ↦ record {
      front = [];
      key_here = k;
      child = p;
      back = c ∷ cs;
      shape = refl;
      higher = λ j from. from;
      at = λ j (from, below). rw below refl;
      low_here = low;
      high_here = some c.0;
      sub = s;
      inside = (inside.0, lt);
      lower = λ j i. tt;
      upper =
          All-mono (entries c.1 ++ flat entries cs)
            (λ e (from, below). less_of_ge key c.0 e.0 lt from)
            (Children-Inside Sub entries sub_inside (some c.0) high c.1 cs rest);
      rebuild = λ Sub' Keep f b keeps s'.
          (s', at, Children-map Sub Sub' Keep keeps (some c.0) high c.1 cs b.0 b.1 rest);
      after = λ new. new ++ (c ∷ cs);
      after_shape = λ new. refl;
      rebuild_with = λ Sub' Keep new f b keeps s'.
          Children-append Sub' low high p new c cs s' at
            (Children-map Sub Sub' Keep keeps (some c.0) high c.1 cs b.0 b.1 rest);
    }
    | inr ge ↦
        let r = select (some c.0) high c.0 c.1 cs (ge, inside.1) rest in
        record {
          front = (k, p) ∷ r.front;
          key_here = r.key_here;
          child = r.child;
          back = r.back;
          shape = ap (λ l. (k, p) ∷ l) r.shape;
          higher = λ j from. AtLeast-trans low j c.0 at.0 (r.higher j from);
          at = λ j i. rw (r.higher j i.0) (ap suc (r.at j i));
          low_here = r.low_here;
          high_here = r.high_here;
          sub = r.sub;
          inside = r.inside;
          lower = λ j i.
              All-append _ (entries p) (flat entries r.front)
                (All-mono (entries p)
                  (λ e (from, below). less_of_ge e.0 c.0 j below (r.higher j i.0))
                  (sub_inside low (some c.0) p s))
                (r.lower j i);
          upper = r.upper;
          rebuild = λ Sub' Keep f b keeps s'.
              (keeps low (some c.0) p f.0 s, at, r.rebuild Sub' Keep f.1 b keeps s');
          after = λ new. (c.0, c.1) ∷ r.after new;
          after_shape = λ new. ap (λ l. (k, p) ∷ l) (r.after_shape new);
          rebuild_with = λ Sub' Keep new f b keeps s'.
              (keeps low (some c.0) p f.0 s, at, r.rebuild_with Sub' Keep new f.1 b keeps s');
        }
  ]

pub lookup-lower :
    (key : Contents) (xs ys : List (Entry Contents))
    → All (λ (e : Entry Contents). less e.0 key ≡ true) xs
    → lookup key (xs ++ ys) ≡ lookup key ys
unfolding lookup
lookup-lower key [] ys a = refl
lookup-lower key (x ∷ xs) ys a = ground (arith, ne_of_less x.0 key a.0, lookup-lower key xs ys a.1)

pub lookup-upper :
    (key : Contents) (xs ys : List (Entry Contents))
    → All (λ (e : Entry Contents). less key e.0 ≡ true) ys
    → lookup key (xs ++ ys) ≡ lookup key xs
unfolding lookup
lookup-upper key [] [] a = refl
lookup-upper key [] (y ∷ ys) a =
    ground (arith, key_equals_ne key y.0 a.0, lookup-upper key [] ys a.1)
lookup-upper key (x ∷ xs) ys a = ground (arith, lookup-upper key xs ys a)

-- Between keys that are less and keys that are greater a key is looked up in the middle.
pub lookup-middle :
    (key : Contents) (xs ys zs : List (Entry Contents))
    → All (λ (e : Entry Contents). less e.0 key ≡ true) xs
    → All (λ (e : Entry Contents). less key e.0 ≡ true) zs
    → lookup key (xs ++ (ys ++ zs)) ≡ lookup key ys
lookup-middle key xs ys zs a b = lookup-lower key xs (ys ++ zs) a ∙ lookup-upper key ys zs b
