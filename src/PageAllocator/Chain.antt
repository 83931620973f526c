-- ===== src/PageAllocator/Chain.antt =====
-- Doubly linked chains of the nodes of libTupl/src/tupl/pvt/PageAllocator.cpp.
use tupl_native.Common.{
  NoDup, has, ◌≡◌, refl, ◌∙◌, true, false, Option, none, some, List, [], ◌∷◌, ◌++◌, arith, ◌==◌,
}
use tupl_native.PageAllocator.{NodePtr, Links, write}

-- The first of a list, or what stands behind it.
abbrev pub head_or : List NodePtr → Option NodePtr → Option NodePtr
head_or [] e = e
head_or (x ∷ xs) e = some x

-- The last of a list, or what stands in front of it.
abbrev pub last_or : List NodePtr → Option NodePtr → Option NodePtr
last_or [] p = p
last_or (x ∷ xs) p = last_or xs (some x)

-- The nodes are linked both ways, from `p` in front to `e` behind.
pub data Chain (next prev : Links) (e : Option NodePtr)
    : Option NodePtr → List NodePtr → Type 0 where
  nil : {p : Option NodePtr} → Chain next prev e p []
  cons :
      {p : Option NodePtr} {x : NodePtr} {xs : List NodePtr}
      → prev x ≡ p
      → next x ≡ head_or xs e
      → Chain next prev e (some x) xs
      → Chain next prev e p (x ∷ xs)

-- The last node of a list is in it.
pub has_last :
    (l x : NodePtr) (xs : List NodePtr) → last_or xs (some x) ≡ some l → has l (x ∷ xs) ≡ true
has_last l x [] q = ground arith
has_last l x (y ∷ xs) q = ground (arith, has_last l y xs q)

pub ne_of_has :
    (a b : NodePtr) (xs : List NodePtr) → has a xs ≡ false → has b xs ≡ true → (a == b) ≡ false
ne_of_has a b [] h q = cc
ne_of_has a b (x ∷ xs) h q = ground (arith, ne_of_has a b xs)

pub last_some : (x : NodePtr) (xs : List NodePtr) → (l : NodePtr) × (last_or xs (some x) ≡ some l)
last_some x [] = (x, refl)
last_some x (y ∷ xs) = last_some y xs

pub last_or-append :
    (xs ys : List NodePtr) (p : Option NodePtr) → last_or (xs ++ ys) p ≡ last_or ys (last_or xs p)
last_or-append [] ys p = refl
last_or-append (x ∷ xs) ys p = last_or-append xs ys (some x)

pub head_or-append :
    (xs ys : List NodePtr) (e : Option NodePtr) → head_or (xs ++ ys) e ≡ head_or xs (head_or ys e)
head_or-append [] ys e = refl
head_or-append (x ∷ xs) ys e = refl

module _ {next prev : Links} where
  -- A chain survives any change that spares its own nodes.
  pub frame :
      {next' prev' : Links} {e p : Option NodePtr} {xs : List NodePtr}
      → ((a : NodePtr) → has a xs ≡ true → (next' a ≡ next a) × (prev' a ≡ prev a))
      → Chain next prev e p xs
      → Chain next' prev' e p xs
  frame same nil = nil
  frame same (cons {x} b f c) =
      let here = same x (ground arith) in
      cons (here.1 ∙ b) (here.0 ∙ f) (frame (λ a h. same a (ground arith)) c)

  pub split :
      {p e : Option NodePtr} (xs ys : List NodePtr)
      → Chain next prev e p (xs ++ ys)
      → Chain next prev (head_or ys e) p xs × Chain next prev e (last_or xs p) ys
  split [] ys c = (nil, c)
  split (x ∷ []) ys (cons b f c) = (cons b f nil, c)
  split (x ∷ y ∷ xs) ys (cons b f c) = let rest = split (y ∷ xs) ys c in (cons b f rest.0, rest.1)

  pub join :
      {p e : Option NodePtr} (xs ys : List NodePtr)
      → Chain next prev (head_or ys e) p xs
      → Chain next prev e (last_or xs p) ys
      → Chain next prev e p (xs ++ ys)
  join [] ys c d = d
  join (x ∷ []) ys (cons b f c) d = cons b f d
  join (x ∷ y ∷ xs) ys (cons b f c) d = cons b f (join (y ∷ xs) ys c d)

  pub head_links :
      {e p : Option NodePtr} {x : NodePtr} {xs : List NodePtr}
      → Chain next prev e p (x ∷ xs)
      → (prev x ≡ p) × (next x ≡ head_or xs e)
  head_links (cons b f c) = (b, f)

  pub tail :
      {e p : Option NodePtr} {x : NodePtr} {xs : List NodePtr}
      → Chain next prev e p (x ∷ xs)
      → Chain next prev e (some x) xs
  tail (cons b f c) = c

  -- A write to the last node's `next` moves what the chain ends at.
  pub write_last :
      {e p : Option NodePtr} {xs : List NodePtr} (l : NodePtr) (v : Option NodePtr)
      → NoDup xs
      → last_or xs none ≡ some l
      → Chain next prev e p xs
      → Chain (write next l v) prev v p xs
  write_last l v nd q nil = nil
  write_last l v nd q (cons {x} b f nil) = cons b (ground arith) nil
  write_last l v nd q (cons {x} b f (cons {x = y} {xs} b' f' c)) =
      cons b (ground (arith, ne_of_has x l (y ∷ xs), has_last l y xs))
        (write_last l v nd.1 q (cons b' f' c))

  -- A write to the first node's `prev` moves where the chain begins.
  pub write_first :
      {p e : Option NodePtr} {x : NodePtr} {xs : List NodePtr} (v : Option NodePtr)
      → has x xs ≡ false
      → Chain next prev e p (x ∷ xs)
      → Chain next (write prev x v) e v (x ∷ xs)
  write_first {x} {xs} v out (cons b f c) =
      cons (ground arith) f (frame (λ a h. (refl, ground (arith, ne_of_has x a xs out h))) c)
