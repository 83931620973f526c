-- ===== src/SlowTree/Sequence.antt =====
-- Sequences of calls of `Tree::insertRecursive` of libTupl/src/tupl/pvt/slow/Tree.cpp from one node on.
use tupl_native.Common.{
  ℕ, ◌+◌, ◌≤◌, ◌<◌, ◌≡◌, refl, sym, ◌∙◌, ap, ap₂, subst, false, List, [], ◌∷◌, arith, length, has,
  NoDup, All, is_some, inl, inr, Outcome, ok, Build, Returns, Returns-mono, Returns-bind, ◌>>=◌,
}
use tupl_native.Bytes.{Contents}
use tupl_native.SlowNode.{Entry, InternalNode, Ptr, capacity, bytes_value_size}
use tupl_native.SlowNode.Order.{insert_ordered, lookup}
use tupl_native.SlowNode.Size.{total_size, AllSmall}
use tupl_native.SlowTree.{Tree, insert_recursive}
use tupl_native.SlowTree.Inorder.{entries_of, nodes_of}
use tupl_native.SlowTree.SearchTree.{Bound, Inside, IsTree}
use tupl_native.SlowTree.Selection.{child_at}
use tupl_native.SlowTree.Steps.{Kept}
use tupl_native.SlowTree.Distinct.{
  Distinct, AllAbsent, either, either-cons, AllAbsent-insert_ordered,
}
use tupl_native.SlowTree.Keeping.{insert_recursive-Result}

-- What a sequence of insertions leaves: the search tree with the new entries beside the old ones.
pub record Stored (t t' : Tree) (limit height : ℕ) (low high : Bound) (p : Ptr)
    (new : List (Entry Contents)) : Type 0 where
  pub tree : IsTree t'.heap limit height low high p
  pub contents :
      (j : Contents)
      → lookup j (entries_of t'.heap height p) ≡ either j new (entries_of t.heap height p)
  pub nodes : nodes_of t'.heap height p ≡ nodes_of t.heap height p
  pub same : (q : Ptr) → has q (nodes_of t.heap height p) ≡ false → t'.heap q ≡ t.heap q
  pub root : t'.root ≡ t.root

module _ (find : InternalNode → Contents → Outcome ℕ) (build : Build) where
  -- Insertions one after the other.
  unfoldable pub insert_each : (fuel : ℕ) → Ptr → List (Entry Contents) → Tree → Outcome Tree
  insert_each fuel p [] t = ok t
  insert_each fuel p (e ∷ es) t =
      insert_recursive find build fuel p e.0 e.1 t >>= insert_each fuel p es

module _ (find : InternalNode → Contents → Outcome ℕ)
    (finds : (n : InternalNode) (key : Contents) → find n key ≡ ok (child_at key n.children))
    (build : Build) where
  insert_recursive-Kept :
      (key value : Contents) (t : Tree) (limit fuel height : ℕ) (low high : Bound) (p : Ptr)
      → length key + length value ≤ 1024
      → limit + (length key + length value) ≤ capacity
      → IsTree t.heap limit height low high p
      → Inside low high key
      → NoDup (nodes_of t.heap height p)
      → has t.next (nodes_of t.heap height p) ≡ false
      → height < fuel
      → is_some (lookup key (entries_of t.heap height p)) ≡ false
      → Returns (insert_recursive find build fuel p key value t) (λ t'.
        Kept t t'
          (limit + (length key + length value))
          height
          low
          high
          p
          (insert_ordered key value (entries_of t.heap height p)))
  insert_recursive-Kept key value t limit fuel height low high p small space is inside nd old h
        absent =
      elim (insert_recursive-Result find finds build key value t limit small space fuel height low
        high p is inside nd old h) [
          | inl (there, failed) ↦ absurd (cc (there, absent))
          | inr (new, done) ↦ done
        ]

  -- Entries with distinct keys that are in the bounds of a search tree and not in the tree, of at
  -- most 1024 bytes each and of a total size that every leaf has space for, can be inserted one
  -- after the other, over nodes where `find` leads to the child that a key belongs to and with fuel
  -- for more than the height: every insertion returns. In the end each new key has its value, every
  -- other key has what it had, and the tree is a search tree of the same nodes.
  pub insert_each-Stored :
      (es : List (Entry Contents)) (t : Tree) (limit fuel height : ℕ) (low high : Bound) (p : Ptr)
      → AllSmall bytes_value_size es
      → limit + total_size bytes_value_size es ≤ capacity
      → Distinct es
      → AllAbsent es (entries_of t.heap height p)
      → All (λ (e : Entry Contents). Inside low high e.0) es
      → IsTree t.heap limit height low high p
      → NoDup (nodes_of t.heap height p)
      → has t.next (nodes_of t.heap height p) ≡ false
      → height < fuel
      → Returns
          (insert_each find build fuel p es t)
          (λ t'. Stored t t' (limit + total_size bytes_value_size es) height low high p es)
  unfolding insert_each total_size lookup
  insert_each-Stored [] t limit fuel height low high p small space d absent inside is nd old h =
      record {
        tree = subst (λ n. IsTree t.heap n height low high p) (omega arith) is;
        contents = λ j. refl;
        nodes = refl;
        same = λ q out. refl;
        root = refl;
      }
  insert_each-Stored (e ∷ es) t limit fuel height low high p small space d absent inside is nd old
        h =
      Returns-bind _ (insert_recursive find build fuel p e.0 e.1 t)
        (insert_each find build fuel p es)
        (insert_recursive-Kept e.0 e.1 t limit fuel height low high p small.0 (omega arith) is
          inside.0 nd old h absent.0)
        (λ t' kept.
          let next : t'.next ≡ t.next = ap (λ (u : Tree). u.next) kept.frame in
          Returns-mono (insert_each find build fuel p es t')
            (insert_each-Stored es t' (limit + (length e.0 + length e.1)) fuel height low high p
              small.1 (omega arith) d.1
              (subst (AllAbsent es) (sym kept.contents)
                (AllAbsent-insert_ordered e es (entries_of t.heap height p) d.0 absent.1))
              inside.1 kept.tree (subst NoDup (sym kept.nodes) nd) (ap₂ has next kept.nodes ∙ old)
              h)
            (λ t'' stored. record {
              tree = subst (λ n. IsTree t''.heap n height low high p) (omega arith) stored.tree;
              contents = λ j.
                  stored.contents j
                  ∙ ap (either j es) kept.contents
                  ∙ either-cons j e es (entries_of t.heap height p) d.0;
              nodes = stored.nodes ∙ kept.nodes;
              same = λ q out. stored.same q (ap (has q) kept.nodes ∙ out) ∙ kept.same q out;
              root = stored.root ∙ ap (λ (u : Tree). u.root) kept.frame;
            }))
