-- ===== src/Examples/Latches.antt =====
-- Latches of a root over one leaf.
use tupl_native.Common.{
  false, zero, suc, ◌≡◌, refl, none, some, [], ◌∷◌, ◌<◌, arith, ◌∙◌, ap, Option-cases, inl, inr,
  get_elem?, subst, All, Outcome, ok, fail, undefined_behaviour, release,
}
use tupl_native.Bytes.{Contents}
use tupl_native.SlowNode.{Entry, Ptr, InternalNode}
use tupl_native.SlowTree.{AnyNode, leaf_node, internal_node}
use tupl_native.ArrayStack.{empty}
use tupl_native.CursorOps.Latches.{find_traced}
use tupl_native.CursorOps.LatchOrder.{follow}
use tupl_native.CursorOps.LatchDescent.{Descends, Chooses, unpositioned, find_traced-follow}
use tupl_native.Examples.{small_leaf}
use tupl_native.Examples.Trees.{root_node}
use tupl_native.Examples.Cursors.{cursor_of, heap}

abbrev first_child : InternalNode → Contents → Outcome Ptr
first_child n key = elim (get_elem? n.children 0) [
  | none ↦ fail undefined_behaviour
  | some e ↦ ok e.1
]

first_child-Chooses : Chooses first_child
first_child-Chooses n key child h = elim (Option-cases (get_elem? n.children 0)) [
  | inl gone ↦ absurd (ground (arith, gone, h))
  | inr (e, at) ↦
      let same : e.1 ≡ child = ground (arith, at, h) in
      (0, e.0, at ∙ ap (λ (c : Ptr). some (e.0, c)) same)
]

heap-Descends : Descends heap (λ q. q)
heap-Descends zero n at = absurd (cc at)
heap-Descends (suc zero) n at =
    let same : root_node ≡ n = cc at in
    subst
      (λ (n : InternalNode).
        All (λ (c : Entry Ptr). (c.1 < 1) × ((m : AnyNode) × (heap c.1 ≡ some m))) n.children)
      same ((omega arith, (leaf_node small_leaf, refl)), tt)
heap-Descends (suc (suc q)) n at = absurd (ground (arith, at))

find_traced-follow_example :
    follow (λ q. q) [] (find_traced first_child release heap 2 1 (2 ∷ []) (cursor_of false)).0
    ≡ some []
unfolding empty
find_traced-follow_example =
    find_traced-follow first_child first_child-Chooses heap (λ q. q) heap-Descends release 2 1
      (2 ∷ []) (cursor_of false) (internal_node root_node) refl (omega arith) (unpositioned refl)
