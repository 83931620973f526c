-- ===== src/CursorOps/Storing.antt =====
-- `store` and `find` of libTupl/src/tupl/pvt/ops.cpp.
use tupl_native.Common.{
  ℕ, zero, suc, ◌+◌, ◌^◌, ◌≤◌, ◌<◌, ◌≡◌, refl, sym, ◌∙◌, ap, subst, true, false, some, List, [],
  ◌∷◌, ◌++◌, arith, ltb, if◌then◌else◌, length, length-append, get_elem?, All, ok, fail,
  invalid_argument, logic_error, assertion_failed, undefined_behaviour, debug, release,
}
use mathlib.Core.Option.{some-injective}
use tupl_native.Bytes.{Contents, less}
use tupl_native.SlowNode.{Entry, Ptr, LeafNode, InternalNode, emplace, capacity, bytes_value_size}
use tupl_native.SlowNode.Ops.{lower_bound_child}
use tupl_native.SlowNode.Order.{IsOrdered}
use tupl_native.SlowNode.Insert.{insert_at_lem}
use tupl_native.SlowTree.{Heap, leaf_node, internal_node, store}
use tupl_native.ArrayStack.{empty}
use tupl_native.ArrayStack.Release.{Represents, top_value_lem}
use tupl_native.CursorOps.{frame_size, CursorFrame, Cursor, find, store_value}

emplace_end :
    (es : List (Entry Contents)) (e : Entry Contents) → emplace es (length es) e ≡ es ++ e ∷ []
emplace_end [] e = refl
emplace_end (x ∷ es) e = ap (λ l. x ∷ l) (emplace_end es e)

All-last :
    (k : Contents) (es : List (Entry Contents)) (l : Entry Contents)
    → All (λ e. less k e.0 ≡ true) (es ++ l ∷ [])
    → less k l.0 ≡ true
All-last k [] l a = a.0
All-last k (e ∷ es) l a = All-last k es l a.1

-- In ordered entries all are less than the last.
last_greatest :
    (es : List (Entry Contents)) (l e : Entry Contents) (i : ℕ)
    → IsOrdered (es ++ l ∷ [])
    → get_elem? es i ≡ some e
    → less e.0 l.0 ≡ true
last_greatest [] l e i o h = absurd (cc h)
last_greatest (x ∷ es) l e zero o h =
    subst (λ (y : Entry Contents). less y.0 l.0 ≡ true) (some-injective x e h)
      (All-last x.0 es l o.0)
last_greatest (x ∷ es) l e (suc i) o h = last_greatest es l e i o.1 h

module _ (heap : Heap) (value : Contents) (c : Cursor) (frames : List CursorFrame) (f : CursorFrame)
    (p : Ptr) (n : LeafNode) (stands : Represents frame_size 64 c.stack_frames (frames ++ f ∷ []))
    (at : f.node ≡ some p) (leaf : heap p ≡ some (leaf_node n)) (fits : n.bytes ≤ capacity)
    (in_memory : length c.key + length value < 2 ^ 64) where
  -- Under NDEBUG `store` refuses an entry that is too big, throws where the leaf under the top frame
  -- has no space, and otherwise puts the entry behind the last one of that leaf, whatever its key.
  pub store_value_lem : store_value release heap value c ≡ (
      if ltb 1024 (length c.key + length value)
      then fail (invalid_argument "entry too big")
      else if ltb capacity (n.bytes + (length c.key + length value))
      then fail (logic_error "unimplemented")
      else ok (
          store heap p (
            leaf_node (record n {
              children = n.children ++ (c.key, value) ∷ [];
              bytes = n.bytes + (length c.key + length value);
            }))))
  unfolding store_value empty
  store_value_lem =
      let top = top_value_lem frame_size 64 c.stack_frames frames f stands in
      let count : c.stack_frames.top ≡ suc (length frames) =
        omega (arith, stands.count, length-append frames (f ∷ [])) in
      ground (
        arith,
        insert_at_lem bytes_value_size (length n.children) c.key value n,
        emplace_end n.children (c.key, value),
      )

  -- Whenever `store` returns under NDEBUG, and an entry was in the leaf whose key is not less than
  -- the key that is stored, the entries of the leaf are no longer ordered.
  pub store_value_disorders :
      (i : ℕ) (e : Entry Contents) (heap' : Heap) (m : LeafNode)
      → get_elem? n.children i ≡ some e
      → less e.0 c.key ≡ false
      → store_value release heap value c ≡ ok heap'
      → heap' p ≡ some (leaf_node m)
      → ¬ IsOrdered m.children
  store_value_disorders i e heap' m here ge run stored o =
      let spec = sym store_value_lem ∙ run in
      let kids : m.children ≡ n.children ++ (c.key, value) ∷ [] = ground arith in
      let lt = last_greatest n.children (c.key, value) e i (subst IsOrdered kids o) here in
      cc (lt, ge)

-- `find` on a cursor without frames never returns: where the root is an internal node it fails an
-- assertion in a build with them, and has no defined behaviour under NDEBUG.
pub find_fails :
    (heap : Heap) (fuel : ℕ) (root : Ptr) (key : Contents) (c : Cursor) (n : InternalNode)
    → c.stack_frames.top ≡ 0
    → heap root ≡ some (internal_node n)
    → (find debug heap (suc fuel) root key c ≡ fail assertion_failed)
      × (find release heap (suc fuel) root key c ≡ fail undefined_behaviour)
unfolding find empty lower_bound_child
find_fails heap fuel root key c n none_yet at = (ground arith, ground arith)
