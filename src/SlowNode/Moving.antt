-- ===== src/SlowNode/Moving.antt =====
-- `LeafNode::moveEntries` of libTupl/src/tupl/pvt/slow/Node.cpp: which entries stand where
-- afterwards, and what the two byte counts then are.
use tupl_native.Common.{
  ℕ, zero, suc, ◌+◌, ◌-◌, ◌≤◌, ◌≡◌, refl, sym, ◌∙◌, ap, ap₂, List, [], ◌∷◌, ◌++◌, arith, length,
  take, drop, length-take, length-append, length-drop, ok, Returns,
}
use tupl_native.Bytes.{Contents}
use tupl_native.SlowNode.{Entry, LeafNode, slice, bytes_value_size}
use tupl_native.SlowNode.Ops.{move_entries}
use tupl_native.SlowNode.Size.{total_size, total_size-append, total_size-take-drop}

module _ {A : Type 0} where
  drop_nil : (n : ℕ) → drop {A = A} n [] ≡ []
  drop_nil zero = refl
  drop_nil (suc n) = refl

  drop-drop : (i j : ℕ) (xs : List A) → drop j (drop i xs) ≡ drop (i + j) xs
  drop-drop zero j xs = ap (λ n. drop n xs) (omega arith)
  drop-drop (suc i) j [] = drop_nil j ∙ sym (drop_nil (suc i + j))
  drop-drop (suc i) j (x ∷ xs) =
      let step : suc i + j ≡ suc (i + j) = omega arith in
      drop-drop i j xs ∙ ap (λ n. drop n (x ∷ xs)) (sym step)

  take-append : (xs ys : List A) → take (length xs) (xs ++ ys) ≡ xs
  take-append [] ys = refl
  take-append (x ∷ xs) ys = ap (λ l. x ∷ l) (take-append xs ys)

  drop-append : (xs ys : List A) → drop (length xs) (xs ++ ys) ≡ ys
  drop-append [] ys = refl
  drop-append (x ∷ xs) ys = drop-append xs ys

-- What is in front of a range, the range, and what is behind it.
total_size-slice :
    (first last : ℕ) (es : List (Entry Contents))
    → first ≤ last
    → total_size bytes_value_size (take first es ++ drop last es)
        + total_size bytes_value_size (slice first last es)
      ≡ total_size bytes_value_size es
total_size-slice first last es h =
    let at : first + (last - first) ≡ last = omega arith in
    let rest : total_size bytes_value_size (drop (last - first) (drop first es))
        ≡ total_size bytes_value_size (drop last es) =
      ap (total_size bytes_value_size)
        (drop-drop first (last - first) es ∙ ap (λ n. drop n es) at) in
    omega (
      arith,
      rest,
      total_size-append bytes_value_size (take first es) (drop last es),
      total_size-take-drop bytes_value_size first es,
      total_size-take-drop bytes_value_size (last - first) (drop first es),
    )

length-slice :
    (first last : ℕ) (es : List (Entry Contents))
    → first ≤ last
    → last ≤ length es
    → length (slice first last es) ≡ last - first
length-slice first last es h q =
    length-take (last - first) (drop first es) (omega (arith, length-drop first es))

-- A range that has been overwritten holds what it was overwritten with.
slice-overwritten :
    (first : ℕ) (new es : List (Entry Contents))
    → first + length new ≤ length es
    → slice first (first + length new) (take first es ++ (new ++ drop (first + length new) es))
      ≡ new
slice-overwritten first new es h =
    let len : length (take first es) ≡ first = length-take first es (omega arith) in
    let size : first + length new - first ≡ length new = omega arith in
    let rest = new ++ drop (first + length new) es in
    ap₂ take size
      (ap (λ n. drop n (take first es ++ rest)) (sym len) ∙ drop-append (take first es) rest)
    ∙ take-append new (drop (first + length new) es)

module _ (src dst : LeafNode) (src_begin src_end tgt_begin : ℕ) (range : src_begin ≤ src_end)
    (inside : src_end ≤ length src.children)
    (src_counted : src.bytes ≡ total_size bytes_value_size src.children)
    (dst_counted : dst.bytes ≡ total_size bytes_value_size dst.children) where
  run :
      tgt_begin + (src_end - src_begin) ≤ length dst.children
      → move_entries src src_begin src_end dst tgt_begin ≡ (
          let moved = slice src_begin src_end src.children in
          ok (
            record src { children = take src_begin src.children ++ drop src_end src.children },
            record dst {
              children =
                  take tgt_begin dst.children
                  ++ (moved ++ drop (tgt_begin + length moved) dst.children);
            },
            tgt_begin + length moved,
          ))
  unfolding move_entries
  run fits =
      let len = length-slice src_begin src_end src.children range inside in ground (arith, fits)

  -- Where the target has entries for the whole range to overwrite, `moveEntries` returns. The target
  -- then holds the range at the place, as many entries as before, and the iterator behind the range.
  -- Both byte counts are stale, if they were right before: that of the source has the size of the
  -- range too much, and that of the target has the size of what was overwritten instead of it.
  pub move_entries_lem :
      tgt_begin + (src_end - src_begin) ≤ length dst.children
      → Returns (move_entries src src_begin src_end dst tgt_begin) (λ (s, d, behind).
        (behind ≡ tgt_begin + (src_end - src_begin))
        × (slice tgt_begin behind d.children ≡ slice src_begin src_end src.children)
        × (length d.children ≡ length dst.children)
        × (s.bytes
            ≡ total_size bytes_value_size s.children
              + total_size bytes_value_size (slice src_begin src_end src.children))
        × (d.bytes + total_size bytes_value_size (slice src_begin src_end src.children)
            ≡ total_size bytes_value_size d.children
              + total_size bytes_value_size (slice tgt_begin behind dst.children)))
  move_entries_lem fits =
      let moved = slice src_begin src_end src.children in
      let len = length-slice src_begin src_end src.children range inside in
      let out = take tgt_begin dst.children in
      let rest = drop (tgt_begin + length moved) dst.children in
      let taken = length-take tgt_begin dst.children (omega (arith, fits)) in
      rw (run fits) (
        omega (arith, len),
        slice-overwritten tgt_begin moved dst.children (omega (arith, len, fits)),
        omega (
          arith,
          len,
          fits,
          taken,
          length-append out (moved ++ rest),
          length-append moved rest,
          length-drop (tgt_begin + length moved) dst.children,
        ),
        omega (arith, src_counted, total_size-slice src_begin src_end src.children range),
        omega (
          arith,
          dst_counted,
          total_size-slice tgt_begin (tgt_begin + length moved) dst.children (omega arith),
          total_size-append bytes_value_size out rest,
          total_size-append bytes_value_size out (moved ++ rest),
          total_size-append bytes_value_size moved rest,
        ),
      )
