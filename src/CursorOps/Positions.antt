-- ===== src/CursorOps/Positions.antt =====
-- The positions that `moveFrames` of libTupl/src/tupl/pvt/ops.cpp gives to frames, against the
-- positions of their entries after a split.
use tupl_native.Common.{
  ℕ, suc, ◌+◌, ◌-◌, ◌^◌, ◌≤◌, ◌<◌, ◌≡◌, ◌≢◌, sym, ◌∙◌, Bool, List, ◌∷◌, ◌++◌, arith, leb, ltb,
  if◌then◌else◌, length, get_elem?, drop, ok, release, Bool-cases, inl, inr, get_elem?-append_left,
  get_elem?-append_right, get_elem?-take, get_elem?-drop, length-take, length-drop, lt_or_ge, ap,
}
use tupl_native.SlowNode.{SiblingDirection, Entry, left, right, moved_entries, kept_entries, slice}
use tupl_native.CursorOps.{CursorFrame, adjust}
use tupl_native.CursorOps.Moving.{new_position, adjust_lem}

module _ {V : Type 0} (entries : List (Entry V)) where
  get_elem?-slice :
      (first last i : ℕ)
      → first + i < last
      → get_elem? (slice first last entries) i ≡ get_elem? entries (first + i)
  get_elem?-slice first last i h =
      get_elem?-take (last - first) (drop first entries) i (omega arith)
      ∙ get_elem?-drop first entries i

  length-slice :
      (first last : ℕ)
      → first ≤ last
      → last ≤ length entries
      → length (slice first last entries) ≡ last - first
  length-slice first last h q =
      length-take (last - first) (drop first entries) (omega (arith, length-drop first entries))

  in_front :
      (first insert_pos i : ℕ) (e : Entry V) (ys : List (Entry V))
      → first ≤ i
      → i < insert_pos
      → insert_pos ≤ length entries
      → get_elem? (slice first insert_pos entries ++ (e ∷ ys)) (i - first) ≡ get_elem? entries i
  in_front first insert_pos i e ys h q n =
      let at : first + (i - first) ≡ i = omega arith in
      get_elem?-append_left (slice first insert_pos entries) (e ∷ ys) (i - first)
        (omega (arith, length-slice first insert_pos))
      ∙ get_elem?-slice first insert_pos (i - first) (omega arith)
      ∙ ap (get_elem? entries) at

  behind :
      (first insert_pos i : ℕ) (e : Entry V) (ys : List (Entry V))
      → first ≤ insert_pos
      → insert_pos ≤ i
      → insert_pos ≤ length entries
      → get_elem? ys (i - insert_pos) ≡ get_elem? entries (insert_pos + (i - insert_pos))
      → get_elem? (slice first insert_pos entries ++ (e ∷ ys)) (i - first + 1) ≡ get_elem? entries i
  behind first insert_pos i e ys h q n rest =
      let at : insert_pos + (i - insert_pos) ≡ i = omega arith in
      let off : i - first + 1 - length (slice first insert_pos entries) ≡ suc (i - insert_pos) =
        omega (arith, length-slice first insert_pos) in
      get_elem?-append_right (slice first insert_pos entries) (e ∷ ys) (i - first + 1)
        (omega (arith, length-slice first insert_pos))
      ∙ ap (get_elem? (e ∷ ys)) off
      ∙ rest
      ∙ ap (get_elem? entries) at

module _ {V : Type 0} (entries : List (Entry V)) (e : Entry V) (insert_pos split_pos position : ℕ)
    (split_in : split_pos ≤ length entries) (insert_in : insert_pos ≤ length entries)
    (here : position < length entries) (apart : position ≢ insert_pos) where
  new_position-right :
      split_pos < insert_pos
      → (if leb split_pos position
          then get_elem?
              (moved_entries entries right insert_pos split_pos e)
              (new_position insert_pos split_pos position)
          else get_elem?
              (kept_entries entries right split_pos)
              (new_position insert_pos split_pos position))
        ≡ get_elem? entries position
  new_position-right lt = elim (Bool-cases (leb split_pos position)) [
    | inl ge ↦ elim (lt_or_ge position insert_pos) [
      | inl h ↦
          let front =
            in_front entries split_pos insert_pos position e (drop insert_pos entries)
              (ground arith) h insert_in in
          ground arith
      | inr h ↦
          let back =
            behind entries split_pos insert_pos position e (drop insert_pos entries) (omega arith) h
              insert_in (get_elem?-drop insert_pos entries (position - insert_pos)) in
          ground arith
    ]
    | inr lt' ↦ let same = get_elem?-take split_pos entries position (ground arith) in ground arith
  ]

  new_position-left :
      insert_pos ≤ split_pos
      → (if leb split_pos position
          then get_elem?
              (kept_entries entries left split_pos)
              (new_position insert_pos split_pos position - 1)
          else get_elem?
              (moved_entries entries left insert_pos split_pos e)
              (new_position insert_pos split_pos position))
        ≡ get_elem? entries position
  new_position-left le = elim (Bool-cases (leb split_pos position)) [
    | inl ge ↦
        let same = get_elem?-drop split_pos entries (position - split_pos) in
        let at : split_pos + (position - split_pos) ≡ position = ground arith in
        let np : new_position insert_pos split_pos position - 1 ≡ position - split_pos =
          ground arith in
        let stays = ap (get_elem? (drop split_pos entries)) np ∙ same ∙ ap (get_elem? entries) at in
        ground arith
    | inr lt ↦ elim (lt_or_ge position insert_pos) [
      | inl h ↦
          let front =
            in_front entries 0 insert_pos position e (slice insert_pos split_pos entries)
              (omega arith) h insert_in in
          let np : new_position insert_pos split_pos position ≡ position - 0 = ground arith in
          let goes =
            ap (get_elem? (slice 0 insert_pos entries ++ (e ∷ slice insert_pos split_pos entries)))
              np
            ∙ front in
          ground arith
      | inr h ↦
          let back =
            behind entries 0 insert_pos position e (slice insert_pos split_pos entries)
              (omega arith) h insert_in
              (get_elem?-slice entries insert_pos split_pos (position - insert_pos)
                (ground arith)) in
          let np : new_position insert_pos split_pos position ≡ position - 0 + 1 = ground arith in
          let goes =
            ap (get_elem? (slice 0 insert_pos entries ++ (e ∷ slice insert_pos split_pos entries)))
              np
            ∙ back in
          ground arith
    ]
  ]

-- The direction of the split that `moveFrames` takes the two positions for.
abbrev pub split_direction : (insert_pos split_pos : ℕ) → SiblingDirection
split_direction insert_pos split_pos = if ltb split_pos insert_pos then right else left

module _ {V : Type 0} (entries : List (Entry V)) (e : Entry V) (insert_pos split_pos : ℕ)
    (f f' : CursorFrame) (goes : Bool) (split_in : split_pos ≤ length entries)
    (insert_in : insert_pos ≤ length entries) (here : f.position < length entries)
    (small : f.position < 2 ^ 63) (apart : f.position ≢ insert_pos)
    (run : adjust release insert_pos split_pos f ≡ ok (f', goes)) where
  adjust_right :
      split_pos < insert_pos
      → (if goes
          then get_elem? (moved_entries entries right insert_pos split_pos e) f'.position
          else get_elem? (kept_entries entries right split_pos) f'.position)
        ≡ get_elem? entries f.position
  adjust_right lt =
      let at =
        new_position-right entries e insert_pos split_pos f.position split_in insert_in here apart
          lt in
      let spec = sym (adjust_lem insert_pos split_pos f small) ∙ run in ground (arith, at, spec)

  adjust_left :
      insert_pos ≤ split_pos
      → (if goes
          then get_elem? (moved_entries entries left insert_pos split_pos e) f'.position
          else get_elem? (kept_entries entries left split_pos) (f'.position - 1))
        ≡ get_elem? entries f.position
  adjust_left le =
      let at =
        new_position-left entries e insert_pos split_pos f.position split_in insert_in here apart
          le in
      let spec = sym (adjust_lem insert_pos split_pos f small) ∙ run in ground (arith, at, spec)

  -- What the round of `moveFrames` for a frame at an entry does under NDEBUG, in a split within the
  -- entries that inserts elsewhere than at the frame: a frame that goes to the sibling is left at
  -- its entry there. One that stays in the source is left at its entry after a split to the right,
  -- and one position behind its entry after a split to the left.
  pub adjust_follows :
      (if goes
        then get_elem?
            (moved_entries entries (split_direction insert_pos split_pos) insert_pos split_pos e)
            f'.position
        else get_elem?
            (kept_entries entries (split_direction insert_pos split_pos) split_pos)
            (elim (split_direction insert_pos split_pos) [
              | left ↦ f'.position - 1
              | right ↦ f'.position
            ]))
      ≡ get_elem? entries f.position
  adjust_follows = elim (Bool-cases (ltb split_pos insert_pos)) [
    | inl lt ↦ rw lt (adjust_right (ground arith))
    | inr ge ↦ rw ge (adjust_left (ground arith))
  ]
