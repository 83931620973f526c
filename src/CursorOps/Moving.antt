-- ===== src/CursorOps/Moving.antt =====
-- `moveFrames` of libTupl/src/tupl/pvt/ops.cpp under NDEBUG: which calls are
-- defined, and the positions that the frames get.
use tupl_native.Common.{
  ℕ, ◌+◌, ◌-◌, ◌^◌, ◌<◌, ◌≡◌, refl, sym, ◌∙◌, Bool, false, ◌||◌, List, [], ◌∷◌, ◌++◌, arith, ltb,
  leb, if◌then◌else◌, ok, fail, undefined_behaviour, release, append-nil, append_assoc, Bool-cases,
  inl, inr, ap,
}
use tupl_native.CursorOps.{CursorFrame, of_source, adjust, move_frames, move_frames_loop}

-- Whether a frame at a position is to go to the sibling, and the position that it gets.
abbrev pub moves : (insert_pos split_pos position : ℕ) → Bool
moves insert_pos split_pos position =
    if leb split_pos position then ltb split_pos insert_pos else leb insert_pos split_pos

abbrev pub new_position : (insert_pos split_pos position : ℕ) → ℕ
new_position insert_pos split_pos position =
    if leb split_pos position
    then if ltb position insert_pos
      then position - split_pos
      else if ltb insert_pos position
      then position - split_pos + 1
      else position
    else if ltb insert_pos position
    then position + 1
    else position

unfoldable pub any_moves : (insert_pos split_pos : ℕ) → List CursorFrame → Bool
any_moves insert_pos split_pos [] = false
any_moves insert_pos split_pos (f ∷ fs) =
    moves insert_pos split_pos f.position || any_moves insert_pos split_pos fs

unfoldable pub repositioned : (insert_pos split_pos : ℕ) → List CursorFrame → List CursorFrame
repositioned insert_pos split_pos [] = []
repositioned insert_pos split_pos (f ∷ fs) =
    record f { position = new_position insert_pos split_pos f.position }
    ∷ repositioned insert_pos split_pos fs

-- Positions at which `size_t` does not wrap round.
abbrev pub AllSmall : List CursorFrame → Type 0
AllSmall [] = Unit
AllSmall (f ∷ fs) = (f.position < 2 ^ 63) × AllSmall fs

module _ (insert_pos split_pos : ℕ) where
  pub adjust_lem :
      (f : CursorFrame)
      → f.position < 2 ^ 63
      → adjust release insert_pos split_pos f
        ≡ ok (
          record f { position = new_position insert_pos split_pos f.position },
          moves insert_pos split_pos f.position,
        )
  unfolding adjust
  adjust_lem f small = ground arith

  move_frames_loop_lem :
      (done todo sibling : List CursorFrame)
      → AllSmall todo
      → move_frames_loop release insert_pos split_pos of_source done todo sibling ≡ (
          if any_moves insert_pos split_pos todo
          then fail undefined_behaviour
          else ok (done ++ repositioned insert_pos split_pos todo, sibling))
  unfolding move_frames_loop any_moves repositioned
  move_frames_loop_lem done [] sibling small = ap (λ l. ok (l, sibling)) (sym (append-nil done))
  move_frames_loop_lem done (f ∷ todo) sibling small =
      let f' : CursorFrame = record f { position = new_position insert_pos split_pos f.position } in
      elim (Bool-cases (moves insert_pos split_pos f.position)) [
        | inl m ↦ rw (adjust_lem f small.0, m) refl
        | inr s ↦
            rw (adjust_lem f small.0, s)
              (move_frames_loop_lem (done ++ f' ∷ []) todo sibling small.1
                ∙ ap
                    (λ l.
                      if any_moves insert_pos split_pos todo
                      then fail undefined_behaviour
                      else ok (l, sibling))
                    (append_assoc done (f' ∷ []) (repositioned insert_pos split_pos todo)))
      ]

  -- Under NDEBUG, for positions that are far from wrapping round, `moveFrames` is defined only if no
  -- frame has to go to the sibling. It then gives each frame its new position, in place.
  pub move_frames_lem :
      (source sibling : List CursorFrame)
      → AllSmall source
      → move_frames release insert_pos split_pos source sibling ≡ (
          if any_moves insert_pos split_pos source
          then fail undefined_behaviour
          else ok (repositioned insert_pos split_pos source, sibling))
  unfolding move_frames
  move_frames_lem source sibling small = move_frames_loop_lem [] source sibling small
