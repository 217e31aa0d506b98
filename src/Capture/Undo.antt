-- ===== src/Capture/Undo.antt =====
-- What an abandoned forward leaves in a save buffer: deltaserve/accumulate.py, the hooks' copy
-- followed by `zero_offset_range`.
use delta_serve_v_llm.Common.Slices.{take, length-take}
use delta_serve_v_llm.Common.{
  ℕ, zero, suc, ◌+◌, ◌-◌, ◌<◌, ◌≤◌, ◌≡◌, refl, ap, ◌∙◌, min, List, [], ◌∷◌, arith, ◌⊎◌, inl, inr,
  length, get_or, replicate, length-replicate,
}
use delta_serve_v_llm.Capture.{copy_rows, save_rows, zero_offset_range}

module _ {X : Type 0} where
  length-copy_rows : (off : ℕ) (rs buf : List X) → length (copy_rows off rs buf) ≡ length buf
  unfolding copy_rows
  length-copy_rows off [] buf = refl
  length-copy_rows off (r ∷ rs) [] = refl
  length-copy_rows zero (r ∷ rs) (y ∷ ys) = ap suc (length-copy_rows zero rs ys)
  length-copy_rows (suc off) (r ∷ rs) (y ∷ ys) = ap suc (length-copy_rows off (r ∷ rs) ys)

  pub copy_rows-outside :
      (off : ℕ) (rs buf : List X) (i : ℕ) (d : X)
      → (i < off) ⊎ (off + length rs ≤ i)
      → get_or (copy_rows off rs buf) i d ≡ get_or buf i d
  unfolding copy_rows
  copy_rows-outside off [] buf i d h = refl
  copy_rows-outside off (r ∷ rs) [] i d h = refl
  copy_rows-outside zero (r ∷ rs) (y ∷ ys) zero d h = absurd (omega (arith, h))
  copy_rows-outside zero (r ∷ rs) (y ∷ ys) (suc i) d h =
      copy_rows-outside zero rs ys i d
        (elim h [ inl p ↦ absurd (omega arith) | inr p ↦ inr (omega arith) ])
  copy_rows-outside (suc off) (r ∷ rs) (y ∷ ys) zero d h = refl
  copy_rows-outside (suc off) (r ∷ rs) (y ∷ ys) (suc i) d h =
      copy_rows-outside off (r ∷ rs) ys i d
        (elim h [ inl p ↦ inl (omega arith) | inr p ↦ inr (omega arith) ])

  copy_rows-replicate :
      (off n : ℕ) (z : X) (buf : List X) (i : ℕ) (d : X)
      → off ≤ i
      → i < off + n
      → off + n ≤ length buf
      → get_or (copy_rows off (replicate n z) buf) i d ≡ z
  unfolding copy_rows
  copy_rows-replicate off zero z buf i d h g f = absurd (omega arith)
  copy_rows-replicate off (suc n) z [] i d h g f = absurd (omega arith)
  copy_rows-replicate zero (suc n) z (y ∷ ys) zero d h g f = refl
  copy_rows-replicate zero (suc n) z (y ∷ ys) (suc i) d h g f =
      copy_rows-replicate zero n z ys i d (omega arith) (omega arith) (omega arith)
  copy_rows-replicate (suc off) (suc n) z (y ∷ ys) zero d h g f = absurd (omega arith)
  copy_rows-replicate (suc off) (suc n) z (y ∷ ys) (suc i) d h g f =
      copy_rows-replicate off (suc n) z ys i d (omega arith) (omega arith) (omega arith)

  length-saved :
      (max_saved off : ℕ) (rows : List X)
      → length (take (min (length rows) (max_saved - off)) rows)
        ≡ min (length rows) (max_saved - off)
  length-saved max_saved off rows =
      length-take (min (length rows) (max_saved - off)) rows (omega arith)

  -- A forward abandoned part of the way leaves nothing behind: in a buffer of `max_saved + 1` rows,
  -- after the hook's copy of a step's rows to its offset and the zeroing of that step's range, the
  -- rows from the offset that the buffer has room for are zero rows, and every other row is as
  -- before the step.
  pub zero_offset_range-undoes :
      (zero_row : X) (max_saved off : ℕ) (rows buf : List X) (i : ℕ) (d : X)
      → length buf ≡ max_saved + 1
      → off ≤ max_saved
      → (off ≤ i
          → i < off + min (length rows) (max_saved - off)
          → get_or
              (zero_offset_range zero_row max_saved off
                (length rows)
                (save_rows max_saved off rows buf))
              i
              d
            ≡ zero_row)
        × ((i < off) ⊎ (off + min (length rows) (max_saved - off) ≤ i)
            → get_or
                (zero_offset_range zero_row max_saved off
                  (length rows)
                  (save_rows max_saved off rows buf))
                i
                d
              ≡ get_or buf i d)
  unfolding zero_offset_range save_rows
  zero_offset_range-undoes zero_row max_saved off rows buf i d len room =
      let n = min (length rows) (max_saved - off) in
      let kept = take n rows in
      let saved = copy_rows off kept buf in
      (
        λ h g.
            copy_rows-replicate off n zero_row saved i d h g
              (omega (arith, length-copy_rows off kept buf, len, room)),
        λ out.
            copy_rows-outside off (replicate n zero_row) saved i d (elim out [
              | inl p ↦ inl p
              | inr p ↦ inr (omega (arith, length-replicate n zero_row, p))
            ])
            ∙ copy_rows-outside off kept buf i d (elim out [
              | inl p ↦ inl p
              | inr p ↦ inr (omega (arith, length-saved max_saved off rows, p))
            ]),
      )
