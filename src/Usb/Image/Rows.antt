-- ===== src/Usb/Image/Rows.antt =====
-- The two loops of `rpusbdisp_usb_try_send_image` of usbhandlers.c meet the pixels of the rectangle row by
-- row, each at its place in a framebuffer of 320 pixels a line.
use rpusbdisp.Common.{ℕ, zero, suc, ◌+◌, ◌*◌, ◌≡◌, refl, ◌∙◌, ap, sym, List, [], ◌∷◌, ◌++◌, arith}
use mathlib.Core.Path.{fun_ext}
use rpusbdisp.Common.Int.{ℤ, pos, pos_part, ◌+ℤ◌, ◌-ℤ◌, ◌*ℤ◌}
use rpusbdisp.Common.Memory.{read}
use rpusbdisp.Usb.Image.{Area, area_height, row_pixels, rows_pixels, image_pixels}
use rpusbdisp.Usb.Image.Display.{IsOnScreen, width_lem, height_lem}

read-cons : {A : Type 0} (n : ℕ) (f : ℕ → A) → read (suc n) f ≡ f 0 ∷ read n (λ i. f (suc i))
unfolding read
read-cons zero f = refl
read-cons (suc n) f = ap (λ l. l ++ f (suc n) ∷ []) (read-cons n f)

-- The pixels of a line from the offset `at` on.
abbrev pub line_at : (ℤ → ℕ) → ℕ → ℕ → List ℕ
line_at memory width at = read width (λ i. memory (pos (at + i)))

add_lem : (a b : ℕ) → pos a +ℤ pos b ≡ pos (a + b)
unfolding ◌+ℤ◌
add_lem a b = ground arith

row_lem : (memory : ℤ → ℕ) (n at : ℕ) → row_pixels memory n (pos at) ≡ line_at memory n at
unfolding row_pixels read
row_lem memory zero at = refl
row_lem memory (suc n) at =
    let z : at + 0 ≡ at = omega arith in
    ap (λ l. memory (pos at) ∷ l)
      (ap (row_pixels memory n) (add_lem at 1)
        ∙ row_lem memory n (at + 1)
        ∙ ap (read n) (fun_ext λ i. ap (λ k. memory (pos k)) (omega arith)))
    ∙ ap (λ k. memory (pos k) ∷ read n (λ i. memory (pos (at + suc i)))) (sym z)
    ∙ sym (read-cons n (λ i. memory (pos (at + i))))

-- The rows from the offset `at` on, each 320 pixels behind the one before.
abbrev pub lines_from : (ℤ → ℕ) → ℕ → ℕ → ℕ → List ℕ
lines_from memory width zero at = []
lines_from memory width (suc rows) at =
    line_at memory width at ++ lines_from memory width rows (at + 320)

module _ (memory : ℤ → ℕ) (a : Area) (o : IsOnScreen a) (l : a.line_width ≡ pos 320) where
  next_row :
      (at : ℕ)
      → pos at +ℤ pos (o.wide + 1) +ℤ (a.line_width -ℤ a.right -ℤ pos 1 +ℤ a.x) ≡ pos (at + 320)
  unfolding ◌+ℤ◌ ◌-ℤ◌
  next_row at = rw (l, o.right_at, o.x_left) (ground (arith, o.columns))

  rows_lem :
      (rows at : ℕ) → rows_pixels memory a rows (pos at) ≡ lines_from memory (o.wide + 1) rows at
  unfolding rows_pixels
  rows_lem zero at = refl
  rows_lem (suc rows) at =
      rw (ap pos_part (width_lem a o), row_lem memory (o.wide + 1) at)
        (ap (λ f. line_at memory (o.wide + 1) at ++ rows_pixels memory a rows f) (next_row at)
          ∙ ap (λ r. line_at memory (o.wide + 1) at ++ r) (rows_lem rows (at + 320)))

  start : a.y *ℤ a.line_width +ℤ a.x ≡ pos (o.top * 320 + o.left)
  unfolding ◌+ℤ◌ ◌*ℤ◌
  start = rw (l, o.y_top, o.x_left) (ground arith)

  -- The pixels of a rectangle of the screen, row by row.
  pub image_pixels_lem :
      image_pixels memory a ≡ lines_from memory (o.wide + 1) (o.high + 1) (o.top * 320 + o.left)
  unfolding image_pixels
  image_pixels_lem =
      ap (rows_pixels memory a (pos_part (area_height a))) start
      ∙ rw (ap pos_part (height_lem a o)) (rows_lem (o.high + 1) (o.top * 320 + o.left))
