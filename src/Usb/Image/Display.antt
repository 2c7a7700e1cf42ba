-- ===== src/Usb/Image/Display.antt =====
-- `rpusbdisp_usb_try_send_image` of usbhandlers.c on the display that the driver is made for: packets
-- of 64 bytes, 1016 of them in a ticket (with pages of 4096 bytes), and 320 by 240 pixels.
use rpusbdisp.Common.{
  ℕ, zero, suc, ◌+◌, ◌-◌, ◌*◌, ◌/◌, ◌≤◌, ◌<◌, ◌≡◌, refl, ◌∙◌, sym, ap, subst, ◌≢◌, inl, inr, Bool,
  true, not, length, ◌==◌, arith, All, length-append, Bool-cases, eq→==,
}
use rpusbdisp.Common.Bits.{everywhere, everywhere_lem}
use rpusbdisp.Common.Int.{ℤ, pos, pos_part, ◌+ℤ◌, ◌-ℤ◌, ◌*ℤ◌}
use rpusbdisp.Common.Res.{bug, stuck}
use rpusbdisp.Usb.Device.{Device, Submit}
use rpusbdisp.Usb.Rle.Decode.{IsPixel}
use rpusbdisp.Usb.Bitblt.{required_tickets}
use rpusbdisp.Usb.Image.{
  to_size, Area, area_width, area_height, image_size, row_pixels, rows_pixels, image_pixels,
  rpusbdisp_usb_try_send_image,
}
use rpusbdisp.Usb.Image.Begin.{IsUsable}
use rpusbdisp.Usb.Image.Sending.{rle_of}
use rpusbdisp.Usb.Image.Transfer.{bundle_bytes, estimate, try_send_image_safe}

mul_mono : (x y k : ℕ) → x ≤ y → x * k ≤ y * k
mul_mono x y k h = grind arith

row_pixels-length : (memory : ℤ → ℕ) (n : ℕ) (at : ℤ) → length (row_pixels memory n at) ≡ n
unfolding row_pixels
row_pixels-length memory zero at = refl
row_pixels-length memory (suc n) at = omega (arith, row_pixels-length memory n (at +ℤ pos 1))

rows_pixels-length :
    (memory : ℤ → ℕ) (a : Area) (rows : ℕ) (at : ℤ)
    → length (rows_pixels memory a rows at) ≡ rows * pos_part (area_width a)
unfolding rows_pixels
rows_pixels-length memory a zero at = omega arith
rows_pixels-length memory a (suc rows) at =
    let w = pos_part (area_width a) in
    let next = at +ℤ pos w +ℤ (a.line_width -ℤ a.right -ℤ pos 1 +ℤ a.x) in
    omega (
      arith,
      length-append (row_pixels memory w at) (rows_pixels memory a rows next),
      row_pixels-length memory w at,
      rows_pixels-length memory a rows next,
    )

-- A rectangle of the screen, its borders included.
pub record IsOnScreen (a : Area) : Type 0 where
  pub left : ℕ
  pub top : ℕ
  pub wide : ℕ
  pub high : ℕ
  pub x_left : a.x ≡ pos left
  pub y_top : a.y ≡ pos top
  pub right_at : a.right ≡ pos (left + wide)
  pub bottom_at : a.bottom ≡ pos (top + high)
  pub columns : left + wide < 320
  pub lines : top + high < 240

pub width_lem : (a : Area) (s : IsOnScreen a) → area_width a ≡ pos (s.wide + 1)
unfolding ◌+ℤ◌ ◌-ℤ◌
width_lem a s = rw (s.right_at, s.x_left) (ground arith)

pub height_lem : (a : Area) (s : IsOnScreen a) → area_height a ≡ pos (s.high + 1)
unfolding ◌+ℤ◌ ◌-ℤ◌
height_lem a s = rw (s.bottom_at, s.y_top) (ground arith)

pub area_bound : (w h : ℕ) → w ≤ 319 → h ≤ 239 → (h + 1) * (w + 1) ≤ 76800
area_bound w h c l =
    omega
      (arith, mul_mono (w + 1) 320 (h + 1) (omega arith), mul_mono (h + 1) 240 320 (omega arith))

doubled :
    (w h : ℕ)
    → (h + 1) * (w + 1) ≤ 76800
    → to_size (pos (w + 1) *ℤ pos (h + 1) *ℤ pos 2) ≡ 2 * ((h + 1) * (w + 1))
unfolding to_size ◌*ℤ◌
doubled w h b = ground arith

pub size_lem : (a : Area) (s : IsOnScreen a) → image_size a ≡ 2 * ((s.high + 1) * (s.wide + 1))
unfolding image_size
size_lem a s =
    ap (λ w. to_size (w *ℤ area_height a *ℤ pos 2)) (width_lem a s)
    ∙ ap (λ h. to_size (pos (s.wide + 1) *ℤ h *ℤ pos 2)) (height_lem a s)
    ∙ doubled s.wide s.high
        (area_bound s.wide s.high (omega (arith, s.columns)) (omega (arith, s.lines)))

pub pixels_lem :
    (memory : ℤ → ℕ) (a : Area) (s : IsOnScreen a)
    → length (image_pixels memory a) ≡ (s.high + 1) * (s.wide + 1)
unfolding image_pixels
pixels_lem memory a s =
    rows_pixels-length memory a (pos_part (area_height a)) _
    ∙ ap (λ h. pos_part h * pos_part (area_width a)) (height_lem a s)
    ∙ ap (λ w. (s.high + 1) * pos_part w) (width_lem a s)

-- The only number of pixels, up to that of the screen, that with RLE fills its tickets.
abbrev tight : ℕ
tight = 63754

apart : ℕ → ℕ → Bool
apart i j = not ((i + 200) * (j + 266) == tight)

apart_lem : (i j : ℕ) → i < 41 → j < 55 → apart i j ≡ true
unfolding everywhere apart
apart_lem i j a b =
    everywhere_lem (apart i) 55 j b (everywhere_lem (λ i. everywhere (apart i) 55) 41 i a refl)

-- No rectangle of the screen has it.
pub tight_lem : (w h : ℕ) → w ≤ 319 → h ≤ 239 → (h + 1) * (w + 1) ≢ tight
unfolding apart
tight_lem w h c l e =
    let low : 199 ≤ h = omega (arith, e, mul_mono (w + 1) 320 (h + 1) (omega arith)) in
    let right : 265 ≤ w = omega (arith, e, mul_mono (h + 1) 240 (w + 1) (omega arith)) in
    let k = apart_lem (h - 199) (w - 265) (omega arith) (omega arith) in
    let eh : h - 199 + 200 ≡ h + 1 = omega arith in
    let ew : w - 265 + 266 ≡ w + 1 = omega arith in
    let hit : ((h - 199 + 200) * (w - 265 + 266) == tight) ≡ true =
      eq→== _ _ (ap (λ x. x * (w - 265 + 266)) eh ∙ ap (λ y. (h + 1) * y) ew ∙ e) in
    cc (sym (ap not hit) ∙ k)

round_rle :
    (n k p : ℕ)
    → n ≤ 76800
    → n ≢ tight
    → p ≡ (9 + 2 * n + (2 * n / 2 + 127) / 128 + 63 - 1) / 63
    → k ≡ (p + 1016 - 1) / 1016
    → k * (1016 * 63) ≢ 9 + 2 * n + (2 * n / 2 + 127) / 128
round_rle n k p b t e f q = omega arith

round_plain : (n k : ℕ) → k * (1016 * 63) ≢ 9 + 2 * n + 0
round_plain n k q = omega arith

pub tickets_lem :
    (d : Device) (n : ℕ)
    → d.disp_out_ep_max_size ≡ 64
    → d.packet_size_factor ≡ 1016
    → n ≤ 76800
    → n ≢ tight
    → bundle_bytes d (2 * n) ≢ estimate d (2 * n)
unfolding required_tickets
tickets_lem d n m f b t = elim (Bool-cases (rle_of d)) [
  | inl r ↦ simp (m, f, r) (round_rle n _ _ b t refl refl)
  | inr r ↦ simp (m, f, r) (round_plain n _)
]

-- On the display that the driver is made for, whose pool is usable, and for a rectangle of the screen
-- with pixels of 16 bits: the call neither meets a `BUG_ON` nor runs out of fuel, whatever the bus
-- answers.
pub display_safe :
    (usb_submit_urb : ℕ → Submit) (garbage : ℕ → ℕ) (memory : ℤ → ℕ) (a : Area) (clear_dirty : Bool)
    (d : Device)
    → IsUsable d
    → d.disp_out_ep_max_size ≡ 64
    → d.packet_size_factor ≡ 1016
    → IsOnScreen a
    → All IsPixel (image_pixels memory a)
    → let result = rpusbdisp_usb_try_send_image usb_submit_urb garbage memory a clear_dirty d in
      (result ≢ bug) × (result ≢ stuck)
display_safe usb_submit_urb garbage memory a clear_dirty d u m f s h =
    let n = (s.high + 1) * (s.wide + 1) in
    let w : s.wide ≤ 319 = omega (arith, s.columns) in
    let l : s.high ≤ 239 = omega (arith, s.lines) in
    try_send_image_safe usb_submit_urb garbage memory a clear_dirty d u h
      (size_lem a s ∙ ap (λ k. 2 * k) (sym (pixels_lem memory a s)))
      (subst (λ k. bundle_bytes d k ≢ estimate d k) (sym (size_lem a s))
        (tickets_lem d n m f (area_bound s.wide s.high w l) (tight_lem s.wide s.high w l)))
