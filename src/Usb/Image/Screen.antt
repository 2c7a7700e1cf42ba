-- ===== src/Usb/Image/Screen.antt =====
-- When `rpusbdisp_usb_try_send_image` of usbhandlers.c succeeds on the display that the driver is made
-- for: three tickets are enough for any rectangle of the screen.
use rpusbdisp.Common.{
  ℕ, ◌+◌, ◌*◌, ◌≤◌, ◌≡◌, ◌∙◌, sym, ap, subst, ◌≢◌, inl, inr, Bool, true, arith, All, Bool-cases,
}
use rpusbdisp.Common.Int.{ℤ}
use rpusbdisp.Common.Res.{ok}
use rpusbdisp.Usb.Device.{Device, Submit}
use rpusbdisp.Usb.Rle.Decode.{IsPixel}
use rpusbdisp.Usb.Bitblt.{required_tickets}
use rpusbdisp.Usb.Image.{Area, image_size, image_pixels, rpusbdisp_usb_try_send_image}
use rpusbdisp.Usb.Image.Begin.{IsUsable}
use rpusbdisp.Usb.Image.Sending.{rle_of}
use rpusbdisp.Usb.Image.Transfer.{bundle_bytes, estimate}
use rpusbdisp.Usb.Image.Success.{TakesAll, try_send_image_succeeds}
use rpusbdisp.Usb.Image.Display.{
  IsOnScreen, area_bound, size_lem, pixels_lem, tight_lem, tickets_lem,
}

three_enough :
    (d : Device) (n : ℕ)
    → d.disp_out_ep_max_size ≡ 64
    → d.packet_size_factor ≡ 1016
    → n ≤ 76800
    → required_tickets d (2 * n) (rle_of d) ≤ 3
unfolding required_tickets
three_enough d n m f b = elim (Bool-cases (rle_of d)) [
  | inl r ↦ simp (m, f, r) (omega arith)
  | inr r ↦ simp (m, f, r) (omega arith)
]

pub pixels_bound : (a : Area) (s : IsOnScreen a) → (s.high + 1) * (s.wide + 1) ≤ 76800
pixels_bound a s = area_bound s.wide s.high (omega (arith, s.columns)) (omega (arith, s.lines))

one_pixel : (w h : ℕ) → 2 * ((h + 1) * (w + 1)) ≢ 0
one_pixel w h e = grind arith

pub size_some : (a : Area) → IsOnScreen a → image_size a ≢ 0
size_some a s e = one_pixel s.wide s.high (sym (size_lem a s) ∙ e)

-- On the display that the driver is made for, whose pool is usable and has three tickets, and which is
-- alive, for a rectangle of the screen with pixels of 16 bits: if the bus takes every URB, the call
-- returns 1.
pub display_succeeds :
    (usb_submit_urb : ℕ → Submit) (garbage : ℕ → ℕ) (memory : ℤ → ℕ) (a : Area) (clear_dirty : Bool)
    (d : Device)
    → IsUsable d
    → d.disp_out_ep_max_size ≡ 64
    → d.packet_size_factor ≡ 1016
    → IsOnScreen a
    → All IsPixel (image_pixels memory a)
    → TakesAll usb_submit_urb
    → d.is_alive ≡ true
    → 3 ≤ d.availiable_count
    → (d' : Device) × (rpusbdisp_usb_try_send_image usb_submit_urb garbage memory a clear_dirty d
        ≡ ok tt d')
display_succeeds usb_submit_urb garbage memory a clear_dirty d u m f s h all alive free =
    let n = (s.high + 1) * (s.wide + 1) in
    let few =
      subst (λ k. required_tickets d k (rle_of d) ≤ 3) (sym (size_lem a s))
        (three_enough d n m f (pixels_bound a s)) in
    try_send_image_succeeds usb_submit_urb garbage memory a clear_dirty d u h all (size_some a s)
      (record { alive = alive; free = omega (arith, few, free); few = omega (arith, few) })
      (size_lem a s ∙ ap (λ k. 2 * k) (sym (pixels_lem memory a s)))
      (subst (λ k. bundle_bytes d k ≢ estimate d k) (sym (size_lem a s))
        (tickets_lem d n m f (pixels_bound a s)
          (tight_lem s.wide s.high (omega (arith, s.columns)) (omega (arith, s.lines)))))
