-- ===== src/Fb/System/Shown.antt =====
-- `_display_update` of fbhandlers.c keeps what it does not send: a pixel that has to be sent stays in the
-- dirty rectangle, or the wire carries it.
use rpusbdisp.Common.{ℕ, ◌≡◌, refl, ◌∙◌, sym, subst, ◌⊎◌, inl, inr, Bool, true, false, ◌+◌, ◌*◌}
use rpusbdisp.Common.Int.{ℤ}
use rpusbdisp.Common.Res.{Res, ok, abort, bug, stuck, ok-injective}
use rpusbdisp.Usb.Device.{Device, Submit}
use rpusbdisp.Usb.Image.Display.{IsOnScreen}
use rpusbdisp.Usb.Image.Rows.{lines_from, image_pixels_lem}
use rpusbdisp.Usb.Image.Screen.{size_some}
use rpusbdisp.Usb.Image.Sending.{IsDelivered}
use rpusbdisp.Usb.Image.Transfer.{try_send_image_delivers}
use rpusbdisp.Usb.Pool.Held.{IsPool}
use rpusbdisp.Usb.Pool.Operations.{pool-IsUsable}
use rpusbdisp.Fb.{
  DirtyRect, Fb, Hint, full_rect, grow_rect, area_of, send_update, after_send, try_update,
  display_update,
}
use rpusbdisp.Fb.Cases.{
  redrawn, marked, nothing, sends, Try-cases, unbound, refreshes, grows, Update-cases,
}
use rpusbdisp.Fb.Dirty.{
  Contains, OnScreen, Pending, IsImage, image_sends, full_covers, grown_covers, not_empty,
}
use rpusbdisp.Fb.System.{IsRegion, AllPixels}
use rpusbdisp.Fb.System.Bounded.{
  IsBounded, area-IsOnScreen, flag-IsBounded, full-IsBounded, grow-IsBounded,
}
use rpusbdisp.Fb.System.Invariant.{image-All}
use rpusbdisp.Fb.System.Safety.{IsDisplay, display-IsWide, IsPool-of}

-- Behind what the wire of `before` carried, that of `after` carries a rectangle of the screen that holds
-- the pixel, with the pixels of its lines.
pub record ShownBy (memory : ℤ → ℕ) (before after : Device) (i j : ℤ) : Type 0 where
  pub rect : DirtyRect
  pub on_screen : IsOnScreen (area_of rect)
  pub contains : Contains rect i j
  pub delivered : IsDelivered before after (area_of rect) (
      lines_from memory
        (on_screen.wide + 1)
        (on_screen.high + 1)
        (on_screen.top * 320 + on_screen.left))

-- A pixel is still dirty, or shown.
abbrev Kept : (ℤ → ℕ) → Device → Fb → ℤ → ℤ → Type 0
Kept memory before p' i j = Contains p'.dirty_rect i j ⊎ ShownBy memory before p'.device i j

module _ (usb_submit_urb : ℕ → Submit) (garbage : ℕ → ℕ) (memory : ℤ → ℕ)
    (k : AllPixels memory) where
  after_keeps :
      (hint : Hint) (clear_dirty : Bool) (p p' : Fb) (i j : ℤ) (r : Res Device (Unit {0}))
      → IsImage hint
      → IsDisplay p.device
      → IsPool p.device
      → IsBounded p.dirty_rect
      → Contains p.dirty_rect i j
      → send_update usb_submit_urb garbage memory hint p.dirty_rect clear_dirty p.device ≡ r
      → after_send usb_submit_urb garbage memory p r ≡ ok tt p'
      → Kept memory p.device p' i j
  after_keeps hint clear_dirty p p' i j (ok tt d) im s h b c e q =
      let a = area_of p.dirty_rect in
      let o = area-IsOnScreen p.dirty_rect b (not_empty p.dirty_rect i j c) in
      subst (λ x. Kept memory p.device x i j) (ok-injective q)
        (inr (record {
          rect = p.dirty_rect;
          on_screen = o;
          contains = c;
          delivered = subst (IsDelivered p.device d a) (image_pixels_lem memory a o refl) (
              try_send_image_delivers usb_submit_urb garbage memory a clear_dirty p.device
                (pool-IsUsable p.device (display-IsWide p.device s) h) (image-All memory a k) d
                (size_some a o)
                (sym (
                    image_sends usb_submit_urb garbage memory hint p.dirty_rect clear_dirty p.device
                      im)
                  ∙ e));
        }))
  after_keeps hint clear_dirty p p' i j (abort d) im s h b c e q =
      subst (λ x. Kept memory p.device x i j) (ok-injective q) (inl c)
  after_keeps hint clear_dirty p p' i j bug im s h b c e q = cc
  after_keeps hint clear_dirty p p' i j stuck im s h b c e q = cc

  try_keeps :
      (hint : Hint) (clear_dirty : Bool) (p p' : Fb) (i j : ℤ)
      → IsImage hint
      → IsDisplay p.device
      → IsPool p.device
      → IsBounded p.dirty_rect
      → Contains p.dirty_rect i j
      → try_update usb_submit_urb garbage memory hint clear_dirty p ≡ ok tt p'
      → Kept memory p.device p' i j
  try_keeps hint clear_dirty p p' i j im s h b c q =
      elim (Try-cases usb_submit_urb garbage memory hint clear_dirty p) [
        | nothing e t ↦ cc (e, not_empty p.dirty_rect i j c)
        | sends e t ↦
            after_keeps hint clear_dirty (marked p) p' i j _ im s h (flag-IsBounded p.dirty_rect b)
              c refl (sym t ∙ q)
      ]

  recounted :
      (p p' : Fb) (r : DirtyRect) (i j : ℤ)
      → Kept memory (redrawn p r).device p' i j
      → Kept memory p.device p' i j
  recounted p p' r i j (inl c) = inl c
  recounted p p' r i j (inr s) = inr (record {
    rect = s.rect;
    on_screen = s.on_screen;
    contains = s.contains;
    delivered = record { body = s.delivered.body; received = s.delivered.received };
  })

  -- On the display that the driver is made for, bound, with a pool and a dirty rectangle as the
  -- invariant has them, and with a hint that sends the image, whatever the bus answers: a pixel of the
  -- screen that is dirty, or lies in the region of the call, or any pixel if the display is out of
  -- step, is in the dirty rectangle after the call; or the wire carries, behind what it carried before,
  -- a rectangle of the screen that holds the pixel, with its pixels.
  pub display_update_keeps :
      (p p' : Fb) (x y width height i j : ℤ) (hint : Hint)
      → IsImage hint
      → IsDisplay p.device
      → IsPool p.device
      → IsBounded p.dirty_rect
      → p.binded_usbdev ≡ true
      → IsRegion x y width height
      → OnScreen i j
      → Pending p x y width height i j
      → display_update usb_submit_urb garbage memory p x y width height hint ≡ ok tt p'
      → Contains p'.dirty_rect i j ⊎ ShownBy memory p.device p'.device i j
  display_update_keeps p p' x y width height i j hint im s h b u g o n q =
      elim (Update-cases usb_submit_urb garbage memory p x y width height hint) [
        | unbound off t ↦ cc (off, u)
        | refreshes on full t ↦
            let r = full_rect p.dirty_rect in
            recounted p p' r i j (
              try_keeps hint true (redrawn p r) p' i j im
                (record { packet = s.packet; packets = s.packets }) (IsPool-of p h)
                (full-IsBounded p.dirty_rect) (full_covers p.dirty_rect i j o) (sym t ∙ q))
        | grows on grown t ↦
            let r = grow_rect p.dirty_rect x y width height in
            recounted p p' r i j (
              try_keeps hint false (redrawn p r) p' i j im
                (record { packet = s.packet; packets = s.packets }) (IsPool-of p h)
                (grow-IsBounded p.dirty_rect x y width height b g)
                (grown_covers p x y width height i j grown n) (sym t ∙ q))
      ]
