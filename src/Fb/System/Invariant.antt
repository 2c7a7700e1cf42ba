-- ===== src/Fb/System/Invariant.antt =====
-- What holds of the framebuffer of fbhandlers.c and its device after any steps.
use rpusbdisp.Common.{ℕ, zero, suc, ◌+◌, ◌≡◌, ◌∙◌, sym, subst, Bool, true, false, All, All-append}
use rpusbdisp.Common.Int.{ℤ, pos, pos_part, ◌+ℤ◌}
use rpusbdisp.Common.Res.{Res, ok, abort, bug, stuck, ok-injective}
use rpusbdisp.Protocol.{sizeof_copyarea_packet, sizeof_fillrect_packet}
use rpusbdisp.Usb.Device.{Device, Submit}
use rpusbdisp.Usb.Rle.Decode.{IsPixel}
use rpusbdisp.Usb.Commands.{rpusbdisp_usb_try_copy_area, rpusbdisp_usb_try_draw_rect}
use rpusbdisp.Usb.Image.{Area, area_width, row_pixels, rows_pixels, image_pixels}
use rpusbdisp.Usb.Pool.Held.{IsPool, Same}
use rpusbdisp.Usb.Pool.Encoding.{Left}
use rpusbdisp.Usb.Pool.Operations.{IsWide, try_send_image-Left, send_command-Left}
use rpusbdisp.Fb.{
  DirtyRect, Fb, Hint, hint_none, hint_bitblt, hint_fillrect, hint_copyarea, full_rect, grow_rect,
  area_of, send_update, after_send, try_update, display_update,
}
use rpusbdisp.Fb.Cases.{
  redrawn, marked, nothing, sends, Try-cases, unbound, refreshes, grows, Update-cases,
}
use rpusbdisp.Fb.System.{IsRegion, AllPixels}
use rpusbdisp.Fb.System.Bounded.{
  IsBounded, flag-IsBounded, clear-IsBounded, full-IsBounded, grow-IsBounded,
}

row-All :
    (memory : ℤ → ℕ) → AllPixels memory → (n : ℕ) (at : ℤ) → All IsPixel (row_pixels memory n at)
unfolding row_pixels
row-All memory k zero at = tt
row-All memory k (suc n) at = (k at, row-All memory k n (at +ℤ pos 1))

rows-All :
    (memory : ℤ → ℕ) (a : Area)
    → AllPixels memory
    → (rows : ℕ) (at : ℤ) → All IsPixel (rows_pixels memory a rows at)
unfolding rows_pixels
rows-All memory a k zero at = tt
rows-All memory a k (suc rows) at =
    All-append IsPixel (row_pixels memory (pos_part (area_width a)) at) _
      (row-All memory k (pos_part (area_width a)) at) (rows-All memory a k rows _)

pub image-All : (memory : ℤ → ℕ) (a : Area) → AllPixels memory → All IsPixel (image_pixels memory a)
unfolding image_pixels
image-All memory a k = rows-All memory a k _ _

module _ (usb_submit_urb : ℕ → Submit) (garbage : ℕ → ℕ) (memory : ℤ → ℕ)
    (k : AllPixels memory) where
  pub send_Left :
      (hint : Hint) (rect : DirtyRect) (clear_dirty : Bool) (d : Device)
      → IsWide d
      → IsPool d
      → Left d (send_update usb_submit_urb garbage memory hint rect clear_dirty d)
  unfolding send_update rpusbdisp_usb_try_copy_area rpusbdisp_usb_try_draw_rect
  send_Left hint_none rect clear_dirty d w h =
      try_send_image-Left usb_submit_urb garbage memory (area_of rect) clear_dirty d w h
        (image-All memory (area_of rect) k)
  send_Left hint_bitblt rect clear_dirty d w h =
      try_send_image-Left usb_submit_urb garbage memory (area_of rect) clear_dirty d w h
        (image-All memory (area_of rect) k)
  send_Left (hint_fillrect f) rect clear_dirty d w h =
      send_command-Left _ sizeof_fillrect_packet sizeof_fillrect_packet d h usb_submit_urb
  send_Left (hint_copyarea c) rect clear_dirty d w h =
      send_command-Left _ sizeof_copyarea_packet (sizeof_copyarea_packet + 1) d h usb_submit_urb

-- The parts of the invariant that a step from `d` keeps.
pub record Sound (d : Device) (p : Fb) : Type 0 where
  pub pool : IsPool p.device
  pub same : Same d p.device
  pub bounded : IsBounded p.dirty_rect

module _ (usb_submit_urb : ℕ → Submit) (garbage : ℕ → ℕ) (memory : ℤ → ℕ) (d : Device) where
  after_Sound :
      (p p' : Fb) (r : Res Device (Unit {0}))
      → Sound d p
      → Left p.device r
      → after_send usb_submit_urb garbage memory p r ≡ ok tt p'
      → Sound d p'
  after_Sound p p' (ok tt e) s l h =
      subst (Sound d) (ok-injective h)
        (record { pool = l.0; same = l.1 ∙ s.same; bounded = clear-IsBounded p.dirty_rect })
  after_Sound p p' (abort e) s l h =
      subst (Sound d) (ok-injective h)
        (record { pool = l.0; same = l.1 ∙ s.same; bounded = s.bounded })
  after_Sound p p' bug s l h = cc
  after_Sound p p' stuck s l h = cc

  module _ (k : AllPixels memory) where
    try_Sound :
        (hint : Hint) (clear_dirty : Bool) (p p' : Fb)
        → IsWide p.device
        → Sound d p
        → try_update usb_submit_urb garbage memory hint clear_dirty p ≡ ok tt p'
        → Sound d p'
    try_Sound hint clear_dirty p p' w s h =
        elim (Try-cases usb_submit_urb garbage memory hint clear_dirty p) [
          | nothing e q ↦ subst (Sound d) {x = p} (ok-injective (sym q ∙ h)) s
          | sends e q ↦
              after_Sound (marked p) p' _
                (record {
                  pool = s.pool;
                  same = s.same;
                  bounded = flag-IsBounded p.dirty_rect s.bounded;
                })
                (send_Left usb_submit_urb garbage memory k hint (marked p).dirty_rect clear_dirty
                  p.device w s.pool)
                (sym q ∙ h)
        ]

    pub update_Sound :
        (p p' : Fb) (x y width height : ℤ) (hint : Hint)
        → IsWide p.device
        → IsRegion x y width height
        → Sound d p
        → display_update usb_submit_urb garbage memory p x y width height hint ≡ ok tt p'
        → Sound d p'
    update_Sound p p' x y width height hint w g s h =
        elim (Update-cases usb_submit_urb garbage memory p x y width height hint) [
          | unbound b q ↦ subst (Sound d) {x = p} (ok-injective (sym q ∙ h)) s
          | refreshes b full q ↦
              try_Sound hint true (redrawn p (full_rect p.dirty_rect)) p'
                (record { sized = w.sized; wide = w.wide; packets = w.packets })
                (record { pool = s.pool; same = s.same; bounded = full-IsBounded p.dirty_rect })
                (sym q ∙ h)
          | grows b grown q ↦
              try_Sound hint false (redrawn p (grow_rect p.dirty_rect x y width height)) p'
                (record { sized = w.sized; wide = w.wide; packets = w.packets })
                (record {
                  pool = s.pool;
                  same = s.same;
                  bounded = grow-IsBounded p.dirty_rect x y width height s.bounded g;
                })
                (sym q ∙ h)
        ]
