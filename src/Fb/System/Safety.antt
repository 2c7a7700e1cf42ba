-- ===== src/Fb/System/Safety.antt =====
-- That `_display_update` of fbhandlers.c meets no `BUG_ON` on the display that the driver is made for,
-- in any state that steps reach.
use rpusbdisp.Common.{
  ℕ, ◌≡◌, refl, ◌∙◌, ap, ◌≢◌, inl, inr, Bool, true, false, List, ◌||◌, not, if◌then◌else◌, arith,
  Bool-cases,
}
use rpusbdisp.Common.Int.{ℤ, pos, ◌-ℤ◌}
use rpusbdisp.Common.Res.{Res, ok, abort, bug, stuck}
use rpusbdisp.Protocol.{default_width, default_height}
use rpusbdisp.Usb.Device.{Device, Submit}
use rpusbdisp.Usb.Commands.Outcome.{
  Outcome, declined, put, rejected, try_copy_area_lem, try_draw_rect_lem,
}
use rpusbdisp.Usb.Image.Display.{display_safe}
use rpusbdisp.Usb.Pool.Held.{IsPool, Same, Fixed}
use rpusbdisp.Usb.Pool.Operations.{IsWide, pool-IsUsable}
use rpusbdisp.Fb.{
  DirtyRect, Fb, Hint, hint_none, hint_bitblt, hint_fillrect, hint_copyarea, full_rect, grow_rect,
  is_empty, is_zero, area_of, send_update, after_send, try_update, display_update,
  fbhandler_on_all_transfer_done,
}
use rpusbdisp.Fb.Cases.{redrawn}
use rpusbdisp.Fb.System.{IsRegion, AllPixels, Reach}
use rpusbdisp.Fb.System.Bounded.{
  IsBounded, area-IsOnScreen, flag-IsBounded, full-IsBounded, grow-IsBounded,
}
use rpusbdisp.Fb.System.Invariant.{image-All}
use rpusbdisp.Fb.System.Reachable.{Inv, whole_screen, Reach-Inv}

abbrev pub IsSafe : {A : Type 0} → Res A (Unit {0}) → Type 0
IsSafe r = (r ≢ bug) × (r ≢ stuck)

if_IsSafe :
    {A : Type 0} {x y : Res A (Unit {0})} (b : Bool)
    → IsSafe x
    → IsSafe y
    → IsSafe (if b then x else y)
if_IsSafe true h k = h
if_IsSafe false h k = k

ok-IsSafe : {A : Type 0} {x : A} → IsSafe (ok tt x)
ok-IsSafe = (λ q. cc, λ q. cc)

Outcome-IsSafe :
    {a : Submit} {d : Device} {P : List ℕ → Type 0} (r : Res Device (Unit {0}))
    → Outcome a d P r
    → IsSafe r
Outcome-IsSafe r (declined e q) = (λ h. cc, λ h. cc)
Outcome-IsSafe r (put d' bytes s p q w o) = (λ h. cc, λ h. cc)
Outcome-IsSafe r (rejected d' status s q w o m) = (λ h. cc, λ h. cc)

-- The display: packets of 64 bytes, 1016 of them in a ticket.
pub record IsDisplay (d : Device) : Type 0 where
  pub packet : d.disp_out_ep_max_size ≡ 64
  pub packets : d.packet_size_factor ≡ 1016

pub display-IsWide : (d : Device) → IsDisplay d → IsWide d
display-IsWide d s = record {
  sized = omega (arith, s.packet);
  wide = omega (arith, s.packet);
  packets = omega (arith, s.packets);
}

pub IsDisplay-of : (d e : Device) → Same d e → IsDisplay d → IsDisplay e
IsDisplay-of d e s k = record {
  packet = ap (λ (g : Fixed). g.max_size) s ∙ k.packet;
  packets = ap (λ (g : Fixed). g.factor) s ∙ k.packets;
}

pub IsPool-of :
    (p : Fb)
    → IsPool p.device
    → IsPool (record p.device { unsync_flag = p.device.unsync_flag -ℤ pos 1 })
IsPool-of p h = record {
  counted = h.counted;
  once = h.once;
  pool_size = h.pool_size;
  bundle_size = tt;
}

module _ (usb_submit_urb : ℕ → Submit) (garbage : ℕ → ℕ) (memory : ℤ → ℕ)
    (k : AllPixels memory) where
  send-IsSafe :
      (hint : Hint) (rect : DirtyRect) (clear_dirty : Bool) (d : Device)
      → IsDisplay d
      → IsPool d
      → IsBounded rect
      → is_empty rect ≡ false
      → IsSafe (send_update usb_submit_urb garbage memory hint rect clear_dirty d)
  unfolding send_update
  send-IsSafe hint_none rect clear_dirty d s h b e =
      display_safe usb_submit_urb garbage memory (area_of rect) clear_dirty d
        (pool-IsUsable d (display-IsWide d s) h) s.packet s.packets (area-IsOnScreen rect b e)
        (image-All memory (area_of rect) k)
  send-IsSafe hint_bitblt rect clear_dirty d s h b e =
      display_safe usb_submit_urb garbage memory (area_of rect) clear_dirty d
        (pool-IsUsable d (display-IsWide d s) h) s.packet s.packets (area-IsOnScreen rect b e)
        (image-All memory (area_of rect) k)
  send-IsSafe (hint_fillrect f) rect clear_dirty d s h b e =
      Outcome-IsSafe _
        (try_draw_rect_lem usb_submit_urb d _ _ _ _ _ _ h.counted (omega (arith, s.packet)))
  send-IsSafe (hint_copyarea c) rect clear_dirty d s h b e =
      Outcome-IsSafe _
        (try_copy_area_lem usb_submit_urb d _ _ _ _ _ _ h.counted (omega (arith, s.packet)))

  after-IsSafe :
      (p : Fb) (r : Res Device (Unit {0}))
      → IsSafe r
      → IsSafe (after_send usb_submit_urb garbage memory p r)
  after-IsSafe p (ok tt d) s = ok-IsSafe
  after-IsSafe p (abort d) s = ok-IsSafe
  after-IsSafe p bug s = absurd (s.0 refl)
  after-IsSafe p stuck s = absurd (s.1 refl)

  try-IsSafe :
      (hint : Hint) (clear_dirty : Bool) (p : Fb)
      → IsDisplay p.device
      → IsPool p.device
      → IsBounded p.dirty_rect
      → IsSafe (try_update usb_submit_urb garbage memory hint clear_dirty p)
  unfolding try_update
  try-IsSafe hint clear_dirty p s h b = elim (Bool-cases (is_empty p.dirty_rect)) [
    | inl e ↦ rw e ok-IsSafe
    | inr e ↦ rw e (
        after-IsSafe (record p { dirty_rect = record p.dirty_rect { dirty_flag = true } }) _
          (send-IsSafe hint (record p.dirty_rect { dirty_flag = true }) clear_dirty p.device s h
            (flag-IsBounded p.dirty_rect b) e))
  ]

  update-IsSafe :
      (p : Fb) (x y width height : ℤ) (hint : Hint)
      → IsDisplay p.device
      → IsRegion x y width height
      → IsPool p.device
      → IsBounded p.dirty_rect
      → IsSafe (display_update usb_submit_urb garbage memory p x y width height hint)
  unfolding display_update
  update-IsSafe p x y width height hint s g h b = if_IsSafe (not p.binded_usbdev) ok-IsSafe (
      if_IsSafe (is_zero (p.device.unsync_flag -ℤ pos 1))
        (try-IsSafe hint true (redrawn p (full_rect p.dirty_rect))
          (record { packet = s.packet; packets = s.packets }) (IsPool-of p h)
          (full-IsBounded p.dirty_rect))
        (try-IsSafe hint false (redrawn p (grow_rect p.dirty_rect x y width height))
          (record { packet = s.packet; packets = s.packets }) (IsPool-of p h)
          (grow-IsBounded p.dirty_rect x y width height b g)))

  work-IsSafe :
      (p : Fb)
      → IsDisplay p.device
      → IsPool p.device
      → IsBounded p.dirty_rect
      → IsSafe (fbhandler_on_all_transfer_done usb_submit_urb garbage memory p)
  unfolding fbhandler_on_all_transfer_done
  work-IsSafe p s h b = if_IsSafe (not p.device.fb_handle) ok-IsSafe (
      if_IsSafe (p.dirty_rect.dirty_flag || is_zero (p.device.unsync_flag -ℤ pos 1))
        (update-IsSafe p (pos 0) (pos 0) (pos default_width) (pos default_height) hint_none s
          whole_screen h b)
        ok-IsSafe)

  -- From a state that satisfies the invariant, on the display that the driver is made for: after any
  -- sequence of drawing calls on regions of the screen, deferred work, completions and status packets,
  -- with any answers of the bus, the next such drawing call and the next deferred work meet no `BUG_ON`
  -- and do not run out of fuel.
  pub Reach-IsSafe :
      (d : Device) (start p : Fb) (x y width height : ℤ) (hint : Hint)
      → IsDisplay d
      → Inv d start
      → Reach start p
      → IsRegion x y width height
      → IsSafe (display_update usb_submit_urb garbage memory p x y width height hint)
        × IsSafe (fbhandler_on_all_transfer_done usb_submit_urb garbage memory p)
  Reach-IsSafe d start p x y width height hint s v r g =
      let i = Reach-Inv d (display-IsWide d s) v r in
      let s' = IsDisplay-of d p.device i.sound.same s in
      (
        update-IsSafe p x y width height hint s' g i.sound.pool i.sound.bounded,
        work-IsSafe p s' i.sound.pool i.sound.bounded,
      )
