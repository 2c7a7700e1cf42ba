-- ===== src/Fb/Spec/Sends.antt =====
-- What the sends of usbhandlers.c put on the bus, as messages of Fb.Spec.
use rpusbdisp.Common.{ℕ, ◌≡◌, refl, ◌∙◌, sym, ap, subst, Bool, false, List, [], ◌∷◌, ◌++◌, arith}
use rpusbdisp.Common.Int.{ℤ}
use rpusbdisp.Common.Res.{Res, ok, abort, ok-injective, abort-injective}
use rpusbdisp.Usb.Device.{Device, Submit}
use rpusbdisp.Usb.Commands.Outcome.{
  Outcome, declined, put, rejected, try_copy_area_lem, try_draw_rect_lem,
}
use rpusbdisp.Usb.Image.{rpusbdisp_usb_try_send_image}
use rpusbdisp.Usb.Image.Rule.{Holds, try_send_image-Holds, send_command-Holds}
use rpusbdisp.Usb.Image.Screen.{size_some}
use rpusbdisp.Usb.Image.Sending.{rle_of}
use rpusbdisp.Usb.Image.Transfer.{try_send_image_delivers}
use rpusbdisp.Usb.Image.Wire.{Quiet, Failed, Extends-none, sends-Rule, delivered_urbs}
use rpusbdisp.Usb.Pool.Held.{IsPool}
use rpusbdisp.Usb.Pool.Operations.{pool-IsUsable}
use rpusbdisp.Fb.{
  DirtyRect, Hint, hint_none, hint_bitblt, hint_fillrect, hint_copyarea, is_empty, area_of,
  send_update,
}
use rpusbdisp.Fb.System.{AllPixels}
use rpusbdisp.Fb.System.Bounded.{IsBounded, area-IsOnScreen}
use rpusbdisp.Fb.System.Invariant.{image-All}
use rpusbdisp.Fb.System.Safety.{IsDisplay, display-IsWide}
use rpusbdisp.Fb.Spec.{Message, image, fill, move, torn, message_of, Means}

-- What is on the wire behind a send that succeeded.
abbrev pub Gone : Device → Message → Res Device (Unit {0}) → Type 0
Gone d m r =
    (d' : Device)
    → r ≡ ok tt d'
    → (urbs : List (List ℕ)) × (d'.wire ≡ d.wire ++ urbs)
      × Means d.disp_out_ep_max_size (rle_of d) m urbs

Outcome-Gone :
    {P : List ℕ → Type 0} {a : Submit} (d : Device) (m : Message) (r : Res Device (Unit {0}))
    → ((bytes : List ℕ) → P bytes → Means d.disp_out_ep_max_size (rle_of d) m (bytes ∷ []))
    → Outcome a d P r
    → Gone d m r
Outcome-Gone d m r k (declined e q) d' h = cc
Outcome-Gone d m r k (put d₁ bytes s p q w o) d' h =
    (bytes ∷ [], ap (λ (x : Device). x.wire) (sym (ok-injective (sym q ∙ h))) ∙ w, k bytes p)
Outcome-Gone d m r k (rejected d₁ status s q w o f) d' h = cc

-- A command that fails has put nothing on the wire.
abbrev pub Untouched : Message → Device → Device → Type 0
Untouched (image a ps) d d' = Unit
Untouched (fill f) d d' = d'.wire ≡ d.wire
Untouched (move c) d d' = d'.wire ≡ d.wire
Untouched torn d d' = d'.wire ≡ d.wire

abbrev pub Unsent : Device → Message → Res Device (Unit {0}) → Type 0
Unsent d m r = (d' : Device) → r ≡ abort d' → Untouched m d d'

Outcome-untouched :
    {P : List ℕ → Type 0} {a : Submit} (d d' : Device) (r : Res Device (Unit {0}))
    → Outcome a d P r
    → r ≡ abort d'
    → d'.wire ≡ d.wire
Outcome-untouched d d' r (declined e q) h =
    ap (λ (x : Device). x.wire) (sym (abort-injective (sym q ∙ h)))
Outcome-untouched d d' r (put d₁ bytes s p q w o) h = cc
Outcome-untouched d d' r (rejected d₁ status s q w o f) h =
    ap (λ (x : Device). x.wire) (sym (abort-injective (sym q ∙ h))) ∙ w

module _ (usb_submit_urb : ℕ → Submit) (garbage : ℕ → ℕ) (memory : ℤ → ℕ)
    (k : AllPixels memory) where
  image_Gone :
      (rect : DirtyRect) (clear_dirty : Bool) (d : Device)
      → IsDisplay d
      → IsPool d
      → IsBounded rect
      → is_empty rect ≡ false
      → Gone d
          (message_of memory hint_none rect)
          (rpusbdisp_usb_try_send_image usb_submit_urb garbage memory (area_of rect) clear_dirty d)
  image_Gone rect clear_dirty d s h b e d' q =
      let a = area_of rect in
      let u = pool-IsUsable d (display-IsWide d s) h in
      let v =
        try_send_image_delivers usb_submit_urb garbage memory a clear_dirty d u
          (image-All memory a k) d' (size_some a (area-IsOnScreen rect b e)) q in
      let t = subst (Holds (Quiet d.wire d.unsync_flag) (Failed d.wire d.unsync_flag)) q (
        try_send_image-Holds _ _ (sends-Rule d.wire d.unsync_flag) usb_submit_urb garbage memory a
          clear_dirty d u (image-All memory a k)
          (record { wire_grows = Extends-none d.wire; flag = refl })) in
      (t.wire_grows.0, t.wire_grows.1, delivered_urbs d d' a _ t.wire_grows.0 t.wire_grows.1 v)

  pub send_Gone :
      (hint : Hint) (rect : DirtyRect) (clear_dirty : Bool) (d : Device)
      → IsDisplay d
      → IsPool d
      → IsBounded rect
      → is_empty rect ≡ false
      → Gone d
          (message_of memory hint rect)
          (send_update usb_submit_urb garbage memory hint rect clear_dirty d)
  unfolding send_update
  send_Gone hint_none rect clear_dirty d s h b e = image_Gone rect clear_dirty d s h b e
  send_Gone hint_bitblt rect clear_dirty d s h b e = image_Gone rect clear_dirty d s h b e
  send_Gone (hint_fillrect f) rect clear_dirty d s h b e =
      Outcome-Gone d (message_of memory (hint_fillrect f) rect) _ (λ bytes q. ap (λ x. x ∷ []) q)
        (try_draw_rect_lem usb_submit_urb d _ _ _ _ _ _ h.counted (omega (arith, s.packet)))
  send_Gone (hint_copyarea c) rect clear_dirty d s h b e =
      Outcome-Gone d (message_of memory (hint_copyarea c) rect) _
        (λ bytes q. (q.0, ap (λ x. x ∷ []) q.1))
        (try_copy_area_lem usb_submit_urb d _ _ _ _ _ _ h.counted (omega (arith, s.packet)))

  pub send_Unsent :
      (hint : Hint) (rect : DirtyRect) (clear_dirty : Bool) (d : Device)
      → IsDisplay d
      → IsPool d
      → Unsent d
          (message_of memory hint rect)
          (send_update usb_submit_urb garbage memory hint rect clear_dirty d)
  unfolding send_update
  send_Unsent hint_none rect clear_dirty d s h d' q = tt
  send_Unsent hint_bitblt rect clear_dirty d s h d' q = tt
  send_Unsent (hint_fillrect f) rect clear_dirty d s h d' q =
      Outcome-untouched d d' _
        (try_draw_rect_lem usb_submit_urb d _ _ _ _ _ _ h.counted (omega (arith, s.packet))) q
  send_Unsent (hint_copyarea c) rect clear_dirty d s h d' q =
      Outcome-untouched d d' _
        (try_copy_area_lem usb_submit_urb d _ _ _ _ _ _ h.counted (omega (arith, s.packet))) q

  pub send_Holds :
      (hint : Hint) (rect : DirtyRect) (clear_dirty : Bool) (d : Device)
      → IsDisplay d
      → IsPool d
      → Holds
          (Quiet d.wire d.unsync_flag)
          (Failed d.wire d.unsync_flag)
          (send_update usb_submit_urb garbage memory hint rect clear_dirty d)
  unfolding send_update rpusbdisp.Usb.Commands.rpusbdisp_usb_try_copy_area
      rpusbdisp.Usb.Commands.rpusbdisp_usb_try_draw_rect
  send_Holds (hint_fillrect f) rect clear_dirty d s h =
      send_command-Holds _ _ (sends-Rule d.wire d.unsync_flag) usb_submit_urb _ _ _ d
        (record { wire_grows = Extends-none d.wire; flag = refl })
  send_Holds (hint_copyarea c) rect clear_dirty d s h =
      send_command-Holds _ _ (sends-Rule d.wire d.unsync_flag) usb_submit_urb _ _ _ d
        (record { wire_grows = Extends-none d.wire; flag = refl })
  send_Holds hint_none rect clear_dirty d s h =
      try_send_image-Holds _ _ (sends-Rule d.wire d.unsync_flag) usb_submit_urb garbage memory
        (area_of rect) clear_dirty d (pool-IsUsable d (display-IsWide d s) h)
        (image-All memory (area_of rect) k)
        (record { wire_grows = Extends-none d.wire; flag = refl })
  send_Holds hint_bitblt rect clear_dirty d s h =
      try_send_image-Holds _ _ (sends-Rule d.wire d.unsync_flag) usb_submit_urb garbage memory
        (area_of rect) clear_dirty d (pool-IsUsable d (display-IsWide d s) h)
        (image-All memory (area_of rect) k)
        (record { wire_grows = Extends-none d.wire; flag = refl })
