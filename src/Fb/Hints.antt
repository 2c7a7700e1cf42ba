-- ===== src/Fb/Hints.antt =====
-- The drawing calls of fbhandlers.c that send a command instead of the image: what they clear.
mod Runs
use rpusbdisp.Common.{
  ℕ, ◌%◌, ◌^◌, ◌≡◌, ◌≤◌, refl, ◌∙◌, sym, ap, Bool, true, false, not, ◌||◌, List, [], ◌∷◌, ◌++◌,
  if◌then◌else◌, arith, inl, inr, Bool-cases,
}
use rpusbdisp.Common.Int.{ℤ, pos, ◌-ℤ◌}
use rpusbdisp.Common.Res.{Res, ok, ok-injective}
use rpusbdisp.Protocol.{operation_copy, operation_xor, sizeof_fillrect_packet}
use rpusbdisp.Usb.Device.{Device, Submit}
use rpusbdisp.Usb.Tickets.Ownership.{IsCounted}
use rpusbdisp.Usb.Commands.{fillrect_of, rpusbdisp_usb_try_draw_rect}
use rpusbdisp.Usb.Commands.Outcome.{Outcome, declined, put, rejected, try_draw_rect_lem}
use rpusbdisp.Fb.{
  DirtyRect, Fb, Fillrect, hint_fillrect, to_int, last_of, clear_dirty_rect, grow_rect, full_rect,
  is_empty, is_zero, send_update, after_send, try_update, display_update, display_fillrect,
}
use rpusbdisp.Fb.Cases.{
  redrawn, marked, nothing, sends, Try-cases, unbound, refreshes, grows, Update-cases,
}
use rpusbdisp.Fb.Dirty.{Contains, not_empty}

-- The packet of a fill.
abbrev pub packet_of : Fillrect → List ℕ
packet_of f =
    fillrect_of (to_int f.dx) (to_int f.dy) (to_int (last_of f.dx f.width))
      (to_int (last_of f.dy f.height)) (f.color % 2 ^ 16)
      (if f.rop_xor then operation_xor else operation_copy)

-- A fill that was sent: its packet is all that the wire got, and nothing is dirty.
pub record Filled (f : Fillrect) (p p' : Fb) : Type 0 where
  pub sent : p'.device.wire ≡ p.device.wire ++ packet_of f ∷ []
  pub clean : is_empty p'.dirty_rect ≡ true

module _ (usb_submit_urb : ℕ → Submit) (garbage : ℕ → ℕ) (memory : ℤ → ℕ) (f : Fillrect) where
  after_Filled :
      (p p' : Fb) (r : Res Device (Unit {0}))
      → Outcome (usb_submit_urb p.device.submits) p.device (λ bytes. bytes ≡ packet_of f) r
      → ¬ (p'.device.wire ≡ p.device.wire)
      → after_send usb_submit_urb garbage memory p r ≡ ok tt p'
      → Filled f p p'
  unfolding clear_dirty_rect
  after_Filled p p' r (declined n e) w h = absurd (
      w (
        sym (
          ap (λ (x : Fb). x.device.wire)
            (ok-injective (sym (ap (after_send usb_submit_urb garbage memory p) e) ∙ h)))))
  after_Filled p p' r (put d bytes s b e g o) w h =
      let q = ok-injective (sym (ap (after_send usb_submit_urb garbage memory p) e) ∙ h) in
      record {
        sent = sym (ap (λ (x : Fb). x.device.wire) q) ∙ g ∙ ap (λ l. p.device.wire ++ l ∷ []) b;
        clean = sym (ap (λ (x : Fb). is_empty x.dirty_rect) q);
      }
  after_Filled p p' r (rejected d status s e g o m) w h = absurd (
      w (
        sym (
          ap (λ (x : Fb). x.device.wire)
            (ok-injective (sym (ap (after_send usb_submit_urb garbage memory p) e) ∙ h)))
        ∙ g))

  try_Filled :
      (clear_dirty : Bool) (p p' : Fb)
      → IsCounted p.device
      → sizeof_fillrect_packet ≤ p.device.disp_out_ep_max_size
      → ¬ (p'.device.wire ≡ p.device.wire)
      → try_update usb_submit_urb garbage memory (hint_fillrect f) clear_dirty p ≡ ok tt p'
      → Filled f p p'
  unfolding send_update
  try_Filled clear_dirty p p' c s w h =
      elim (Try-cases usb_submit_urb garbage memory (hint_fillrect f) clear_dirty p) [
        | nothing e q ↦ absurd (w (sym (ap (λ (x : Fb). x.device.wire) (ok-injective (sym q ∙ h)))))
        | sends e q ↦
            let k =
              after_Filled (marked p) p' _
                (try_draw_rect_lem usb_submit_urb p.device _ _ _ _ _ _ c s) w (sym q ∙ h) in
            record { sent = k.sent; clean = k.clean }
      ]

  -- On a device whose count is that of its pool, and whose packets have room for a fill: if the call puts
  -- anything on the bus, it is the packet of the fill only; and then nothing is dirty any more, whatever
  -- was dirty before, and although the display may have been out of step.
  pub display_fillrect-Filled :
      (p p' : Fb)
      → IsCounted p.device
      → sizeof_fillrect_packet ≤ p.device.disp_out_ep_max_size
      → ¬ (p'.device.wire ≡ p.device.wire)
      → display_fillrect usb_submit_urb garbage memory p f ≡ ok tt p'
      → Filled f p p'
  unfolding display_fillrect
  display_fillrect-Filled p p' c s w h =
      elim (Update-cases usb_submit_urb garbage memory p (to_int f.dx) (to_int f.dy)
        (to_int f.width) (to_int f.height) (hint_fillrect f)) [
          | unbound u q ↦
              absurd (w (sym (ap (λ (x : Fb). x.device.wire) (ok-injective (sym q ∙ h)))))
          | refreshes u full q ↦
              let k = try_Filled true (redrawn p (full_rect p.dirty_rect)) p' c s w (sym q ∙ h) in
              record { sent = k.sent; clean = k.clean }
          | grows u grown q ↦
              let k =
                try_Filled false
                  (redrawn p (
                    grow_rect p.dirty_rect (to_int f.dx) (to_int f.dy) (to_int f.width)
                      (to_int f.height)))
                  p' c s w (sym q ∙ h) in
              record { sent = k.sent; clean = k.clean }
        ]
