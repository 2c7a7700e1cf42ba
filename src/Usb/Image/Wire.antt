-- ===== src/Usb/Image/Wire.antt =====
-- What the sends of usbhandlers.c put on the bus: URBs are added behind those that were sent before, and
-- the framebuffer is marked as out of step only by a send that fails.
use rpusbdisp.Common.{
  ℕ, ◌≡◌, ◌∙◌, sym, ap, subst, ◌⊎◌, inl, inr, Bool, not, ◌&&◌, ◌==◌, List, [], ◌∷◌, ◌++◌,
  append-nil, append_assoc, arith, Bool-cases, flat_map, flat_map-append,
}
use mathlib.Core.List.{append_cancel_left}
use rpusbdisp.Common.Int.{ℤ, pos}
use rpusbdisp.Usb.Device.{Device, refuse_urb, fbhandler_set_unsync_flag}
use rpusbdisp.Usb.Tickets.{return_disp_tickets, on_display_transfer_finished}
use rpusbdisp.Usb.Bitblt.Packets.{payload}
use rpusbdisp.Usb.Commands.Outcome.{finished_wire}
use rpusbdisp.Usb.Image.{Area}
use rpusbdisp.Usb.Image.Start.{header_payload}
use rpusbdisp.Usb.Image.Delivery.{Payload}
use rpusbdisp.Usb.Image.Sending.{rle_of, IsDelivered}
use rpusbdisp.Usb.Image.Rule.{Rule}

-- URBs were added.
abbrev pub Extends : List (List ℕ) → List (List ℕ) → Type 0
Extends w w' = (urbs : List (List ℕ)) × (w' ≡ w ++ urbs)

pub Extends-none : (w : List (List ℕ)) → Extends w w
Extends-none w = ([], sym (append-nil w))

Extends-more : (w w' : List (List ℕ)) (urb : List ℕ) → Extends w w' → Extends w (w' ++ urb ∷ [])
Extends-more w w' urb (urbs, e) =
    (urbs ++ urb ∷ [], ap (λ v. v ++ urb ∷ []) e ∙ append_assoc w urbs (urb ∷ []))

-- Behind the wire `w` and with the flag `f`; once a send fails the flag may be set.
pub record Quiet (w : List (List ℕ)) (f : ℤ) (d : Device) : Type 0 where
  pub wire_grows : Extends w d.wire
  pub flag : d.unsync_flag ≡ f

pub record Failed (w : List (List ℕ)) (f : ℤ) (d : Device) : Type 0 where
  pub wire_grows : Extends w d.wire
  pub flag : (d.unsync_flag ≡ f) ⊎ (d.unsync_flag ≡ pos 1)

pub finished_flag :
    (d : Device) (t : ℕ)
    → ((on_display_transfer_finished d t).unsync_flag ≡ d.unsync_flag)
      ⊎ ((on_display_transfer_finished d t).unsync_flag ≡ pos 1)
unfolding on_display_transfer_finished fbhandler_set_unsync_flag return_disp_tickets
finished_flag d t = elim (Bool-cases (not (d.urb_status t == 0) && d.is_alive)) [
  | inr quiet ↦ inl (ground arith)
  | inl noisy ↦ elim (Bool-cases d.fb_handle) [
    | inl h ↦ inr (ground arith)
    | inr h ↦ inl (ground arith)
  ]
]

pub sends-Rule : (w : List (List ℕ)) (f : ℤ) → Rule (Quiet w f) (Failed w f)
unfolding return_disp_tickets
sends-Rule w f = record {
  writes = λ d b h. record { wire_grows = h.wire_grows; flag = h.flag };
  sizes = λ d l h. record { wire_grows = h.wire_grows; flag = h.flag };
  sells = λ d n h. record { wire_grows = h.wire_grows; flag = h.flag };
  takes = λ d t h. record { wire_grows = Extends-more w d.wire _ h.wire_grows; flag = h.flag };
  returns = λ d t h. record { wire_grows = h.wire_grows; flag = h.flag };
  declines_too = λ d h. record { wire_grows = h.wire_grows; flag = inl h.flag };
  refuses_urb = λ d t status h. record {
    wire_grows = subst (Extends w) (sym (finished_wire (refuse_urb d t status) t)) h.wire_grows;
    flag = elim (finished_flag (refuse_urb d t status) t) [
      | inl e ↦ inl (e ∙ h.flag)
      | inr e ↦ inr e
    ];
  };
  returns_too = λ d t h. record { wire_grows = h.wire_grows; flag = h.flag };
}

-- URBs that carry a rectangle and its pixels.
pub record CarriesImage (max_size : ℕ) (rlemode : Bool) (a : Area) (ps : List ℕ)
    (urbs : List (List ℕ)) : Type 0 where
  pub body : Payload rlemode ps
  pub whole :
      flat_map (payload max_size 0) urbs ≡ header_payload a.x a.y a.right a.bottom ++ body.stream

-- What was delivered stands in the URBs that were added.
pub delivered_urbs :
    (d d' : Device) (a : Area) (ps : List ℕ) (urbs : List (List ℕ))
    → d'.wire ≡ d.wire ++ urbs
    → IsDelivered d d' a ps
    → CarriesImage d.disp_out_ep_max_size (rle_of d) a ps urbs
delivered_urbs d d' a ps urbs e v = record {
  body = v.body;
  whole = append_cancel_left (flat_map (payload d.disp_out_ep_max_size 0) d.wire) _ _ (
      sym (flat_map-append (payload d.disp_out_ep_max_size 0) d.wire urbs)
      ∙ ap (flat_map (payload d.disp_out_ep_max_size 0)) (sym e)
      ∙ v.received);
}
