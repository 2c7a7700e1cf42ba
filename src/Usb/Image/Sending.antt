-- ===== src/Usb/Image/Sending.antt =====
-- The part of `rpusbdisp_usb_try_send_image` of usbhandlers.c that runs with the tickets in hand: the
-- command header, the pixels, the last packet.
use rpusbdisp.Common.{
  ℕ, suc, ◌+◌, ◌-◌, ◌*◌, ◌/◌, ◌<◌, ◌≡◌, refl, ◌∙◌, sym, ap, subst, ◌≢◌, Bool, List, ◌∷◌, ◌++◌, drop,
  take, length, if◌then◌else◌, arith, All, All-left, take-append-drop, flat_map, append_assoc, leb,
}
use rpusbdisp.Common.Res.{ok, bug, stuck}
use rpusbdisp.Protocol.{feature_rle_fwversion}
use rpusbdisp.Usb.Device.{Device, Submit}
use rpusbdisp.Usb.Rle.Decode.{IsPixel}
use rpusbdisp.Usb.Bitblt.{Encoder, first_context, bitblt_encode_command_header}
use rpusbdisp.Usb.Bitblt.Bytes.{put_bytes}
use rpusbdisp.Usb.Bitblt.Packets.{payload}
use rpusbdisp.Usb.Bitblt.Framing.{IsFramed, delivered}
use rpusbdisp.Usb.Bitblt.Capacity.{capacity, put_bytes-Spends}
use rpusbdisp.Usb.Image.{Area, finish_image, send_encoded}
use rpusbdisp.Usb.Image.Start.{IsReady, header_payload, started, started-payload, started-IsFramed}
use rpusbdisp.Usb.Image.Begin.{IsUsable, sold, started-capacity}
use rpusbdisp.Usb.Image.Delivery.{
  Payload, encode_pixels-Sends, transfer-put, finish_delivers, finish_safe,
}

abbrev pub rle_of : Device → Bool
rle_of d = leb feature_rle_fwversion d.device_fwver

-- What the display has read before, the rectangle, and a payload that holds the pixels.
pub record IsDelivered (d d' : Device) (a : Area) (ps : List ℕ) : Type 0 where
  pub body : Payload (rle_of d) ps
  pub received :
      flat_map (payload d.disp_out_ep_max_size 0) d'.wire
      ≡ flat_map (payload d.disp_out_ep_max_size 0) d.wire
        ++ (header_payload a.x a.y a.right a.bottom ++ body.stream)

pub sold-IsReady :
    (d : Device) (n t : ℕ) (ts : List ℕ)
    → IsUsable d
    → take n d.tickets ≡ t ∷ ts
    → IsReady (sold d n) (t ∷ ts)
sold-IsReady d n t ts u e = record {
  sized = u.sized;
  wide = u.wide;
  packets = u.packets;
  full_size = subst (All Full) e (
      All-left Full (take n d.tickets) (drop n d.tickets)
        (subst (All Full) (sym (take-append-drop n d.tickets)) u.full_size));
}
  where
    Full : ℕ → Type 0
    Full t = d.transfer_buffer_length t ≡ d.packet_size_factor * d.disp_out_ep_max_size

module _ (usb_submit_urb : ℕ → Submit) (garbage : ℕ → ℕ) (a : Area) (clear_dirty : Bool)
    (ps : List ℕ) (h : All IsPixel ps) where
  -- A bundle was sold: what the encoder sends from its start.
  pub record Run (rlemode : Bool) (d : Device) (t : ℕ) (ts : List ℕ) : Type 0 where
    pub body : Payload rlemode ps
    pub begun : Encoder
    pub framed : IsFramed begun
    pub room :
        capacity begun + 9 ≡ suc (length ts) * (d.packet_size_factor * (d.disp_out_ep_max_size - 1))
    pub sends :
        send_encoded usb_submit_urb garbage ps a clear_dirty (d, first_context rlemode (t ∷ ts))
        ≡ finish_image usb_submit_urb (put_bytes usb_submit_urb body.stream begun)
    pub size : begun.disp_out_ep_max_size ≡ d.disp_out_ep_max_size
    pub before :
        delivered begun
        ≡ flat_map (payload d.disp_out_ep_max_size 0) d.wire
          ++ header_payload a.x a.y a.right a.bottom

  run :
      (rlemode : Bool) (d : Device) (t : ℕ) (ts : List ℕ) → IsReady d (t ∷ ts) → Run rlemode d t ts
  unfolding bitblt_encode_command_header delivered
  run rlemode d t ts r =
      let e = started rlemode d t ts a.x a.y a.right a.bottom clear_dirty in
      let f = started-IsFramed rlemode d t ts a.x a.y a.right a.bottom clear_dirty r in
      let s = encode_pixels-Sends usb_submit_urb garbage ps e f h in
      record {
        body = s.body;
        begun = e;
        framed = f;
        room =
            started-capacity rlemode d t ts a.x a.y a.right a.bottom clear_dirty r.wide r.packets;
        sends =
            ap (finish_image usb_submit_urb)
              (s.sent ∙ transfer-put usb_submit_urb s.body.stream e f);
        size = refl;
        before =
            ap (◌++◌ (flat_map (payload d.disp_out_ep_max_size 0) d.wire))
              (started-payload rlemode d t ts a.x a.y a.right a.bottom clear_dirty r);
      }

  pub run_delivers :
      (d d' : Device) (t : ℕ) (ts : List ℕ) (n : ℕ)
      → IsReady (sold d n) (t ∷ ts)
      → send_encoded usb_submit_urb garbage ps a clear_dirty
          (sold d n, first_context (rle_of d) (t ∷ ts))
        ≡ ok tt d'
      → IsDelivered d d' a ps
  run_delivers d d' t ts n r q =
      let x = run (rle_of d) (sold d n) t ts r in
      let w =
        finish_delivers usb_submit_urb x.body.stream x.begun _ d' x.framed refl (sym x.sends ∙ q) in
      record {
        body = x.body;
        received =
            ap (λ m. flat_map (payload m 0) d'.wire) (sym x.size)
            ∙ w
            ∙ ap (λ l. l ++ x.body.stream) x.before
            ∙ append_assoc (flat_map (payload d.disp_out_ep_max_size 0) d.wire)
                (header_payload a.x a.y a.right a.bottom) x.body.stream;
      }

  pub run_safe :
      (d : Device) (t : ℕ) (ts : List ℕ) (n : ℕ)
      → IsReady (sold d n) (t ∷ ts)
      → 9 + (2 * length ps + (if rle_of d then (length ps + 127) / 128 else 0))
        < suc (length ts) * (d.packet_size_factor * (d.disp_out_ep_max_size - 1))
      → let result =
          send_encoded usb_submit_urb garbage ps a clear_dirty
            (sold d n, first_context (rle_of d) (t ∷ ts)) in
        (result ≢ bug) × (result ≢ stuck)
  run_safe d t ts n r l =
      let x = run (rle_of d) (sold d n) t ts r in
      let s =
        finish_safe usb_submit_urb x.body.stream x.begun _ (omega (arith, x.room, x.body.short, l))
          (put_bytes-Spends usb_submit_urb x.body.stream x.begun x.framed) in
      (λ q. s.0 (sym x.sends ∙ q), λ q. s.1 (sym x.sends ∙ q))
