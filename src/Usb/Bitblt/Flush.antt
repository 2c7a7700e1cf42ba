-- ===== src/Usb/Bitblt/Flush.antt =====
-- `_bitblt_encoder_flush` and `_bitblt_encoder_cleanup` of usbhandlers.c, by the answer of the bus.
use rpusbdisp.Common.{
  ℕ, ◌+◌, ◌*◌, ◌≤◌, ◌≡◌, refl, ◌∙◌, ap, List, [], ◌∷◌, ◌++◌, drop, arith, flat_map, flat_map-append,
  append-nil, ne→==,
}
use rpusbdisp.Common.Memory.{update, read, update_self}
use rpusbdisp.Common.Res.{ok, abort}
use rpusbdisp.Usb.Device.{Device, Submit, accepted, refused, take_urb, refuse_urb}
use rpusbdisp.Usb.Tickets.{return_disp_tickets, on_display_transfer_finished}
use rpusbdisp.Usb.Bitblt.{
  Encoder, next_node, return_all, bitblt_encoder_cleanup, bitblt_encoder_flush,
}
use rpusbdisp.Usb.Bitblt.Full.{submit_accepted, submit_refused}
use rpusbdisp.Usb.Bitblt.Packets.{payload}
use rpusbdisp.Usb.Bitblt.Framing.{IsFramed, written, delivered}

-- The last URB with its length, and the node behind it.
abbrev pub last_urb : Encoder → Encoder
last_urb e = next_node (record e {
  device = record e.device {
    transfer_buffer_length =
        update e.transfer_buffer_length e.ticket
          (e.packet_pos * e.disp_out_ep_max_size + e.encoded_pos);
  };
})

abbrev pub flushed : Encoder → Encoder
flushed e =
    bitblt_encoder_cleanup (record (last_urb e) { device = take_urb (last_urb e).device e.ticket })

abbrev pub flush_aborted : Encoder → ℕ → Encoder
flush_aborted e status = record (last_urb e) {
  device = on_display_transfer_finished (refuse_urb (last_urb e).device e.ticket status) e.ticket;
}

module _ (usb_submit_urb : ℕ → Submit) where
  pub flush_accepted :
      (e : Encoder)
      → 1 ≤ e.encoded_pos
      → usb_submit_urb e.submits ≡ accepted
      → bitblt_encoder_flush usb_submit_urb e ≡ ok tt (flushed e)
  unfolding bitblt_encoder_flush
  flush_accepted e h a = rw (
    ne→== (e.packet_pos * e.disp_out_ep_max_size + e.encoded_pos) 0 (omega arith),
    submit_accepted usb_submit_urb (last_urb e) a,
  )

  pub flush_refused :
      (e : Encoder) (status : ℕ)
      → 1 ≤ e.encoded_pos
      → usb_submit_urb e.submits ≡ refused status
      → bitblt_encoder_flush usb_submit_urb e ≡ abort (flush_aborted e status)
  unfolding bitblt_encoder_flush
  flush_refused e status h a = rw (
    ne→== (e.packet_pos * e.disp_out_ep_max_size + e.encoded_pos) 0 (omega arith),
    submit_refused usb_submit_urb (last_urb e) status a,
  )

pub return_all-wire :
    (ts : List ℕ) (d : Device)
    → ((return_all ts d).wire ≡ d.wire)
      × ((return_all ts d).disp_out_ep_max_size ≡ d.disp_out_ep_max_size)
unfolding return_all return_disp_tickets
return_all-wire [] d = (refl, refl)
return_all-wire (t ∷ ts) d = return_all-wire ts (return_disp_tickets d t).0

-- The last URB holds what was written, and nothing more.
pub flushed-delivers :
    (e : Encoder)
    → IsFramed e
    → flat_map (payload e.disp_out_ep_max_size 0) (flushed e).wire ≡ delivered e
unfolding bitblt_encoder_cleanup delivered written
flushed-delivers e f =
    ap (flat_map (payload max 0)) (return_all-wire (drop 1 e.current_node) _).0
    ∙ flat_map-append (payload max 0) e.wire (urb ∷ [])
    ∙ ap (λ w. flat_map (payload max 0) e.wire ++ w)
        (append-nil (payload max 0 urb)
          ∙ ap (λ n. payload max 0 (read n (e.transfer_buffer e.ticket))) length_of)
  where
    max : ℕ
    max = e.disp_out_ep_max_size

    size : ℕ
    size = e.packet_pos * e.disp_out_ep_max_size + e.encoded_pos

    urb : List ℕ
    urb = read (update e.transfer_buffer_length e.ticket size e.ticket) (e.transfer_buffer e.ticket)

    length_of : update e.transfer_buffer_length e.ticket size e.ticket ≡ e.urbbuffer + e.encoded_pos
    length_of = update_self e.transfer_buffer_length e.ticket size ∙ omega (arith, f.aligned)
