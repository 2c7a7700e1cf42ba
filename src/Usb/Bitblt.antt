-- ===== src/Usb/Bitblt.antt =====
-- The bitblt encoder of usbhandlers.c (`struct bitblt_encoding_context_t` and `_bitblt_*`): it packs a
-- command header and the payload into the packets of the bundle's URBs. `current_node` is the list of
-- the bundle's tickets from that node on, and is empty at the list's head; `urbbuffer` is an offset in
-- the ticket's buffer. A refused URB is finished at once, which returns its ticket to the pool.
pub mod Full
pub mod Bytes
pub mod Packets
pub mod Framing
pub mod Capacity
pub mod Flush
pub mod Ownership
use rpusbdisp.Common.{
  ℕ, zero, suc, ◌+◌, ◌-◌, ◌*◌, ◌/◌, ◌%◌, ◌^◌, Bool, true, false, not, ◌&&◌, List, [], ◌∷◌, ◌++◌,
  Option, none, some, take, drop, length, ltb, leb, ◌==◌, if◌then◌else◌,
}
use rpusbdisp.Common.Int.{ℤ, pos, ◌+ℤ◌, ◌-ℤ◌}
use rpusbdisp.Common.Memory.{update, write_at}
use rpusbdisp.Common.Res.{Res, ok, abort, bug, stuck, ◌>>=◌}
use rpusbdisp.Protocol.{
  bitblt_packet, bitblt_cmd, bitblt_start_flag, operation_copy, sizeof_packet_header,
  sizeof_bitblt_packet, max_transfer_tickets_count,
}
use rpusbdisp.Usb.Device.{Device, Submit, accepted, refused, take_urb, refuse_urb}
use rpusbdisp.Usb.Tickets.{sell_disp_tickets, return_disp_tickets, on_display_transfer_finished}

pub record Context : Type 0 where
  pub current_node : List ℕ
  pub ticket : ℕ
  pub encoded_pos : ℕ
  pub packet_pos : ℕ
  pub urbbuffer : ℕ
  pub rlemode : Bool

-- The context and the device that it works on.
pub record Encoder : Type 0 where
  pub context : Context
  pub open context use *
  pub device : Device
  pub open device use *

abbrev pub size_mod : ℕ
size_mod = 2 ^ 64

-- `a - b` in `size_t`.
abbrev pub sub_size : ℕ → ℕ → ℕ
sub_size a b = (a + size_mod - b) % size_mod

-- The tickets that `_bitblt_encoder_init` asks for.
unfoldable pub required_tickets : Device → ℕ → Bool → ℕ
required_tickets d image_size rlemode =
    let plain = sizeof_bitblt_packet - sizeof_packet_header + image_size in
    let payload = if rlemode then plain + (image_size / 2 + 0x7f) / 128 else plain in
    let effective = d.disp_out_ep_max_size - sizeof_packet_header in
    let packet_count = (payload + effective - 1) / effective in
    (packet_count + d.packet_size_factor - 1) / d.packet_size_factor

abbrev pub first_context : Bool → List ℕ → Option Context
first_context rlemode [] = none
first_context rlemode (t ∷ ts) = some (record {
  current_node = t ∷ ts;
  ticket = t;
  encoded_pos = 0;
  packet_pos = 0;
  urbbuffer = 0;
  rlemode = rlemode;
})

abbrev pub sold_context : Bool → Device × Option (List ℕ) → Device × Option Context
sold_context rlemode (d, none) = (d, none)
sold_context rlemode (d, some bundle) = (d, first_context rlemode bundle)

-- `_bitblt_encoder_init`: the device and, unless the C function returns 0, the context. (A bundle is
-- never empty, since no tickets are sold for a count of 0.)
unfoldable pub bitblt_encoder_init : Device → ℕ → Bool → Device × Option Context
bitblt_encoder_init d image_size rlemode =
    let required = required_tickets d image_size rlemode in
    if ltb max_transfer_tickets_count required
    then (d, none)
    else sold_context rlemode (sell_disp_tickets d required)

-- Bytes stored in the ticket's buffer, from `off` on.
abbrev pub store : Encoder → ℕ → List ℕ → Encoder
store e off bytes = record e {
  device = record e.device {
    transfer_buffer =
        update e.transfer_buffer e.ticket (write_at off bytes (e.transfer_buffer e.ticket));
  };
}

-- `_bitblt_encode_command_header`
unfoldable pub bitblt_encode_command_header : ℤ → ℤ → ℤ → ℤ → Bool → Encoder → Encoder
bitblt_encode_command_header x y right bottom clear_dirty e =
    let packet =
      bitblt_packet (bitblt_start_flag e.rlemode clear_dirty) x y (right +ℤ pos 1 -ℤ x)
        (bottom +ℤ pos 1 -ℤ y) operation_copy in
    let stored = store e e.urbbuffer packet in
    record stored { context = record stored.context { encoded_pos = sizeof_bitblt_packet } }

-- `_bitblt_encoder_cleanup`: the tickets from `current_node` on go back to the pool.
unfoldable pub return_all : List ℕ → Device → Device
return_all [] d = d
return_all (t ∷ ts) d = return_all ts ((return_disp_tickets d t).0)

unfoldable pub bitblt_encoder_cleanup : Encoder → Encoder
bitblt_encoder_cleanup e = record e {
  context = record e.context { current_node = [] };
  device = return_all e.current_node e.device;
}

-- The header of a packet that is not the first.
abbrev pub packet_header : Encoder → Encoder
packet_header e =
    let stored = store e e.urbbuffer (bitblt_cmd e.rlemode ∷ []) in
    record stored { context = record stored.context { encoded_pos = sizeof_packet_header } }

-- `memcpy(ctx->urbbuffer + ctx->encoded_pos, …)` and the new `encoded_pos`.
abbrev pub copy : List ℕ → Encoder → Encoder
copy bytes e =
    let stored = store e (e.urbbuffer + e.encoded_pos) bytes in
    record stored { context = record stored.context { encoded_pos = e.encoded_pos + length bytes } }

abbrev pub next_node : Encoder → Encoder
next_node e = record e { context = record e.context { current_node = drop 1 e.current_node } }

-- `BUG_ON(ctx->current_node == &ctx->bundle.ticket_list)`, and the first packet of the next ticket.
abbrev pub new_ticket : Encoder → List ℕ → Res Encoder (Unit {0})
new_ticket e [] = bug
new_ticket e (t ∷ ts) =
    ok tt (record e { context = record e.context { packet_pos = 0; ticket = t; urbbuffer = 0 } })

module _ (usb_submit_urb : ℕ → Submit) where
  -- `if (usb_submit_urb(ctx->ticket->transfer_urb)) { _on_display_transfer_finished(…); return 0; }`
  unfoldable pub submit_ticket : Encoder → Res Encoder (Unit {0})
  submit_ticket e = elim (usb_submit_urb e.submits) [
    | accepted ↦ ok tt (record e { device = take_urb e.device e.ticket })
    | refused status ↦ abort (record e {
      device = on_display_transfer_finished (refuse_urb e.device e.ticket status) e.ticket;
    })
  ]

  -- The current packet is full: go on to the next, in this URB or in the next ticket's.
  unfoldable pub packet_full : Encoder → Res Encoder (Unit {0})
  packet_full e =
      let moved = record e {
        context = record e.context {
          urbbuffer = e.urbbuffer + e.disp_out_ep_max_size;
          packet_pos = e.packet_pos + 1;
        };
      } in
      (if leb e.packet_size_factor (e.packet_pos + 1)
        then (submit_ticket (next_node moved) >>= λ _ e'. new_ticket e' e'.current_node)
        else ok tt moved)
      >>= λ _ e'. ok tt (packet_header e')

  -- The loop of `_bitblt_encode_n_transfer_data`; the list is what `count` counts. `stuck` is the
  -- model's: no fuel is left.
  unfoldable pub transfer_rounds : ℕ → List ℕ → Encoder → Res Encoder (Unit {0})
  transfer_rounds fuel [] e = ok tt e
  transfer_rounds zero (b ∷ bytes) e = stuck
  transfer_rounds (suc fuel) (b ∷ bytes) e =
      let avail = sub_size e.disp_out_ep_max_size e.encoded_pos in
      let size_to_copy = if ltb avail (length (b ∷ bytes)) then avail else length (b ∷ bytes) in
      let copied = copy (take size_to_copy (b ∷ bytes)) e in
      (if avail == size_to_copy then packet_full copied else ok tt copied) >>= λ _ e'.
      transfer_rounds fuel (drop size_to_copy (b ∷ bytes)) e'

  -- `_bitblt_encode_n_transfer_data`
  unfoldable pub bitblt_encode_n_transfer_data : List ℕ → Encoder → Res Encoder (Unit {0})
  bitblt_encode_n_transfer_data bytes e = transfer_rounds (length bytes) bytes e

  -- `_bitblt_encoder_flush`
  unfoldable pub bitblt_encoder_flush : Encoder → Res Encoder (Unit {0})
  bitblt_encoder_flush e =
      let transfer_size = e.packet_pos * e.disp_out_ep_max_size + e.encoded_pos in
      let sized = next_node (record e {
        device = record e.device {
          transfer_buffer_length = update e.transfer_buffer_length e.ticket transfer_size;
        };
      }) in
      (if transfer_size == 0 then ok tt e else submit_ticket sized) >>= λ _ e'.
      ok tt (bitblt_encoder_cleanup e')
