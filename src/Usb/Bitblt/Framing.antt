-- ===== src/Usb/Bitblt/Framing.antt =====
-- The encoder of usbhandlers.c frames its payload: what the device reads is what was handed over.
pub mod Growth
use rpusbdisp.Common.{
  ℕ, ◌+◌, ◌*◌, ◌^◌, ◌≤◌, ◌<◌, ◌≡◌, refl, ◌∙◌, sym, ap, subst, inl, inr, List, [], ◌∷◌, ◌++◌, drop,
  ◌==◌, arith, Bool-cases, All, flat_map, flat_map-append, eq→==, ne→==, ==→eq, ==→ne, append-nil,
  append_assoc,
}
use rpusbdisp.Common.Memory.{read, write_at, read-write_at, update_self}
use rpusbdisp.Common.Res.{ok, >>=-eq-ok, ok-injective}
use rpusbdisp.Protocol.{bitblt_cmd}
use rpusbdisp.Usb.Device.{Submit}
use rpusbdisp.Usb.Bitblt.{Encoder, copy, packet_header, packet_full}
use rpusbdisp.Usb.Bitblt.Bytes.{IsPacking, put_byte, put_bytes}
use rpusbdisp.Usb.Bitblt.Full.{
  moved, switched, Full, inner, switches, exhausts, refuses, full_cases,
}
use rpusbdisp.Usb.Bitblt.Packets.{payload, place, payload-append, place-append}

-- The bytes of the current URB so far.
unfoldable pub written : Encoder → List ℕ
written e = read (e.urbbuffer + e.encoded_pos) (e.transfer_buffer e.ticket)

-- The payload of all URBs on the bus and of the current one.
unfoldable pub delivered : Encoder → List ℕ
delivered e =
    flat_map (payload e.disp_out_ep_max_size 0) e.wire
    ++ payload e.disp_out_ep_max_size 0 (written e)

pub record IsFramed (e : Encoder) : Type 0 where
  pub packing : IsPacking e
  pub started : 1 ≤ e.encoded_pos
  pub within : e.packet_pos < e.packet_size_factor
  pub aligned : e.urbbuffer ≡ e.packet_pos * e.disp_out_ep_max_size
  pub framed : place e.disp_out_ep_max_size 0 (written e) ≡ e.encoded_pos
  pub node : e.current_node ≡ e.ticket ∷ drop 1 e.current_node
  pub full_size :
      All
        (λ t. e.transfer_buffer_length t ≡ e.packet_size_factor * e.disp_out_ep_max_size)
        e.current_node

written-copy : (bytes : List ℕ) (e : Encoder) → written (copy bytes e) ≡ written e ++ bytes
unfolding written
written-copy bytes e =
    rw
      (update_self e.transfer_buffer e.ticket
        (write_at (e.urbbuffer + e.encoded_pos) bytes (e.transfer_buffer e.ticket)))
      (read-write_at (e.urbbuffer + e.encoded_pos) _ bytes (e.transfer_buffer e.ticket)
        (omega arith))

written-header :
    (e : Encoder)
    → written (packet_header e)
      ≡ read e.urbbuffer (e.transfer_buffer e.ticket) ++ bitblt_cmd e.rlemode ∷ []
unfolding written
written-header e =
    rw
      (update_self e.transfer_buffer e.ticket
        (write_at e.urbbuffer (bitblt_cmd e.rlemode ∷ []) (e.transfer_buffer e.ticket)))
      (read-write_at e.urbbuffer _ (bitblt_cmd e.rlemode ∷ []) (e.transfer_buffer e.ticket)
        (omega arith))

-- A byte behind the header of a packet is payload; the byte at its beginning is not.
payload_byte : (max p b : ℕ) → 1 ≤ p → payload max p (b ∷ []) ≡ b ∷ []
unfolding payload
payload_byte max p b h = rw (ne→== p 0 (omega arith))

payload_header : (max b : ℕ) → payload max 0 (b ∷ []) ≡ []
unfolding payload
payload_header max b = refl

payload_nothing : (max : ℕ) (m : ℕ → ℕ) → payload max 0 (read 0 m) ≡ []
unfolding payload read
payload_nothing max m = refl

place_byte : (max p b : ℕ) → p + 1 < max → place max p (b ∷ []) ≡ p + 1
unfolding place
place_byte max p b h = rw (ne→== (p + 1) max (omega arith))

place_last : (max p b : ℕ) → p + 1 ≡ max → place max p (b ∷ []) ≡ 0
unfolding place
place_last max p b h = rw (eq→== (p + 1) max h)

-- A step that keeps the framing and adds to the payload.
pub record Grows (e e' : Encoder) (bytes : List ℕ) : Type 0 where
  pub framed' : IsFramed e'
  pub grown : delivered e' ≡ delivered e ++ bytes
  pub same_size : e'.disp_out_ep_max_size ≡ e.disp_out_ep_max_size

-- At the beginning of a packet, before its header.
pub record AtPacket (e : Encoder) : Type 0 where
  pub sized : e.disp_out_ep_max_size < 2 ^ 64
  pub wide : 1 < e.disp_out_ep_max_size
  pub within : e.packet_pos < e.packet_size_factor
  pub aligned : e.urbbuffer ≡ e.packet_pos * e.disp_out_ep_max_size
  pub at_start : place e.disp_out_ep_max_size 0 (read e.urbbuffer (e.transfer_buffer e.ticket)) ≡ 0
  pub node : e.current_node ≡ e.ticket ∷ drop 1 e.current_node
  pub full_size :
      All
        (λ t. e.transfer_buffer_length t ≡ e.packet_size_factor * e.disp_out_ep_max_size)
        e.current_node

packet_header-IsFramed : (e : Encoder) → AtPacket e → IsFramed (packet_header e)
packet_header-IsFramed e a = record {
  packing = record { sized = a.sized; wide = a.wide; room = a.wide };
  started = omega arith;
  within = a.within;
  aligned = a.aligned;
  framed =
      ap (place e.disp_out_ep_max_size 0) (written-header e)
      ∙ place-append e.disp_out_ep_max_size 0 (read e.urbbuffer (e.transfer_buffer e.ticket))
          (bitblt_cmd e.rlemode ∷ [])
      ∙ rw a.at_start (place_byte e.disp_out_ep_max_size 0 _ (omega (arith, a.wide)));
  node = a.node;
  full_size = a.full_size;
}

packet_header-payload :
    (e : Encoder)
    → AtPacket e
    → payload e.disp_out_ep_max_size 0 (written (packet_header e))
      ≡ payload e.disp_out_ep_max_size 0 (read e.urbbuffer (e.transfer_buffer e.ticket))
packet_header-payload e a =
    ap (payload e.disp_out_ep_max_size 0) (written-header e)
    ∙ payload-append e.disp_out_ep_max_size 0 (read e.urbbuffer (e.transfer_buffer e.ticket))
        (bitblt_cmd e.rlemode ∷ [])
    ∙ rw (a.at_start, payload_header) (append-nil _)
