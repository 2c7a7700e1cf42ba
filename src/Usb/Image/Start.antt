-- ===== src/Usb/Image/Start.antt =====
-- The encoder of usbhandlers.c when the command header is in its buffer.
use rpusbdisp.Common.{
  ℕ, ◌+◌, ◌*◌, ◌^◌, ◌≤◌, ◌<◌, ◌≡◌, refl, ◌∙◌, ap, Bool, List, [], ◌∷◌, ◌++◌, length, arith, All,
  ne→==,
}
use rpusbdisp.Common.Int.{ℤ, pos, ◌+ℤ◌, ◌-ℤ◌}
use rpusbdisp.Common.Memory.{read, write_at, read-write_at, update_self}
use rpusbdisp.Protocol.{le16_int, bitblt_start_flag, operation_copy}
use rpusbdisp.Usb.Device.{Device}
use rpusbdisp.Usb.Bitblt.{Encoder, bitblt_encode_command_header}
use rpusbdisp.Usb.Bitblt.Packets.{payload, place}
use rpusbdisp.Usb.Bitblt.Framing.{IsFramed, written}

-- Bytes that end within the packet in which they begin.
place_run :
    (max p : ℕ) (bytes : List ℕ) → p + length bytes < max → place max p bytes ≡ p + length bytes
unfolding place
place_run max p [] h = omega arith
place_run max p (b ∷ bytes) h =
    rw (ne→== (p + 1) max (omega arith)) (place_run max (p + 1) bytes (omega arith) ∙ omega arith)

payload_run :
    (max p : ℕ) (bytes : List ℕ) → 1 ≤ p → p + length bytes < max → payload max p bytes ≡ bytes
unfolding payload
payload_run max p [] l h = refl
payload_run max p (b ∷ bytes) l h =
    rw (ne→== p 0 (omega arith), ne→== (p + 1) max (omega arith))
      (ap (◌∷◌ b) (payload_run max (p + 1) bytes (omega arith) (omega arith)))

place_start :
    (max b : ℕ) (bytes : List ℕ)
    → 1 + length bytes < max
    → place max 0 (b ∷ bytes) ≡ 1 + length bytes
unfolding place
place_start max b bytes h = rw (ne→== 1 max (omega arith)) (place_run max 1 bytes h)

payload_start :
    (max b : ℕ) (bytes : List ℕ) → 1 + length bytes < max → payload max 0 (b ∷ bytes) ≡ bytes
unfolding payload
payload_start max b bytes h =
    rw (ne→== 1 max (omega arith)) (payload_run max 1 bytes (omega arith) h)

-- The payload of the first packet's header: the rectangle and the operation.
abbrev pub header_payload : ℤ → ℤ → ℤ → ℤ → List ℕ
header_payload x y right bottom =
    le16_int x
    ++ le16_int y
    ++ le16_int (right +ℤ pos 1 -ℤ x)
    ++ le16_int (bottom +ℤ pos 1 -ℤ y)
    ++ operation_copy ∷ []

pub record IsReady (d : Device) (bundle : List ℕ) : Type 0 where
  pub sized : d.disp_out_ep_max_size < 2 ^ 64
  pub wide : 10 < d.disp_out_ep_max_size
  pub packets : 1 ≤ d.packet_size_factor
  pub full_size :
      All (λ t. d.transfer_buffer_length t ≡ d.packet_size_factor * d.disp_out_ep_max_size) bundle

abbrev pub fresh : Bool → Device → ℕ → List ℕ → Encoder
fresh rlemode d t ts = record {
  context = record {
    current_node = t ∷ ts;
    ticket = t;
    encoded_pos = 0;
    packet_pos = 0;
    urbbuffer = 0;
    rlemode = rlemode;
  };
  device = d;
}

module _ (rlemode : Bool) (d : Device) (t : ℕ) (ts : List ℕ) (x y right bottom : ℤ)
    (clear_dirty : Bool) where
  abbrev pub started : Encoder
  started = bitblt_encode_command_header x y right bottom clear_dirty (fresh rlemode d t ts)

  started-written :
      written started ≡ bitblt_start_flag rlemode clear_dirty ∷ header_payload x y right bottom
  unfolding written bitblt_encode_command_header
  started-written =
      rw
        (update_self d.transfer_buffer t (
          write_at 0 (bitblt_start_flag rlemode clear_dirty ∷ header_payload x y right bottom)
            (d.transfer_buffer t)))
        (read-write_at 0 10
            (bitblt_start_flag rlemode clear_dirty ∷ header_payload x y right bottom)
            (d.transfer_buffer t) refl
          ∙ unfold read in refl)

  pub started-payload :
      IsReady d (t ∷ ts)
      → payload d.disp_out_ep_max_size 0 (written started) ≡ header_payload x y right bottom
  started-payload r =
      ap (payload d.disp_out_ep_max_size 0) started-written
      ∙ payload_start d.disp_out_ep_max_size (bitblt_start_flag rlemode clear_dirty)
          (header_payload x y right bottom) (omega (arith, r.wide))

  pub started-IsFramed : IsReady d (t ∷ ts) → IsFramed started
  unfolding bitblt_encode_command_header
  started-IsFramed r = record {
    packing = record { sized = r.sized; wide = omega (arith, r.wide); room = r.wide };
    started = omega arith;
    within = r.packets;
    aligned = omega arith;
    framed =
        ap (place d.disp_out_ep_max_size 0) started-written
        ∙ place_start d.disp_out_ep_max_size (bitblt_start_flag rlemode clear_dirty)
            (header_payload x y right bottom) (omega (arith, r.wide));
    node = refl;
    full_size = r.full_size;
  }
