-- ===== src/Sdk/Device/Sending/Calls.antt =====
-- The calls of the SDK in rpusbdisp.cc, one by one: each sends its command.
use rpusbdisp.Common.{
  ℕ, ◌+◌, ◌*◌, ◌^◌, ◌≤◌, ◌<◌, ◌≡◌, refl, sym, subst, inl, inr, Bool, true, false, some, List, [],
  ◌∷◌, ◌++◌, length, ltb, leb, arith, All, ne→==, Bool-cases,
}
use rpusbdisp.Common.Memory.{read, length-read}
use rpusbdisp.Protocol.{
  le16, bitblt_cmd, dispcmd_fill, dispcmd_rect, dispcmd_copy_area, dispcmd_bitblt_rle,
}
use rpusbdisp.Usb.Rle.Decode.{IsPixel}
use rpusbdisp.Usb.Image.Delivery.{Payload}
use rpusbdisp.Sdk.Packets.Reading.{transfer_bytes-IsPacketed}
use rpusbdisp.Sdk.Device.{
  TransferAnswer, Display, is_dirty, send_command, fill, fillrect, bitblt, send_bitblt, compressed,
  copy_area,
}
use rpusbdisp.Sdk.Device.Sending.{
  finish-Ends, rect, fill_all, move, image, fills, draws, moves, shows, Command, Ends,
  Ends-allocated, IsSized, Means, compressed_body, fill_of, image_fields, is_new, plain_body,
  short_lem,
}

module _ (libusb : ℕ → TransferAnswer) (malloc : ℕ → ℕ → ℕ) where
  send_lem :
      (command : ℕ) (fields payload : List ℕ) (d : Display) (c : Command)
      → IsSized d
      → length fields + length payload < 2 ^ 62
      → Means (is_new d) c command (fields ++ payload)
      → Ends libusb d c (send_command libusb malloc (command ∷ fields) payload d)
  unfolding send_command
  send_lem command fields payload d c s l m = rw (ne→== d.max_packet_size 1 (omega arith)) (
      finish-Ends libusb command (fields ++ payload) _ d c (d.allocations + 2)
        (transfer_bytes-IsPacketed (malloc d.allocations) (malloc (d.allocations + 1)) (is_dirty d)
          d.max_packet_size command fields payload s.at_least (omega arith))
        m (libusb d.transfers) refl)

  pub fillrect_lem :
      (left top right bottom color operation : ℕ) (d : Display)
      → IsSized d
      → Ends libusb d
          (rect left top right bottom color operation)
          (fillrect libusb malloc left top right bottom color operation d)
  unfolding fillrect
  fillrect_lem left top right bottom color operation d s =
      send_lem dispcmd_rect _ [] d _ s (omega arith)
        (draws left top right bottom color operation _ refl)

  pub fill_lem :
      (color : ℕ) (d : Display)
      → IsSized d
      → Ends libusb d (fill_of d color) (fill libusb malloc color d)
  unfolding fill
  fill_lem color d s = elim (Bool-cases (ltb d.firmware_version 0x0104)) [
    | inl old ↦ rw old (fillrect_lem 0 0 319 239 color 0 d s)
    | inr new ↦
        rw new
          (send_lem dispcmd_fill (le16 color) [] d (fill_all color) s (omega arith) (fills color))
  ]

  pub copy_area_lem :
      (src_x src_y dest_x dest_y width height : ℕ) (d : Display)
      → IsSized d
      → Ends libusb d
          (move src_x src_y dest_x dest_y width height)
          (copy_area libusb malloc src_x src_y dest_x dest_y width height d)
  unfolding copy_area
  copy_area_lem src_x src_y dest_x dest_y width height d s =
      elim (Bool-cases (ltb d.firmware_version 0x0104)) [
        | inl old ↦
            let d' : Display = record d { allocations = d.allocations + 1 } in
            let s' : IsSized d' = record { at_least = s.at_least; at_most = s.at_most } in
            rw old (
              Ends-allocated libusb d (d.allocations + 1) _ _ (
                send_lem dispcmd_copy_area _ (malloc d.allocations 0 ∷ []) d' _ s' (omega arith) (
                  moves src_x src_y dest_x dest_y width height (malloc d.allocations 0 ∷ []) _
                    (rw old) refl)))
        | inr new ↦ rw new (
            send_lem dispcmd_copy_area _ [] d _ s (omega arith)
              (moves src_x src_y dest_x dest_y width height [] _ (rw new) refl))
      ]

  lt→leb : (n : ℕ) → n < 2 ^ 31 → leb (2 ^ 31) n ≡ false
  lt→leb n h = ground (arith, h)

  bitblt_cases :
      (x y width height operation : ℕ) (pixels : List ℕ) (d : Display) (recent : Bool)
      → IsSized d
      → is_new d ≡ recent
      → length pixels < 2 ^ 32
      → (body : Payload recent pixels)
      → Ends libusb d (image x y width height operation pixels) (
          send_bitblt libusb malloc
            (bitblt_cmd recent)
            x
            y
            width
            height
            operation
            (some body.stream)
            d)
  unfolding send_bitblt
  bitblt_cases x y width height operation pixels d recent s e l body =
      send_lem (bitblt_cmd recent) (image_fields x y width height operation) body.stream d _ s
        (short_lem recent (length pixels) (length body.stream) l body.short)
        (subst
          (λ b.
            Means b (image x y width height operation pixels) (bitblt_cmd recent)
              (image_fields x y width height operation ++ body.stream))
          (sym e) (shows x y width height operation pixels _ body refl))

  new_lem :
      (x y width height operation : ℕ) (pixels : List ℕ) (d : Display)
      → IsSized d
      → is_new d ≡ true
      → 1 ≤ length pixels
      → length pixels < 2 ^ 32
      → All IsPixel pixels
      → Ends libusb d (image x y width height operation pixels) (
          send_bitblt libusb malloc dispcmd_bitblt_rle x y width height operation
            (compressed pixels)
            d)
  unfolding compressed_body
  new_lem x y width height operation [] d s e some_left l a = absurd (omega arith)
  new_lem x y width height operation (p ∷ ps) d s e some_left l a =
      bitblt_cases x y width height operation (p ∷ ps) d true s e l (compressed_body p ps a)

  pub bitblt_lem :
      (x y width height operation : ℕ) (buffer : ℕ → ℕ) (d : Display)
      → IsSized d
      → 1 ≤ width * height
      → width * height * 2 < 2 ^ 31
      → All IsPixel (read (width * height) buffer)
      → Ends libusb d
          (image x y width height operation (read (width * height) buffer))
          (bitblt libusb malloc x y width height operation buffer d)
  unfolding bitblt plain_body
  bitblt_lem x y width height operation buffer d s lo hi a =
      let ps = read (width * height) buffer in
      let len = length-read (width * height) buffer in
      let fits = lt→leb (width * height * 2) hi in
      elim (Bool-cases (ltb d.firmware_version 0x0104)) [
        | inl old ↦
            rw (fits, old)
              (bitblt_cases x y width height operation ps d false s (rw old) (omega (arith, len))
                (plain_body ps))
        | inr new ↦
            rw (fits, new)
              (new_lem x y width height operation ps d s (rw new) (omega (arith, len))
                (omega (arith, len)) a)
      ]
