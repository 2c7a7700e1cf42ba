-- ===== src/Sdk/Device/Sending.antt =====
-- What the calls of the SDK in rpusbdisp.cc send: the commands that they are, packet by packet as the
-- display reads them.
pub mod Calls
use rpusbdisp.Common.{
  ℕ, ◌+◌, ◌-◌, ◌*◌, ◌/◌, ◌^◌, ◌≤◌, ◌<◌, ◌≡◌, refl, sym, subst, ◌⊎◌, inl, inr, Bool, true, false,
  some, not, List, [], ◌∷◌, ◌++◌, length, ltb, if◌then◌else◌, arith, All, flat_map, ne→==,
  Bool-cases, if_yes, if_no,
}
use rpusbdisp.Common.Int.{pos}
use rpusbdisp.Common.Memory.{read, length-read}
use rpusbdisp.Protocol.{
  le16, le16_int, bitblt_cmd, dispcmd_fill, dispcmd_rect, dispcmd_copy_area, dispcmd_bitblt_rle,
  operation_copy,
}
use rpusbdisp.Usb.Rle.Decode.{IsPixel}
use rpusbdisp.Usb.Image.Delivery.{Payload}
use rpusbdisp.Sdk.Packets.Reading.{IsPacketed, transfer_bytes-IsPacketed}
use rpusbdisp.Sdk.Rle.{rle_compress}
use rpusbdisp.Sdk.Rle.RoundTrip.{rle_compress-Reads}
use rpusbdisp.Sdk.Rle.Size.{rle_compress_fits}
use rpusbdisp.Usb.Rle.Size.{length-le16}
use rpusbdisp.Sdk.Device.{
  TransferStatus, TransferAnswer, refused, ended, pending, by_status, Display, Result, returns,
  throws, waits, crashes, is_dirty, send_command, fill, fillrect, bitblt, send_bitblt, compressed,
  copy_area, screen_width, screen_height, finish_transfer, unknown, completed, cancelled, error,
  timeout, stall, device_error, overflow,
}

-- What the display is told to do.
pub data Command : Type 0 where
  fill_all : ℕ → Command
  rect : ℕ → ℕ → ℕ → ℕ → ℕ → ℕ → Command
  move : ℕ → ℕ → ℕ → ℕ → ℕ → ℕ → Command
  image : ℕ → ℕ → ℕ → ℕ → ℕ → List ℕ → Command

-- Whether the firmware of a display has the run-length encoding, and the other new features.
abbrev pub is_new : Display → Bool
is_new d = not (ltb d.firmware_version 0x0104)

abbrev pub image_fields : ℕ → ℕ → ℕ → ℕ → ℕ → List ℕ
image_fields x y width height operation =
    le16_int (pos x)
    ++ le16_int (pos y)
    ++ le16_int (pos width)
    ++ le16_int (pos height)
    ++ operation ∷ []

-- The command byte and the content of a command; a copy has one byte more on an old firmware.
pub data Means (recent : Bool) : Command → ℕ → List ℕ → Type 0 where
  fills : (color : ℕ) → Means recent (fill_all color) dispcmd_fill (le16 color)
  draws :
      (left top right bottom color operation : ℕ) (content : List ℕ)
      → content
        ≡ le16_int (pos left)
          ++ le16_int (pos top)
          ++ le16_int (pos right)
          ++ le16_int (pos bottom)
          ++ le16 color
          ++ operation ∷ []
      → Means recent (rect left top right bottom color operation) dispcmd_rect content
  moves :
      (src_x src_y dest_x dest_y width height : ℕ) (more content : List ℕ)
      → length more ≡ (if recent then 0 else 1)
      → content
        ≡ (le16_int (pos src_x)
            ++ le16_int (pos src_y)
            ++ le16_int (pos dest_x)
            ++ le16_int (pos dest_y)
            ++ le16_int (pos width)
            ++ le16_int (pos height))
          ++ more
      → Means recent (move src_x src_y dest_x dest_y width height) dispcmd_copy_area content
  shows :
      (x y width height operation : ℕ) (pixels content : List ℕ) (body : Payload recent pixels)
      → content ≡ image_fields x y width height operation ++ body.stream
      → Means recent (image x y width height operation pixels) (bitblt_cmd recent) content

-- One transfer more, which the display reads as the command `c`; its first packet clears the dirty
-- flag exactly if the last status had it.
pub record Sent (d d' : Display) (c : Command) : Type 0 where
  pub command : ℕ
  pub content : List ℕ
  pub bytes : List ℕ
  pub appended : d'.wire ≡ d.wire ++ bytes ∷ []
  pub packeted : IsPacketed (is_dirty d) d.max_packet_size command content bytes
  pub means : Means (is_new d) c command content

-- What a call leaves alone.
pub record Keeps (d d' : Display) : Type 0 where
  pub status : d'.status ≡ d.status
  pub max_packet_size : d'.max_packet_size ≡ d.max_packet_size
  pub firmware_version : d'.firmware_version ≡ d.firmware_version
  pub working : d'.working ≡ d.working

-- A call of one command returns only with the command sent; after an exception it is sent too, or libusb
-- has refused it with the code of the exception, and nothing is sent. A call that waits has sent it, but
-- the display was not enabled, or the transfer does not end.
abbrev pub Ends : (ℕ → TransferAnswer) → Display → Command → Result → Type 0
Ends libusb d c (returns d') = Keeps d d' × Sent d d' c
Ends libusb d c (throws code d') =
    Keeps d d' × (((d'.wire ≡ d.wire) × (libusb d.transfers ≡ refused code)) ⊎ Sent d d' c)
Ends libusb d c (waits d') =
    Keeps d d' × Sent d d' c × ((d.enabled ≡ false) ⊎ (libusb d.transfers ≡ pending))
Ends libusb d c crashes = ⊥

-- Packets of at least two bytes, and none too long.
pub record IsSized (d : Display) : Type 0 where
  pub at_least : 2 ≤ d.max_packet_size
  pub at_most : d.max_packet_size < 2 ^ 32

module _ (libusb : ℕ → TransferAnswer) (command : ℕ) (content bytes : List ℕ) (d : Display)
    (c : Command) (n : ℕ) (p : IsPacketed (is_dirty d) d.max_packet_size command content bytes)
    (m : Means (is_new d) c command content) where
  Keeps-taken :
      Keeps d
        (record d { allocations = n; transfers = d.transfers + 1; wire = d.wire ++ bytes ∷ [] })
  Keeps-taken = record {
    status = refl;
    max_packet_size = refl;
    firmware_version = refl;
    working = refl;
  }

  Sent-taken :
      Sent d
        (record d { allocations = n; transfers = d.transfers + 1; wire = d.wire ++ bytes ∷ [] })
        c
  Sent-taken = record {
    command = command;
    content = content;
    bytes = bytes;
    appended = refl;
    packeted = p;
    means = m;
  }

  status-Ends :
      (s : TransferStatus)
      → Ends libusb d c (
          by_status s (record d {
            allocations = n;
            transfers = d.transfers + 1;
            wire = d.wire ++ bytes ∷ [];
          }))
  status-Ends completed = (Keeps-taken, Sent-taken)
  status-Ends unknown = (Keeps-taken, inr Sent-taken)
  status-Ends cancelled = (Keeps-taken, inr Sent-taken)
  status-Ends error = (Keeps-taken, inr Sent-taken)
  status-Ends timeout = (Keeps-taken, inr Sent-taken)
  status-Ends stall = (Keeps-taken, inr Sent-taken)
  status-Ends device_error = (Keeps-taken, inr Sent-taken)
  status-Ends overflow = (Keeps-taken, inr Sent-taken)

  finish-Ends :
      (a : TransferAnswer)
      → libusb d.transfers ≡ a
      → Ends libusb d c (finish_transfer a bytes (record d { allocations = n }))
  unfolding finish_transfer
  finish-Ends (refused code) e = (
    record { status = refl; max_packet_size = refl; firmware_version = refl; working = refl },
    inl (refl, e),
  )
  finish-Ends pending e = (Keeps-taken, Sent-taken, inr e)
  finish-Ends (ended s) e = elim (Bool-cases d.enabled) [
    | inl on ↦ subst (Ends libusb d c) (sym (if_yes d.enabled _ _ on)) (status-Ends s)
    | inr off ↦
        subst (Ends libusb d c) (sym (if_no d.enabled _ _ off)) (Keeps-taken, Sent-taken, inl off)
  ]

-- The command that `fill` sends.
abbrev pub fill_of : Display → ℕ → Command
fill_of d color =
    if is_new d
    then fill_all color
    else rect 0 0 (screen_width - 1) (screen_height - 1) color operation_copy

short_lem :
    (recent : Bool) (n l : ℕ)
    → n < 2 ^ 32
    → l ≤ 2 * n + (if recent then (n + 127) / 128 else 0)
    → 9 + l < 2 ^ 62
short_lem true n l h k = omega arith
short_lem false n l h k = omega arith

-- The bytes of the pixels, by the firmware.
compressed_body : (p : ℕ) (ps : List ℕ) → All IsPixel (p ∷ ps) → Payload true (p ∷ ps)
compressed_body p ps a = record {
  stream = rle_compress p ps;
  reads = λ _. rle_compress-Reads p ps a;
  plain = λ e. cc;
  short = omega (arith, rle_compress_fits p ps);
}

plain_body : (ps : List ℕ) → Payload false ps
plain_body ps = record {
  stream = flat_map le16 ps;
  reads = λ e. cc;
  plain = λ _. refl;
  short = omega (arith, length-le16 ps);
}

-- The buffers that were allocated before do not matter.
Keeps-allocated : (d d' : Display) (n : ℕ) → Keeps (record d { allocations = n }) d' → Keeps d d'
Keeps-allocated d d' n k = record {
  status = k.status;
  max_packet_size = k.max_packet_size;
  firmware_version = k.firmware_version;
  working = k.working;
}

Sent-allocated :
    (d d' : Display) (n : ℕ) (c : Command) → Sent (record d { allocations = n }) d' c → Sent d d' c
Sent-allocated d d' n c t = record {
  command = t.command;
  content = t.content;
  bytes = t.bytes;
  appended = t.appended;
  packeted = t.packeted;
  means = t.means;
}

Ends-allocated :
    (libusb : ℕ → TransferAnswer) (d : Display) (n : ℕ) (c : Command) (r : Result)
    → Ends libusb (record d { allocations = n }) c r
    → Ends libusb d c r
Ends-allocated libusb d n c (returns d') (k, t) =
    (Keeps-allocated d d' n k, Sent-allocated d d' n c t)
Ends-allocated libusb d n c (throws code d') (k, inl e) = (Keeps-allocated d d' n k, inl e)
Ends-allocated libusb d n c (throws code d') (k, inr t) =
    (Keeps-allocated d d' n k, inr (Sent-allocated d d' n c t))
Ends-allocated libusb d n c (waits d') (k, t, e) =
    (Keeps-allocated d d' n k, Sent-allocated d d' n c t, e)
Ends-allocated libusb d n c crashes h = h
