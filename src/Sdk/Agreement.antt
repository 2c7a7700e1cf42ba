-- ===== src/Sdk/Agreement.antt =====
-- The same picture, sent by the Linux driver (usbhandlers.c) and by the user-mode SDK (rpusbdisp.cc).
use rpusbdisp.Common.{
  ℕ, ◌*◌, ◌≤◌, ◌<◌, ◌^◌, ◌≡◌, ◌≢◌, refl, ◌∙◌, ap, sym, subst, Bool, true, false, List, ◌∷◌, [],
  ◌++◌, take, drop, if◌then◌else◌, All, flat_map, leb, inl, inr, arith, Bool-cases, if_yes,
}
use rpusbdisp.Common.Int.{ℤ, pos, ◌+ℤ◌, ◌-ℤ◌}
use rpusbdisp.Common.Memory.{read}
use rpusbdisp.Common.Res.{ok}
use rpusbdisp.Protocol.{le16, le16_int, bitblt_cmd, operation_copy}
use rpusbdisp.Usb.Device.{Device, Submit}
use rpusbdisp.Usb.Rle.Decode.{IsPixel, decoded, header}
use rpusbdisp.Usb.Bitblt.Packets.{payload}
use rpusbdisp.Usb.Image.{Area, image_size, image_pixels, rpusbdisp_usb_try_send_image}
use rpusbdisp.Usb.Image.Start.{header_payload}
use rpusbdisp.Usb.Image.Begin.{IsUsable}
use rpusbdisp.Usb.Image.Delivery.{Payload}
use rpusbdisp.Usb.Image.Sending.{rle_of}
use rpusbdisp.Usb.Image.Transfer.{try_send_image_delivers}
use rpusbdisp.Sdk.Device.{TransferAnswer, Display, returns, crashes, bitblt}
use rpusbdisp.Sdk.Device.Sending.{Means, shows, image, image_fields, is_new, IsSized, Ends, Sent}
use rpusbdisp.Sdk.Device.Sending.Calls.{bitblt_lem}

-- How a display reads the content of an image command: the rectangle with the operation, and the
-- pixels, from their sections if it has the run-length encoding.
abbrev pub shown : Bool → List ℕ → List ℕ × List ℕ
shown recent content =
    (take 9 content, if recent then decoded header (drop 9 content) else drop 9 content)

-- Two payloads of the same pixels are read alike.
body_lem :
    (recent recent' : Bool) (ps ps' : List ℕ) (a : Payload recent ps) (b : Payload recent' ps')
    → recent' ≡ recent
    → ps ≡ ps'
    → (if recent then decoded header a.stream else a.stream)
      ≡ (if recent then decoded header b.stream else b.stream)
body_lem true recent' ps ps' a b e f = (a.reads refl).gives ∙ f ∙ sym (b.reads e).gives
body_lem false recent' ps ps' a b e f = a.plain refl ∙ ap (flat_map le16) f ∙ sym (b.plain e)

fields_lem :
    (left top wide high : ℤ) (x y width height : ℕ)
    → left ≡ pos x
    → top ≡ pos y
    → wide ≡ pos width
    → high ≡ pos height
    → le16_int left ++ le16_int top ++ le16_int wide ++ le16_int high ++ operation_copy ∷ []
      ≡ image_fields x y width height operation_copy
fields_lem left top wide high x y width height p q r s = rw (p, q, r, s)

Means-image :
    {recent : Bool} {x y width height operation : ℕ} {ps : List ℕ} {cmd : ℕ} {content : List ℕ}
    → Means recent (image x y width height operation ps) cmd content
    → (body : Payload recent ps) × (content
        ≡ image_fields x y width height operation ++ body.stream)
      × (cmd ≡ bitblt_cmd recent)
Means-image (shows x y width height operation ps content body e) = (body, e, refl)

-- The place of the driver's rectangle, as the SDK is given it.
pub record IsPlace (a : Area) (x y width height : ℕ) : Type 0 where
  pub left : a.x ≡ pos x
  pub top : a.y ≡ pos y
  pub wide : a.right +ℤ pos 1 -ℤ a.x ≡ pos width
  pub high : a.bottom +ℤ pos 1 -ℤ a.y ≡ pos height

-- What both have sent behind what was there before, without the packet headers.
pub record Agrees (d d' : Device) (s s' : Display) : Type 0 where
  pub by_driver : List ℕ
  pub by_sdk : List ℕ
  pub bytes : List ℕ
  pub driver_sent :
      flat_map (payload d.disp_out_ep_max_size 0) d'.wire
      ≡ flat_map (payload d.disp_out_ep_max_size 0) d.wire ++ by_driver
  pub sdk_sent : s'.wire ≡ s.wire ++ bytes ∷ []
  pub sdk_content : payload s.max_packet_size 0 bytes ≡ by_sdk
  pub alike : shown (rle_of d) by_driver ≡ shown (rle_of d) by_sdk

-- A call that returns has not overflowed.
bitblt_fits :
    (libusb : ℕ → TransferAnswer) (malloc : ℕ → ℕ → ℕ) (x y width height : ℕ) (buffer : ℕ → ℕ)
    (s s' : Display)
    → bitblt libusb malloc x y width height operation_copy buffer s ≡ returns s'
    → width * height * 2 < 2 ^ 31
unfolding bitblt
bitblt_fits libusb malloc x y width height buffer s s' h =
    elim (Bool-cases (leb (2 ^ 31) (width * height * 2))) [
      | inr fits ↦ ground (arith, fits)
      | inl over ↦ absurd (crashes_not s' (sym (if_yes _ _ _ over) ∙ h))
    ]
  where
    crashes_not : (d : Display) → ¬ (crashes ≡ returns d)
    crashes_not d e = cc

-- On a usable pool, for the same rectangle, the same pixels of 16 bits, at least one, and firmwares that
-- both have the run-length encoding or both do not: when `rpusbdisp_usb_try_send_image` of the driver
-- returns 1 and `bitblt` of the SDK returns, the display reads the same from what each has sent: the
-- command's fields and the pixels.
pub bitblt-Agrees :
    (usb_submit_urb : ℕ → Submit) (garbage : ℕ → ℕ) (memory : ℤ → ℕ) (a : Area) (clear_dirty : Bool)
    (d d' : Device) (libusb : ℕ → TransferAnswer) (malloc : ℕ → ℕ → ℕ) (x y width height : ℕ)
    (buffer : ℕ → ℕ) (s s' : Display)
    → IsUsable d
    → IsSized s
    → IsPlace a x y width height
    → image_pixels memory a ≡ read (width * height) buffer
    → is_new s ≡ rle_of d
    → image_size a ≢ 0
    → 1 ≤ width * height
    → width * height < 2 ^ 32
    → All IsPixel (read (width * height) buffer)
    → rpusbdisp_usb_try_send_image usb_submit_urb garbage memory a clear_dirty d ≡ ok tt d'
    → bitblt libusb malloc x y width height operation_copy buffer s ≡ returns s'
    → Agrees d d' s s'
bitblt-Agrees usb_submit_urb garbage memory a clear_dirty d d' libusb malloc x y width height buffer
      s s' u z p same new some_size lo hi pixels driver sdk =
    let ps = read (width * height) buffer in
    let all : All IsPixel (image_pixels memory a) = rw same pixels in
    let del =
      try_send_image_delivers usb_submit_urb garbage memory a clear_dirty d u all d' some_size
        driver in
    let fits = bitblt_fits libusb malloc x y width height buffer s s' sdk in
    let ends = bitblt_lem libusb malloc x y width height operation_copy buffer s z lo fits pixels in
    let t : Sent s s' (image x y width height operation_copy ps) =
      (subst (Ends libusb s (image x y width height operation_copy ps)) sdk ends).1 in
    let m = Means-image t.means in
    record {
      by_driver = header_payload a.x a.y a.right a.bottom ++ del.body.stream;
      by_sdk = t.content;
      bytes = t.bytes;
      driver_sent = del.received;
      sdk_sent = t.appended;
      sdk_content = t.packeted.carries;
      alike =
          ap (λ f. shown (rle_of d) (f ++ del.body.stream))
            (fields_lem a.x a.y _ _ x y width height p.left p.top p.wide p.high)
          ∙ ap (λ v. (image_fields x y width height operation_copy, v))
              (body_lem (rle_of d) (is_new s) (image_pixels memory a) ps del.body m.0 new same)
          ∙ ap (shown (rle_of d)) (sym m.1);
    }
