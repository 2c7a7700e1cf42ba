-- ===== src/Usb/Image/Transfer.antt =====
-- `rpusbdisp_usb_try_send_image` of usbhandlers.c: what the display receives, and that the call ends
-- without its `BUG_ON`.
use rpusbdisp.Common.{
  ℕ, suc, ◌+◌, ◌-◌, ◌*◌, ◌/◌, ◌≤◌, ◌<◌, ◌≡◌, ◌∙◌, sym, ap, subst, ◌≢◌, Bool, true, false, Option,
  length, ◌==◌, if◌then◌else◌, arith, All, ne→==, ==→ne, Bool-cases, inl, inr,
}
use rpusbdisp.Common.Int.{ℤ}
use rpusbdisp.Common.Res.{Res, ok, bug, stuck}
use rpusbdisp.Usb.Device.{Device, Submit}
use rpusbdisp.Usb.Rle.Decode.{IsPixel}
use rpusbdisp.Usb.Bitblt.{Context, required_tickets, bitblt_encoder_init}
use rpusbdisp.Usb.Image.{Area, image_size, image_pixels, send_encoded, rpusbdisp_usb_try_send_image}
use rpusbdisp.Usb.Image.Begin.{IsUsable, Begins, declines, grants, begins, required_enough}
use rpusbdisp.Usb.Image.Sending.{run_delivers, run_safe, IsDelivered, rle_of, sold-IsReady}

-- The payload bytes that `_bitblt_encoder_init` reckons with: the rest of the command header, the
-- pixels, and what RLE may add.
abbrev pub estimate : Device → ℕ → ℕ
estimate d size = 9 + size + (if rle_of d then (size / 2 + 127) / 128 else 0)

-- The payload bytes that the tickets asked for hold.
abbrev pub bundle_bytes : Device → ℕ → ℕ
bundle_bytes d size =
    required_tickets d size (rle_of d) * (d.packet_size_factor * (d.disp_out_ep_max_size - 1))

fits_below :
    (rlemode : Bool) (size l b : ℕ)
    → size ≡ 2 * l
    → 9 + size + (if rlemode then (size / 2 + 127) / 128 else 0) ≤ b
    → b ≢ 9 + size + (if rlemode then (size / 2 + 127) / 128 else 0)
    → 9 + (2 * l + (if rlemode then (l + 127) / 128 else 0)) < b
fits_below true size l b e h n = omega arith
fits_below false size l b e h n = omega arith

module _ (usb_submit_urb : ℕ → Submit) (garbage : ℕ → ℕ) (memory : ℤ → ℕ) (a : Area)
    (clear_dirty : Bool) (d : Device) (u : IsUsable d)
    (h : All IsPixel (image_pixels memory a)) where
  abbrev pub result : Res Device (Unit {0})
  result = rpusbdisp_usb_try_send_image usb_submit_urb garbage memory a clear_dirty d

  abbrev pub encoding : Device × Option Context → Res Device (Unit {0})
  encoding = send_encoded usb_submit_urb garbage (image_pixels memory a) a clear_dirty

  pub encodes :
      image_size a ≢ 0 → result ≡ encoding (bitblt_encoder_init d (image_size a) (rle_of d))
  unfolding rpusbdisp_usb_try_send_image
  encodes z = rw (ne→== (image_size a) 0 z)

  empty : (image_size a == 0) ≡ true → result ≡ ok tt d
  unfolding rpusbdisp_usb_try_send_image
  empty z = rw z

  delivers_cases :
      (d' : Device)
      → encoding (bitblt_encoder_init d (image_size a) (rle_of d)) ≡ ok tt d'
      → Begins d (image_size a) (rle_of d)
      → IsDelivered d d' a (image_pixels memory a)
  delivers_cases d' q (declines e) = cc (ap encoding e)
  delivers_cases d' q (grants t ts e n i) =
      run_delivers usb_submit_urb garbage a clear_dirty (image_pixels memory a) h d d' t ts _
        (sold-IsReady d _ t ts u e) (sym (ap encoding i) ∙ q)

  -- On a usable pool and for pixels of 16 bits: when the call returns 1 for an image that is not empty,
  -- the URBs that it put on the bus carry, behind what was there before and with the packet headers
  -- taken away, the rest of the command header and then a payload that holds exactly the pixels of the
  -- rectangle: their bytes, or with RLE sections that are read back as them.
  pub try_send_image_delivers :
      (d' : Device)
      → image_size a ≢ 0
      → result ≡ ok tt d'
      → IsDelivered d d' a (image_pixels memory a)
  try_send_image_delivers d' z q =
      delivers_cases d' (sym (encodes z) ∙ q) (begins d (image_size a) (rle_of d) u)

  -- The most that the header and the pixels take.
  abbrev worst : ℕ
  worst =
      9
      + (2 * length (image_pixels memory a)
          + (if rle_of d then (length (image_pixels memory a) + 127) / 128 else 0))

  safe_cases :
      image_size a ≡ 2 * length (image_pixels memory a)
      → bundle_bytes d (image_size a) ≢ estimate d (image_size a)
      → Begins d (image_size a) (rle_of d)
      → let r = encoding (bitblt_encoder_init d (image_size a) (rle_of d)) in
        (r ≢ bug) × (r ≢ stuck)
  safe_cases s x (declines e) = (λ q. cc (ap encoding e), λ q. cc (ap encoding e))
  safe_cases s x (grants t ts e n i) =
      let k =
        run_safe usb_submit_urb garbage a clear_dirty (image_pixels memory a) h d t ts _
          (sold-IsReady d _ t ts u e) fits in
      (λ q. k.0 (sym (ap encoding i) ∙ q), λ q. k.1 (sym (ap encoding i) ∙ q))
    where
      fits : worst < suc (length ts) * (d.packet_size_factor * (d.disp_out_ep_max_size - 1))
      fits =
          subst (λ b. worst < b)
            (ap (λ k. k * (d.packet_size_factor * (d.disp_out_ep_max_size - 1))) (sym n))
            (fits_below (rle_of d) (image_size a) (length (image_pixels memory a))
              (bundle_bytes d (image_size a)) s
              (required_enough d (image_size a) (rle_of d) u.wide u.packets) x)

  -- On a usable pool, for pixels of 16 bits and a rectangle whose size in bytes does not wrap around:
  -- the call neither meets a `BUG_ON` nor runs out of fuel, whatever the bus answers, if the estimate
  -- of the payload does not fill the tickets that it asks for to the last byte.
  pub try_send_image_safe :
      image_size a ≡ 2 * length (image_pixels memory a)
      → bundle_bytes d (image_size a) ≢ estimate d (image_size a)
      → (result ≢ bug) × (result ≢ stuck)
  try_send_image_safe s x = elim (Bool-cases (image_size a == 0)) [
    | inl z ↦ (λ q. cc (empty z), λ q. cc (empty z))
    | inr z ↦
        let k = safe_cases s x (begins d (image_size a) (rle_of d) u) in
        let e = encodes (==→ne (image_size a) 0 z) in (λ q. k.0 (sym e ∙ q), λ q. k.1 (sym e ∙ q))
  ]
