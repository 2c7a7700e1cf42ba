-- ===== src/Usb/Image/Tickets.antt =====
-- The tickets of a call of `rpusbdisp_usb_try_send_image` of usbhandlers.c.
use rpusbdisp.Common.{
  ℕ, ◌+◌, ◌≡◌, refl, ◌∙◌, sym, ap, ◌≢◌, Bool, List, ◌∷◌, drop, take, arith, All, count,
  count-append, take-append-drop,
}
use rpusbdisp.Common.Int.{ℤ}
use rpusbdisp.Common.Res.{Res, ok, abort, bug, stuck, ok-injective}
use rpusbdisp.Usb.Device.{Device, Submit, accepted, refused}
use rpusbdisp.Usb.Tickets.Ownership.{owned}
use rpusbdisp.Usb.Rle.Decode.{IsPixel}
use rpusbdisp.Usb.Bitblt.{
  Encoder, first_context, bitblt_encoder_init, bitblt_encode_command_header, bitblt_encoder_flush,
}
use rpusbdisp.Usb.Bitblt.Bytes.{put_bytes}
use rpusbdisp.Usb.Bitblt.Framing.{IsFramed}
use rpusbdisp.Usb.Bitblt.Framing.Growth.{put_bytes-Grows}
use rpusbdisp.Usb.Bitblt.Flush.{flushed, flush_aborted, flush_accepted, flush_refused}
use rpusbdisp.Usb.Bitblt.Ownership.{
  holds, Keeps, put_bytes-Keeps, flushed-owned, flush_aborted-owned,
}
use rpusbdisp.Usb.Image.{
  Area, image_size, image_pixels, finish_image, on_device, send_encoded,
  rpusbdisp_usb_try_send_image,
}
use rpusbdisp.Usb.Image.Start.{IsReady, started, started-IsFramed}
use rpusbdisp.Usb.Image.Begin.{IsUsable, Begins, declines, grants, begins, sold}
use rpusbdisp.Usb.Image.Delivery.{encode_pixels-Sends, transfer-put}
use rpusbdisp.Usb.Image.Sending.{rle_of, sold-IsReady}
use rpusbdisp.Usb.Image.Transfer.{encodes}

module _ (usb_submit_urb : ℕ → Submit) where
  flush_owned :
      (e : Encoder) (a : Submit) (d' : Device)
      → IsFramed e
      → usb_submit_urb e.submits ≡ a
      → on_device (bitblt_encoder_flush usb_submit_urb e) ≡ ok tt d'
      → (t : ℕ) → owned t d' ≡ holds t e
  flush_owned e accepted d' f a h t =
      let same : (flushed e).device ≡ d' =
        ok-injective (ap on_device (sym (flush_accepted usb_submit_urb e f.started a)) ∙ h) in
      ap (owned t) (sym same) ∙ flushed-owned e t f
  flush_owned e (refused status) d' f a h t =
      cc (ap on_device (flush_refused usb_submit_urb e status f.started a))

  finish_owned :
      (bytes : List ℕ) (e : Encoder) (r : Res Encoder (Unit {0})) (d' : Device)
      → IsFramed e
      → put_bytes usb_submit_urb bytes e ≡ r
      → Keeps (λ t. holds t e) r
      → finish_image usb_submit_urb r ≡ ok tt d'
      → (t : ℕ) → owned t d' ≡ holds t e
  finish_owned bytes e (ok tt e') d' f q k h t =
      flush_owned e' (usb_submit_urb e'.submits) d'
        (put_bytes-Grows usb_submit_urb bytes e e' f q).framed' refl h t
      ∙ k t
  finish_owned bytes e (abort e') d' f q k h t = cc
  finish_owned bytes e bug d' f q k h t = cc
  finish_owned bytes e stuck d' f q k h t = cc

  -- On an encoder in order, if the bus refuses the last URB, `_bitblt_encoder_flush` fails, and the tickets of the bundle
  -- behind that URB's are in the pool and on the bus no more, each as often as it is among them.
  pub flush_refused_loses :
      (e : Encoder) (status : ℕ)
      → IsFramed e
      → usb_submit_urb e.submits ≡ refused status
      → (e' : Encoder) × (bitblt_encoder_flush usb_submit_urb e ≡ abort e')
        × ((t : ℕ) → owned t e'.device + count t (drop 1 e.current_node) ≡ holds t e)
  flush_refused_loses e status f a = (
    flush_aborted e status,
    flush_refused usb_submit_urb e status f.started a,
    λ t. flush_aborted-owned e status t f,
  )

module _ (usb_submit_urb : ℕ → Submit) (garbage : ℕ → ℕ) (memory : ℤ → ℕ) (a : Area)
    (clear_dirty : Bool) (d : Device) (u : IsUsable d)
    (h : All IsPixel (image_pixels memory a)) where
  run_owned :
      (rlemode : Bool) (n t : ℕ) (ts : List ℕ) (d' : Device)
      → IsReady (sold d n) (t ∷ ts)
      → take n d.tickets ≡ t ∷ ts
      → send_encoded usb_submit_urb garbage
          (image_pixels memory a)
          a
          clear_dirty
          (sold d n, first_context rlemode (t ∷ ts))
        ≡ ok tt d'
      → (v : ℕ) → owned v d' ≡ owned v d
  unfolding bitblt_encode_command_header
  run_owned rlemode n t ts d' r e q v =
      let b = started rlemode (sold d n) t ts a.x a.y a.right a.bottom clear_dirty in
      let f = started-IsFramed rlemode (sold d n) t ts a.x a.y a.right a.bottom clear_dirty r in
      let s = encode_pixels-Sends usb_submit_urb garbage (image_pixels memory a) b f h in
      let sent = s.sent ∙ transfer-put usb_submit_urb s.body.stream b f in
      finish_owned usb_submit_urb s.body.stream b _ d' f refl
        (put_bytes-Keeps usb_submit_urb s.body.stream b f)
        (sym (ap (finish_image usb_submit_urb) sent) ∙ q) v
      ∙ omega (
        arith,
        ap (count v) e,
        ap (count v) (take-append-drop n d.tickets),
        count-append v (take n d.tickets) (drop n d.tickets),
      )

  owned_cases :
      (d' : Device)
      → send_encoded usb_submit_urb garbage
          (image_pixels memory a)
          a
          clear_dirty
          (bitblt_encoder_init d (image_size a) (rle_of d))
        ≡ ok tt d'
      → Begins d (image_size a) (rle_of d)
      → (v : ℕ) → owned v d' ≡ owned v d
  owned_cases d' q (declines e) v =
      cc (ap (send_encoded usb_submit_urb garbage (image_pixels memory a) a clear_dirty) e)
  owned_cases d' q (grants t ts e n i) v =
      run_owned (rle_of d) _ t ts d' (sold-IsReady d _ t ts u e) e
        (sym (ap (send_encoded usb_submit_urb garbage (image_pixels memory a) a clear_dirty) i) ∙ q)
        v

  -- On a usable pool and for pixels of 16 bits: a call that returns 1 for an image that is not empty
  -- leaves every ticket in the pool or on the bus as often as before.
  pub try_send_image_owned :
      (d' : Device)
      → image_size a ≢ 0
      → rpusbdisp_usb_try_send_image usb_submit_urb garbage memory a clear_dirty d ≡ ok tt d'
      → (v : ℕ) → owned v d' ≡ owned v d
  try_send_image_owned d' z q v =
      owned_cases d' (sym (encodes usb_submit_urb garbage memory a clear_dirty d u h z) ∙ q)
        (begins d (image_size a) (rle_of d) u) v
