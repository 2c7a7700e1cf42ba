-- ===== src/Usb/Pool/Operations.antt =====
-- Every operation of usbhandlers.c that takes tickets keeps the pool's invariant, on every branch.
use rpusbdisp.Common.{
  ℕ, ◌*◌, ◌^◌, ◌≤◌, ◌<◌, ◌≡◌, refl, ◌∙◌, sym, ap, subst, inl, inr, Bool, List, [], ◌∷◌, take, ltb,
  ◌==◌, arith, Bool-cases, All, some, count,
}
use rpusbdisp.Common.Int.{ℤ}
use rpusbdisp.Common.Memory.{update, update_ne, update_self}
use rpusbdisp.Common.Res.{ok}
use rpusbdisp.Usb.Device.{Device, Submit, accepted, refused, refuse_urb}
use rpusbdisp.Usb.Tickets.{complete, remove}
use rpusbdisp.Usb.Tickets.Ownership.{remove-count}
use rpusbdisp.Usb.Rle.Decode.{IsPixel}
use rpusbdisp.Usb.Bitblt.{first_context, bitblt_encoder_init, bitblt_encode_command_header}
use rpusbdisp.Usb.Commands.{write_command, submit_command, send_bundle, send_command}
use rpusbdisp.Usb.Image.{
  Area, image_size, image_pixels, send_encoded, finish_image, rpusbdisp_usb_try_send_image,
}
use rpusbdisp.Usb.Image.Start.{started, started-IsFramed}
use rpusbdisp.Usb.Image.Begin.{IsUsable, Begins, declines, grants, begins, sold, sale_cases}
use rpusbdisp.Usb.Image.Delivery.{encode_pixels-Sends, transfer-put}
use rpusbdisp.Usb.Image.Sending.{rle_of, sold-IsReady}
use rpusbdisp.Usb.Pool.Held.{
  HeldBy, IsPool, Held-taken, Held-sold, Held-dropped, sizes_restored, update-AgreesOff,
}
use rpusbdisp.Usb.Pool.Steps.{finished-HeldBy}
use rpusbdisp.Usb.Pool.Encoding.{Left, put_bytes-Encoded, finish-Left}

-- Packets of more than ten bytes, and at least one in a ticket.
pub record IsWide (d : Device) : Type 0 where
  pub sized : d.disp_out_ep_max_size < 2 ^ 64
  pub wide : 10 < d.disp_out_ep_max_size
  pub packets : 1 ≤ d.packet_size_factor

pub pool-IsUsable : (d : Device) → IsWide d → IsPool d → IsUsable d
pool-IsUsable d w h = record {
  sized = w.sized;
  wide = w.wide;
  packets = w.packets;
  counted = h.counted;
  full_size = h.pool_size;
}

module _ (usb_submit_urb : ℕ → Submit) (garbage : ℕ → ℕ) (memory : ℤ → ℕ) (a : Area)
    (clear_dirty : Bool) (d : Device) (w : IsWide d) (h : IsPool d)
    (ps : All IsPixel (image_pixels memory a)) where
  run_Left :
      (n t : ℕ) (ts : List ℕ)
      → take n d.tickets ≡ t ∷ ts
      → Left d (
          send_encoded usb_submit_urb garbage
            (image_pixels memory a)
            a
            clear_dirty
            (sold d n, first_context (rle_of d) (t ∷ ts)))
  unfolding bitblt_encode_command_header
  run_Left n t ts e =
      let r = sold-IsReady d n t ts (pool-IsUsable d w h) e in
      let b = started (rle_of d) (sold d n) t ts a.x a.y a.right a.bottom clear_dirty in
      let f = started-IsFramed (rle_of d) (sold d n) t ts a.x a.y a.right a.bottom clear_dirty r in
      let s = encode_pixels-Sends usb_submit_urb garbage (image_pixels memory a) b f ps in
      let k = subst (HeldBy (sold d n)) e (Held-sold n h) in
      subst (Left d)
        (ap (finish_image usb_submit_urb)
          (sym (s.sent ∙ transfer-put usb_submit_urb s.body.stream b f)))
        (finish-Left usb_submit_urb d s.body.stream b _ f refl
          (put_bytes-Encoded usb_submit_urb d s.body.stream b f (k, refl)))

  begun_Left :
      Begins d (image_size a) (rle_of d)
      → Left d (
          send_encoded usb_submit_urb garbage
            (image_pixels memory a)
            a
            clear_dirty
            (bitblt_encoder_init d (image_size a) (rle_of d)))
  begun_Left (declines e) = rw e (h, refl)
  begun_Left (grants t ts e n i) = rw i (run_Left _ t ts e)

  -- On packets of more than ten bytes and for pixels of 16 bits: whether the image is sent or not, and
  -- whatever the bus answers, the pool's invariant holds afterwards, and the device's parameters are
  -- as before.
  pub try_send_image-Left :
      Left d (rpusbdisp_usb_try_send_image usb_submit_urb garbage memory a clear_dirty d)
  unfolding rpusbdisp_usb_try_send_image
  try_send_image-Left = elim (Bool-cases (image_size a == 0)) [
    | inl z ↦ rw z (h, refl)
    | inr z ↦ rw z (begun_Left (begins d (image_size a) (rle_of d) (pool-IsUsable d w h)))
  ]

module _ (packet : List ℕ) (packet_size transfer_size : ℕ) (d : Device) (h : IsPool d) where
  submit_Left :
      (t : ℕ) (ts : List ℕ) (a : Submit)
      → take 1 d.tickets ≡ t ∷ ts
      → Left d (submit_command a (write_command packet transfer_size (sold d 1) t) t)
  unfolding submit_command
  submit_Left t ts accepted e = (
    Held-dropped (
        Held-taken t (subst (HeldBy (sold d 1)) e (Held-sold 1 h)) _
          (update-AgreesOff t transfer_size d.transfer_buffer_length)),
    refl,
  )
  submit_Left t ts (refused status) e =
      let k =
        finished-HeldBy (refuse_urb (write_command packet transfer_size (sold d 1) t) t status) t ts
          d.transfer_buffer_length (subst (HeldBy (sold d 1)) e (Held-sold 1 h))
          (update-AgreesOff t transfer_size d.transfer_buffer_length) in
      (Held-dropped k.0, k.1)

  module _ (usb_submit_urb : ℕ → Submit) where
    bundle_Left :
        (ts : List ℕ)
        → take 1 d.tickets ≡ ts
        → Left d (send_bundle usb_submit_urb packet packet_size transfer_size (sold d 1, some ts))
    unfolding send_bundle
    bundle_Left [] e = tt
    bundle_Left (t ∷ ts) e = elim (Bool-cases (ltb d.disp_out_ep_max_size packet_size)) [
      | inl small ↦ rw small tt
      | inr wide ↦ rw wide (submit_Left t ts (usb_submit_urb d.submits) e)
    ]

    -- A command of one packet keeps the pool's invariant and the device's parameters.
    pub send_command-Left : Left d (send_command usb_submit_urb packet packet_size transfer_size d)
    unfolding send_bundle
    send_command-Left = elim (sale_cases d 1) [
      | inl none_free ↦ rw none_free (h, refl)
      | inr free ↦ rw free (bundle_Left (take 1 d.tickets) refl)
    ]

-- A completion of a transfer that is on the bus keeps the pool's invariant and the device's parameters.
pub complete-Left :
    (d : Device) (t status : ℕ)
    → IsPool d
    → 1 ≤ count t d.in_flight
    → Left d (ok tt (complete d t (remove t d.in_flight) status))
unfolding complete
complete-Left d t status h l =
    let full = d.packet_size_factor * d.disp_out_ep_max_size in
    finished-HeldBy
      (record d { in_flight = remove t d.in_flight; urb_status = update d.urb_status t status }) t
      [] (update d.transfer_buffer_length t full)
      (record {
        counted = h.counted;
        once = λ u. omega (arith, h.once u, remove-count t u d.in_flight l);
        pool_size = sizes_restored t full d.transfer_buffer_length d.tickets h.pool_size;
        bundle_size = (update_self d.transfer_buffer_length t full, tt);
      })
      (λ u e. sym (update_ne d.transfer_buffer_length t u full e))
