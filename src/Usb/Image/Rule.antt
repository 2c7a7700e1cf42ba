-- ===== src/Usb/Image/Rule.antt =====
-- A rule for `rpusbdisp_usb_try_send_image` of usbhandlers.c: what each step on the device keeps, the
-- call keeps.
use rpusbdisp.Common.{
  ℕ, ◌+◌, ◌≡◌, refl, ◌∙◌, sym, ap, subst, inl, inr, Bool, List, [], ◌∷◌, some, ltb, take, drop,
  ◌==◌, All, Bool-cases,
}
use rpusbdisp.Common.Int.{ℤ}
use rpusbdisp.Common.Res.{Res, ok, abort, bug, stuck, ◌>>=◌}
use rpusbdisp.Usb.Device.{Device, Submit, accepted, refused, take_urb, refuse_urb}
use rpusbdisp.Usb.Tickets.{return_disp_tickets, on_display_transfer_finished}
use rpusbdisp.Usb.Rle.Decode.{IsPixel}
use rpusbdisp.Usb.Bitblt.{
  Encoder, first_context, copy, packet_full, bitblt_encoder_init, return_all,
  bitblt_encoder_cleanup, bitblt_encoder_flush, bitblt_encode_command_header,
}
use rpusbdisp.Usb.Bitblt.Bytes.{put_byte, put_bytes}
use rpusbdisp.Usb.Bitblt.Full.{Full, inner, switches, exhausts, refuses, full_cases}
use rpusbdisp.Usb.Bitblt.Framing.{IsFramed}
use rpusbdisp.Usb.Bitblt.Framing.Growth.{put_bytes-Grows}
use rpusbdisp.Usb.Bitblt.Flush.{flush_accepted, flush_refused}
use rpusbdisp.Usb.Commands.{write_command, submit_command, send_bundle, send_command}
use rpusbdisp.Usb.Image.{
  Area, image_size, image_pixels, finish_image, on_device, send_encoded,
  rpusbdisp_usb_try_send_image,
}
use rpusbdisp.Usb.Image.Start.{started, started-IsFramed}
use rpusbdisp.Usb.Image.Begin.{IsUsable, Begins, declines, grants, begins, sold, sale_cases}
use rpusbdisp.Usb.Image.Delivery.{encode_pixels-Sends, transfer-put}
use rpusbdisp.Usb.Image.Sending.{rle_of, sold-IsReady}

-- `P` holds while the call succeeds, and `Q` once it fails.
pub record Rule (P Q : Device → Type 0) : Type 0 where
  pub writes : (d : Device) (b : ℕ → ℕ → ℕ) → P d → P (record d { transfer_buffer = b })
  pub sizes : (d : Device) (l : ℕ → ℕ) → P d → P (record d { transfer_buffer_length = l })
  pub sells : (d : Device) (n : ℕ) → P d → P (sold d n)
  pub takes : (d : Device) (t : ℕ) → P d → P (take_urb d t)
  pub returns : (d : Device) (t : ℕ) → P d → P (return_disp_tickets d t).0
  pub declines_too : (d : Device) → P d → Q d
  pub refuses_urb :
      (d : Device) (t status : ℕ) → P d → Q (on_display_transfer_finished (refuse_urb d t status) t)
  pub returns_too : (d : Device) (t : ℕ) → Q d → Q (return_disp_tickets d t).0

abbrev Coded : (Device → Type 0) → (Device → Type 0) → Res Encoder (Unit {0}) → Type 0
Coded P Q (ok _ e) = P e.device
Coded P Q (abort e) = Q e.device
Coded P Q bug = Unit
Coded P Q stuck = Unit

abbrev pub Holds : (Device → Type 0) → (Device → Type 0) → Res Device (Unit {0}) → Type 0
Holds P Q (ok _ d) = P d
Holds P Q (abort d) = Q d
Holds P Q bug = Unit
Holds P Q stuck = Unit

returns_all :
    (P : Device → Type 0)
    → ((d : Device) (t : ℕ) → P d → P (return_disp_tickets d t).0)
    → (ts : List ℕ) (d : Device) → P d
    → P (return_all ts d)
unfolding return_all
returns_all P k [] d h = h
returns_all P k (t ∷ ts) d h = returns_all P k ts (return_disp_tickets d t).0 (k d t h)

module _ (P Q : Device → Type 0) (k : Rule P Q) where
  module _ (usb_submit_urb : ℕ → Submit) where
    full_Coded :
        (e : Encoder)
        → P e.device
        → Full usb_submit_urb e
        → Coded P Q (packet_full usb_submit_urb e)
    full_Coded e h (inner l q) = rw q (k.writes e.device _ h)
    full_Coded e h (switches t ts l n a q) = rw q (k.writes _ _ (k.takes e.device e.ticket h))
    full_Coded e h (exhausts l n a q) = rw q tt
    full_Coded e h (refuses status l a q) = rw q (k.refuses_urb e.device e.ticket status h)

    put_byte-Coded : (b : ℕ) (e : Encoder) → P e.device → Coded P Q (put_byte usb_submit_urb b e)
    unfolding put_byte
    put_byte-Coded b e h = elim (Bool-cases (e.encoded_pos + 1 == e.disp_out_ep_max_size)) [
      | inr less ↦ rw less (k.writes e.device _ h)
      | inl full ↦
          rw full
            (full_Coded (copy (b ∷ []) e) (k.writes e.device _ h) (full_cases usb_submit_urb _))
    ]

    then_Coded :
        (bytes : List ℕ) (r : Res Encoder (Unit {0}))
        → Coded P Q r
        → ((e : Encoder) → P e.device → Coded P Q (put_bytes usb_submit_urb bytes e))
        → Coded P Q (r >>= λ _ e. put_bytes usb_submit_urb bytes e)
    then_Coded bytes (ok tt e) h n = n e h
    then_Coded bytes (abort e) h n = h
    then_Coded bytes bug h n = tt
    then_Coded bytes stuck h n = tt

    put_bytes-Coded :
        (bytes : List ℕ) (e : Encoder) → P e.device → Coded P Q (put_bytes usb_submit_urb bytes e)
    unfolding put_bytes
    put_bytes-Coded [] e h = h
    put_bytes-Coded (b ∷ bytes) e h =
        then_Coded bytes (put_byte usb_submit_urb b e) (put_byte-Coded b e h)
          (put_bytes-Coded bytes)

    flush-Holds :
        (e : Encoder) (a : Submit)
        → IsFramed e
        → P e.device
        → usb_submit_urb e.submits ≡ a
        → Holds P Q (on_device (bitblt_encoder_flush usb_submit_urb e))
    unfolding bitblt_encoder_cleanup
    flush-Holds e accepted f h a = rw (flush_accepted usb_submit_urb e f.started a) (
        returns_all P k.returns (drop 1 e.current_node) _
          (k.takes _ e.ticket (k.sizes e.device _ h)))
    flush-Holds e (refused status) f h a =
        rw (flush_refused usb_submit_urb e status f.started a)
          (k.refuses_urb _ e.ticket status (k.sizes e.device _ h))

    finish-Holds :
        (bytes : List ℕ) (e : Encoder) (r : Res Encoder (Unit {0}))
        → IsFramed e
        → put_bytes usb_submit_urb bytes e ≡ r
        → Coded P Q r
        → Holds P Q (finish_image usb_submit_urb r)
    unfolding bitblt_encoder_cleanup
    finish-Holds bytes e (ok tt e') f q h =
        flush-Holds e' (usb_submit_urb e'.submits)
          (put_bytes-Grows usb_submit_urb bytes e e' f q).framed' h refl
    finish-Holds bytes e (abort e') f q h = returns_all Q k.returns_too e'.current_node e'.device h
    finish-Holds bytes e bug f q h = tt
    finish-Holds bytes e stuck f q h = tt

  module _ (usb_submit_urb : ℕ → Submit) (garbage : ℕ → ℕ) (memory : ℤ → ℕ) (a : Area)
      (clear_dirty : Bool) (d : Device) (u : IsUsable d) (h : All IsPixel (image_pixels memory a))
      (p : P d) where
    encoding-Holds :
        (n t : ℕ) (ts : List ℕ)
        → take n d.tickets ≡ t ∷ ts
        → Holds P Q (
            send_encoded usb_submit_urb garbage
              (image_pixels memory a)
              a
              clear_dirty
              (sold d n, first_context (rle_of d) (t ∷ ts)))
    unfolding bitblt_encode_command_header
    encoding-Holds n t ts e =
        let r = sold-IsReady d n t ts u e in
        let b = started (rle_of d) (sold d n) t ts a.x a.y a.right a.bottom clear_dirty in
        let f =
          started-IsFramed (rle_of d) (sold d n) t ts a.x a.y a.right a.bottom clear_dirty r in
        let s = encode_pixels-Sends usb_submit_urb garbage (image_pixels memory a) b f h in
        subst (Holds P Q)
          (ap (finish_image usb_submit_urb)
            (sym (s.sent ∙ transfer-put usb_submit_urb s.body.stream b f)))
          (finish-Holds usb_submit_urb s.body.stream b _ f refl
            (put_bytes-Coded usb_submit_urb s.body.stream b (k.writes _ _ (k.sells d n p))))

    begun-Holds :
        Begins d (image_size a) (rle_of d)
        → Holds P Q (
            send_encoded usb_submit_urb garbage
              (image_pixels memory a)
              a
              clear_dirty
              (bitblt_encoder_init d (image_size a) (rle_of d)))
    begun-Holds (declines e) = rw e (k.declines_too d p)
    begun-Holds (grants t ts e n i) = rw i (encoding-Holds _ t ts e)

    pub try_send_image-Holds :
        Holds P Q (rpusbdisp_usb_try_send_image usb_submit_urb garbage memory a clear_dirty d)
    unfolding rpusbdisp_usb_try_send_image
    try_send_image-Holds = elim (Bool-cases (image_size a == 0)) [
      | inl z ↦ rw z p
      | inr z ↦ rw z (begun-Holds (begins d (image_size a) (rle_of d) u))
    ]

  module _ (usb_submit_urb : ℕ → Submit) (packet : List ℕ) (packet_size transfer_size : ℕ)
      (d : Device) (p : P d) where
    submit-Holds :
        (t : ℕ) (a : Submit)
        → Holds P Q (submit_command a (write_command packet transfer_size (sold d 1) t) t)
    unfolding submit_command
    submit-Holds t accepted = k.takes _ t (k.sizes _ _ (k.writes _ _ (k.sells d 1 p)))
    submit-Holds t (refused status) =
        k.refuses_urb _ t status (k.sizes _ _ (k.writes _ _ (k.sells d 1 p)))

    bundle-Holds :
        (ts : List ℕ)
        → Holds P Q
            (send_bundle usb_submit_urb packet packet_size transfer_size (sold d 1, some ts))
    unfolding send_bundle
    bundle-Holds [] = tt
    bundle-Holds (t ∷ ts) = elim (Bool-cases (ltb d.disp_out_ep_max_size packet_size)) [
      | inl small ↦ rw small tt
      | inr wide ↦ rw wide (submit-Holds t (usb_submit_urb d.submits))
    ]

    pub send_command-Holds :
        Holds P Q (send_command usb_submit_urb packet packet_size transfer_size d)
    unfolding send_bundle
    send_command-Holds = elim (sale_cases d 1) [
      | inl none_free ↦ rw none_free (k.declines_too d p)
      | inr free ↦ rw free (bundle-Holds (take 1 d.tickets))
    ]
