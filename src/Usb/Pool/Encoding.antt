-- ===== src/Usb/Pool/Encoding.antt =====
-- The encoder of usbhandlers.c keeps the pool's invariant, whatever the bus answers.
use rpusbdisp.Common.{
  ℕ, ◌+◌, ◌≡◌, refl, ◌∙◌, subst, inl, inr, List, [], ◌∷◌, drop, ◌==◌, Bool-cases,
}
use rpusbdisp.Common.Res.{Res, ok, abort, bug, stuck, ◌>>=◌}
use rpusbdisp.Usb.Device.{Device, Submit, accepted, refused, take_urb, refuse_urb}
use rpusbdisp.Usb.Bitblt.{Encoder, copy, packet_full, bitblt_encoder_cleanup, bitblt_encoder_flush}
use rpusbdisp.Usb.Bitblt.Bytes.{put_byte, put_bytes}
use rpusbdisp.Usb.Bitblt.Full.{Full, inner, switches, exhausts, refuses, full_cases}
use rpusbdisp.Usb.Bitblt.Framing.{IsFramed}
use rpusbdisp.Usb.Bitblt.Framing.Growth.{put_byte-Grows, put_bytes-Grows}
use rpusbdisp.Usb.Bitblt.Flush.{last_urb, flush_accepted, flush_refused}
use rpusbdisp.Usb.Image.{finish_image, on_device}
use rpusbdisp.Usb.Pool.Held.{HeldBy, IsPool, update-AgreesOff, Held-taken, Held-dropped, Same}
use rpusbdisp.Usb.Pool.Steps.{finished-HeldBy, return_all-HeldBy}

-- The encoder holds the bundle from its current node on.
abbrev pub Holding : Device → Encoder → Type 0
Holding d e = HeldBy e.device e.current_node × Same d e.device

-- What a call of the encoder leaves, when it succeeds and when it fails.
abbrev pub Encoded : Device → Res Encoder (Unit {0}) → Type 0
Encoded d (ok _ e) = Holding d e
Encoded d (abort e) = Holding d e
Encoded d bug = Unit
Encoded d stuck = Unit

-- What an operation leaves.
abbrev pub Left : Device → Res Device (Unit {0}) → Type 0
Left d (ok _ d') = IsPool d' × Same d d'
Left d (abort d') = IsPool d' × Same d d'
Left d bug = Unit
Left d stuck = Unit

-- The head of the bundle is the encoder's ticket.
headed :
    (d : Device) (e : Encoder)
    → IsFramed e
    → Holding d e
    → HeldBy e.device (e.ticket ∷ drop 1 e.current_node)
headed d e f h = subst (HeldBy e.device) f.node h.0

module _ (usb_submit_urb : ℕ → Submit) (d : Device) where
  full_Encoded :
      (b : ℕ) (e : Encoder)
      → IsFramed e
      → Holding d e
      → Full usb_submit_urb (copy (b ∷ []) e)
      → Encoded d (packet_full usb_submit_urb (copy (b ∷ []) e))
  full_Encoded b e f h (inner l eq) = rw eq (h.0, h.1)
  full_Encoded b e f h (switches t ts l n a eq) =
      rw eq (Held-taken e.ticket (headed d e f h) e.transfer_buffer_length (λ u z. refl), h.1)
  full_Encoded b e f h (exhausts l n a eq) = rw eq tt
  full_Encoded b e f h (refuses status l a eq) =
      let k =
        finished-HeldBy (refuse_urb (copy (b ∷ []) e).device e.ticket status) e.ticket
          (drop 1 e.current_node) e.transfer_buffer_length (headed d e f h) (λ u z. refl) in
      rw eq (k.0, k.1 ∙ h.1)

  put_byte-Encoded :
      (b : ℕ) (e : Encoder) → IsFramed e → Holding d e → Encoded d (put_byte usb_submit_urb b e)
  unfolding put_byte
  put_byte-Encoded b e f h = elim (Bool-cases (e.encoded_pos + 1 == e.disp_out_ep_max_size)) [
    | inr less ↦ rw less h
    | inl full ↦ rw full (full_Encoded b e f h (full_cases usb_submit_urb _))
  ]

  then_Encoded :
      (bytes : List ℕ) (r : Res Encoder (Unit {0}))
      → Encoded d r
      → ((e : Encoder) → r ≡ ok tt e → Holding d e → Encoded d (put_bytes usb_submit_urb bytes e))
      → Encoded d (r >>= λ _ e. put_bytes usb_submit_urb bytes e)
  then_Encoded bytes (ok tt e) h k = k e refl h
  then_Encoded bytes (abort e) h k = h
  then_Encoded bytes bug h k = tt
  then_Encoded bytes stuck h k = tt

  pub put_bytes-Encoded :
      (bytes : List ℕ) (e : Encoder)
      → IsFramed e
      → Holding d e
      → Encoded d (put_bytes usb_submit_urb bytes e)
  unfolding put_bytes
  put_bytes-Encoded [] e f h = h
  put_bytes-Encoded (b ∷ bytes) e f h =
      then_Encoded bytes (put_byte usb_submit_urb b e) (put_byte-Encoded b e f h) (λ e' q h'.
        put_bytes-Encoded bytes e' (put_byte-Grows usb_submit_urb b e e' f q).framed' h')

  cleanup-Left : (e : Encoder) → Holding d e → Left d (abort (bitblt_encoder_cleanup e).device)
  unfolding bitblt_encoder_cleanup
  cleanup-Left e h = let k = return_all-HeldBy e.current_node e.device h.0 in (k.0, k.1 ∙ h.1)

  flush-Left :
      (e : Encoder) (a : Submit)
      → IsFramed e
      → Holding d e
      → usb_submit_urb e.submits ≡ a
      → Left d (on_device (bitblt_encoder_flush usb_submit_urb e))
  unfolding bitblt_encoder_cleanup
  flush-Left e accepted f h a =
      let u = last_urb e in
      let k = return_all-HeldBy (drop 1 e.current_node) (take_urb u.device e.ticket) (
        Held-taken e.ticket (headed d e f h) u.transfer_buffer_length
          (update-AgreesOff e.ticket _ e.transfer_buffer_length)) in
      rw (flush_accepted usb_submit_urb e f.started a) (k.0, k.1 ∙ h.1)
  flush-Left e (refused status) f h a =
      let u = last_urb e in
      let k =
        finished-HeldBy (refuse_urb u.device e.ticket status) e.ticket (drop 1 e.current_node)
          e.transfer_buffer_length (headed d e f h)
          (update-AgreesOff e.ticket _ e.transfer_buffer_length) in
      rw (flush_refused usb_submit_urb e status f.started a) (Held-dropped k.0, k.1 ∙ h.1)

  -- What is left after the pixels were encoded.
  pub finish-Left :
      (bytes : List ℕ) (e : Encoder) (r : Res Encoder (Unit {0}))
      → IsFramed e
      → put_bytes usb_submit_urb bytes e ≡ r
      → Encoded d r
      → Left d (finish_image usb_submit_urb r)
  finish-Left bytes e (ok tt e') f q h =
      flush-Left e' (usb_submit_urb e'.submits)
        (put_bytes-Grows usb_submit_urb bytes e e' f q).framed' h refl
  finish-Left bytes e (abort e') f q h = cleanup-Left e' h
  finish-Left bytes e bug f q h = tt
  finish-Left bytes e stuck f q h = tt
