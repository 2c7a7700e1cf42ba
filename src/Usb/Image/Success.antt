-- ===== src/Usb/Image/Success.antt =====
-- When `rpusbdisp_usb_try_send_image` of usbhandlers.c succeeds.
use rpusbdisp.Common.{
  ℕ, ◌+◌, ◌-◌, ◌*◌, ◌/◌, ◌≤◌, ◌≡◌, refl, ◌∙◌, sym, ap, subst, ◌≢◌, inl, inr, Bool, true, List, [],
  ◌∷◌, take, length, ◌==◌, arith, All, Bool-cases, if◌then◌else◌, le→ltb, length-take,
}
use rpusbdisp.Common.Int.{ℤ}
use rpusbdisp.Common.Res.{Res, ok, abort, bug, stuck, ◌>>=◌}
use rpusbdisp.Protocol.{max_transfer_tickets_count}
use rpusbdisp.Usb.Device.{Device, Submit, accepted}
use rpusbdisp.Usb.Rle.Decode.{IsPixel}
use rpusbdisp.Usb.Bitblt.{
  Encoder, required_tickets, sold_context, first_context, copy, packet_full, bitblt_encoder_init,
  bitblt_encode_command_header,
}
use rpusbdisp.Usb.Bitblt.Bytes.{put_byte, put_bytes}
use rpusbdisp.Usb.Bitblt.Full.{Full, inner, switches, exhausts, refuses, full_cases}
use rpusbdisp.Usb.Bitblt.Framing.{IsFramed}
use rpusbdisp.Usb.Bitblt.Framing.Growth.{put_bytes-Grows}
use rpusbdisp.Usb.Bitblt.Flush.{flush_accepted}
use rpusbdisp.Usb.Image.{
  Area, image_size, image_pixels, finish_image, send_encoded, rpusbdisp_usb_try_send_image,
}
use rpusbdisp.Usb.Image.Start.{started, started-IsFramed}
use rpusbdisp.Usb.Image.Begin.{IsUsable, sold, sells, required_enough}
use rpusbdisp.Usb.Image.Delivery.{encode_pixels-Sends, transfer-put}
use rpusbdisp.Usb.Image.Sending.{rle_of, sold-IsReady}
use rpusbdisp.Usb.Image.Transfer.{encodes, bundle_bytes, estimate, try_send_image_safe}

-- The bus takes every URB.
abbrev pub TakesAll : (ℕ → Submit) → Type 0
TakesAll usb_submit_urb = (n : ℕ) → usb_submit_urb n ≡ accepted

-- The call does not fail.
abbrev pub Goes : {A : Type 0} → Res A (Unit {0}) → Type 0
Goes (abort e) = ⊥
Goes _ = Unit

pub Goes-ok :
    {A : Type 0} (r : Res A (Unit {0})) → Goes r → (r ≢ bug) × (r ≢ stuck) → (a : A) × (r ≡ ok tt a)
Goes-ok (ok tt a) g s = (a, refl)
Goes-ok (abort a) g s = absurd g
Goes-ok bug g s = absurd (s.0 refl)
Goes-ok stuck g s = absurd (s.1 refl)

module _ (usb_submit_urb : ℕ → Submit) (all : TakesAll usb_submit_urb) where
  full_Goes : (e : Encoder) → Full usb_submit_urb e → Goes (packet_full usb_submit_urb e)
  full_Goes e (inner l q) = rw q tt
  full_Goes e (switches t ts l n a q) = rw q tt
  full_Goes e (exhausts l n a q) = rw q tt
  full_Goes e (refuses status l a q) = cc (a, all e.submits)

  put_byte-Goes : (b : ℕ) (e : Encoder) → Goes (put_byte usb_submit_urb b e)
  unfolding put_byte
  put_byte-Goes b e = elim (Bool-cases (e.encoded_pos + 1 == e.disp_out_ep_max_size)) [
    | inr less ↦ rw less tt
    | inl full ↦ rw full (full_Goes (copy (b ∷ []) e) (full_cases usb_submit_urb _))
  ]

  then_Goes :
      (bytes : List ℕ) (r : Res Encoder (Unit {0}))
      → Goes r
      → ((e : Encoder) → Goes (put_bytes usb_submit_urb bytes e))
      → Goes (r >>= λ _ e. put_bytes usb_submit_urb bytes e)
  then_Goes bytes (ok tt e) g k = k e
  then_Goes bytes (abort e) g k = g
  then_Goes bytes bug g k = tt
  then_Goes bytes stuck g k = tt

  put_bytes-Goes : (bytes : List ℕ) (e : Encoder) → Goes (put_bytes usb_submit_urb bytes e)
  unfolding put_bytes
  put_bytes-Goes [] e = tt
  put_bytes-Goes (b ∷ bytes) e =
      then_Goes bytes (put_byte usb_submit_urb b e) (put_byte-Goes b e) (put_bytes-Goes bytes)

  finish-Goes :
      (bytes : List ℕ) (e : Encoder) (r : Res Encoder (Unit {0}))
      → IsFramed e
      → put_bytes usb_submit_urb bytes e ≡ r
      → Goes r
      → Goes (finish_image usb_submit_urb r)
  finish-Goes bytes e (ok tt e') f q g =
      rw
        (flush_accepted usb_submit_urb e'
          (put_bytes-Grows usb_submit_urb bytes e e' f q).framed'.started (all e'.submits))
        tt
  finish-Goes bytes e (abort e') f q g = absurd g
  finish-Goes bytes e bug f q g = tt
  finish-Goes bytes e stuck f q g = tt

-- The tickets asked for are at least one.
required_some : (d : Device) (size : ℕ) → IsUsable d → 1 ≤ required_tickets d size (rle_of d)
required_some d size u =
    go (required_tickets d size (rle_of d)) (required_enough d size (rle_of d) u.wide u.packets)
  where
    go :
        (n : ℕ)
        → 9 + size + (if rle_of d then (size / 2 + 127) / 128 else 0)
          ≤ n * (d.packet_size_factor * (d.disp_out_ep_max_size - 1))
        → 1 ≤ n
    go n h = grind arith

-- The pool has what a call for `size` bytes asks for, within the limit.
pub record IsServed (d : Device) (size : ℕ) : Type 0 where
  pub alive : d.is_alive ≡ true
  pub free : required_tickets d size (rle_of d) ≤ d.availiable_count
  pub few : required_tickets d size (rle_of d) ≤ max_transfer_tickets_count

begins_served :
    (d : Device) (size : ℕ)
    → IsUsable d
    → IsServed d size
    → bitblt_encoder_init d size (rle_of d) ≡ (
      sold d (required_tickets d size (rle_of d)),
      first_context (rle_of d) (take (required_tickets d size (rle_of d)) d.tickets),
    )
unfolding bitblt_encoder_init
begins_served d size u s =
    rw (le→ltb max_transfer_tickets_count (required_tickets d size (rle_of d)) s.few) (
      ap (sold_context (rle_of d))
        (sells d size (rle_of d) u s.alive (required_some d size u) s.free))

first_context-Goes :
    (d : Device) (size : ℕ) (ts : List ℕ)
    → IsUsable d
    → IsServed d size
    → take (required_tickets d size (rle_of d)) d.tickets ≡ ts
    → (t : ℕ) × (us : List ℕ) × (ts ≡ t ∷ us)
first_context-Goes d size [] u s e = absurd (
    omega (
      arith,
      ap length e,
      length-take (required_tickets d size (rle_of d)) d.tickets,
      u.counted,
      s.free,
      required_some d size u,
    ))
first_context-Goes d size (t ∷ ts) u s e = (t, ts, refl)

module _ (usb_submit_urb : ℕ → Submit) (garbage : ℕ → ℕ) (memory : ℤ → ℕ) (a : Area)
    (clear_dirty : Bool) (d : Device) (u : IsUsable d) (h : All IsPixel (image_pixels memory a))
    (all : TakesAll usb_submit_urb) where
  encoding-Goes :
      (n t : ℕ) (ts : List ℕ)
      → take n d.tickets ≡ t ∷ ts
      → Goes (
          send_encoded usb_submit_urb garbage
            (image_pixels memory a)
            a
            clear_dirty
            (sold d n, first_context (rle_of d) (t ∷ ts)))
  unfolding bitblt_encode_command_header
  encoding-Goes n t ts e =
      let r = sold-IsReady d n t ts u e in
      let b = started (rle_of d) (sold d n) t ts a.x a.y a.right a.bottom clear_dirty in
      let f = started-IsFramed (rle_of d) (sold d n) t ts a.x a.y a.right a.bottom clear_dirty r in
      let s = encode_pixels-Sends usb_submit_urb garbage (image_pixels memory a) b f h in
      subst Goes
        (ap (finish_image usb_submit_urb)
          (sym (s.sent ∙ transfer-put usb_submit_urb s.body.stream b f)))
        (finish-Goes usb_submit_urb all s.body.stream b _ f refl
          (put_bytes-Goes usb_submit_urb all s.body.stream b))

  send_Goes :
      image_size a ≢ 0
      → IsServed d (image_size a)
      → Goes (rpusbdisp_usb_try_send_image usb_submit_urb garbage memory a clear_dirty d)
  send_Goes z s =
      let n = required_tickets d (image_size a) (rle_of d) in
      let (t, ts, e) = first_context-Goes d (image_size a) (take n d.tickets) u s refl in
      subst Goes
        (sym (
          encodes usb_submit_urb garbage memory a clear_dirty d u h z
          ∙ ap (send_encoded usb_submit_urb garbage (image_pixels memory a) a clear_dirty) (
              begins_served d (image_size a) u s
              ∙ ap (λ l. (sold d n, first_context (rle_of d) l)) e)))
        (encoding-Goes n t ts e)

  -- On a usable pool that has the tickets, for pixels of 16 bits and a rectangle that is not empty and
  -- whose size in bytes does not wrap around: if the bus takes every URB and the estimate of the payload
  -- does not fill the tickets to the last byte, the call returns 1.
  pub try_send_image_succeeds :
      image_size a ≢ 0
      → IsServed d (image_size a)
      → image_size a ≡ 2 * length (image_pixels memory a)
      → bundle_bytes d (image_size a) ≢ estimate d (image_size a)
      → (d' : Device) × (rpusbdisp_usb_try_send_image usb_submit_urb garbage memory a clear_dirty d
          ≡ ok tt d')
  try_send_image_succeeds z s k x =
      Goes-ok _ (send_Goes z s)
        (try_send_image_safe usb_submit_urb garbage memory a clear_dirty d u h k x)
