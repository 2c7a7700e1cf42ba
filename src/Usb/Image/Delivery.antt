-- ===== src/Usb/Image/Delivery.antt =====
-- What `rpusbdisp_usb_try_send_image` of usbhandlers.c puts on the bus when it returns 1, and that it
-- does not meet its `BUG_ON`.
use rpusbdisp.Common.{
  ℕ, ◌+◌, ◌*◌, ◌/◌, ◌≤◌, ◌<◌, ◌≡◌, refl, ◌∙◌, sym, ap, ◌≢◌, inl, inr, Bool, true, false, List, [],
  ◌∷◌, ◌++◌, length, if◌then◌else◌, arith, Bool-cases, All, flat_map,
}
use rpusbdisp.Common.Res.{
  Res, ok, abort, bug, stuck, ◌>>=◌, >>=_assoc, >>=_cong, >>=_ok, ok-injective,
}
use rpusbdisp.Protocol.{le16}
use rpusbdisp.Usb.Device.{Device, Submit, accepted, refused}
use rpusbdisp.Usb.Rle.{rle_encode}
use rpusbdisp.Usb.Rle.Decode.{IsPixel, Reads}
use rpusbdisp.Usb.Rle.Size.{length-le16}
use rpusbdisp.Usb.Rle.Sink.{IsSink}
use rpusbdisp.Usb.Rle.Stream.{rle_encode-Encodes}
use rpusbdisp.Usb.Bitblt.{
  Context, Encoder, bitblt_encoder_init, bitblt_encode_command_header, bitblt_encoder_cleanup,
  bitblt_encode_n_transfer_data, bitblt_encoder_flush, submit_ticket, return_all,
}
use rpusbdisp.Usb.Bitblt.Bytes.{put_bytes, put_bytes-append, transfer_lem}
use rpusbdisp.Usb.Bitblt.Packets.{payload}
use rpusbdisp.Usb.Bitblt.Framing.{IsFramed, delivered}
use rpusbdisp.Usb.Bitblt.Framing.Growth.{put_bytes-Grows}
use rpusbdisp.Usb.Bitblt.Capacity.{capacity, Spends}
use rpusbdisp.Usb.Bitblt.Flush.{flushed, flush_accepted, flush_refused, flushed-delivers}
use rpusbdisp.Usb.Image.{on_device, plain_encode, encode_pixels, finish_image}

-- The payload of a list of pixels, by the mode.
pub record Payload (rlemode : Bool) (ps : List ℕ) : Type 0 where
  pub stream : List ℕ
  pub reads : rlemode ≡ true → Reads stream ps
  pub plain : rlemode ≡ false → stream ≡ flat_map le16 ps
  pub short : length stream ≤ 2 * length ps + (if rlemode then (length ps + 127) / 128 else 0)

module _ (usb_submit_urb : ℕ → Submit) where
  abbrev pub transfer : List ℕ → Encoder → Res Encoder (Unit {0})
  transfer = bitblt_encode_n_transfer_data usb_submit_urb

  pub transfer-put :
      (bytes : List ℕ) (e : Encoder)
      → IsFramed e
      → transfer bytes e ≡ put_bytes usb_submit_urb bytes e
  transfer-put bytes e f = transfer_lem usb_submit_urb bytes e f.packing

  transfer-keeps :
      (bytes : List ℕ) (e e' : Encoder) → IsFramed e → transfer bytes e ≡ ok tt e' → IsFramed e'
  transfer-keeps bytes e e' f h =
      (put_bytes-Grows usb_submit_urb bytes e e' f (sym (transfer-put bytes e f) ∙ h)).framed'

  transfer-append :
      (xs ys : List ℕ) (e : Encoder)
      → IsFramed e
      → transfer (xs ++ ys) e ≡ (transfer xs e >>= λ _ e'. transfer ys e')
  transfer-append xs ys e f =
      transfer-put (xs ++ ys) e f
      ∙ put_bytes-append usb_submit_urb xs ys e
      ∙ ap (λ r. r >>= λ _ e'. put_bytes usb_submit_urb ys e') (sym (transfer-put xs e f))
      ∙ >>=_cong (transfer xs e) _ _ (λ e' h. sym (transfer-put ys e' (transfer-keeps xs e e' f h)))

  -- The bitblt encoder is a sink for the RLE encoder.
  pub transfer-IsSink : IsSink transfer IsFramed
  transfer-IsSink = record {
    emit_nil =
        λ e. unfold bitblt_encode_n_transfer_data rpusbdisp.Usb.Bitblt.transfer_rounds in refl;
    emit_append = transfer-append;
    emit_keeps = λ xs e e' f h. transfer-keeps xs e e' f h;
  }

  plain_encode-transfer :
      (ps : List ℕ) (e : Encoder)
      → IsFramed e
      → plain_encode usb_submit_urb ps e ≡ transfer (flat_map le16 ps) e
  unfolding plain_encode
  plain_encode-transfer [] e f = sym ((transfer-IsSink).emit_nil e)
  plain_encode-transfer (p ∷ ps) e f =
      >>=_cong (transfer (le16 p) e) _ _
        (λ e' h. plain_encode-transfer ps e' (transfer-keeps (le16 p) e e' f h))
      ∙ sym (transfer-append (le16 p) (flat_map le16 ps) e f)

  -- The calls for all pixels are one call with their payload.
  pub record Sends (garbage : ℕ → ℕ) (ps : List ℕ) (e : Encoder) : Type 0 where
    pub body : Payload e.rlemode ps
    pub sent : encode_pixels usb_submit_urb garbage ps e ≡ transfer body.stream e

  pub encode_pixels-Sends :
      (garbage : ℕ → ℕ) (ps : List ℕ) (e : Encoder)
      → IsFramed e
      → All IsPixel ps
      → Sends garbage ps e
  unfolding encode_pixels
  encode_pixels-Sends garbage ps e f a = elim (Bool-cases e.rlemode) [
    | inl m ↦
        let s = rle_encode-Encodes transfer IsFramed transfer-IsSink garbage ps e f a in
        record {
          body = record {
            stream = s.stream;
            reads = λ _. s.reads;
            plain = λ n. cc;
            short = simp m s.short;
          };
          sent =
              ap
                (λ b.
                  if b
                  then (rle_encode transfer garbage ps e >>= λ _ e'. ok tt e')
                  else plain_encode usb_submit_urb ps e)
                m
              ∙ ap (λ r. r >>= λ _ e'. ok tt e') s.sent
              ∙ >>=_assoc (transfer s.stream e) _ _
              ∙ >>=_ok (transfer s.stream e);
        }
    | inr m ↦ record {
      body = record {
        stream = flat_map le16 ps;
        reads = λ n. cc;
        plain = λ _. refl;
        short = simp m (omega (arith, length-le16 ps));
      };
      sent =
          ap
            (λ b.
              if b
              then (rle_encode transfer garbage ps e >>= λ _ e'. ok tt e')
              else plain_encode usb_submit_urb ps e)
            m
          ∙ plain_encode-transfer ps e f;
    }
  ]

  flush_delivers :
      (e : Encoder) (a : Submit) (d' : Device)
      → IsFramed e
      → usb_submit_urb e.submits ≡ a
      → on_device (bitblt_encoder_flush usb_submit_urb e) ≡ ok tt d'
      → flat_map (payload e.disp_out_ep_max_size 0) d'.wire ≡ delivered e
  flush_delivers e accepted d' f a h =
      let same : (flushed e).device ≡ d' =
        ok-injective (ap on_device (sym (flush_accepted usb_submit_urb e f.started a)) ∙ h) in
      ap (λ (x : Device). flat_map (payload e.disp_out_ep_max_size 0) x.wire) (sym same)
      ∙ flushed-delivers e f
  flush_delivers e (refused status) d' f a h =
      cc (ap on_device (flush_refused usb_submit_urb e status f.started a))

  flush_safe :
      (e : Encoder) (a : Submit)
      → IsFramed e
      → usb_submit_urb e.submits ≡ a
      → (on_device (bitblt_encoder_flush usb_submit_urb e) ≢ bug)
        × (on_device (bitblt_encoder_flush usb_submit_urb e) ≢ stuck)
  flush_safe e accepted f a =
      let q = ap on_device (flush_accepted usb_submit_urb e f.started a) in (λ h. cc q, λ h. cc q)
  flush_safe e (refused status) f a =
      let q = ap on_device (flush_refused usb_submit_urb e status f.started a) in
      (λ h. cc q, λ h. cc q)

  pub finish_delivers :
      (bytes : List ℕ) (e : Encoder) (r : Res Encoder (Unit {0})) (d' : Device)
      → IsFramed e
      → put_bytes usb_submit_urb bytes e ≡ r
      → finish_image usb_submit_urb r ≡ ok tt d'
      → flat_map (payload e.disp_out_ep_max_size 0) d'.wire ≡ delivered e ++ bytes
  finish_delivers bytes e (ok tt e') d' f q h =
      let g = put_bytes-Grows usb_submit_urb bytes e e' f q in
      ap (λ m. flat_map (payload m 0) d'.wire) (sym g.same_size)
      ∙ flush_delivers e' (usb_submit_urb e'.submits) d' g.framed' refl h
      ∙ g.grown
  finish_delivers bytes e (abort e') d' f q h = cc
  finish_delivers bytes e bug d' f q h = cc
  finish_delivers bytes e stuck d' f q h = cc

  -- The encoding of an image neither runs out of fuel nor, with room to spare, out of tickets.
  pub finish_safe :
      (bytes : List ℕ) (e : Encoder) (r : Res Encoder (Unit {0}))
      → length bytes < capacity e
      → Spends (capacity e) (length bytes) r
      → (finish_image usb_submit_urb r ≢ bug) × (finish_image usb_submit_urb r ≢ stuck)
  finish_safe bytes e (ok tt e') l (f, c, k) = flush_safe e' (usb_submit_urb e'.submits) f refl
  finish_safe bytes e (abort e') l s = (λ h. cc, λ h. cc)
  finish_safe bytes e bug l s = absurd (omega arith)
  finish_safe bytes e stuck l s = absurd s
