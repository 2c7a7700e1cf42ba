-- ===== src/Usb/Bitblt/Framing/Growth.antt =====
-- What each byte that the encoder of usbhandlers.c stores adds to what is delivered.
use rpusbdisp.Common.{
  ℕ, ◌+◌, ◌*◌, ◌≤◌, ◌<◌, ◌≡◌, refl, ◌∙◌, sym, ap, subst, inl, inr, List, [], ◌∷◌, ◌++◌, drop, ◌==◌,
  arith, Bool-cases, All, flat_map, flat_map-append, ==→eq, ==→ne, append-nil, append_assoc,
}
use rpusbdisp.Common.Memory.{read}
use rpusbdisp.Common.Res.{ok, >>=-eq-ok, ok-injective}
use rpusbdisp.Usb.Device.{Submit}
use rpusbdisp.Usb.Bitblt.{Encoder, copy, packet_header, packet_full}
use rpusbdisp.Usb.Bitblt.Bytes.{put_byte, put_bytes}
use rpusbdisp.Usb.Bitblt.Full.{
  moved, switched, Full, inner, switches, exhausts, refuses, full_cases,
}
use rpusbdisp.Usb.Bitblt.Packets.{payload, place, payload-append, place-append}
use rpusbdisp.Usb.Bitblt.Framing.{
  AtPacket, Grows, IsFramed, delivered, packet_header-IsFramed, packet_header-payload, payload_byte,
  payload_nothing, place_byte, place_last, written, written-copy,
}

module _ (e : Encoder) (b : ℕ) (f : IsFramed e) where
  -- The current URB with the byte.
  abbrev longer : List ℕ
  longer = written e ++ b ∷ []

  payload-longer :
      payload e.disp_out_ep_max_size 0 longer
      ≡ payload e.disp_out_ep_max_size 0 (written e) ++ b ∷ []
  payload-longer =
      payload-append e.disp_out_ep_max_size 0 (written e) (b ∷ [])
      ∙ rw f.framed (
          ap (◌++◌ (payload e.disp_out_ep_max_size 0 (written e)))
            (payload_byte e.disp_out_ep_max_size e.encoded_pos b f.started))

  regroup :
      flat_map (payload e.disp_out_ep_max_size 0) e.wire
        ++ (payload e.disp_out_ep_max_size 0 (written e) ++ b ∷ [])
      ≡ delivered e ++ b ∷ []
  unfolding delivered
  regroup = sym (
      append_assoc (flat_map (payload e.disp_out_ep_max_size 0) e.wire)
        (payload e.disp_out_ep_max_size 0 (written e)) (b ∷ []))

  pub copy-Grows : e.encoded_pos + 1 < e.disp_out_ep_max_size → Grows e (copy (b ∷ []) e) (b ∷ [])
  unfolding delivered
  copy-Grows h = record {
    framed' = record {
      packing = record { sized = f.packing.sized; wide = f.packing.wide; room = h };
      started = omega arith;
      within = f.within;
      aligned = f.aligned;
      framed =
          ap (place e.disp_out_ep_max_size 0) (written-copy (b ∷ []) e)
          ∙ place-append e.disp_out_ep_max_size 0 (written e) (b ∷ [])
          ∙ rw f.framed (place_byte e.disp_out_ep_max_size e.encoded_pos b h);
      node = f.node;
      full_size = f.full_size;
    };
    grown =
        ap
          (λ w.
            flat_map (payload e.disp_out_ep_max_size 0) e.wire
            ++ payload e.disp_out_ep_max_size 0 w)
          (written-copy (b ∷ []) e)
        ∙ rw payload-longer (regroup);
    same_size = refl;
  }

  -- What the buffer holds when the packet is full.
  full_packet :
      e.encoded_pos + 1 ≡ e.disp_out_ep_max_size
      → read (e.urbbuffer + e.disp_out_ep_max_size) ((copy (b ∷ []) e).transfer_buffer e.ticket)
        ≡ longer
  full_packet h =
      ap (λ n. read n ((copy (b ∷ []) e).transfer_buffer e.ticket)) same
      ∙ unfold written in written-copy (b ∷ []) e
    where
      same : e.urbbuffer + e.disp_out_ep_max_size ≡ e.urbbuffer + (e.encoded_pos + 1)
      same = omega arith

  place_full :
      e.encoded_pos + 1 ≡ e.disp_out_ep_max_size → place e.disp_out_ep_max_size 0 longer ≡ 0
  place_full h =
      place-append e.disp_out_ep_max_size 0 (written e) (b ∷ [])
      ∙ rw f.framed (place_last e.disp_out_ep_max_size e.encoded_pos b h)

  moved-Grows :
      e.encoded_pos + 1 ≡ e.disp_out_ep_max_size
      → e.packet_pos + 1 < e.packet_size_factor
      → Grows e (packet_header (moved (copy (b ∷ []) e))) (b ∷ [])
  unfolding delivered
  moved-Grows h l = record {
    framed' = packet_header-IsFramed _ at;
    grown =
        ap (λ w. flat_map (payload e.disp_out_ep_max_size 0) e.wire ++ w)
          (packet_header-payload _ at
            ∙ ap (payload e.disp_out_ep_max_size 0) (full_packet h)
            ∙ payload-longer)
        ∙ regroup;
    same_size = refl;
  }
    where
      at : AtPacket (moved (copy (b ∷ []) e))
      at = record {
        sized = f.packing.sized;
        wide = f.packing.wide;
        within = l;
        aligned = omega (arith, f.aligned);
        at_start = ap (place e.disp_out_ep_max_size 0) (full_packet h) ∙ place_full h;
        node = f.node;
        full_size = f.full_size;
      }

  -- What the bus takes when the URB is full.
  full_urb :
      e.encoded_pos + 1 ≡ e.disp_out_ep_max_size
      → e.packet_size_factor ≤ e.packet_pos + 1
      → read (e.transfer_buffer_length e.ticket) ((copy (b ∷ []) e).transfer_buffer e.ticket)
        ≡ longer
  full_urb h l = ap (λ n. read n ((copy (b ∷ []) e).transfer_buffer e.ticket)) same ∙ full_packet h
    where
      head_size : e.transfer_buffer_length e.ticket ≡ e.packet_size_factor * e.disp_out_ep_max_size
      head_size = (rw f.node at f.full_size).0

      last : e.packet_size_factor ≡ e.packet_pos + 1
      last = omega (arith, f.within)

      same : e.transfer_buffer_length e.ticket ≡ e.urbbuffer + e.disp_out_ep_max_size
      same = head_size ∙ ap (λ n. n * e.disp_out_ep_max_size) last ∙ omega (arith, f.aligned)

  switched-Grows :
      (t : ℕ) (ts : List ℕ)
      → e.encoded_pos + 1 ≡ e.disp_out_ep_max_size
      → e.packet_size_factor ≤ e.packet_pos + 1
      → drop 1 e.current_node ≡ t ∷ ts
      → Grows e (packet_header (switched (copy (b ∷ []) e) t)) (b ∷ [])
  unfolding delivered
  switched-Grows t ts h l n = record {
    framed' = packet_header-IsFramed _ at;
    grown =
        ap (λ w. flat_map (payload e.disp_out_ep_max_size 0) (e.wire ++ urb ∷ []) ++ w)
          (packet_header-payload _ at ∙ payload_nothing e.disp_out_ep_max_size _)
        ∙ append-nil (flat_map (payload e.disp_out_ep_max_size 0) (e.wire ++ urb ∷ []))
        ∙ flat_map-append (payload e.disp_out_ep_max_size 0) e.wire (urb ∷ [])
        ∙ ap (λ w. flat_map (payload e.disp_out_ep_max_size 0) e.wire ++ w)
            (append-nil (payload e.disp_out_ep_max_size 0 urb)
              ∙ ap (payload e.disp_out_ep_max_size 0) (full_urb h l)
              ∙ payload-longer)
        ∙ regroup;
    same_size = refl;
  }
    where
      urb : List ℕ
      urb = read (e.transfer_buffer_length e.ticket) ((copy (b ∷ []) e).transfer_buffer e.ticket)

      tail_sizes :
          All
            (λ t. e.transfer_buffer_length t ≡ e.packet_size_factor * e.disp_out_ep_max_size)
            (drop 1 e.current_node)
      tail_sizes = (rw f.node at f.full_size).1

      at : AtPacket (switched (copy (b ∷ []) e) t)
      at = record {
        sized = f.packing.sized;
        wide = f.packing.wide;
        within = omega (arith, f.within);
        aligned = omega arith;
        at_start = unfold read place in refl;
        node = rw n;
        full_size = tail_sizes;
      }

Grows-trans :
    {e m e' : Encoder} (xs ys : List ℕ) → Grows e m xs → Grows m e' ys → Grows e e' (xs ++ ys)
Grows-trans {e} xs ys g k = record {
  framed' = k.framed';
  grown = rw (k.grown, g.grown) (append_assoc (delivered e) xs ys);
  same_size = k.same_size ∙ g.same_size;
}

module _ (usb_submit_urb : ℕ → Submit) where
  -- One byte that is taken is one byte more that the device reads.
  pub put_byte-Grows :
      (b : ℕ) (e e' : Encoder)
      → IsFramed e
      → put_byte usb_submit_urb b e ≡ ok tt e'
      → Grows e e' (b ∷ [])
  unfolding put_byte
  put_byte-Grows b e e' f h = elim (Bool-cases (e.encoded_pos + 1 == e.disp_out_ep_max_size)) [
    | inr less ↦
        subst (λ x. Grows e x (b ∷ [])) (ok-injective (rw less at h))
          (copy-Grows e b f (omega (arith, ==→ne _ _ less, f.packing.room)))
    | inl full ↦
        full_Grows b e e' f (==→eq _ _ full) (rw full at h)
          (full_cases usb_submit_urb (copy (b ∷ []) e))
  ]
    where
      full_Grows :
          (b : ℕ) (e e' : Encoder)
          → IsFramed e
          → e.encoded_pos + 1 ≡ e.disp_out_ep_max_size
          → packet_full usb_submit_urb (copy (b ∷ []) e) ≡ ok tt e'
          → Full usb_submit_urb (copy (b ∷ []) e)
          → Grows e e' (b ∷ [])
      full_Grows b e e' f q h (inner l eq) =
          subst (λ x. Grows e x (b ∷ [])) (ok-injective (sym eq ∙ h)) (moved-Grows e b f q l)
      full_Grows b e e' f q h (switches t ts l n a eq) =
          subst (λ x. Grows e x (b ∷ [])) (ok-injective (sym eq ∙ h))
            (switched-Grows e b f t ts q l n)
      full_Grows b e e' f q h (exhausts l n a eq) = cc
      full_Grows b e e' f q h (refuses status l r eq) = cc

  pub put_bytes-Grows :
      (bytes : List ℕ) (e e' : Encoder)
      → IsFramed e
      → put_bytes usb_submit_urb bytes e ≡ ok tt e'
      → Grows e e' bytes
  unfolding put_bytes
  put_bytes-Grows [] e e' f h =
      subst (λ x. Grows e x []) (ok-injective h)
        (record { framed' = f; grown = sym (append-nil (delivered e)); same_size = refl })
  put_bytes-Grows (b ∷ bytes) e e' f h =
      let (m, first, rest) = >>=-eq-ok (put_byte usb_submit_urb b e) _ h in
      Grows-trans (b ∷ []) bytes (put_byte-Grows b e m f first)
        (put_bytes-Grows bytes m e' (put_byte-Grows b e m f first).framed' rest)
