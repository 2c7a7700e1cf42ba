-- ===== src/Usb/Bitblt/Bytes.antt =====
-- The copying loop of `_bitblt_encode_n_transfer_data` does what a loop over single bytes does: how
-- the payload is cut into chunks does not matter.
use rpusbdisp.Common.{
  ℕ, zero, suc, ◌+◌, ◌-◌, ◌^◌, ◌≤◌, ◌<◌, ◌≡◌, refl, ◌∙◌, sym, ap, subst, List, [], ◌∷◌, ◌++◌, take,
  drop, length, ltb, ◌==◌, if◌then◌else◌, arith, length-append, length-take, length-drop,
  take-append-drop, take-length, drop-length, eq→==, ne→==, le→ltb,
}
use rpusbdisp.Common.Memory.{
  update, write_at, write_at-append, update_self, update_twice, update_same,
}
use rpusbdisp.Common.Res.{Res, ok, ◌>>=◌, >>=_assoc, >>=_ok, >>=_cong, ok-injective}
use native.Mathlib.Decide.{dec_le}
use rpusbdisp.Usb.Device.{Submit}
use rpusbdisp.Usb.Bitblt.Full.{inner, switches, exhausts, refuses, full_cases}
use rpusbdisp.Usb.Bitblt.{
  Encoder, sub_size, copy, packet_full, transfer_rounds, bitblt_encode_n_transfer_data,
}

abbrev with_bytes : Encoder → (ℕ → ℕ → ℕ) → ℕ → Encoder
with_bytes e buffer pos = record e {
  context = record e.context { encoded_pos = pos };
  device = record e.device { transfer_buffer = buffer };
}

copy-append : (xs ys : List ℕ) (e : Encoder) → copy ys (copy xs e) ≡ copy (xs ++ ys) e
copy-append xs ys e = λ i. with_bytes e (buffers i) (positions i)
  where
    t : ℕ
    t = e.ticket

    off : ℕ
    off = e.urbbuffer + e.encoded_pos

    m : ℕ → ℕ
    m = write_at off xs (e.transfer_buffer t)

    positions : e.encoded_pos + length xs + length ys ≡ e.encoded_pos + length (xs ++ ys)
    positions = omega (arith, length-append xs ys)

    offsets : e.urbbuffer + (e.encoded_pos + length xs) ≡ off + length xs
    offsets = omega arith

    buffers :
        update
          (update e.transfer_buffer t m)
          t
          (write_at (e.urbbuffer + (e.encoded_pos + length xs)) ys (update e.transfer_buffer t m t))
        ≡ update e.transfer_buffer t (write_at off (xs ++ ys) (e.transfer_buffer t))
    buffers =
        update_twice e.transfer_buffer t m _
        ∙ ap (update e.transfer_buffer t) (
            rw (update_self e.transfer_buffer t m, offsets)
              (sym (write_at-append off xs ys (e.transfer_buffer t))))

copy-nil : (e : Encoder) → copy [] e ≡ e
unfolding write_at
copy-nil e = λ i. with_bytes e (update_same e.transfer_buffer e.ticket i) (positions i)
  where
    positions : e.encoded_pos + 0 ≡ e.encoded_pos
    positions = omega arith

-- Between two rounds of the loop the current packet has its header and is not full.
pub record IsPacking (e : Encoder) : Type 0 where
  pub sized : e.disp_out_ep_max_size < 2 ^ 64
  pub wide : 1 < e.disp_out_ep_max_size
  pub room : e.encoded_pos < e.disp_out_ep_max_size

sub_size_lem :
    (e : Encoder)
    → IsPacking e
    → sub_size e.disp_out_ep_max_size e.encoded_pos ≡ e.disp_out_ep_max_size - e.encoded_pos
sub_size_lem e p = omega arith

pick_left : (a n : ℕ) → a ≤ n → (if ltb a n then a else n) ≡ a
pick_left a n h = ground arith

module _ (usb_submit_urb : ℕ → Submit) where
  -- One byte.
  unfoldable pub put_byte : ℕ → Encoder → Res Encoder (Unit {0})
  put_byte b e =
      let copied = copy (b ∷ []) e in
      if e.encoded_pos + 1 == e.disp_out_ep_max_size
      then packet_full usb_submit_urb copied
      else ok tt copied

  unfoldable pub put_bytes : List ℕ → Encoder → Res Encoder (Unit {0})
  put_bytes [] e = ok tt e
  put_bytes (b ∷ bytes) e = put_byte b e >>= λ _ e'. put_bytes bytes e'

  pub put_bytes-append :
      (xs ys : List ℕ) (e : Encoder)
      → put_bytes (xs ++ ys) e ≡ (put_bytes xs e >>= λ _ e'. put_bytes ys e')
  unfolding put_bytes
  put_bytes-append [] ys e = refl
  put_bytes-append (b ∷ xs) ys e =
      ap (λ k. put_byte b e >>= k) (λ i _ e'. put_bytes-append xs ys e' i)
      ∙ sym (>>=_assoc (put_byte b e) _ _)

  -- A chunk that leaves room in the packet.
  put_bytes_room :
      (bytes : List ℕ) (e : Encoder)
      → e.encoded_pos + length bytes < e.disp_out_ep_max_size
      → put_bytes bytes e ≡ ok tt (copy bytes e)
  unfolding put_bytes put_byte
  put_bytes_room [] e h = sym (ap (ok tt) (copy-nil e))
  put_bytes_room (b ∷ bytes) e h =
      rw (ne→== (e.encoded_pos + 1) e.disp_out_ep_max_size (omega arith)) (
        put_bytes_room bytes (copy (b ∷ []) e) (omega arith)
        ∙ ap (ok tt) (copy-append (b ∷ []) bytes e))

  -- A chunk that fills the packet.
  put_bytes_full :
      (b : ℕ) (bytes : List ℕ) (e : Encoder)
      → e.encoded_pos + suc (length bytes) ≡ e.disp_out_ep_max_size
      → put_bytes (b ∷ bytes) e ≡ packet_full usb_submit_urb (copy (b ∷ bytes) e)
  unfolding put_bytes put_byte
  put_bytes_full b [] e h =
      rw (eq→== (e.encoded_pos + 1) e.disp_out_ep_max_size h)
        (>>=_ok (packet_full usb_submit_urb (copy (b ∷ []) e)))
  put_bytes_full b (c ∷ bytes) e h =
      rw (ne→== (e.encoded_pos + 1) e.disp_out_ep_max_size (omega arith)) (
        put_bytes_full c bytes (copy (b ∷ []) e) (omega arith)
        ∙ ap (packet_full usb_submit_urb) (copy-append (b ∷ []) (c ∷ bytes) e))

  packet_full-IsPacking :
      (e e' : Encoder)
      → e.disp_out_ep_max_size < 2 ^ 64
      → 1 < e.disp_out_ep_max_size
      → packet_full usb_submit_urb e ≡ ok tt e'
      → IsPacking e'
  packet_full-IsPacking e e' s w h = elim (full_cases usb_submit_urb e) [
    | inner l eq ↦
        subst IsPacking (ok-injective (sym eq ∙ h)) (record { sized = s; wide = w; room = w })
    | switches t ts l n a eq ↦
        subst IsPacking (ok-injective (sym eq ∙ h)) (record { sized = s; wide = w; room = w })
    | exhausts l n a eq ↦ cc
    | refuses status l r eq ↦ cc
  ]

  put_bytes_fill :
      (bytes : List ℕ) (e : Encoder)
      → e.encoded_pos < e.disp_out_ep_max_size
      → e.encoded_pos + length bytes ≡ e.disp_out_ep_max_size
      → put_bytes bytes e ≡ packet_full usb_submit_urb (copy bytes e)
  put_bytes_fill [] e r h = absurd (omega arith)
  put_bytes_fill (b ∷ bytes) e r h = put_bytes_full b bytes e h

  put_bytes_cut :
      (n : ℕ) (bytes : List ℕ) (e : Encoder)
      → put_bytes bytes e ≡ (put_bytes (take n bytes) e >>= λ _ e'. put_bytes (drop n bytes) e')
  put_bytes_cut n bytes e =
      ap (λ l. put_bytes l e) (sym (take-append-drop n bytes))
      ∙ put_bytes-append (take n bytes) (drop n bytes) e

  round_fills :
      (fuel b : ℕ) (bytes : List ℕ) (e : Encoder)
      → IsPacking e
      → e.disp_out_ep_max_size - e.encoded_pos ≤ length (b ∷ bytes)
      → transfer_rounds usb_submit_urb (suc fuel) (b ∷ bytes) e ≡ (
          packet_full usb_submit_urb
            (copy (take (e.disp_out_ep_max_size - e.encoded_pos) (b ∷ bytes)) e)
          >>= λ _ e'.
              transfer_rounds usb_submit_urb fuel
                (drop (e.disp_out_ep_max_size - e.encoded_pos) (b ∷ bytes))
                e')
  unfolding transfer_rounds
  round_fills fuel b bytes e p h =
      rw (sub_size_lem e p, pick_left _ _ h, eq→== (e.disp_out_ep_max_size - e.encoded_pos) _ refl)

  round_leaves :
      (fuel b : ℕ) (bytes : List ℕ) (e : Encoder)
      → IsPacking e
      → length (b ∷ bytes) < e.disp_out_ep_max_size - e.encoded_pos
      → transfer_rounds usb_submit_urb (suc fuel) (b ∷ bytes) e ≡ ok tt (copy (b ∷ bytes) e)
  unfolding transfer_rounds
  round_leaves fuel b bytes e p h = rw (
    sub_size_lem e p,
    le→ltb (e.disp_out_ep_max_size - e.encoded_pos) (suc (length bytes)) (omega arith),
    ne→== (e.disp_out_ep_max_size - e.encoded_pos) (suc (length bytes)) (omega arith),
    take-length bytes,
    drop-length bytes,
  )

  -- With as much fuel as there are bytes the loop never runs out of it, and does what the loop over
  -- single bytes does.
  pub transfer_rounds_lem :
      (fuel : ℕ) (bytes : List ℕ) (e : Encoder)
      → IsPacking e
      → length bytes ≤ fuel
      → transfer_rounds usb_submit_urb fuel bytes e ≡ put_bytes bytes e
  transfer_rounds_lem fuel [] e p h = unfold put_bytes transfer_rounds in refl
  transfer_rounds_lem zero (b ∷ bytes) e p h = absurd (omega arith)
  transfer_rounds_lem (suc fuel) (b ∷ bytes) e p h =
      elim (dec_le (e.disp_out_ep_max_size - e.encoded_pos) (length (b ∷ bytes))) [
        | yes l ↦
            let n : ℕ = e.disp_out_ep_max_size - e.encoded_pos in
            let k : length (take n (b ∷ bytes)) ≡ n = length-take n (b ∷ bytes) l in
            let d : length (drop n (b ∷ bytes)) ≡ length (b ∷ bytes) - n =
              length-drop n (b ∷ bytes) in
            round_fills fuel b bytes e p l
            ∙ >>=_cong (packet_full usb_submit_urb (copy (take n (b ∷ bytes)) e)) _ _ (λ e' eq.
              transfer_rounds_lem fuel (drop n (b ∷ bytes)) e'
                (packet_full-IsPacking _ e' p.sized p.wide eq) (omega (arith, d, p.room)))
            ∙ ap (λ r. r >>= λ _ e'. put_bytes (drop n (b ∷ bytes)) e')
                (sym (put_bytes_fill (take n (b ∷ bytes)) e p.room (omega (arith, k, p.room))))
            ∙ sym (put_bytes_cut n (b ∷ bytes) e)
        | no g ↦
            round_leaves fuel b bytes e p (omega arith)
            ∙ sym (put_bytes_room (b ∷ bytes) e (omega arith))
      ]

  -- `_bitblt_encode_n_transfer_data` is the loop over single bytes.
  pub transfer_lem :
      (bytes : List ℕ) (e : Encoder)
      → IsPacking e
      → bitblt_encode_n_transfer_data usb_submit_urb bytes e ≡ put_bytes bytes e
  unfolding bitblt_encode_n_transfer_data
  transfer_lem bytes e p = transfer_rounds_lem (length bytes) bytes e p (omega arith)
