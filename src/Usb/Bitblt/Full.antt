-- ===== src/Usb/Bitblt/Full.antt =====
-- The ways in which the packet that is full is left behind in `_bitblt_encode_n_transfer_data`.
use rpusbdisp.Common.{
  ℕ, ◌+◌, ◌≤◌, ◌<◌, ◌≡◌, refl, inl, inr, true, List, [], ◌∷◌, drop, leb, arith, Bool-cases,
}
use rpusbdisp.Common.Res.{ok, abort, bug}
use rpusbdisp.Usb.Device.{Submit, accepted, refused, take_urb, refuse_urb}
use rpusbdisp.Usb.Tickets.{on_display_transfer_finished}
use rpusbdisp.Usb.Bitblt.{Encoder, next_node, packet_header, submit_ticket, packet_full}

-- The next packet of the same URB.
abbrev pub moved : Encoder → Encoder
moved e = record e {
  context = record e.context {
    urbbuffer = e.urbbuffer + e.disp_out_ep_max_size;
    packet_pos = e.packet_pos + 1;
  };
}

-- The URB is on the bus, and the first packet of the ticket `t` follows.
abbrev pub switched : Encoder → ℕ → Encoder
switched e t = record e {
  context = record e.context {
    current_node = drop 1 e.current_node;
    ticket = t;
    packet_pos = 0;
    urbbuffer = 0;
  };
  device = take_urb e.device e.ticket;
}

-- The URB was refused, and its ticket is back in the pool.
abbrev pub refused_at : Encoder → ℕ → Encoder
refused_at e status = record (next_node (moved e)) {
  device = on_display_transfer_finished (refuse_urb e.device e.ticket status) e.ticket;
}

module _ (usb_submit_urb : ℕ → Submit) where
  pub data Full (e : Encoder) : Type 0 where
    inner :
        e.packet_pos + 1 < e.packet_size_factor
        → packet_full usb_submit_urb e ≡ ok tt (packet_header (moved e))
        → Full e
    switches :
        (t : ℕ) (ts : List ℕ)
        → e.packet_size_factor ≤ e.packet_pos + 1
        → drop 1 e.current_node ≡ t ∷ ts
        → usb_submit_urb e.submits ≡ accepted
        → packet_full usb_submit_urb e ≡ ok tt (packet_header (switched e t))
        → Full e
    exhausts :
        e.packet_size_factor ≤ e.packet_pos + 1
        → drop 1 e.current_node ≡ []
        → usb_submit_urb e.submits ≡ accepted
        → packet_full usb_submit_urb e ≡ bug
        → Full e
    refuses :
        (status : ℕ)
        → e.packet_size_factor ≤ e.packet_pos + 1
        → usb_submit_urb e.submits ≡ refused status
        → packet_full usb_submit_urb e ≡ abort (refused_at e status)
        → Full e

  pub submit_accepted :
      (e : Encoder)
      → usb_submit_urb e.submits ≡ accepted
      → submit_ticket usb_submit_urb e ≡ ok tt (record e { device = take_urb e.device e.ticket })
  unfolding submit_ticket
  submit_accepted e a = rw (a, submit_ticket)

  pub submit_refused :
      (e : Encoder) (status : ℕ)
      → usb_submit_urb e.submits ≡ refused status
      → submit_ticket usb_submit_urb e
        ≡ abort (record e {
          device = on_display_transfer_finished (refuse_urb e.device e.ticket status) e.ticket;
        })
  unfolding submit_ticket
  submit_refused e status a = rw (a, submit_ticket)

  answer :
      (e : Encoder) (a : Submit) (ts : List ℕ)
      → usb_submit_urb e.submits ≡ a
      → drop 1 e.current_node ≡ ts
      → e.packet_size_factor ≤ e.packet_pos + 1
      → leb e.packet_size_factor (e.packet_pos + 1) ≡ true
      → Full e
  unfolding packet_full
  answer e accepted [] a n h l =
      exhausts h n a (rw (l, submit_accepted (next_node (moved e)) a) (rw n))
  answer e accepted (t ∷ ts) a n h l =
      switches t ts h n a (rw (l, submit_accepted (next_node (moved e)) a) (rw n))
  answer e (refused status) ts a n h l =
      refuses status h a (rw (l, submit_refused (next_node (moved e)) status a))

  pub full_cases : (e : Encoder) → Full e
  unfolding packet_full
  full_cases e = elim (Bool-cases (leb e.packet_size_factor (e.packet_pos + 1))) [
    | inl l ↦ answer e (usb_submit_urb e.submits) (drop 1 e.current_node) refl refl (ground arith) l
    | inr l ↦ inner (ground arith) (rw l)
  ]
