-- ===== src/Usb/Pool/Steps.antt =====
-- The steps of the device functions of usbhandlers.c on the pool's invariant.
use rpusbdisp.Common.{ℕ, ◌*◌, ◌≡◌, refl, sym, ap, subst, List, [], ◌∷◌, arith}
use rpusbdisp.Usb.Device.{Device, fbhandler_set_unsync_flag}
use rpusbdisp.Usb.Tickets.{return_disp_tickets, on_display_transfer_finished}
use rpusbdisp.Usb.Tickets.Ownership.{finished}
use rpusbdisp.Usb.Bitblt.{return_all}
use rpusbdisp.Usb.Pool.Held.{Held, HeldBy, IsPool, AgreesOff, Held-finished, Held-returned, Same}

Held-cong :
    {n n' k k' : ℕ} {p p' b b' ts : List ℕ} {m m' : ℕ → ℕ}
    → n ≡ n'
    → p ≡ p'
    → b ≡ b'
    → m ≡ m'
    → k ≡ k'
    → Held n p b ts m k
    → Held n' p' b' ts m' k'
Held-cong {ts} en ep eb em ek h = subst (λ x. x) (λ i. Held (en i) (ep i) (eb i) ts (em i) (ek i)) h

finished-Same : (d : Device) (t : ℕ) → Same d (on_display_transfer_finished d t)
unfolding on_display_transfer_finished fbhandler_set_unsync_flag return_disp_tickets
finished-Same d t = ground arith

-- A transfer whose ticket heads the bundle is finished: the ticket is back in the pool.
pub finished-HeldBy :
    (d : Device) (t : ℕ) (ts : List ℕ) (m : ℕ → ℕ)
    → Held d.availiable_count d.tickets d.in_flight
        (t ∷ ts)
        m
        (d.packet_size_factor * d.disp_out_ep_max_size)
    → AgreesOff t m d.transfer_buffer_length
    → HeldBy (on_display_transfer_finished d t) ts × Same d (on_display_transfer_finished d t)
finished-HeldBy d t ts m h off =
    let f = finished d t in
    let s = finished-Same d t in
    (
      Held-cong (sym f.number) (sym f.pool) (sym f.bus) (sym f.lengths)
          (ap (λ g. g.factor * g.max_size) (sym s))
          (Held-finished t h d.transfer_buffer_length off),
      s,
    )

pub return_all-HeldBy :
    (ts : List ℕ) (d : Device) → HeldBy d ts → IsPool (return_all ts d) × Same d (return_all ts d)
unfolding return_all return_disp_tickets
return_all-HeldBy [] d h = (h, refl)
return_all-HeldBy (t ∷ ts) d h =
    return_all-HeldBy ts (return_disp_tickets d t).0 (Held-returned t h)
